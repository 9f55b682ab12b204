-- ===== src/Pmm/MemoryMap.antt =====
-- The memory map that `pmm_init` of memory/pmm.c is given, and its third loop, which frees what is
-- usable.
use flan.Base.{
  ℕ, zero, suc, ◌+◌, ◌-◌, ◌*◌, ◌/◌, ◌%◌, ◌^◌, ◌≤◌, ◌<◌, ◌≡◌, ◌∙◌, ◌>>=◌, refl, ◌⊎◌, inl, inr, Bool,
  true, false, not, ◌&&◌, ◌||◌, List, [], ◌∷◌, Returns, Returns-bind, Returns_mono, arith, ◌==◌,
  leb, ltb, Bool-cases, length, All,
}
use flan.Base.Words.{align_up}
use flan.Base.Bits.{bit_and-mask}
use flan.Pmm.{Pmm, frame_size, Entry, free_from, free_entries}
use flan.Pmm.Bitmap.{used}
use flan.Pmm.Ranges.{fill}
use flan.Pmm.Malloc.{IsValid}
use flan.Pmm.Free.{pmm_free-Reads}

-- `ALIGN_UP` to a frame is the next multiple of the frame size.
pub align_up_frame :
    (n : ℕ) → n < 2 ^ 63 → align_up n frame_size ≡ (n + (frame_size - 1)) / frame_size * frame_size
unfolding align_up
align_up_frame n low =
    let e : (n + frame_size + 2 ^ 64 - 1) % 2 ^ 64 ≡ n + (frame_size - 1) = omega arith in
    rw e (omega (arith, bit_and-mask 12 52 (n + (frame_size - 1))))

-- A frame that lies in a usable entry.
unfoldable pub in_entry : ℕ → Entry → ℕ → Bool
in_entry usable e f =
    e.kind == usable
    && leb (e.base / frame_size) f
    && ltb f (e.base / frame_size + e.size / frame_size)

unfoldable pub in_entries : ℕ → List Entry → ℕ → Bool
unfolding in_entry
in_entries usable [] f = false
in_entries usable (e ∷ es) f = in_entry usable e f || in_entries usable es f

-- Page-aligned, with an end that does not wrap and is at most `top`.
pub record IsAligned (top : ℕ) (e : Entry) : Type 0 where
  pub base_aligned : e.base % frame_size ≡ 0
  pub size_aligned : e.size % frame_size ≡ 0
  pub ends : e.base + e.size ≤ top

-- `p'` comes from `p` by writes of bits, is valid again, and reads as `view`.
pub record Becomes (p : Pmm) (view : ℕ → Bool) (p' : Pmm) : Type 0 where
  pub valid : IsValid p'
  pub limit : p'.limit ≡ p.limit
  pub size : length p'.bitmap ≡ length p.bitmap
  pub reads : (f : ℕ) → used p'.bitmap f ≡ view f

free_from-Becomes :
    (n base t : ℕ) (p : Pmm)
    → IsValid p
    → base % frame_size ≡ 0
    → t % frame_size ≡ 0
    → (base + t) / frame_size + n ≤ p.limit
    → Returns (free_from n base t p) (
        Becomes p
          (fill (used p.bitmap) ((base + t) / frame_size) ((base + t) / frame_size + n) false))
unfolding free_from
free_from-Becomes zero base t p v b s low =
    (p, refl, record { valid = v; limit = refl; size = refl; reads = λ f. ground arith })
free_from-Becomes (suc n) base t p v b s low =
    Returns-bind (pmm_free-Reads (base + t) 1 p v (omega arith)) λ q (one, vq, same).
      Returns_mono (free_from-Becomes n base (t + frame_size) q vq b (omega arith) (omega arith))
        λ r all. record {
          valid = all.valid;
          limit = all.limit ∙ same;
          size = all.size ∙ one.size;
          reads = λ f. ground (arith, all.reads f, one.reads f);
        }

module _ (usable : ℕ) where
  -- What the boot protocol promises of a memory map: usable entries are aligned and do not wrap.
  abbrev pub IsSound : ℕ → Entry → Type 0
  IsSound top e = ((e.kind == usable) ≡ false) ⊎ IsAligned top e

  pub IsAligned-of :
      {top : ℕ} (e : Entry) → (e.kind == usable) ≡ true → IsSound top e → IsAligned top e
  IsAligned-of e same (inl other) = cc
  IsAligned-of e same (inr a) = a

  -- Some entry is usable and can hold the bitmap.
  unfoldable pub has_room : ℕ → List Entry → Bool
  has_room bitmap_size [] = false
  has_room bitmap_size (e ∷ es) =
      e.kind == usable && leb bitmap_size e.size || has_room bitmap_size es

  -- A frame reads as used if it was and lies in no usable entry.
  pub free_entries-Becomes :
      (es : List Entry) (p : Pmm)
      → IsValid p
      → All (IsSound (p.limit * frame_size)) es
      → Returns
          (free_entries usable es p)
          (Becomes p (λ f. used p.bitmap f && not (in_entries usable es f)))
  unfolding free_entries in_entries
  free_entries-Becomes [] p v aligned =
      (p, refl, record { valid = v; limit = refl; size = refl; reads = λ f. ground arith })
  free_entries-Becomes (e ∷ es) p v (s, sound) = elim (Bool-cases (e.kind == usable)) [
    | inr other ↦
        let skip : free_entries usable (e ∷ es) p ≡ free_entries usable es p =
          rw (other, free_entries) in
        rw skip (
          Returns_mono (free_entries-Becomes es p v sound) λ r all. record {
            valid = all.valid;
            limit = all.limit;
            size = all.size;
            reads = λ f. ground (arith, all.reads f);
          })
    | inl same ↦
        let a = IsAligned-of e same s in
        let n : ℕ = (e.size + (frame_size - 1)) / frame_size in
        let go : free_entries usable (e ∷ es) p
            ≡ (free_from n e.base 0 p >>= free_entries usable es) =
          rw (same, free_entries) in
        rw go (
          Returns-bind
            (free_from-Becomes n e.base 0 p v a.base_aligned refl
              (omega (arith, a.ends, a.size_aligned)))
            λ q one.
              Returns_mono (free_entries-Becomes es q one.valid (rw one.limit sound)) λ r all.
                record {
                  valid = all.valid;
                  limit = all.limit ∙ one.limit;
                  size = all.size ∙ one.size;
                  reads = λ f. freed f (used p.bitmap f) a same (all.reads f) (one.reads f);
                })
  ]
    where
      freed :
          (f : ℕ) (before : Bool) {after last : Bool}
          → IsAligned (p.limit * frame_size) e
          → (e.kind == usable) ≡ true
          → last ≡ (after && not (in_entries usable es f))
          → after
            ≡ fill
                (λ _. before)
                ((e.base + 0) / frame_size)
                ((e.base + 0) / frame_size + (e.size + (frame_size - 1)) / frame_size)
                false
                f
          → last ≡ (before && not (in_entry usable e f || in_entries usable es f))
      freed f before a same all one =
          let b : (e.base + 0) / frame_size ≡ e.base / frame_size = omega arith in
          let n : (e.size + (frame_size - 1)) / frame_size ≡ e.size / frame_size =
            omega (arith, a.size_aligned) in
          ground arith
