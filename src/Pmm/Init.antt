-- ===== src/Pmm/Init.antt =====
-- `pmm_init` of memory/pmm.c: which frames are free after it.
use flan.Base.{
  ℕ, ◌+◌, ◌-◌, ◌*◌, ◌/◌, ◌%◌, ◌^◌, ◌≤◌, ◌<◌, ◌≡◌, ◌∙◌, ap, ◌↔◌, refl, inl, inr, true, not, ◌||◌,
  List, [], ◌∷◌, Returns, Returns_mono, arith, length, replicate, length-replicate, All,
}
use mathlib.Core.Path.{subst}
use flan.Base.Words.{add64}
use native.Mathlib.Nat.{le_antisymm}
use flan.Lock.{lock_init}
use flan.Pmm.{frame_size, Entry, highest_from, carve, bitmap_size_of, pmm_init}
use flan.Pmm.Bitmap.{used, ones-IsBytes, used-ones}
use flan.Pmm.Malloc.{IsValid}
use flan.Pmm.MemoryMap.{
  align_up_frame, in_entries, IsSound, has_room, free_entries-Becomes, IsAligned-of,
}
use flan.Pmm.Highest.{Highest, highest_from-IsSound, highest_from-lt, Highest-le, highest_from-Ends}
use flan.Pmm.Holder.{
  carve-IsSound, carve-ones, carve-Holds, Holds, is_left, bitmap_bytes, in_entries-append,
  in_entries-holder, All-at,
}

module _ (usable : ℕ) (zero_kind : usable ≡ 0) where
  whole_frames :
      (top : ℕ) (es : List Entry)
      → All (IsSound usable top) es
      → All (IsSound usable (top / frame_size * frame_size)) es
  whole_frames top [] sound = tt
  whole_frames top (e ∷ es) (inl other, sound) = (inl other, whole_frames top es sound)
  whole_frames top (e ∷ es) (inr a, sound) = (
    inr (record {
      base_aligned = a.base_aligned;
      size_aligned = a.size_aligned;
      ends = omega (arith, a.base_aligned, a.size_aligned, a.ends);
    }),
    whole_frames top es sound,
  )

  -- `pmm_init` in terms of its own loops.
  pmm_init-carved :
      (es : List Entry)
      → All (IsSound usable (2 ^ 64 - 1)) es
      → has_room usable (bitmap_size_of (highest_from usable es 0)) es ≡ true
      → highest_from usable es 0 / frame_size ≤ 8 * bitmap_size_of (highest_from usable es 0)
      → Returns (pmm_init usable es) λ p.
        IsValid p
        × (p.limit ≡ highest_from usable es 0 / frame_size)
        × ((f : ℕ)
            → f < 8 * length p.bitmap
            → used p.bitmap f
              ≡ not (
                  in_entries usable
                    (carve usable (bitmap_size_of (highest_from usable es 0)) es).1
                    f))
        × (length p.bitmap ≡ bitmap_size_of (highest_from usable es 0))
  unfolding pmm_init
  pmm_init-carved es sound room fits =
      let highest : ℕ = highest_from usable es 0 in
      let size : ℕ = bitmap_size_of highest in
      let low : highest < 2 ^ 64 = highest_from-lt usable zero_kind es 0 (omega arith) in
      let size_frames = align_up_frame (highest / frame_size / 8) (omega arith) in
      let sound' = highest_from-IsSound usable zero_kind es 0 (2 ^ 64 - 1) (omega arith) sound in
      let carved =
        carve-IsSound usable zero_kind size highest es (omega (arith, size_frames)) low sound' in
      let frames = whole_frames highest (carve usable size es).1 carved in
      let n : length (replicate {A = ℕ} size 0xff) ≡ size = length-replicate size 0xff in
      rw (carve-ones usable zero_kind size es room) (
        Returns_mono
          (free_entries-Becomes usable (carve usable size es).1
            (record {
              bitmap = replicate size 0xff;
              limit = highest / frame_size;
              pmm_lock = lock_init;
            })
            (record {
              unlocked = refl;
              bytes = ones-IsBytes size;
              fits = rw n fits;
              small = omega (arith, low);
            })
            frames)
          λ p done. (
            done.valid,
            done.limit,
            λ f inside.
                let ones : used (replicate size 0xff) f ≡ true =
                  used-ones size f (omega (arith, done.size, n)) in
                done.reads f ∙ rw ones refl,
            done.size ∙ n,
          ))

  -- Let the number of a usable entry be 0, as it is in the boot protocol, and `h` be the end of the
  -- highest usable entry of a memory map whose usable entries are aligned and do not wrap, or 0
  -- without one; let some usable entry have room for the bitmap, which has one byte for eight frames
  -- below `h`, rounded down and then up to whole frames, and let that be a bit for every frame. Then
  -- `pmm_init` returns a valid allocator with the limit `h`, in frames. A frame of the bitmap is free
  -- exactly if it lies in a usable entry, of which the first that has room for the bitmap counts
  -- without its first bytes, as many as the bitmap has.
  pub pmm_init-free :
      (es : List Entry) (h : ℕ)
      → All (IsSound usable (2 ^ 64 - 1)) es
      → Highest usable zero_kind es h
      → has_room usable (bitmap_bytes h) es ≡ true
      → h / frame_size ≤ 8 * bitmap_bytes h
      → Returns (pmm_init usable es) λ p.
        IsValid p
        × (p.limit ≡ h / frame_size)
        × ((x : Holds usable zero_kind (bitmap_bytes h) es) × ((f : ℕ)
              → f < 8 * length p.bitmap
              → used p.bitmap f ≡ not (is_left usable zero_kind (bitmap_bytes h) x f)))
        × (length p.bitmap ≡ bitmap_bytes h)
  pmm_init-free es h sound is_highest room fits =
      let sound' = highest_from-IsSound usable zero_kind es 0 (2 ^ 64 - 1) (omega arith) sound in
      let low : highest_from usable es 0 < 2 ^ 64 =
        highest_from-lt usable zero_kind es 0 (omega arith) in
      let top : highest_from usable es 0 ≡ h =
        le_antisymm
          (Highest-le usable zero_kind es (highest_from usable es 0) h
            (sound', highest_from-Ends usable zero_kind es 0 (2 ^ 64 - 1) (omega arith) sound)
            is_highest.0)
          (Highest-le usable zero_kind es h (highest_from usable es 0) is_highest sound') in
      let size : bitmap_size_of (highest_from usable es 0) ≡ bitmap_bytes h =
        align_up_frame (highest_from usable es 0 / frame_size / 8) (omega arith)
        ∙ ap bitmap_bytes top in
      let (x, carved) = carve-Holds usable zero_kind (bitmap_bytes h) es room in
      let holder_sound = IsAligned-of usable x.holder x.holder_usable (
        All-at usable zero_kind (IsSound usable (2 ^ 64 - 1)) x.before x.holder x.after
          (subst (All (IsSound usable (2 ^ 64 - 1))) x.split sound)) in
      let exact : add64 x.holder.base (bitmap_bytes h) ≡ x.holder.base + bitmap_bytes h =
        omega (arith, holder_sound.ends, x.room) in
      Returns_mono (pmm_init-carved es sound (rw size room) (rw (size, top) fits))
        λ p (valid, limit, reads, length'). (
          valid,
          limit ∙ ap (λ (t : ℕ). t / frame_size) top,
          (
            x,
            λ f inside.
                reads f inside
                ∙ ap not (
                    rw (size, carved) (in_entries-append usable zero_kind x.before _ f)
                    ∙ ap (λ t. in_entries usable x.before f || t)
                        (in_entries-holder usable zero_kind (bitmap_bytes h) es f x exact)),
          ),
          length' ∙ size,
        )

-- The bitmap has a bit for every frame below the limit unless the number of frames, in the last
-- started group of 32768, is between 1 and 7: `pmm_init` rounds the number of bytes down before
-- it aligns it.
pub bitmap_short_iff :
    (highest : ℕ)
    → highest < 2 ^ 64
    → (8 * bitmap_size_of highest < highest / frame_size)
      ↔ ((0 < highest / frame_size % 32768) × (highest / frame_size % 32768 < 8))
bitmap_short_iff highest low =
    let size = align_up_frame (highest / frame_size / 8) (omega arith) in
    (λ h. omega arith, λ h. omega arith)
