-- ===== src/Pmm/Holder.antt =====
-- The second loop of `pmm_init` of memory/pmm.c: the entry that holds the bitmap.
use flan.Base.{
  ℕ, ◌+◌, ◌-◌, ◌*◌, ◌/◌, ◌%◌, ◌^◌, ◌≤◌, ◌<◌, ◌≡◌, ◌∙◌, ap, refl, ◌⊎◌, ◌++◌, inl, inr, true, false,
  not, Bool, ◌&&◌, ◌||◌, List, [], ◌∷◌, arith, ◌==◌, leb, ltb, Bool-cases, leb→le, replicate, All,
}
use flan.Base.Words.{add64}
use flan.Pmm.{frame_size, Entry, is_skipped, carve}
use flan.Pmm.MemoryMap.{in_entry, in_entries, IsAligned, IsSound, has_room, IsAligned-of}
use flan.Pmm.Highest.{skipped}

-- The bytes of a bitmap for memory up to `h`: one for eight frames, rounded down, in whole frames.
abbrev pub bitmap_bytes : ℕ → ℕ
bitmap_bytes h = (h / frame_size / 8 + (frame_size - 1)) / frame_size * frame_size

module _ (usable : ℕ) (zero_kind : usable ≡ 0) where
  -- The entry that holds the bitmap loses its first frames to it.
  pub carve-IsSound :
      (size top : ℕ) (es : List Entry)
      → size % frame_size ≡ 0
      → top < 2 ^ 64
      → All (IsSound usable top) es
      → All (IsSound usable top) (carve usable size es).1
  unfolding carve
  carve-IsSound size top [] s low sound = tt
  carve-IsSound size top (e ∷ es) s low (sound_e, sound) =
      let rest = carve-IsSound size top es s low sound in
      elim (Bool-cases (e.kind == usable)) [
        | inr other ↦
            let skip : is_skipped usable e ≡ true = skipped usable zero_kind e ∙ ap not other in
            rw (skip, carve) (sound_e, rest)
        | inl same ↦
            let keep : is_skipped usable e ≡ false = skipped usable zero_kind e ∙ ap not same in
            let a = IsAligned-of usable e same sound_e in
            elim (Bool-cases (leb size e.size)) [
              | inr short ↦ rw (keep, short, carve) (sound_e, rest)
              | inl long ↦ rw (keep, long, carve) (inr (shrink a (leb→le size e.size long)), sound)
            ]
      ]
    where
      shrink :
          IsAligned top e
          → size ≤ e.size
          → IsAligned top (record e { size = e.size - size; base = add64 e.base size })
      shrink a long = record {
        base_aligned = omega (arith, a.base_aligned, a.ends);
        size_aligned = omega (arith, a.size_aligned);
        ends = omega (arith, a.ends);
      }

  -- With room for it, the bitmap is `size` bytes of ones.
  pub carve-ones :
      (size : ℕ) (es : List Entry)
      → has_room usable size es ≡ true
      → (carve usable size es).0 ≡ replicate size 0xff
  unfolding carve has_room
  carve-ones size [] room = cc
  carve-ones size (e ∷ es) room = ground (arith, carve-ones size es)

  -- The first usable entry of at least `size` bytes, among those before and behind it.
  pub record Holds (size : ℕ) (es : List Entry) : Type 0 where
    pub before : List Entry
    pub holder : Entry
    pub after : List Entry
    pub split : es ≡ before ++ (holder ∷ after)
    pub none_before : All (λ x. ((x.kind == usable) ≡ false) ⊎ (x.size < size)) before
    pub holder_usable : (holder.kind == usable) ≡ true
    pub room : size ≤ holder.size

  -- The entries without the first bytes of the holder.
  abbrev pub rest_of : (size : ℕ) (es : List Entry) → Holds size es → List Entry
  rest_of size es x =
      x.before
      ++ (record (x.holder) { size = x.holder.size - size; base = add64 x.holder.base size }
          ∷ x.after)

  pub Holds-later :
      (size : ℕ) (e : Entry) (es : List Entry)
      → ((e.kind == usable) ≡ false) ⊎ (e.size < size)
      → (x : Holds size es) × ((carve usable size es).1 ≡ rest_of size es x)
      → (x : Holds size (e ∷ es)) × (e ∷ (carve usable size es).1 ≡ rest_of size (e ∷ es) x)
  Holds-later size e es none (x, same) = (
    record {
      before = e ∷ x.before;
      holder = x.holder;
      after = x.after;
      split = ap (λ (t : List Entry). e ∷ t) x.split;
      none_before = (none, x.none_before);
      holder_usable = x.holder_usable;
      room = x.room;
    },
    ap (λ (t : List Entry). e ∷ t) same,
  )

  pub carve-Holds :
      (size : ℕ) (es : List Entry)
      → has_room usable size es ≡ true
      → (x : Holds size es) × ((carve usable size es).1 ≡ rest_of size es x)
  unfolding carve has_room
  carve-Holds size [] room = cc
  carve-Holds size (e ∷ es) room = elim (Bool-cases (e.kind == usable)) [
    | inr other ↦
        let skip : is_skipped usable e ≡ true = skipped usable zero_kind e ∙ ap not other in
        let room' : has_room usable size es ≡ true = rw (other, has_room) at room in
        rw (skip, carve) (Holds-later size e es (inl other) (carve-Holds size es room'))
    | inl same ↦
        let keep : is_skipped usable e ≡ false = skipped usable zero_kind e ∙ ap not same in
        elim (Bool-cases (leb size e.size)) [
          | inr short ↦
              let room' : has_room usable size es ≡ true = rw (same, short, has_room) at room in
              rw (keep, short, carve)
                (Holds-later size e es (inr (ground arith)) (carve-Holds size es room'))
          | inl long ↦
              rw (keep, long, carve)
                (
                  record {
                    before = [];
                    holder = e;
                    after = es;
                    split = refl;
                    none_before = tt;
                    holder_usable = same;
                    room = leb→le size e.size long;
                  },
                  refl,
                )
        ]
  ]

  pub All-at :
      (P : Entry → Type 0) (xs : List Entry) (y : Entry) (zs : List Entry)
      → All P (xs ++ (y ∷ zs))
      → P y
  All-at P [] y zs all = all.0
  All-at P (x ∷ xs) y zs all = All-at P xs y zs all.1

  pub in_entries-append :
      (xs ys : List Entry) (f : ℕ)
      → in_entries usable (xs ++ ys) f ≡ (in_entries usable xs f || in_entries usable ys f)
  unfolding in_entries
  in_entries-append [] ys f = refl
  in_entries-append (x ∷ xs) ys f = ground (arith, in_entries-append xs ys f)

  -- A frame of the usable entries that is not one of the first `size` bytes of the holder.
  abbrev pub is_left : (size : ℕ) {es : List Entry} → Holds size es → ℕ → Bool
  is_left size x f =
      in_entries usable x.before f
      || (leb ((x.holder.base + size) / frame_size) f
            && ltb f ((x.holder.base + size) / frame_size + (x.holder.size - size) / frame_size)
          || in_entries usable x.after f)

  pub in_entries-holder :
      (size : ℕ) (es : List Entry) (f : ℕ) (x : Holds size es)
      → add64 x.holder.base size ≡ x.holder.base + size
      → in_entries usable
          (record (x.holder) { size = x.holder.size - size; base = add64 x.holder.base size }
            ∷ x.after)
          f
        ≡ (leb ((x.holder.base + size) / frame_size) f
              && ltb f ((x.holder.base + size) / frame_size + (x.holder.size - size) / frame_size)
            || in_entries usable x.after f)
  unfolding in_entries in_entry
  in_entries-holder size es f x exact = rw (exact, x.holder_usable) refl
