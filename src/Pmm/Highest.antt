-- ===== src/Pmm/Highest.antt =====
-- The first loop of `pmm_init` of memory/pmm.c: the end of the highest usable entry.
use flan.Base.{
  ℕ, ◌+◌, ◌^◌, ◌≤◌, ◌<◌, ◌≡◌, ◌∙◌, ap, refl, sym, ◌⊎◌, inl, inr, true, false, not, List, [], ◌∷◌,
  arith, ◌==◌, ltb, Bool-cases, if◌then◌else◌, All,
}
use flan.Base.Words.{add64}
use native.Mathlib.Nat.{le_trans}
use flan.Pmm.{Entry, is_skipped, highest_from}
use flan.Pmm.MemoryMap.{IsAligned, IsSound, IsAligned-of}

module _ (usable : ℕ) (zero_kind : usable ≡ 0) where
  pub skipped : (e : Entry) → is_skipped usable e ≡ not (e.kind == usable)
  skipped e = ground arith

  le-highest_from : (es : List Entry) (h : ℕ) → h ≤ highest_from usable es h
  unfolding highest_from
  le-highest_from [] h = omega arith
  le-highest_from (e ∷ es) h =
      let h' : ℕ =
        if is_skipped usable e
        then h
        else if ltb h (add64 e.base e.size)
        then add64 e.base e.size
        else h in
      let grows : h ≤ h' = ground arith in le_trans grows (le-highest_from es h')

  -- No usable entry ends above `highest`.
  pub highest_from-IsSound :
      (es : List Entry) (h top : ℕ)
      → top < 2 ^ 64
      → All (IsSound usable top) es
      → All (IsSound usable (highest_from usable es h)) es
  unfolding highest_from
  highest_from-IsSound [] h top low sound = tt
  highest_from-IsSound (e ∷ es) h top low (sound_e, sound) =
      let h' : ℕ =
        if is_skipped usable e
        then h
        else if ltb h (add64 e.base e.size)
        then add64 e.base e.size
        else h in
      (
        elim (Bool-cases (e.kind == usable)) [
          | inr other ↦ inl other
          | inl same ↦ inr (raise (IsAligned-of usable e same sound_e) same)
        ],
        highest_from-IsSound es h' top low sound,
      )
    where
      raise :
          IsAligned top e → (e.kind == usable) ≡ true → IsAligned (highest_from usable (e ∷ es) h) e
      raise a same =
          let h' : ℕ =
            if is_skipped usable e
            then h
            else if ltb h (add64 e.base e.size)
            then add64 e.base e.size
            else h in
          let reached : e.base + e.size ≤ h' = ground (arith, skipped e, a.ends) in
          record {
            base_aligned = a.base_aligned;
            size_aligned = a.size_aligned;
            ends = le_trans reached (le-highest_from es h');
          }

  pub highest_from-lt : (es : List Entry) (h : ℕ) → h < 2 ^ 64 → highest_from usable es h < 2 ^ 64
  unfolding highest_from
  highest_from-lt [] h low = low
  highest_from-lt (e ∷ es) h low = highest_from-lt es _ (ground arith)

  -- `h` is the end of the highest usable entry, or 0.
  abbrev pub Ends : List Entry → ℕ → Type 0
  Ends [] h = ⊥
  Ends (e ∷ es) h = (((e.kind == usable) ≡ true) × (e.base + e.size ≡ h)) ⊎ Ends es h

  abbrev pub Highest : List Entry → ℕ → Type 0
  Highest es h = All (IsSound usable h) es × ((h ≡ 0) ⊎ Ends es h)

  Ends-le : (es : List Entry) (h top : ℕ) → Ends es h → All (IsSound usable top) es → h ≤ top
  Ends-le [] h top end sound = absurd end
  Ends-le (e ∷ es) h top (inl (same, end)) (sound_e, sound) =
      let a = IsAligned-of usable e same sound_e in omega (arith, a.ends, end)
  Ends-le (e ∷ es) h top (inr end) (sound_e, sound) = Ends-le es h top end sound

  pub Highest-le :
      (es : List Entry) (h top : ℕ) → Highest es h → All (IsSound usable top) es → h ≤ top
  Highest-le es h top (all, inl none) sound = omega arith
  Highest-le es h top (all, inr end) sound = Ends-le es h top end sound

  pub highest_from-Ends :
      (es : List Entry) (h top : ℕ)
      → top < 2 ^ 64
      → All (IsSound usable top) es
      → (highest_from usable es h ≡ h) ⊎ Ends es (highest_from usable es h)
  unfolding highest_from
  highest_from-Ends [] h top low sound = inl refl
  highest_from-Ends (e ∷ es) h top low (sound_e, sound) = elim (Bool-cases (e.kind == usable)) [
    | inr other ↦
        let skip : is_skipped usable e ≡ true = skipped e ∙ ap not other in
        rw (skip, highest_from) (further (highest_from-Ends es h top low sound))
    | inl same ↦
        let keep : is_skipped usable e ≡ false = skipped e ∙ ap not same in
        let a = IsAligned-of usable e same sound_e in
        let exact : add64 e.base e.size ≡ e.base + e.size = omega (arith, a.ends) in
        elim (Bool-cases (ltb h (add64 e.base e.size))) [
          | inr short ↦
              rw (keep, short, highest_from) (further (highest_from-Ends es h top low sound))
          | inl long ↦
              rw (keep, long, highest_from)
                (elim (highest_from-Ends es (add64 e.base e.size) top low sound) [
                  | inl own ↦ inr (inl (same, sym (own ∙ exact)))
                  | inr later ↦ inr (inr later)
                ])
        ]
  ]
    where
      further : {t : ℕ} → (t ≡ h) ⊎ Ends es t → (t ≡ h) ⊎ Ends (e ∷ es) t
      further (inl own) = inl own
      further (inr later) = inr (inr later)
