-- ===== src/Hashmap/Remove.antt =====
-- `hashmap_remove` of lib/hashmap.c, whose test of the bytes is the opposite of the lookup's.
use flan.Base.{
  ℕ, zero, suc, ◌≡◌, ◌⊎◌, refl, sym, ◌∙◌, ap, inl, inr, true, false, none, some, List, [], ◌∷◌, ok,
  fault, ◌>>=◌, arith, ◌==◌, Option-cases, set, All, length-set, get_or-set_self,
  get_elem?-eq-get_or,
}
use flan.Base.Words.{sub64}
use flan.Mem.{Memory}
use flan.Str.{strlen}
use flan.Str.Chars.{IsString, strlen_iff}
use flan.Hashmap.{
  HashmapEntry, Chain, Hashmap, matches, differs, find_other, erase, unlink, freed, hashmap_remove,
  hashmap_get,
}
use flan.Hashmap.Chain.{value, value-cons}
use flan.Hashmap.Lookup.{HasSlots, home, chain_of, home-lt, get-value}

module _ (m : Memory) (p n : ℕ) where
  -- No entry has the length of the key and other bytes.
  abbrev pub NoneDiffers : Chain → Type 0
  NoneDiffers = All (λ e. differs m p n e ≡ false)

  find_other-none : (c : Chain) → find_other m p n c ≡ none → NoneDiffers c
  unfolding find_other
  find_other-none [] h = _
  find_other-none (e ∷ c) h =
      let rest : (differs m p n e ≡ false) × (find_other m p n c ≡ none) =
        ground (arith, Option-cases (find_other m p n c)) in
      (rest.0, find_other-none c rest.1)

  differs-matches : (e : HashmapEntry) → differs m p n e ≡ true → matches m p n e ≡ false
  differs-matches e h = ground arith

  find_other-zero :
      (e : HashmapEntry) (c : Chain) → find_other m p n (e ∷ c) ≡ some 0 → matches m p n e ≡ false
  unfolding find_other
  find_other-zero e c h = differs-matches e (ground (arith, Option-cases (find_other m p n c)))

  find_other-suc :
      (e : HashmapEntry) (c : Chain) (j : ℕ)
      → find_other m p n (e ∷ c) ≡ some (suc j)
      → find_other m p n c ≡ some j
  unfolding find_other
  find_other-suc e c j h = ground (arith, Option-cases (find_other m p n c))

  skip :
      (e : HashmapEntry) (c : Chain) → matches m p n e ≡ false → value m p n (e ∷ c) ≡ value m p n c
  skip e c miss = value-cons m p n e c ∙ rw miss refl

  erase-value :
      (c : Chain) (j : ℕ) → find_other m p n c ≡ some j → value m p n (erase c j) ≡ value m p n c
  unfolding erase
  erase-value [] j h = refl
  erase-value (e ∷ c) zero h = sym (skip e c (find_other-zero e c h))
  erase-value (e ∷ c) (suc j) h =
      rw
        (
          value-cons m p n e (erase c j),
          value-cons m p n e c,
          erase-value c j (find_other-suc e c j h),
        )
        refl

  unlink-value :
      (c : Chain) (j : ℕ) → find_other m p n c ≡ some j → value m p n (unlink c j) ≡ value m p n c
  unfolding unlink
  unlink-value [] j h = refl
  unlink-value (e ∷ []) zero h = refl
  unlink-value (e ∷ e' ∷ c) zero h = sym (skip e (e' ∷ c) (find_other-zero e (e' ∷ c) h))
  unlink-value (e ∷ []) (suc j) h =
      rw
        (
          value-cons m p n e (erase [] j),
          value-cons m p n e [],
          erase-value [] j (find_other-suc e [] j h),
        )
        refl
  unlink-value (e ∷ e' ∷ c) (suc j) h =
      rw
        (
          value-cons m p n e (erase (e' ∷ c) j),
          value-cons m p n e (e' ∷ c),
          erase-value (e' ∷ c) j (find_other-suc e (e' ∷ c) j h),
        )
        refl

module _ (m : Memory) (h : Hashmap) (array : HasSlots h) (p n : ℕ) (s : IsString m p n) where
  -- What the loop of `hashmap_remove` starts from.
  remove-at : hashmap_remove h p m ≡ elim (find_other m p n (chain_of h p n m)) [
    | none ↦ fault
    | some j ↦ ok (
      true,
      record h {
        entries = set h.entries (home h p n m) (unlink (chain_of h p n m) j);
        items = sub64 h.items 1;
      },
      freed (chain_of h p n m) j,
    )
  ]
  unfolding hashmap_remove
  remove-at =
      let len : strlen p m ≡ ok n = (strlen_iff m p n).1 s in
      let some_slot : (h.entry_count == 0) ≡ false = ground (arith, array.some_slot) in
      rw
        (len, some_slot, ◌>>=◌, get_elem?-eq-get_or h.entries _ [] (home-lt m h array p n s), ◌>>=◌)
        refl

  -- `hashmap_remove` of a key in a table never removes the key: either no entry of its chain has
  -- the key's length and other bytes, and a null pointer is read, or it answers true and
  -- `hashmap_get` still answers for the key what it did before.
  pub hashmap_remove-get :
      (NoneDiffers m p n (chain_of h p n m) × (hashmap_remove h p m ≡ fault))
      ⊎ ((h' : Hashmap) × (gone : List ℕ) × (hashmap_remove h p m ≡ ok (true, h', gone))
          × (hashmap_get h' p m ≡ hashmap_get h p m))
  hashmap_remove-get = elim (Option-cases (find_other m p n (chain_of h p n m))) [
    | inl e ↦ inl (find_other-none m p n (chain_of h p n m) e, remove-at ∙ rw e refl)
    | inr (j, e) ↦
        let c = unlink (chain_of h p n m) j in
        let h' : Hashmap = record h {
          entries = set h.entries (home h p n m) c;
          items = sub64 h.items 1;
        } in
        let array' : HasSlots h' = record {
          slots = length-set h.entries (home h p n m) c ∙ array.slots;
          some_slot = array.some_slot;
        } in
        inr (
          h',
          freed (chain_of h p n m) j,
          remove-at ∙ rw e refl,
          rw
              (
                get-value m h' array' p n s,
                get-value m h array p n s,
                get_or-set_self h.entries (home h p n m) c [] (home-lt m h array p n s),
              )
              (ap ok (unlink-value m p n (chain_of h p n m) j e)),
        )
  ]
