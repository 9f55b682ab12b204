-- ===== src/Hashmap/Update.antt =====
-- `hashmap_set` of lib/hashmap.c: the table afterwards, as a map from strings.
use flan.Base.{
  ℕ, ◌+◌, ◌%◌, ◌^◌, ◌<◌, ◌≡◌, ◌≢◌, refl, ◌∙◌, ap, inl, inr, Option, true, false, none, some, [],
  ◌∷◌, ◌++◌, ok, ◌>>=◌, arith, ◌==◌, ==_iff, Bool-cases, Option-cases, if◌then◌else◌, set, length,
  length-set, length-append, get_or-set_self, get_or-set_ne,
}
use flan.Base.Words.{add64}
use flan.Mem.{Memory}
use flan.Str.{strlen}
use flan.Str.Chars.{IsString, strlen_iff}
use flan.Str.Same.{same_bytes}
use flan.Hashmap.{Chain, Hashmap, find, assign, hashmap_entry_get, hashmap_set, hashmap_get}
use flan.Hashmap.Chain.{value, value-assign, value-append, hash_same}
use flan.Hashmap.Lookup.{
  IsValid, total, total-set, home, chain_of, home-lt, entry_get-find, get-value,
}

module _ (m : Memory) (h : Hashmap) (valid : IsValid h) (p n : ℕ) (s : IsString m p n) (v : ℕ) where
  -- The chain of the key `p` once `v` is stored under it.
  stored : Option ℕ → Chain
  stored (some j) = assign (chain_of h p n m) j v
  stored none = chain_of h p n m ++ record { key_length = n; key = p; val = v } ∷ []

  stored-value :
      (q k : ℕ)
      → value m q k (stored (find m p n (chain_of h p n m)))
        ≡ (if same_bytes m p n q k then v else value m q k (chain_of h p n m))
  unfolding stored
  stored-value q k = elim (Option-cases (find m p n (chain_of h p n m))) [
    | inl e ↦ rw (e, stored) (value-append m p n q k _ v e)
    | inr (j, e) ↦ rw (e, stored) (value-assign m p n q k _ j v e)
  ]

  -- The table with the stored chain at the key's slot.
  updated : ℕ → Hashmap
  updated items = record {
    entries = set h.entries (home h p n m) (stored (find m p n (chain_of h p n m)));
    entry_count = h.entry_count;
    items = items;
  }

  slot_value :
      (q k : ℕ)
      → value m q k (chain_of (updated h.items) q k m)
        ≡ (if same_bytes m p n q k then v else value m q k (chain_of h q k m))
  unfolding updated
  slot_value q k =
      let c = stored (find m p n (chain_of h p n m)) in
      elim (Bool-cases (home h p n m == home h q k m)) [
        | inl e ↦
            let same_slot = (==_iff (home h p n m) (home h q k m)).0 e in
            rw
              (
                ← same_slot,
                get_or-set_self h.entries (home h p n m) c [] (home-lt m h valid.array p n s),
              )
              (stored-value q k)
        | inr e ↦
            let apart : home h p n m ≢ home h q k m = ground (arith, e) in
            let other : same_bytes m p n q k ≡ false = elim (Bool-cases (same_bytes m p n q k)) [
              | inl same ↦ absurd (apart (ap (λ t. t % h.entry_count) (hash_same m p n q k same)))
              | inr differ ↦ differ
            ] in
            rw (get_or-set_ne h.entries (home h p n m) (home h q k m) c [] apart, other) refl
      ]

  updated_get :
      (items q k : ℕ)
      → IsValid (updated items)
      → IsString m q k
      → hashmap_get (updated items) q m ≡ (if same_bytes m p n q k then ok v else hashmap_get h q m)
  unfolding updated
  updated_get items q k ok_t sq =
      get-value m (updated items) ok_t.array q k sq
      ∙ ap ok (slot_value q k)
      ∙ rw (get-value m h valid.array q k sq)
          (elim (Bool-cases (same_bytes m p n q k)) [ inl e ↦ rw e refl | inr e ↦ rw e refl ])

  stored-length :
      (j : ℕ)
      → find m p n (chain_of h p n m) ≡ some j
      → length (stored (find m p n (chain_of h p n m))) ≡ length (chain_of h p n m)
  unfolding stored
  stored-length j e = rw (e, stored) (length-set (chain_of h p n m) j _)

  stored-length_new :
      find m p n (chain_of h p n m) ≡ none
      → length (stored (find m p n (chain_of h p n m))) ≡ length (chain_of h p n m) + 1
  unfolding stored
  stored-length_new e = rw (e, stored) (length-append (chain_of h p n m) _)

  updated-IsValid :
      (items grown : ℕ)
      → items ≡ h.items + grown
      → length (stored (find m p n (chain_of h p n m))) ≡ length (chain_of h p n m) + grown
      → total h.entries + grown < 2 ^ 63
      → IsValid (updated items)
  unfolding updated
  updated-IsValid items grown added longer room =
      let c = stored (find m p n (chain_of h p n m)) in
      let t = total-set h.entries (home h p n m) c (home-lt m h valid.array p n s) in
      record {
        array = record {
          slots = length-set h.entries (home h p n m) c ∙ valid.array.slots;
          some_slot = valid.array.some_slot;
        };
        counted = omega (arith, t, longer, added, valid.counted);
        small = omega (arith, t, longer, room);
      }

  set-updated :
      (new_entry : ℕ)
      → new_entry ≢ 0
      → total h.entries + 1 < 2 ^ 63
      → (items : ℕ) × (hashmap_set new_entry h p v m ≡ ok (true, updated items))
        × IsValid (updated items)
  unfolding hashmap_set updated stored
  set-updated new_entry some_entry room =
      let found : hashmap_entry_get h p m ≡ _ = entry_get-find m h valid.array p n s in
      elim (Option-cases (find m p n (chain_of h p n m))) [
        | inl e ↦
            let len : strlen p m ≡ ok n = (strlen_iff m p n).1 s in
            let alloc : (new_entry == 0) ≡ false = ground (arith, some_entry) in
            let wide : add64 h.items 1 ≡ h.items + 1 = omega (arith, valid.counted) in
            (
              h.items + 1,
              rw (found, ◌>>=◌, e, alloc, len, ◌>>=◌, wide) refl,
              updated-IsValid (h.items + 1) 1 refl (stored-length_new e) room,
            )
        | inr (j, e) ↦ (
          h.items,
          rw (found, ◌>>=◌, e) refl,
          updated-IsValid h.items 0 (omega arith) (omega (arith, stored-length j e)) (omega arith),
        )
      ]

  -- In a well-formed table with room for one more entry, and with memory for it, `hashmap_set`
  -- stores `v` under the string at `p`: it answers true, the table stays well-formed, and a later
  -- `hashmap_get` of a string answers `v` when its bytes are those of the key, and what it answered
  -- before when they are not.
  pub hashmap_set-get :
      (new_entry : ℕ)
      → new_entry ≢ 0
      → total h.entries + 1 < 2 ^ 63
      → (q k : ℕ) → IsString m q k
      → (h' : Hashmap) × (hashmap_set new_entry h p v m ≡ ok (true, h'))
        × IsValid h'
        × (hashmap_get h' q m ≡ (if same_bytes m p n q k then ok v else hashmap_get h q m))
  hashmap_set-get new_entry some_entry room q k sq =
      let (items, e, valid') = set-updated new_entry some_entry room in
      (updated items, e, valid', updated_get items q k valid' sq)
