-- ===== src/Hashmap/Chain.antt =====
-- One chain of lib/hashmap.c: what a lookup answers after an entry was written or added.
use flan.Base.{
  ℕ, zero, suc, ◌+◌, ◌<◌, ◌≡◌, refl, sym, ◌∙◌, inl, inr, true, false, none, some, [], ◌∷◌, ◌++◌,
  arith, ◌==◌, ==_iff, Bool-cases, Option-cases, if◌then◌else◌,
}
use flan.Mem.{Memory}
use flan.Str.Same.{same_bytes, same_bytes-SameBytes, SameBytes-same_bytes}
use flan.Hashmap.{HashmapEntry, Chain, hash_from, hash, matches, find, assign, val_at}

-- What `hashmap_get` answers for the key of `k` bytes at `q`.
abbrev pub value : Memory → ℕ → ℕ → Chain → ℕ
value m q k c = val_at c (find m q k c)

module _ (m : Memory) (q k : ℕ) where
  pub value-cons :
      (e : HashmapEntry) (c : Chain)
      → value m q k (e ∷ c) ≡ (if matches m q k e then e.val else value m q k c)
  unfolding find val_at
  value-cons e c = ground (arith, Option-cases (find m q k c))

  -- How a lookup in a chain ends, by its first entry.
  find-zero : (e : HashmapEntry) (c : Chain) → find m q k (e ∷ c) ≡ some 0 → matches m q k e ≡ true
  unfolding find
  find-zero e c h = ground (arith, Option-cases (find m q k c))

  find-suc :
      (e : HashmapEntry) (c : Chain) (j : ℕ)
      → find m q k (e ∷ c) ≡ some (suc j)
      → (matches m q k e ≡ false) × (find m q k c ≡ some j)
  unfolding find
  find-suc e c j h = ground (arith, Option-cases (find m q k c))

  find-none :
      (e : HashmapEntry) (c : Chain)
      → find m q k (e ∷ c) ≡ none
      → (matches m q k e ≡ false) × (find m q k c ≡ none)
  unfolding find
  find-none e c h = ground (arith, Option-cases (find m q k c))

module _ (m : Memory) (p n q k : ℕ) where
  -- An entry that matches two keys shows that they are the same.
  matches_both :
      (e : HashmapEntry)
      → matches m p n e ≡ true
      → matches m q k e ≡ true
      → same_bytes m p n q k ≡ true
  matches_both e hp hq =
      let (l, b) = same_bytes-SameBytes m e.key n p e.key_length hp in
      let (l', b') = same_bytes-SameBytes m e.key k q e.key_length hq in
      SameBytes-same_bytes m p n q k (l ∙ sym l', λ i low. sym (b i low) ∙ b' i (omega arith))

  -- Keys with the same bytes match the same entries.
  matches_same :
      (e : HashmapEntry)
      → same_bytes m p n q k ≡ true
      → matches m p n e ≡ true
      → matches m q k e ≡ true
  matches_same e same hp =
      let (l, b) = same_bytes-SameBytes m p n q k same in
      let (l', b') = same_bytes-SameBytes m e.key n p e.key_length hp in
      SameBytes-same_bytes m e.key k q e.key_length
        (sym l ∙ l', λ i low. b' i (omega arith) ∙ b i (omega arith))

module _ (m : Memory) (p n q k : ℕ) where
  same_back : same_bytes m p n q k ≡ true → same_bytes m q k p n ≡ true
  same_back same =
      let (l, b) = same_bytes-SameBytes m p n q k same in
      SameBytes-same_bytes m q k p n (sym l, λ i low. sym (b i (omega arith)))

  -- The new entry matches exactly the keys with its bytes.
  matches_new :
      (v : ℕ) → matches m q k (record { key_length = n; key = p; val = v }) ≡ same_bytes m p n q k
  matches_new v = elim (Bool-cases (n == k)) [
    | inl here ↦ rw ((==_iff n k).0 here) refl
    | inr other ↦ ground arith
  ]

  other_key :
      (e : HashmapEntry)
      → matches m p n e ≡ false
      → same_bytes m p n q k ≡ true
      → matches m q k e ≡ false
  other_key e miss same = elim (Bool-cases (matches m q k e)) [
    | inr no_match ↦ no_match
    | inl hit ↦ let bad = matches_same m q k p n e (same_back same) hit in cc
  ]

  -- A write to the entry of the key `p` changes what keys with the same bytes read.
  pub value-assign :
      (c : Chain) (j v : ℕ)
      → find m p n c ≡ some j
      → value m q k (assign c j v) ≡ (if same_bytes m p n q k then v else value m q k c)
  unfolding find
  value-assign [] j v h = cc
  value-assign (e ∷ c) zero v h =
      let hit = find-zero m p n e c h in
      let e' : HashmapEntry = record e { val = v } in
      rw (value-cons m q k e' c, value-cons m q k e c)
        (ground (
          arith,
          matches_both m p n q k e hit,
          λ (s : same_bytes m p n q k ≡ true). matches_same m p n q k e s hit,
        ))
  value-assign (e ∷ c) (suc j) v h =
      let (miss, h') = find-suc m p n e c j h in
      rw (value-cons m q k e (assign c j v), value-cons m q k e c, value-assign c j v h')
        (ground (arith, other_key e miss))

  -- So does an entry that is added for it.
  pub value-append :
      (c : Chain) (v : ℕ)
      → find m p n c ≡ none
      → value m q k (c ++ record { key_length = n; key = p; val = v } ∷ [])
        ≡ (if same_bytes m p n q k then v else value m q k c)
  unfolding find val_at
  value-append [] v h =
      let new : HashmapEntry = record { key_length = n; key = p; val = v } in
      rw (value-cons m q k new []) (ground (arith, matches_new v))
  value-append (e ∷ c) v h =
      let (miss, h') = find-none m p n e c h in
      let new : HashmapEntry = record { key_length = n; key = p; val = v } in
      rw (value-cons m q k e (c ++ new ∷ []), value-cons m q k e c, value-append c v h')
        (ground (arith, other_key e miss))

  hash_from_same :
      (r i h : ℕ)
      → ((j : ℕ) → j < i + r → m (p + j) ≡ m (q + j))
      → hash_from r i p h m ≡ hash_from r i q h m
  unfolding hash_from
  hash_from_same zero i h b = refl
  hash_from_same (suc r) i h b =
      rw (b i (omega arith)) (hash_from_same r (i + 1) _ (λ j low. b j (omega arith)))

  -- Keys with the same bytes have the same hash.
  pub hash_same : same_bytes m p n q k ≡ true → hash p n m ≡ hash q k m
  unfolding hash
  hash_same same =
      let (l, b) = same_bytes-SameBytes m p n q k same in
      rw (← l) (hash_from_same n 0 5381 (λ j low. b j (omega arith)))
