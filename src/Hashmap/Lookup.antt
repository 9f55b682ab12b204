-- ===== src/Hashmap/Lookup.antt =====
-- `hashmap_get` and `hashmap_set` of lib/hashmap.c as a map from strings.
use flan.Base.{
  ℕ, zero, suc, ◌+◌, ◌%◌, ◌^◌, ◌<◌, ◌≡◌, ◌≢◌, refl, ◌∙◌, ap, inl, inr, true, false, List, [], ◌∷◌,
  ok, ◌>>=◌, arith, ◌==◌, Bool-cases, get_or, set, replicate, length, length-replicate,
  get_or-replicate, lt→ltb, get_elem?-eq-get_or,
}
use native.Mathlib.Nat.{mod-lt}
use flan.Mem.{Memory}
use flan.Str.{strlen}
use flan.Str.Chars.{IsString, strlen_iff}
use flan.Hashmap.{
  HashmapEntry, Chain, Hashmap, empty_entry, hash, matches, val_at, find, hashmap_entry_get,
  hashmap_create, hashmap_get,
}
use flan.Hashmap.Chain.{value, value-cons}

-- The entries of all chains, the slots themselves included.
unfoldable pub total : List Chain → ℕ
total [] = 0
total (c ∷ cs) = length c + total cs

-- The array has `entry_count` slots, at least one.
pub record HasSlots (h : Hashmap) : Type 0 where
  pub slots : length h.entries ≡ h.entry_count
  pub some_slot : 0 < h.entry_count

-- Besides, `items` counts the entries that were added.
pub record IsValid (h : Hashmap) : Type 0 where
  pub array : HasSlots h
  pub counted : h.items + h.entry_count ≡ total h.entries
  pub small : total h.entries < 2 ^ 63

pub total-set :
    (cs : List Chain) (i : ℕ) (c : Chain)
    → i < length cs
    → total (set cs i c) + length (get_or cs i []) ≡ total cs + length c
unfolding total
total-set [] i c low = absurd (omega arith)
total-set (d ∷ cs) zero c low = omega arith
total-set (d ∷ cs) (suc i) c low = omega (arith, total-set cs i c (omega arith))

-- The slot of the key of `n` bytes at `p`, and its chain.
abbrev pub home : Hashmap → ℕ → ℕ → Memory → ℕ
home h p n m = hash p n m % h.entry_count

abbrev pub chain_of : Hashmap → ℕ → ℕ → Memory → Chain
chain_of h p n m = get_or h.entries (home h p n m) []

module _ (m : Memory) (h : Hashmap) (v : HasSlots h) (p n : ℕ) (s : IsString m p n) where
  pub home-lt : home h p n m < length h.entries
  home-lt = omega (arith, mod-lt (hash p n m) v.some_slot, v.slots)

  pub entry_get-find :
      hashmap_entry_get h p m ≡ ok (home h p n m, chain_of h p n m, find m p n (chain_of h p n m))
  unfolding hashmap_entry_get
  entry_get-find =
      let len : strlen p m ≡ ok n = (strlen_iff m p n).1 s in
      let some_slot : (h.entry_count == 0) ≡ false = ground (arith, v.some_slot) in
      rw (len, some_slot, ◌>>=◌, get_elem?-eq-get_or h.entries _ [] home-lt, ◌>>=◌) refl

  -- `hashmap_get` answers from the chain of the key's slot.
  pub get-value : hashmap_get h p m ≡ ok (value m p n (chain_of h p n m))
  unfolding hashmap_get
  get-value = rw entry_get-find refl

total-replicate : (n : ℕ) (e : HashmapEntry) → total (replicate n (e ∷ [])) ≡ n
unfolding total
total-replicate zero e = refl
total-replicate (suc n) e = omega (arith, total-replicate n e)

-- The table that `hashmap_create` makes.
created : ℕ → Hashmap
created n = record { entries = replicate n (empty_entry ∷ []); entry_count = n; items = 0 }

created-IsValid : (n : ℕ) → 0 < n → n < 2 ^ 63 → IsValid (created n)
unfolding created
created-IsValid n some_slot small = record {
  array = record { slots = length-replicate n _; some_slot = some_slot };
  counted = omega (arith, total-replicate n empty_entry);
  small = omega (arith, total-replicate n empty_entry);
}

value-empty : (m : Memory) (p k : ℕ) → value m p k (empty_entry ∷ []) ≡ 0
unfolding find val_at
value-empty m p k =
    value-cons m p k empty_entry [] ∙ elim (Bool-cases (matches m p k empty_entry)) [
      | inl e ↦ rw e refl
      | inr e ↦ rw (e, find, val_at) refl
    ]

created-get :
    (n : ℕ) (m : Memory) (p k : ℕ)
    → 0 < n
    → n < 2 ^ 63
    → IsString m p k
    → hashmap_get (created n) p m ≡ ok 0
unfolding created
created-get n m p k some_slot small s =
    let v = created-IsValid n some_slot small in
    get-value m (created n) v.array p k s
    ∙ rw
        (
          get_or-replicate n (hash p k m % n) (empty_entry ∷ []) [],
          lt→ltb _ _ (mod-lt (hash p k m) some_slot),
        )
        (ap ok (value-empty m p k))

-- A new table with `entry_count` slots is well-formed and answers a null pointer for every key.
pub hashmap_create-get :
    (data' entry_count : ℕ) (h : Hashmap) (m : Memory) (p k : ℕ)
    → data' ≢ 0
    → 0 < entry_count
    → entry_count < 2 ^ 63
    → IsString m p k
    → ((hashmap_create data' entry_count h).0 ≡ true)
      × IsValid (hashmap_create data' entry_count h).1
      × (hashmap_get (hashmap_create data' entry_count h).1 p m ≡ ok 0)
unfolding hashmap_create created
hashmap_create-get data' n h m p k some_data some_slot small s =
    let e : (data' == 0) ≡ false = ground (arith, some_data) in
    rw e (refl, created-IsValid n some_slot small, created-get n m p k some_slot small s)
