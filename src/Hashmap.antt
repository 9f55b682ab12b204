-- ===== src/Hashmap.antt =====
-- lib/hashmap.c: a chained table from strings to pointers.
pub mod Chain
pub mod Lookup
pub mod Update
pub mod Remove
mod Tests
use mathlib.Core.Option
use flan.Base.{
  ℕ, zero, suc, ◌+◌, ◌*◌, ◌%◌, ◌^◌, Bool, true, false, not, ◌&&◌, Option, none, some, List, [], ◌∷◌,
  ◌++◌, Outcome, ok, fault, ◌>>=◌, ◌==◌, if◌then◌else◌, get_elem?, get_or, set, replicate,
}
use flan.Base.Words.{u64, add64, sub64}
use flan.Mem.{Memory, memcmp}
use flan.Str.{strlen, is_zero}

-- `hashmap_entry_t`; `next` is the order in a chain.
pub record HashmapEntry : Type 0 where
  pub key_length : ℕ
  pub key : ℕ
  pub val : ℕ

abbrev pub Chain : Type 0
Chain = List HashmapEntry

-- `entries` has one chain for each slot of the array, whose first entry is the slot itself.
pub record Hashmap : Type 0 where
  pub entries : List Chain
  pub entry_count : ℕ
  pub items : ℕ

-- A cleared `hashmap_entry_t`.
abbrev pub empty_entry : HashmapEntry
empty_entry = record { key_length = 0; key = 0; val = 0 }

unfoldable pub hash_from : ℕ → ℕ → ℕ → ℕ → Memory → ℕ
hash_from zero i key h m = h
hash_from (suc k) i key h m =
    hash_from k (i + 1) key (add64 (add64 (u64 (h * 2 ^ 5)) h) (m (key + i))) m

unfoldable pub hash : ℕ → ℕ → Memory → ℕ
hash key size m = hash_from size 0 key 5381 m

-- `INDEX`. Division by 0 is undefined.
unfoldable pub index : ℕ → ℕ → Memory → Outcome ℕ
index key entry_count m = do
  n ← strlen key m
  if entry_count == 0 then fault else ok (hash key n m % entry_count)

-- `key_length == entry->key_length && !memcmp(entry->key, key, key_length)`
abbrev pub matches : Memory → ℕ → ℕ → HashmapEntry → Bool
matches m key n e = n == e.key_length && is_zero (memcmp e.key key n m)

-- The loop of `hashmap_entry_get` along a chain; a pointer to an entry is its position.
unfoldable pub find : Memory → ℕ → ℕ → Chain → Option ℕ
find m key n [] = none
find m key n (e ∷ c) = if matches m key n e then some 0 else Option.map suc (find m key n c)

-- The chain of a slot; a slot outside of the array is an undefined access.
abbrev pub slot : List Chain → ℕ → Outcome Chain
slot entries i = elim (get_elem? entries i) [ none ↦ fault | some c ↦ ok c ]

unfoldable pub hashmap_entry_get : Hashmap → ℕ → Memory → Outcome (ℕ × Chain × Option ℕ)
unfolding index
hashmap_entry_get hashmap key m = do
  i ← index key hashmap.entry_count m
  c ← slot hashmap.entries i
  key_length ← strlen key m
  ok (i, c, find m key key_length c)

-- `data` is what `kheap_calloc` returned.
unfoldable pub hashmap_create : ℕ → ℕ → Hashmap → Bool × Hashmap
hashmap_create data' entry_count hashmap = if data' == 0 then (false, hashmap) else (
  true,
  record {
    entries = replicate entry_count (empty_entry ∷ []);
    entry_count = entry_count;
    items = 0;
  },
)

abbrev pub assign : Chain → ℕ → ℕ → Chain
assign c j val = set c j (record (get_or c j empty_entry) { val = val })

-- `new_entry` is what `kheap_calloc` returned.
unfoldable pub hashmap_set : ℕ → Hashmap → ℕ → ℕ → Memory → Outcome (Bool × Hashmap)
unfolding hashmap_entry_get
hashmap_set new_entry hashmap key val m = hashmap_entry_get hashmap key m >>= (λ (i, c, entry).
    elim entry [
      | some j ↦ ok (true, record hashmap { entries = set hashmap.entries i (assign c j val) })
      | none ↦ if new_entry == 0 then ok (false, hashmap) else do
        key_length ← strlen key m
        ok (
          true,
          record hashmap {
            entries =
                set hashmap.entries i
                  (c ++ record { key_length = key_length; key = key; val = val } ∷ []);
            items = add64 hashmap.items 1;
          },
        )
    ])

unfoldable pub val_at : Chain → Option ℕ → ℕ
val_at c none = 0
val_at c (some j) = (get_or c j empty_entry).val

unfoldable pub hashmap_get : Hashmap → ℕ → Memory → Outcome ℕ
unfolding hashmap_entry_get
hashmap_get hashmap key m = do (i, c, entry) ← hashmap_entry_get hashmap key m; ok (val_at c entry)

-- `key_length == entry->key_length && memcmp(entry->key, key, key_length)`, where
-- `hashmap_remove` stops.
abbrev pub differs : Memory → ℕ → ℕ → HashmapEntry → Bool
differs m key n e = n == e.key_length && not (is_zero (memcmp e.key key n m))

unfoldable pub find_other : Memory → ℕ → ℕ → Chain → Option ℕ
find_other m key n [] = none
find_other m key n (e ∷ c) =
    if differs m key n e then some 0 else Option.map suc (find_other m key n c)

unfoldable pub erase : Chain → ℕ → Chain
erase [] j = []
erase (e ∷ c) zero = c
erase (e ∷ c) (suc j) = e ∷ erase c j

-- The chain after the entry at position `j` of it was unlinked, which for the first is done by a
-- copy of the second over it. A first entry with no other stays.
unfoldable pub unlink : Chain → ℕ → Chain
unlink [] j = []
unlink (e ∷ []) zero = e ∷ []
unlink (e ∷ e' ∷ c) zero = e' ∷ c
unlink (e ∷ c) (suc j) = e ∷ erase c j

-- The positions in the chain, before the call, of the entries that are given to `kheap_free`. For
-- the first entry, `entry->next` is read after the copy, so that it is the third.
unfoldable pub freed : Chain → ℕ → List ℕ
freed (e ∷ e' ∷ e'' ∷ c) zero = 2 ∷ []
freed c zero = []
freed c (suc j) = suc j ∷ []

-- The loop ends at a null pointer when no entry differs, and `entry->next` is read of it.
unfoldable pub hashmap_remove : Hashmap → ℕ → Memory → Outcome (Bool × Hashmap × List ℕ)
unfolding index
hashmap_remove hashmap key m = do
  i ← index key hashmap.entry_count m
  c ← slot hashmap.entries i
  key_length ← strlen key m
  elim (find_other m key key_length c) [
    | none ↦ fault
    | some j ↦ ok (
      true,
      record hashmap {
        entries = set hashmap.entries i (unlink c j);
        items = sub64 hashmap.items 1;
      },
      freed c j,
    )
  ]
