-- ===== src/Hashmap/Tests.antt =====
-- lib/hashmap.c at a concrete table, of four slots.
use flan.Base.{
  ℕ, ◌+◌, ◌^◌, ◌<◌, ◌≡◌, ◌⊎◌, refl, true, List, [], ◌∷◌, ok, fault, replicate, arith, ltb,
  if◌then◌else◌,
}
use flan.Mem.{Memory}
use flan.Str.Chars.{IsString}
use flan.Str.Same.{same_bytes}
use flan.Hashmap.{Hashmap, empty_entry, hashmap_set, hashmap_get, hashmap_remove}
use flan.Hashmap.Lookup.{HasSlots, IsValid, total, chain_of}
use flan.Hashmap.Update.{hashmap_set-get}
use flan.Hashmap.Remove.{NoneDiffers, hashmap_remove-get}

-- "aa" at 16, and zero bytes elsewhere.
abbrev text : Memory
text a = if ltb a 16 then 0 else if ltb a 18 then b'a' else 0

text-IsString : IsString text 16 2
text-IsString = record { short = omega arith; end = refl; nonzero = λ i h. ground arith }

tail-IsString : IsString text 17 1
tail-IsString = record { short = omega arith; end = refl; nonzero = λ i h. ground arith }

abbrev empty : Hashmap
empty = record { entries = replicate 4 (empty_entry ∷ []); entry_count = 4; items = 0 }

empty-HasSlots : HasSlots empty
empty-HasSlots = record { slots = refl; some_slot = omega arith }

empty-IsValid : IsValid empty
unfolding total
empty-IsValid = record { array = empty-HasSlots; counted = refl; small = omega arith }

room : total empty.entries + 1 < 2 ^ 63
unfolding total
room = omega arith

hashmap_set-get_example :
    (h' : Hashmap) × (hashmap_set 96 empty 16 7 text ≡ ok (true, h'))
    × IsValid h'
    × (hashmap_get h' 17 text
        ≡ (if same_bytes text 16 2 17 1 then ok 7 else hashmap_get empty 17 text))
hashmap_set-get_example =
    hashmap_set-get text empty empty-IsValid 16 2 text-IsString 7 96 (omega arith) room 17 1
      tail-IsString

hashmap_remove-get_example :
    (NoneDiffers text 16 2 (chain_of empty 16 2 text) × (hashmap_remove empty 16 text ≡ fault))
    ⊎ ((h' : Hashmap) × (gone : List ℕ) × (hashmap_remove empty 16 text ≡ ok (true, h', gone))
        × (hashmap_get h' 16 text ≡ hashmap_get empty 16 text))
hashmap_remove-get_example = hashmap_remove-get text empty empty-HasSlots 16 2 text-IsString
