-- ===== src/Acpi/Tests.antt =====
-- acpi/tables/madt.c at a table with one core and one controller.
use flan.Base.{ℕ, ◌+◌, ◌-◌, ◌≡◌, refl, List, [], ◌∷◌, Returns, arith, get_or}
use flan.Mem.{Memory}
use flan.Mem.Word.{load_bytes}
use flan.Acpi.{table_length, madt_size, madt_init}
use flan.Acpi.Entries.{nothing, entry, with_id, madt_init-Collected}

-- The bytes behind the header.
abbrev entries : List ℕ
entries = 0 ∷ 8 ∷ 5 ∷ 7 ∷ 1 ∷ 0 ∷ 0 ∷ 0 ∷ 1 ∷ 12 ∷ 2 ∷ 0 ∷ 0 ∷ 0 ∷ 192 ∷ 254 ∷ 0 ∷ 0 ∷ 0 ∷ 0 ∷ []

-- The table at address 1000; its length is 64.
abbrev table : Memory
table a = get_or (0 ∷ 0 ∷ 0 ∷ 0 ∷ 64 ∷ []) (a - 1000) (get_or entries (a - 1044) 0)

table_length-table : table_length 1000 table ≡ madt_size + 20
unfolding load_bytes
table_length-table = refl

madt_init-Collected_example : Returns (madt_init 30 1000 table) λ t.
    (t.madt_lapics ≡ with_id 0 8 table (1044 ∷ 1052 ∷ []))
    × (t.madt_ioapics ≡ with_id 1 12 table (1044 ∷ 1052 ∷ []))
    × (t.madt_isos ≡ with_id 2 10 table (1044 ∷ 1052 ∷ []))
madt_init-Collected_example =
    madt_init-Collected table 1000 20 30 (1044 ∷ 1052 ∷ []) (omega arith) table_length-table
      (omega arith) (omega arith)
      (entry 1044 (1052 ∷ []) (omega arith) (omega arith)
        (entry 1052 [] (omega arith) (omega arith) nothing))
