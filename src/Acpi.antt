-- ===== src/Acpi.antt =====
-- acpi/acpi.c and acpi/tables/madt.c, over the tables in byte memory.
pub mod Entries
mod Tests
use flan.Base.{
  ℕ, zero, suc, ◌+◌, ◌-◌, ◌*◌, ◌/◌, ◌%◌, ◌^◌, Bool, true, false, ◌&&◌, not, List, [], ◌∷◌, ◌++◌,
  Outcome, ok, halt, fault, ◌>>=◌, ◌==◌, ltb, leb, if◌then◌else◌,
}
use flan.Base.Words.{u32, add64, sub64}
use flan.Mem.{Memory, memcmp}
use flan.Mem.Word.{load_bytes}
use flan.Str.{is_zero}

-- `sizeof(sdt_header_t)`, where `oem_table_id` has 6 bytes and 2 of padding, and `sizeof(madt_t)`.
abbrev pub sdt_header_size : ℕ
sdt_header_size = 36

abbrev pub madt_size : ℕ
madt_size = 44

-- `header.length` of a table.
abbrev pub table_length : ℕ → Memory → ℕ
table_length sdt m = load_bytes 4 (sdt + 4) m

-- The fields of `rsdp_descriptor_t` that are read.
pub record Rsdp : Type 0 where
  pub revision : ℕ
  pub rsdt_address : ℕ
  pub xsdt_address : ℕ

unfoldable pub use_xsdt : Rsdp → Bool
use_xsdt rsdp = leb 2 rsdp.revision && not (rsdp.xsdt_address == 0)

module _ (hhdm_offset : ℕ) where
  -- The address of `rsdt` that `acpi_init` sets.
  unfoldable pub choose_rsdt : Rsdp → ℕ
  choose_rsdt rsdp =
      if use_xsdt rsdp
      then add64 rsdp.xsdt_address hhdm_offset
      else add64 rsdp.rsdt_address hhdm_offset

  -- The loop of `acpi_find_sdt` from `i` on, with the entries that are left.
  unfoldable pub find_from : ℕ → ℕ → Rsdp → ℕ → ℕ → ℕ → Memory → ℕ
  find_from zero i rsdp rsdt signature index m = 0
  find_from (suc left) i rsdp rsdt signature index m =
      let width = if use_xsdt rsdp then 8 else 4 in
      let sdt = add64 (load_bytes width (rsdt + sdt_header_size + width * i) m) hhdm_offset in
      elim (is_zero (memcmp sdt signature 4 m)) [
        | false ↦ find_from left (i + 1) rsdp rsdt signature index m
        | true ↦ elim (index == 0) [
          | true ↦ sdt
          | false ↦ find_from left (i + 1) rsdp rsdt signature (index - 1) m
        ]
      ]

  -- 0 is `NULL`.
  unfoldable pub acpi_find_sdt : Rsdp → ℕ → ℕ → ℕ → Memory → ℕ
  acpi_find_sdt rsdp rsdt signature index m =
      let entry_count =
        sub64 (table_length rsdt m) sdt_header_size / (if use_xsdt rsdp then 8 else 4) in
      find_from entry_count 0 rsdp rsdt signature index m

-- The vectors of `madt_init`, as lists of their items' bytes.
pub record Madt : Type 0 where
  pub madt_lapics : List (List ℕ)
  pub madt_ioapics : List (List ℕ)
  pub madt_isos : List (List ℕ)

-- The bytes that `vector_push` copies from an item.
unfoldable pub item : ℕ → ℕ → Memory → List ℕ
item zero a m = []
item (suc item_size) a m = m a ∷ item item_size (a + 1) m

-- The cases of the switch; 8, 12 and 10 are the sizes of the three structures.
unfoldable pub push_entry : ℕ → Memory → Madt → Madt
push_entry header m s =
    if m header == 0
    then record s { madt_lapics = s.madt_lapics ++ (item 8 header m ∷ []) }
    else if m header == 1
    then record s { madt_ioapics = s.madt_ioapics ++ (item 12 header m ∷ []) }
    else if m header == 2
    then record s { madt_isos = s.madt_isos ++ (item 10 header m ∷ []) }
    else s

-- The loop of `madt_init`, on fuel. The test subtracts as `uint64_t`.
unfoldable pub madt_from : ℕ → ℕ → ℕ → Memory → Madt → Outcome Madt
madt_from zero madt offset m s = fault
madt_from (suc fuel) madt offset m s =
    elim (ltb (sub64 (sub64 (table_length madt m) madt_size) offset) 2) [
      | true ↦ ok s
      | false ↦
          let header = madt + madt_size + offset in
          let length = if ltb (m (header + 1)) 2 then 2 else m (header + 1) in
          madt_from fuel madt (add64 offset length) m (push_entry header m s)
    ]

-- `madt_init` after its search, with the address that it found.
unfoldable pub madt_init : ℕ → ℕ → Memory → Outcome Madt
madt_init fuel madt m =
    if madt == 0
    then halt
    else madt_from fuel madt 0 m (record { madt_lapics = []; madt_ioapics = []; madt_isos = [] })
