-- ===== src/Ioapic.antt =====
-- dev/apic/ioapic.c, with the entries of the MADT that it reads.
pub mod Pins
mod Tests
use flan.Base.{
  ℕ, ◌+◌, ◌-◌, ◌*◌, ◌/◌, ◌%◌, ◌^◌, bit_and, bit_or, Bool, true, false, ◌&&◌, List, [], ◌∷◌, Outcome,
  ok, halt, ◌>>=◌, ◌==◌, ltb, leb, if◌then◌else◌,
}
use flan.Base.Words.{u32, add64, mul64, sub32}

-- `madt_ioapic_t` and `madt_iso_t` of acpi/tables/madt.h.
pub record MadtIoapic : Type 0 where
  pub apic_id : ℕ
  pub address : ℕ
  pub gsib : ℕ

pub record MadtIso : Type 0 where
  pub bus_source : ℕ
  pub irq_source : ℕ
  pub gsi : ℕ
  pub flags : ℕ

-- The registers of the controller at each address, behind its index register and its window.
abbrev pub Registers : Type 0
Registers = ℕ → ℕ → ℕ

abbrev pub ioapic_read : ℕ → ℕ → Registers → ℕ
ioapic_read ioapic_address reg r = r ioapic_address (u32 reg)

unfoldable pub ioapic_write : ℕ → ℕ → ℕ → Registers → Registers
ioapic_write ioapic_address reg data' r a b =
    if a == ioapic_address && b == u32 reg then data' else r a b

unfoldable pub ioapic_gsi_count : MadtIoapic → Registers → ℕ
ioapic_gsi_count ioapic r = bit_and (ioapic_read ioapic.address 1 r) 16711680 / 2 ^ 16

-- The elements of `madt_ioapics` from `i` on. Past the last one the `assert` fails.
unfoldable pub ioapic_from_gsi : List MadtIoapic → ℕ → Registers → Outcome MadtIoapic
ioapic_from_gsi [] gsi r = halt
ioapic_from_gsi (io_apic ∷ ioapics) gsi r =
    elim (leb io_apic.gsib gsi && ltb gsi (add64 io_apic.gsib (ioapic_gsi_count io_apic r))) [
      | true ↦ ok io_apic
      | false ↦ ioapic_from_gsi ioapics gsi r
    ]

unfoldable pub ioapic_redirect_gsi : List MadtIoapic → ℕ → ℕ → ℕ → ℕ → Registers → Outcome Registers
ioapic_redirect_gsi ioapics lapic_id gsi vector flags r = do
  let ioredtbl_data = bit_or (bit_or (mul64 lapic_id (2 ^ 56)) vector) flags
  ioapic ← ioapic_from_gsi ioapics gsi r
  let ioredtbl = u32 (u32 (sub32 gsi ioapic.gsib * 2) + 16)
  let r1 = ioapic_write ioapic.address ioredtbl (u32 ioredtbl_data) r
  ok (ioapic_write ioapic.address (add64 ioredtbl 1) (u32 (ioredtbl_data / 2 ^ 32)) r1)

-- The elements of `madt_isos` from `i` on.
unfoldable pub ioapic_redirect_irq :
    List MadtIoapic → List MadtIso → ℕ → ℕ → ℕ → ℕ → Registers → Outcome Registers
ioapic_redirect_irq ioapics [] lapic_id irq vector flags r =
    ioapic_redirect_gsi ioapics lapic_id irq vector flags r
ioapic_redirect_irq ioapics (iso ∷ isos) lapic_id irq vector flags r =
    elim (iso.irq_source == irq) [
      | true ↦ ioapic_redirect_gsi ioapics lapic_id iso.gsi vector (bit_or iso.flags flags) r
      | false ↦ ioapic_redirect_irq ioapics isos lapic_id irq vector flags r
    ]
