-- ===== src/Ioapic/Tests.antt =====
-- dev/apic/ioapic.c with two controllers and the usual override of the timer's interrupt.
use flan.Base.{◌+◌, ◌-◌, ◌*◌, ◌^◌, inr, refl, bit_or, [], ◌∷◌, Returns, arith, ◌==◌, if◌then◌else◌}
use flan.Ioapic.{MadtIoapic, MadtIso, Registers, ioapic_redirect_irq}
use flan.Ioapic.Pins.{override, other, here, there, Redirected, ioapic_redirect_irq-Redirected}

abbrev first : MadtIoapic
first = record { apic_id = 0; address = 4273995776; gsib = 0 }

abbrev second : MadtIoapic
second = record { apic_id = 1; address = 4273999872; gsib = 24 }

abbrev timer : MadtIso
timer = record { bus_source = 0; irq_source = 0; gsi = 2; flags = 0 }

abbrev bell : MadtIso
bell = record { bus_source = 0; irq_source = 9; gsi = 26; flags = 13 }

-- Register 1 of each controller says 24.
abbrev registers : Registers
registers address reg = if reg == 1 then 24 * 2 ^ 16 else 0

ioapic_redirect_irq-Redirected_example :
    Returns (ioapic_redirect_irq (first ∷ second ∷ []) (timer ∷ bell ∷ []) 3 9 64 0 registers) (
      Redirected 4273999872 (16 + 2 * (26 - 24)) (bit_or (3 * 2 ^ 56 + 64) (bit_or 13 0)) registers)
ioapic_redirect_irq-Redirected_example =
    ioapic_redirect_irq-Redirected (first ∷ second ∷ []) second 3 9 64 0 registers
      (timer ∷ bell ∷ []) 26 (bit_or 13 0)
      (other timer (bell ∷ []) 26 (bit_or 13 0) (omega arith) (override bell [] refl))
      (there first second (second ∷ []) (inr (omega arith)) (omega arith)
        (here second [] (omega arith, omega arith)))
      (omega arith) (omega arith) (omega arith) (omega arith) (omega arith)
