-- ===== src/Ioapic/Pins.antt =====
-- Which pin of dev/apic/ioapic.c an interrupt is redirected to, and the entry that is written.
use flan.Base.{
  ℕ, ◌+◌, ◌-◌, ◌*◌, ◌/◌, ◌%◌, ◌^◌, ◌≤◌, ◌<◌, ◌≡◌, ◌≢◌, ◌⊎◌, refl, bit_or, true, false, ◌&&◌, List,
  [], ◌∷◌, ok, ◌>>=◌, Returns, arith, ◌==◌, ltb, leb, ==_self,
}
use flan.Base.Words.{u32, add64, mul64, sub32}
use flan.Base.Bits.{bit_or-add, bit_or-lt, bit_and-mask}
use flan.Ioapic.{
  MadtIoapic, MadtIso, Registers, ioapic_write, ioapic_gsi_count, ioapic_from_gsi,
  ioapic_redirect_gsi, ioapic_redirect_irq,
}

-- The first override of an interrupt gives its global number and adds its flags; without one the
-- number is the interrupt's own.
pub data Routed (irq flags : ℕ) : List MadtIso → ℕ → ℕ → Type 0 where
  identity : Routed irq flags [] irq flags
  override :
      (iso : MadtIso) (isos : List MadtIso)
      → iso.irq_source ≡ irq
      → Routed irq flags (iso ∷ isos) iso.gsi (bit_or iso.flags flags)
  other :
      (iso : MadtIso) (isos : List MadtIso) (gsi f : ℕ)
      → iso.irq_source ≢ irq
      → Routed irq flags isos gsi f
      → Routed irq flags (iso ∷ isos) gsi f

-- A controller takes the numbers from its base on, as many as its register 1 says in bits 16 to 23.
abbrev pub Takes : Registers → ℕ → MadtIoapic → Type 0
Takes r gsi c = (c.gsib ≤ gsi) × (gsi < c.gsib + r c.address 1 / 2 ^ 16 % 2 ^ 8)

-- The first controller that takes a number.
pub data Owner (r : Registers) (gsi : ℕ) : List MadtIoapic → MadtIoapic → Type 0 where
  here : (c : MadtIoapic) (cs : List MadtIoapic) → Takes r gsi c → Owner r gsi (c ∷ cs) c
  there :
      (d c : MadtIoapic) (cs : List MadtIoapic)
      → ((gsi < d.gsib) ⊎ (d.gsib + r d.address 1 / 2 ^ 16 % 2 ^ 8 ≤ gsi))
      → d.gsib < 2 ^ 32
      → Owner r gsi cs c
      → Owner r gsi (d ∷ cs) c

gsi_count-bits :
    (c : MadtIoapic) (r : Registers) → ioapic_gsi_count c r ≡ r c.address 1 / 2 ^ 16 % 2 ^ 8
unfolding ioapic_gsi_count
gsi_count-bits c r = rw (bit_and-mask 16 8 (r c.address 1)) (omega arith)

from_gsi-Owner :
    (r : Registers) (gsi : ℕ) (cs : List MadtIoapic) (c : MadtIoapic)
    → c.gsib < 2 ^ 32
    → Owner r gsi cs c
    → ioapic_from_gsi cs gsi r ≡ ok c
unfolding ioapic_from_gsi
from_gsi-Owner r gsi [] c small o = elim o [ ]
from_gsi-Owner r gsi (_ ∷ _) c small (here _ cs takes) =
    let e : (leb c.gsib gsi && ltb gsi (add64 c.gsib (ioapic_gsi_count c r))) ≡ true =
      rw (gsi_count-bits c r) (ground (arith, takes)) in
    rw (e, ioapic_from_gsi) refl
from_gsi-Owner r gsi (_ ∷ _) c small (there d _ cs not_d small_d o) =
    let e : (leb d.gsib gsi && ltb gsi (add64 d.gsib (ioapic_gsi_count d r))) ≡ false =
      rw (gsi_count-bits d r) (ground (arith, not_d)) in
    rw (e, ioapic_from_gsi) (from_gsi-Owner r gsi cs c small o)

Owner-Takes :
    (r : Registers) (gsi : ℕ) (cs : List MadtIoapic) (c : MadtIoapic)
    → Owner r gsi cs c
    → Takes r gsi c
Owner-Takes r gsi [] c o = elim o [ ]
Owner-Takes r gsi (_ ∷ _) c (here _ cs takes) = takes
Owner-Takes r gsi (_ ∷ _) c (there d _ cs not_d small o) = Owner-Takes r gsi cs c o

-- The registers after the two writes at a pin.
abbrev pub Redirected : ℕ → ℕ → ℕ → Registers → Registers → Type 0
Redirected address pin entry r r' =
    (r' address pin + r' address (pin + 1) * 2 ^ 32 ≡ entry)
    × ((a reg : ℕ) → (a ≢ address) ⊎ ((reg ≢ pin) × (reg ≢ pin + 1)) → r' a reg ≡ r a reg)

writes-Redirected :
    (address pin entry : ℕ) (r : Registers)
    → pin < 2 ^ 31
    → entry < 2 ^ 64
    → Redirected address pin entry r (
        ioapic_write address
          (add64 pin 1)
          (u32 (entry / 2 ^ 32))
          (ioapic_write address pin (u32 entry) r))
unfolding ioapic_write
writes-Redirected address pin entry r low small =
    (ground arith, λ a reg apart. ground (arith, apart))

redirect_gsi-Redirected :
    (cs : List MadtIoapic) (c : MadtIoapic) (lapic_id gsi vector flags : ℕ) (r : Registers)
    → Owner r gsi cs c
    → c.gsib < 2 ^ 32
    → gsi < 2 ^ 32
    → lapic_id < 2 ^ 8
    → vector < 2 ^ 8
    → flags < 2 ^ 64
    → Returns (ioapic_redirect_gsi cs lapic_id gsi vector flags r) (
        Redirected c.address
          (16 + 2 * (gsi - c.gsib))
          (bit_or (lapic_id * 2 ^ 56 + vector) flags)
          r)
unfolding ioapic_redirect_gsi
redirect_gsi-Redirected cs c lapic_id gsi vector flags r o small_c small id vec few =
    let takes = Owner-Takes r gsi cs c o in
    let shifted : mul64 lapic_id (2 ^ 56) ≡ lapic_id * 2 ^ 56 = omega arith in
    let pin : u32 (u32 (sub32 gsi c.gsib * 2) + 16) ≡ 16 + 2 * (gsi - c.gsib) =
      omega (arith, takes.0, takes.1) in
    rw
      (
        from_gsi-Owner r gsi cs c small_c o,
        ◌>>=◌,
        shifted,
        bit_or-add 56 lapic_id vector (omega arith),
        pin,
      )
      (
        _,
        refl,
        writes-Redirected c.address (16 + 2 * (gsi - c.gsib))
            (bit_or (lapic_id * 2 ^ 56 + vector) flags) r (omega (arith, takes.0, takes.1))
            (bit_or-lt 64 (lapic_id * 2 ^ 56 + vector) flags (omega arith) few),
      )

-- The redirection of an interrupt finds the first override of its number and then the first
-- controller that takes the global number it gives. It writes the two halves of one entry, which
-- is the core's id, the vector, the caller's flags and those of the override, to the pair of
-- registers of that controller's pin, and changes no other register of any controller. The
-- core's id is below 2 ^ 8, as wide as its place in the entry; the other numbers fit the widths that
-- they have in the code.
pub ioapic_redirect_irq-Redirected :
    (cs : List MadtIoapic) (c : MadtIoapic) (lapic_id irq vector flags : ℕ) (r : Registers)
    (isos : List MadtIso) (gsi f : ℕ)
    → Routed irq flags isos gsi f
    → Owner r gsi cs c
    → c.gsib < 2 ^ 32
    → gsi < 2 ^ 32
    → lapic_id < 2 ^ 8
    → vector < 2 ^ 8
    → f < 2 ^ 64
    → Returns
        (ioapic_redirect_irq cs isos lapic_id irq vector flags r)
        (Redirected c.address (16 + 2 * (gsi - c.gsib)) (bit_or (lapic_id * 2 ^ 56 + vector) f) r)
unfolding ioapic_redirect_irq
ioapic_redirect_irq-Redirected cs c lapic_id irq vector flags r [] _ _ identity o small_c small id
      vec few =
    redirect_gsi-Redirected cs c lapic_id irq vector flags r o small_c small id vec few
ioapic_redirect_irq-Redirected cs c lapic_id irq vector flags r (_ ∷ _) _ _ (override iso isos same)
      o small_c small id vec few =
    rw (same, ==_self irq, ioapic_redirect_irq)
      (redirect_gsi-Redirected cs c lapic_id iso.gsi vector (bit_or iso.flags flags) r o small_c
        small id vec few)
ioapic_redirect_irq-Redirected cs c lapic_id irq vector flags r (_ ∷ _) _ _
      (other iso isos gsi f differs rest) o small_c small id vec few =
    let e : (iso.irq_source == irq) ≡ false = ground arith in
    rw (e, ioapic_redirect_irq)
      (ioapic_redirect_irq-Redirected cs c lapic_id irq vector flags r isos gsi f rest o small_c
        small id vec few)
