-- ===== src/Idt/Gates.antt =====
-- The gates after `idt_init` of sys/idt/idt.c.
use flan.Base.{
  ℕ, zero, suc, ◌+◌, ◌-◌, ◌*◌, ◌%◌, ◌^◌, ◌≤◌, ◌<◌, ◌≡◌, refl, ◌∙◌, inl, inr, true, false, arith,
  ◌&&◌, ◌==◌, ltb, leb, Bool-cases, if◌then◌else◌, ==_iff, get_or, set, length, length-set,
  get_or-set_self, get_or-set_ne,
}
use flan.Idt.{IdtGate, Idt, null_gate, gate_of, encode_idt_entry, init_from, idt_init, idt_set_ist}

-- The address that the processor jumps to through a gate.
pub gate_address : IdtGate → ℕ
gate_address g = g.offset_low16 + g.offset_mid16 * 2 ^ 16 + g.offset_high32 * 2 ^ 32

-- Both arrays have 256 elements.
pub record IsFull (s : Idt) : Type 0 where
  pub gates_size : length s.gates ≡ 256
  pub isr_size : length s.isr ≡ 256

module _ (isr_stubs : ℕ → ℕ) where
  init_from-IsFull :
      (n i handler : ℕ) (s : Idt) → IsFull s → IsFull (init_from isr_stubs n i handler s)
  unfolding init_from encode_idt_entry
  init_from-IsFull zero i handler s full = full
  init_from-IsFull (suc n) i handler s full = init_from-IsFull n (i + 1) handler _ (record {
    gates_size = length-set s.gates _ _ ∙ full.gates_size;
    isr_size = length-set s.isr i handler ∙ full.isr_size;
  })

  init_from-gate :
      (n i handler : ℕ) (s : Idt) (v : ℕ)
      → IsFull s
      → i + n ≤ 256
      → get_or (init_from isr_stubs n i handler s).gates v null_gate ≡ (
          if leb i v && ltb v (i + n)
          then gate_of (isr_stubs v) 0x8e
          else get_or s.gates v null_gate)
  unfolding init_from encode_idt_entry
  init_from-gate zero i handler s v full room = ground arith
  init_from-gate (suc n) i handler s v full room =
      let g = gate_of (isr_stubs i) 0x8e in
      let narrow : i % 2 ^ 8 ≡ i = omega arith in
      let s' : Idt = record s { gates = set s.gates (i % 2 ^ 8) g; isr = set s.isr i handler } in
      let full' : IsFull s' = record {
        gates_size = length-set s.gates (i % 2 ^ 8) g ∙ full.gates_size;
        isr_size = length-set s.isr i handler ∙ full.isr_size;
      } in
      init_from-gate n (i + 1) handler s' v full' (omega arith) ∙ elim (Bool-cases (i == v)) [
        | inl here ↦
            let at : i ≡ v = (==_iff i v).0 here in
            let last : (leb (i + 1) v && ltb v (i + 1 + n)) ≡ false = ground arith in
            let first : (leb i v && ltb v (i + suc n)) ≡ true = ground arith in
            rw (last, first, narrow, ← at)
              (get_or-set_self s.gates i g null_gate (omega (arith, full.gates_size)))
        | inr other ↦
            rw (narrow, get_or-set_ne s.gates i v g null_gate (ground arith)) (ground arith)
      ]

  init_from-isr :
      (n i handler : ℕ) (s : Idt) (v : ℕ)
      → IsFull s
      → i + n ≤ 256
      → get_or (init_from isr_stubs n i handler s).isr v 0
        ≡ (if leb i v && ltb v (i + n) then handler else get_or s.isr v 0)
  unfolding init_from encode_idt_entry
  init_from-isr zero i handler s v full room = ground arith
  init_from-isr (suc n) i handler s v full room =
      let g = gate_of (isr_stubs i) 0x8e in
      let s' : Idt = record s { gates = set s.gates (i % 2 ^ 8) g; isr = set s.isr i handler } in
      let full' : IsFull s' = record {
        gates_size = length-set s.gates (i % 2 ^ 8) g ∙ full.gates_size;
        isr_size = length-set s.isr i handler ∙ full.isr_size;
      } in
      init_from-isr n (i + 1) handler s' v full' (omega arith) ∙ elim (Bool-cases (i == v)) [
        | inl here ↦
            let at : i ≡ v = (==_iff i v).0 here in
            let last : (leb (i + 1) v && ltb v (i + 1 + n)) ≡ false = ground arith in
            let first : (leb i v && ltb v (i + suc n)) ≡ true = ground arith in
            rw (last, first, ← at)
              (get_or-set_self s.isr i handler 0 (omega (arith, full.isr_size)))
        | inr other ↦ rw (get_or-set_ne {A = ℕ} s.isr i v handler 0 (ground arith)) (ground arith)
      ]

  -- After `idt_init` the gate of every vector leads to the vector's stub, at ring 0 and with
  -- interrupts off, and the handler is `exception_handler` for the first 32 vectors and
  -- `isr_generic` for the others.
  pub idt_init-gates :
      (exception_handler isr_generic address v : ℕ) (s : Idt)
      → IsFull s
      → v < 256
      → isr_stubs v < 2 ^ 64
      → let t : Idt = idt_init isr_stubs exception_handler isr_generic address s in
        let gate : IdtGate = get_or t.gates v null_gate in
        IsFull t
        × (gate_address gate ≡ isr_stubs v)
        × (gate.selector ≡ 0x28)
        × (gate.flags ≡ 0x8e)
        × (gate.ist ≡ 0)
        × (get_or t.isr v 0 ≡ (if ltb v 32 then exception_handler else isr_generic))
  unfolding idt_init gate_address
  idt_init-gates exception_handler isr_generic address v s full low wide =
      let s0 : Idt = record s { idtr_limit = 256 * 16 - 1; idtr_base = address } in
      let full0 : IsFull s0 = record { gates_size = full.gates_size; isr_size = full.isr_size } in
      let s1 : Idt = init_from isr_stubs 32 0 exception_handler s0 in
      let full1 : IsFull s1 = init_from-IsFull 32 0 exception_handler s0 full0 in
      let gate : get_or (init_from isr_stubs 224 32 isr_generic s1).gates v null_gate
          ≡ gate_of (isr_stubs v) 0x8e =
        init_from-gate 224 32 isr_generic s1 v full1 (omega arith)
        ∙ elim (Bool-cases (leb 32 v && ltb v (32 + 224))) [
          | inl late ↦ rw late refl
          | inr early ↦
              let first : (leb 0 v && ltb v (0 + 32)) ≡ true = ground arith in
              rw early
                (init_from-gate 32 0 exception_handler s0 v full0 (omega arith) ∙ rw first refl)
        ] in
      let handler : get_or (init_from isr_stubs 224 32 isr_generic s1).isr v 0
          ≡ (if ltb v 32 then exception_handler else isr_generic) =
        init_from-isr 224 32 isr_generic s1 v full1 (omega arith)
        ∙ ground (arith, init_from-isr 32 0 exception_handler s0 v full0 (omega arith)) in
      (
        init_from-IsFull 224 32 isr_generic s1 full1,
        rw gate (omega (arith, wide)),
        rw gate refl,
        rw gate refl,
        rw gate refl,
        handler,
      )

-- `idt_set_ist` changes the stack index of one gate and nothing else.
pub idt_set_ist-gate :
    (vector ist v : ℕ) (s : Idt)
    → IsFull s
    → vector < 256
    → IsFull (idt_set_ist vector ist s)
      × (get_or (idt_set_ist vector ist s).gates v null_gate ≡ record (get_or s.gates v null_gate) {
        ist = if vector == v then ist else (get_or s.gates v null_gate).ist;
      })
unfolding idt_set_ist
idt_set_ist-gate vector ist v s full low = (
  record { gates_size = length-set s.gates vector _ ∙ full.gates_size; isr_size = full.isr_size },
  elim (Bool-cases (vector == v)) [
    | inl here ↦
        let at : vector ≡ v = (==_iff vector v).0 here in
        rw (here, ← at)
          (get_or-set_self s.gates vector _ null_gate (omega (arith, full.gates_size)))
    | inr other ↦ rw (other) (get_or-set_ne s.gates vector v _ null_gate (ground arith))
  ],
)
