-- ===== src/Idt.antt =====
-- sys/idt/idt.c: the gates of the interrupt vectors and the handlers behind them.
pub mod Gates
mod Tests
use flan.Base.{ℕ, zero, suc, ◌+◌, ◌-◌, ◌*◌, ◌/◌, ◌^◌, List, get_or, set}
use flan.Base.Words.{u8, u16, u32}

-- `idt_gate_t`
pub record IdtGate : Type 0 where
  pub offset_low16 : ℕ
  pub selector : ℕ
  pub ist : ℕ
  pub flags : ℕ
  pub offset_mid16 : ℕ
  pub offset_high32 : ℕ
  pub reserved : ℕ

-- `idtr`, and the arrays `idt` and `isr` of 256 gates and handlers.
pub record Idt : Type 0 where
  pub idtr_limit : ℕ
  pub idtr_base : ℕ
  pub gates : List IdtGate
  pub isr : List ℕ

abbrev pub null_gate : IdtGate
null_gate = record {
  offset_low16 = 0;
  selector = 0;
  ist = 0;
  flags = 0;
  offset_mid16 = 0;
  offset_high32 = 0;
  reserved = 0;
}

abbrev pub gate_of : ℕ → ℕ → IdtGate
gate_of handler flags = record {
  offset_low16 = u16 handler;
  selector = 0x28;
  ist = 0;
  flags = flags;
  offset_mid16 = u16 (handler / 2 ^ 16);
  offset_high32 = u32 (handler / 2 ^ 32);
  reserved = 0;
}

-- `vector` is a byte, so that every index lies in the array.
unfoldable pub encode_idt_entry : ℕ → ℕ → ℕ → List IdtGate → List IdtGate
encode_idt_entry vector handler flags idt = set idt (u8 vector) (gate_of handler flags)

-- `isr_stubs` is the table of sys/idt/isr.asm.
module _ (isr_stubs : ℕ → ℕ) where
  -- A loop of `idt_init` that sets `handler`, with the rounds that are left before `i`.
  unfoldable pub init_from : ℕ → ℕ → ℕ → Idt → Idt
  init_from zero i handler s = s
  init_from (suc n) i handler s = init_from n (i + 1) handler (record s {
    gates = encode_idt_entry i (isr_stubs i) 0x8e s.gates;
    isr = set s.isr i handler;
  })

  -- `address` is that of `idt`; `lidt` and `sti` are left out. The handlers are addresses.
  unfoldable pub idt_init : ℕ → ℕ → ℕ → Idt → Idt
  idt_init exception_handler isr_generic address s = init_from 224 32 isr_generic (
      init_from 32 0 exception_handler
        (record s { idtr_limit = 256 * 16 - 1; idtr_base = address }))

unfoldable pub idt_set_ist : ℕ → ℕ → Idt → Idt
idt_set_ist vector ist s = record s {
  gates = set s.gates vector (record (get_or s.gates vector null_gate) { ist = ist });
}
