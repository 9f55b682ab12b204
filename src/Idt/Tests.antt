-- ===== src/Idt/Tests.antt =====
-- sys/idt/idt.c at a table of stubs that lie 16 bytes apart.
use flan.Base.{ℕ, ◌+◌, ◌*◌, replicate, length-replicate}
use flan.Idt.{Idt, null_gate}
use flan.Idt.Gates.{IsFull}

abbrev stubs : ℕ → ℕ
stubs v = 0xffffffff80000000 + v * 16

abbrev cleared : Idt
cleared = record {
  idtr_limit = 0;
  idtr_base = 0;
  gates = replicate 256 null_gate;
  isr = replicate 256 0;
}

cleared-IsFull : IsFull cleared
cleared-IsFull = record {
  gates_size = length-replicate 256 null_gate;
  isr_size = length-replicate {A = ℕ} 256 0;
}
