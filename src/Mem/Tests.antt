-- ===== src/Mem/Tests.antt =====
-- lib/str.c's memory functions at concrete blocks.
use flan.Base.{ℕ, ◌≡◌, inl, Returns, arith}
use flan.Mem.{Memory, memcpy, memcmp}
use flan.Mem.Copy.{copied, memcpy-copied}
use flan.Mem.Compare.{Compared, memcmp-Compared}

-- Byte `a` holds `a`.
abbrev ramp : Memory
ramp a = a

memcpy-copied_example : Returns (memcpy 16 20 8 ramp) λ m'. (a : ℕ) → m' a ≡ copied ramp 16 20 8 a
memcpy-copied_example = memcpy-copied 16 20 8 ramp (omega arith) (omega arith) (inl (omega arith))

memcmp-Compared_example : Compared ramp 3 5 0 4 (memcmp 3 5 4 ramp)
memcmp-Compared_example = memcmp-Compared 3 5 4 ramp
