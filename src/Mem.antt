-- ===== src/Mem.antt =====
-- The functions of lib/str.c that work on raw memory.
pub mod Fill
pub mod Copy
pub mod Compare
pub mod Word
mod Tests
use flan.Base.{ℕ, zero, suc, ◌+◌, Outcome, ok, halt, Bool, true, false, ◌==◌, ltb, if◌then◌else◌}
use flan.Base.Words.{u8}
use flan.Base.Int.{ℤ, pos, negsuc}

-- The byte at each virtual address. Address 0 is `NULL`.
abbrev pub Memory : Type 0
Memory = ℕ → ℕ

abbrev pub store : Memory → ℕ → ℕ → Memory
store m a v b = if a == b then v else m b

-- Each loop has the rounds that are left before its variable `i`.
unfoldable pub memset_from : ℕ → ℕ → ℕ → ℕ → Memory → Memory
memset_from zero i ptr n m = m
memset_from (suc k) i ptr n m = memset_from k (i + 1) ptr n (store m (ptr + i) (u8 n))

unfoldable pub memset : ℕ → ℕ → ℕ → Memory → Outcome Memory
memset ptr n size m = if ptr == 0 then halt else ok (memset_from size 0 ptr n m)

unfoldable pub memcpy_from : ℕ → ℕ → ℕ → ℕ → Memory → Memory
memcpy_from zero i dest src m = m
memcpy_from (suc k) i dest src m = memcpy_from k (i + 1) dest src (store m (dest + i) (m (src + i)))

unfoldable pub memcpy : ℕ → ℕ → ℕ → Memory → Outcome Memory
memcpy dest src n m =
    if src == 0 then halt else if dest == 0 then halt else ok (memcpy_from n 0 dest src m)

unfoldable pub memcmp_from : ℕ → ℕ → ℕ → ℕ → Memory → ℤ
memcmp_from zero i s1 s2 m = pos 0
memcmp_from (suc k) i s1 s2 m =
    if m (s1 + i) == m (s2 + i)
    then memcmp_from k (i + 1) s1 s2 m
    else if ltb (m (s1 + i)) (m (s2 + i))
    then negsuc 0
    else pos 1

unfoldable pub memcmp : ℕ → ℕ → ℕ → Memory → ℤ
memcmp s1 s2 size m = memcmp_from size 0 s1 s2 m
