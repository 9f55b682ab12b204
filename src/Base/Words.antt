-- ===== src/Base/Words.antt =====
-- Arithmetic of `uint64_t`, `uint32_t` and narrower words, with its wrap-around.
use Prim.Native.Nat.{ℕ, ◌+◌, ◌-◌, ◌*◌, ◌%◌, ◌^◌, bit_and}

abbrev pub u64 : ℕ → ℕ
u64 x = x % 2 ^ 64

abbrev pub u32 : ℕ → ℕ
u32 x = x % 2 ^ 32

abbrev pub u16 : ℕ → ℕ
u16 x = x % 2 ^ 16

abbrev pub u8 : ℕ → ℕ
u8 x = x % 2 ^ 8

abbrev pub add64 : ℕ → ℕ → ℕ
add64 a b = u64 (a + b)

-- Subtraction on ℕ stops at 0, so the modulus is added first; both are below 2 ^ 64.
abbrev pub sub64 : ℕ → ℕ → ℕ
sub64 a b = u64 (a + 2 ^ 64 - b)

abbrev pub sub32 : ℕ → ℕ → ℕ
sub32 a b = u32 (a + 2 ^ 32 - b)

abbrev pub mul64 : ℕ → ℕ → ℕ
mul64 a b = u64 (a * b)

-- `ALIGN_UP` and `ALIGN_DOWN` of lib/stddef.h, for a power of two `align` that is converted to
-- `uint64_t`: `~(align - 1)` is then `2 ^ 64 - align`.
unfoldable pub align_up : ℕ → ℕ → ℕ
align_up num align = bit_and (u64 (num + align + 2 ^ 64 - 1)) (2 ^ 64 - align)

unfoldable pub align_down : ℕ → ℕ → ℕ
align_down num align = bit_and num (2 ^ 64 - align)
