-- ===== src/Str.antt =====
-- The functions of lib/str.c on strings that end in a zero byte.
pub mod Chars
pub mod Number
pub mod Same
pub mod Names
pub mod Token
mod Tests
use flan.Base.{
  ℕ, zero, suc, ◌+◌, ◌-◌, ◌*◌, ◌/◌, ◌%◌, ◌^◌, Bool, true, false, not, ◌&&◌, List, [], ◌∷◌, Outcome,
  ok, fault, ◌>>=◌, ◌==◌, ltb, if◌then◌else◌,
}
use flan.Base.Int.{ℤ, pos, negsuc}
use flan.Base.Words.{add64}
use flan.Mem.{Memory, store, memcmp, memcpy}

-- `int ct` holds at most 2 ^ 31 - 1; to count further is undefined.
abbrev pub max_length : ℕ
max_length = 2 ^ 31

unfoldable pub strlen_from : ℕ → ℕ → ℕ → Memory → Outcome ℕ
strlen_from zero ct f m = fault
strlen_from (suc left) ct f m = elim (m (f + ct) == 0) [
  | true ↦ ok ct
  | false ↦ strlen_from left (ct + 1) f m
]

unfoldable pub strlen : ℕ → Memory → Outcome ℕ
strlen f m = strlen_from max_length 0 f m

abbrev pub is_zero : ℤ → Bool
is_zero (pos zero) = true
is_zero (pos (suc n)) = false
is_zero (negsuc n) = false

-- `strcmp` answers 0, here `false`, for equal strings.
unfoldable pub strcmp : ℕ → ℕ → Memory → Outcome Bool
strcmp str1 str2 m = do
  n1 ← strlen str1 m
  n2 ← strlen str2 m
  ok (not (n1 == n2 && is_zero (memcmp str1 str2 n1 m)))

-- `strchr`, with the steps that are left to the end of the address space. 0 is `NULL`.
unfoldable pub strchr_from : ℕ → ℕ → ℕ → Memory → Outcome ℕ
strchr_from zero str c m = fault
strchr_from (suc left) str c m = elim (m str == c) [
  | true ↦ ok str
  | false ↦ elim (m str == 0) [ true ↦ ok 0 | false ↦ strchr_from left (str + 1) c m ]
]

unfoldable pub strchr : ℕ → ℕ → Memory → Outcome ℕ
strchr str c m = strchr_from (2 ^ 64 - str) str c m

-- `repr[d]` of `itoa`: "0123456789abcdef" and its final zero byte.
unfoldable pub repr : ℕ → Outcome ℕ
repr d =
    if ltb d 10
    then ok (b'0' + d)
    else if ltb d 16
    then ok (b'a' + (d - 10))
    else if d == 16
    then ok 0
    else fault

-- The loop of `itoa`, from the end of `buffer` down. The first number is the bytes of the buffer
-- that are left below `ptr`; a write below the buffer is undefined. A base of 0 is too.
unfoldable pub itoa_from : ℕ → ℕ → ℕ → List ℕ → Outcome (List ℕ)
itoa_from zero num base s = fault
itoa_from (suc room) num base s = elim (base == 0) [
  | true ↦ fault
  | false ↦ repr (num % base) >>= (λ c. elim (num / base == 0) [
    | true ↦ ok (c ∷ s)
    | false ↦ itoa_from room (num / base) base (c ∷ s)
  ])
]

-- The string that `itoa` returns, without its final zero byte. `buffer` has 50 bytes.
unfoldable pub itoa : ℕ → ℕ → Outcome (List ℕ)
itoa num base = itoa_from 49 num base []

-- The loop of `strtok`; the results are the token, the static `s` after the call, and the memory.
unfoldable pub strtok_from : ℕ → ℕ → ℕ → ℕ → Memory → Outcome (ℕ × ℕ × Memory)
strtok_from zero delim token s m = fault
strtok_from (suc left) delim token s m = elim (m s == 0) [
  | true ↦ ok (token, 0, m)
  | false ↦ strchr delim (m s) m >>= (λ found. elim (found == 0) [
    | false ↦ ok (token, s + 1, store m s 0)
    | true ↦ strtok_from left delim token (s + 1) m
  ])
]

-- `strtok`, with the static `s` before the call and the steps that are left to the end of the
-- address space.
unfoldable pub strtok : ℕ → ℕ → ℕ → Memory → Outcome (ℕ × ℕ × Memory)
strtok str delim s m =
    let start = if str == 0 then s else str in
    if start == 0 then ok (0, 0, m) else strtok_from (2 ^ 64 - start) delim start start m

-- `strdup`, with what `kheap_alloc` answers.
unfoldable pub strdup : (ℕ → ℕ) → ℕ → Memory → Outcome (ℕ × Memory)
strdup kheap_alloc str m = do
  l ← strlen str m
  let d = kheap_alloc (add64 l 1)
  if d == 0 then ok (0, m) else do m' ← memcpy d str (add64 l 1) m; ok (d, m')
