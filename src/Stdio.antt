-- ===== src/Stdio.antt =====
-- lib/stdio.c: formatted printing.
pub mod Formats
mod Tests
use flan.Base.{
  ℕ, zero, suc, ◌+◌, List, [], ◌∷◌, ◌++◌, Outcome, ok, halt, fault, ◌>>=◌, Bool, true, false, ◌==◌,
  if◌then◌else◌,
}
use flan.Lock.{Spinlock, spinlock_acquire, spinlock_release}
use flan.Str.{itoa}
use flan.Str.Names.{Name}

-- What `va_arg` takes: a string, or a `uint64_t`. To take the other kind, or one too many, is
-- undefined.
pub data Arg : Type 0 where
  string : Name → Arg
  number : ℕ → Arg

abbrev pub next_string : List Arg → Outcome (Name × List Arg)
next_string [] = fault
next_string (string s ∷ args) = ok (s, args)
next_string (number n ∷ args) = fault

abbrev pub next_number : List Arg → Outcome (ℕ × List Arg)
next_number [] = fault
next_number (string s ∷ args) = fault
next_number (number n ∷ args) = ok (n, args)

-- A prefix and the digits of the next number.
unfoldable pub print_number : Name → ℕ → List Arg → Outcome (Name × List Arg)
print_number prefix base args = do
  (n, args') ← next_number args
  digits ← itoa n base
  ok (prefix ++ digits, args')

-- The `switch` on the character behind a '%': what it passes to `out`, and the arguments that are
-- left. Another character prints nothing.
unfoldable pub convert : ℕ → List Arg → Outcome (Name × List Arg)
convert c args =
    if c == b's'
    then next_string args
    else if c == b'd'
    then print_number [] 10 args
    else if c == b'x'
    then print_number (b'0' ∷ b'x' ∷ []) 16 args
    else if c == b'b'
    then print_number (b'0' ∷ b'b' ∷ []) 2 args
    else ok ([], args)

-- The loop of `printf`; the result is what is passed to `out`, in one string. Behind a '%' at the
-- end the loop reads on past the final zero byte.
unfoldable pub printf_from : Name → List Arg → Outcome Name
printf_from [] args = ok []
printf_from (c ∷ []) args = if c == b'%' then fault else ok (c ∷ [])
printf_from (c ∷ d ∷ fmt) args = elim (c == b'%') [
  | false ↦ printf_from (d ∷ fmt) args >>= (λ rest. ok (c ∷ rest))
  | true ↦
      convert d args >>= (λ (text, args'). printf_from fmt args' >>= (λ rest. ok (text ++ rest)))
]

unfoldable pub printf : Name → List Arg → Spinlock → Outcome (Name × Spinlock)
printf fmt args print_lock = do
  lock ← spinlock_acquire print_lock
  text ← printf_from fmt args
  ok (text, spinlock_release lock)
