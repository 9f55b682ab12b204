-- ===== src/Stdio/Formats.antt =====
-- What `printf` of lib/stdio.c prints for a format and its arguments.
use flan.Base.{
  ℕ, ◌^◌, ◌<◌, ◌≤◌, ◌≡◌, ◌≢◌, refl, List, [], ◌∷◌, ◌++◌, ok, ◌>>=◌, Returns, Returns-bind,
  Returns_mono, All, false, ◌==◌, arith,
}
use flan.Lock.Spin.{acquire-free, release-acquired}
use flan.Str.Names.{Name}
use flan.Str.Number.{read_from, IsDigit, Leads, itoa-Leads}
use flan.Stdio.{Arg, string, number, print_number, convert, printf_from, printf}

-- The parts of a format: a byte that stands for itself, and the four conversions with their
-- arguments.
pub data Piece : Type 0 where
  plain : ℕ → Piece
  text : Name → Piece
  decimal : ℕ → Piece
  hexadecimal : ℕ → Piece
  binary : ℕ → Piece

-- How a part is written in the format.
abbrev pub spell : Piece → Name → Name
spell (plain c) fmt = c ∷ fmt
spell (text s) fmt = b'%' ∷ b's' ∷ fmt
spell (decimal n) fmt = b'%' ∷ b'd' ∷ fmt
spell (hexadecimal n) fmt = b'%' ∷ b'x' ∷ fmt
spell (binary n) fmt = b'%' ∷ b'b' ∷ fmt

abbrev pub format : List Piece → Name
format [] = []
format (p ∷ ps) = spell p (format ps)

abbrev pub argument : Piece → List Arg → List Arg
argument (plain c) args = args
argument (text s) args = string s ∷ args
argument (decimal n) args = number n ∷ args
argument (hexadecimal n) args = number n ∷ args
argument (binary n) args = number n ∷ args

abbrev pub arguments : List Piece → List Arg
arguments [] = []
arguments (p ∷ ps) = argument p (arguments ps)

-- The numeral of a number: digits of the base, the first of them 0 only in "0", that read as it.
abbrev pub Numeral : ℕ → ℕ → Name → Type 0
Numeral base n out = (read_from base 0 out ≡ n) × All (IsDigit base) out × Leads n [] out

-- What a part prints.
abbrev pub Shows : Piece → Name → Type 0
Shows (plain c) out = out ≡ c ∷ []
Shows (text s) out = out ≡ s
Shows (decimal n) out = Numeral 10 n out
Shows (hexadecimal n) out = (digits : Name) × (out ≡ b'0' ∷ b'x' ∷ digits) × Numeral 16 n digits
Shows (binary n) out = (digits : Name) × (out ≡ b'0' ∷ b'b' ∷ digits) × Numeral 2 n digits

abbrev pub Prints : List Piece → Name → Type 0
Prints [] out = out ≡ []
Prints (p ∷ ps) out =
    (first : Name) × (rest : Name) × (out ≡ first ++ rest) × Shows p first × Prints ps rest

-- A byte of its own is neither '%' nor 0, and a string has no zero byte; a number has 64 bits, and in base 2 fits the buffer of `itoa`.
abbrev pub Fits : Piece → Type 0
Fits (plain c) = (c ≢ b'%') × (c ≢ 0)
Fits (text s) = All (λ c. c ≢ 0) s
Fits (decimal n) = n < 2 ^ 64
Fits (hexadecimal n) = n < 2 ^ 64
Fits (binary n) = n < 2 ^ 49

printf_from-plain :
    (c : ℕ) (fmt : Name) (args : List Arg)
    → c ≢ b'%'
    → printf_from (c ∷ fmt) args ≡ (printf_from fmt args >>= (λ rest. ok (c ∷ rest)))
unfolding printf_from
printf_from-plain c [] args other = let e : (c == b'%') ≡ false = ground arith in rw e refl
printf_from-plain c (d ∷ fmt) args other =
    let e : (c == b'%') ≡ false = ground arith in rw (e, printf_from) refl

printf_from-convert :
    (d : ℕ) (fmt : Name) (args : List Arg)
    → printf_from (b'%' ∷ d ∷ fmt) args ≡ (
        convert d args
        >>= (λ (shown, args'). printf_from fmt args' >>= (λ rest. ok (shown ++ rest))))
unfolding printf_from
printf_from-convert d fmt args = refl

-- A number behind a prefix.
print_number-reads :
    (prefix : Name) (base n : ℕ) (args : List Arg)
    → 2 ≤ base
    → base ≤ 16
    → n < base ^ 49
    → Returns (print_number prefix base (number n ∷ args)) λ (out, args').
      ((digits : Name) × (out ≡ prefix ++ digits) × Numeral base n digits) × (args' ≡ args)
unfolding print_number
print_number-reads prefix base n args lo hi fits =
    Returns-bind (itoa-Leads base lo hi n fits)
      λ digits r. ((prefix ++ digits, args), refl, ((digits, refl, r), refl))

-- A conversion and the rest of the format.
conversion-Prints :
    (p : Piece) (ps : List Piece) (d : ℕ) (args : List Arg)
    → Returns (convert d args) (λ (out, args'). Shows p out × (args' ≡ arguments ps))
    → Returns (printf_from (format ps) (arguments ps)) (Prints ps)
    → Returns (printf_from (b'%' ∷ d ∷ format ps) args) (Prints (p ∷ ps))
conversion-Prints p ps d args one rest = rw (printf_from-convert d (format ps) args) (
    Returns-bind one λ (first, args') (shows, e). rw e (
      Returns-bind rest
        λ later prints. (first ++ later, refl, (first, later, refl, shows, prints))))

printf_from-Prints :
    (ps : List Piece) → All Fits ps → Returns (printf_from (format ps) (arguments ps)) (Prints ps)
unfolding printf_from convert
printf_from-Prints [] all = ([], refl, refl)
printf_from-Prints (plain c ∷ ps) ((other, some), all) =
    rw (printf_from-plain c (format ps) (arguments ps) other) (
      Returns-bind (printf_from-Prints ps all)
        λ rest prints. (c ∷ rest, refl, (c ∷ [], rest, refl, refl, prints)))
printf_from-Prints (text s ∷ ps) (fits, all) =
    conversion-Prints (text s) ps b's' (string s ∷ arguments ps)
      ((s, arguments ps), refl, (refl, refl)) (printf_from-Prints ps all)
printf_from-Prints (decimal n ∷ ps) (fits, all) =
    conversion-Prints (decimal n) ps b'd' (number n ∷ arguments ps)
      (Returns_mono
        (print_number-reads [] 10 n (arguments ps) (omega arith) (omega arith) (omega arith))
        λ (out, args') ((digits, e, r), same). (rw e r, same))
      (printf_from-Prints ps all)
printf_from-Prints (hexadecimal n ∷ ps) (fits, all) =
    conversion-Prints (hexadecimal n) ps b'x' (number n ∷ arguments ps)
      (print_number-reads (b'0' ∷ b'x' ∷ []) 16 n (arguments ps) (omega arith) (omega arith)
        (omega arith))
      (printf_from-Prints ps all)
printf_from-Prints (binary n ∷ ps) (fits, all) =
    conversion-Prints (binary n) ps b'b' (number n ∷ arguments ps)
      (print_number-reads (b'0' ∷ b'b' ∷ []) 2 n (arguments ps) (omega arith) (omega arith) fits)
      (printf_from-Prints ps all)

-- Let a format be written from parts: bytes other than '%' and 0, and the four conversions, with one
-- argument for each, strings without a zero byte; let the numbers be below 2 ^ 64, and below 2 ^ 49 in
-- base 2. Then `printf` with a free lock returns with the lock free, and prints the parts in order: the
-- bytes and strings as they are, "0x" or "0b" before the numbers of base 16 and 2, and each number
-- as its numeral: digits of its base that read as it, and 0 in front only for the number 0.
pub printf-Prints :
    (ps : List Piece)
    → All Fits ps
    → Returns (printf (format ps) (arguments ps) 0) λ (out, lock). Prints ps out × (lock ≡ 0)
unfolding printf
printf-Prints ps all =
    rw (acquire-free, ◌>>=◌, release-acquired)
      (Returns-bind (printf_from-Prints ps all) λ out prints. ((out, 0), refl, (prints, refl)))
