-- ===== src/Stdio/Tests.antt =====
-- `printf` at a concrete format.
use flan.Base.{◌≡◌, List, [], ◌∷◌, Returns, arith}
use flan.Stdio.{printf}
use flan.Stdio.Formats.{
  Piece, plain, text, decimal, hexadecimal, binary, format, arguments, Prints, printf-Prints,
}

-- "#%d %s %x %b" with 12, "ok", 255 and 5.
abbrev line : List Piece
line =
    plain b'#'
    ∷ decimal 12
    ∷ plain b' '
    ∷ text (b'o' ∷ b'k' ∷ [])
    ∷ plain b' '
    ∷ hexadecimal 255
    ∷ plain b' '
    ∷ binary 5
    ∷ []

printf-Prints_example :
    Returns (printf (format line) (arguments line) 0) λ (out, lock). Prints line out × (lock ≡ 0)
printf-Prints_example = printf-Prints line (
  (omega arith, omega arith),
  (
    omega arith,
    (
      (omega arith, omega arith),
      (
        (omega arith, (omega arith, tt)),
        (
          (omega arith, omega arith),
          (omega arith, ((omega arith, omega arith), (omega arith, tt))),
        ),
      ),
    ),
  ),
)
