-- ===== src/Str/Tests.antt =====
-- lib/str.c's string functions at concrete strings and numbers.
use flan.Base.{
  ◌-◌, [], ◌∷◌, get_or, ◌==◌, ◌≡◌, ◌⊎◌, refl, false, true, ok, Returns, arith, ltb, if◌then◌else◌,
}
use flan.Mem.{Memory}
use flan.Str.Names.{Name, cut}
use flan.Str.Token.{Spells, Rest, strtok-cut}
use flan.Str.{strtok, strchr, strcmp}
use flan.Str.Chars.{IsString, FirstChar, strchr-FirstChar}
use flan.Str.Same.{SameBytes, strcmp-SameBytes}

-- "aa" at 16, and zero bytes elsewhere.
abbrev text : Memory
text a = if ltb a 16 then 0 else if ltb a 18 then b'a' else 0

text-IsString : IsString text 16 2
text-IsString = record { short = omega arith; end = refl; nonzero = λ i h. ground arith }

tail-IsString : IsString text 17 1
tail-IsString = record { short = omega arith; end = refl; nonzero = λ i h. ground arith }

strchr-FirstChar_example : Returns (strchr 16 b'a' text) (FirstChar text 16 b'a' 0 2)
strchr-FirstChar_example = strchr-FirstChar text 16 b'a' 2 text-IsString (omega arith)

strcmp-SameBytes_example :
    ((strcmp 16 17 text ≡ ok false) × SameBytes text 16 2 17 1)
    ⊎ ((strcmp 16 17 text ≡ ok true) × ¬ SameBytes text 16 2 17 1)
strcmp-SameBytes_example = strcmp-SameBytes text 16 2 17 1 text-IsString tail-IsString

-- "usr/bin" at 16 and "/" at 40.
abbrev path : Memory
path a =
    if a == 40
    then b'/'
    else get_or (b'u' ∷ b's' ∷ b'r' ∷ b'/' ∷ b'b' ∷ b'i' ∷ b'n' ∷ []) (a - 16) 0

abbrev usr_bin : Name
usr_bin = b'u' ∷ b's' ∷ b'r' ∷ b'/' ∷ b'b' ∷ b'i' ∷ b'n' ∷ []

strtok-cut_example : Returns (strtok 16 40 0 path) λ (token, s', m').
    (token ≡ 16) × Spells m' 16 (cut usr_bin).0 × Rest path m' s' 16 (cut usr_bin).0 (cut usr_bin).1
strtok-cut_example =
    strtok-cut path 16 40 0 16 usr_bin refl (omega arith) (omega arith)
      (record { first = refl; end = refl; some_delim = omega arith; inside = omega arith })
      (omega arith)
