-- ===== src/Str/Names.antt =====
-- Names and paths as values: what `strtok` with the delimiter "/" and `basename` of lib/str.c give.
use mathlib.Core.Option
use flan.Base.{
  ℕ, zero, suc, Bool, true, false, ◌&&◌, ◌≡◌, ◌≢◌, refl, ap, ◌∙◌, Option, none, some, List, [], ◌∷◌,
  ◌++◌, ◌==◌, if◌then◌else◌, length, get_or, take, drop, arith, ==_iff, ==_self,
}

abbrev pub Name : Type 0
Name = List ℕ

abbrev pub same_name : Name → Name → Bool
same_name [] [] = true
same_name [] (b ∷ y) = false
same_name (a ∷ x) [] = false
same_name (a ∷ x) (b ∷ y) = a == b && same_name x y

-- What one call of `strtok` gives: the token, and where a slash ended it, the rest that the next
-- call begins with. A token may be empty.
unfoldable pub cut : Name → Name × Option Name
cut [] = ([], none)
cut (c ∷ w) = if c == b'/' then ([], some w) else (c ∷ (cut w).0, (cut w).1)

abbrev pub push_first : ℕ → List Name → List Name
push_first c [] = (c ∷ []) ∷ []
push_first c (t ∷ ts) = (c ∷ t) ∷ ts

-- The tokens of all calls, until the null pointer.
unfoldable pub tokens : Name → List Name
tokens [] = [] ∷ []
tokens (c ∷ w) = if c == b'/' then [] ∷ tokens w else push_first c (tokens w)

-- The number of slashes that lead a path, as `path_to_node` counts them; `none` where there is
-- nothing else.
unfoldable pub leading : Name → Option ℕ
leading [] = none
leading (c ∷ w) = if c == b'/' then Option.map suc (leading w) else some 0

-- The first loop of `basename`, from the last byte down.
unfoldable pub strip_from : ℕ → Name → Name × ℕ
strip_from zero s = (s, 0)
strip_from (suc i) s = elim (get_or s (suc i) 0 == b'/') [
  | true ↦ strip_from i (take (suc i) s)
  | false ↦ (s, suc i)
]

-- The second one.
unfoldable pub last_from : ℕ → Name → ℕ
last_from zero s = 0
last_from (suc i) s = elim (get_or s i 0 == b'/') [ true ↦ suc i | false ↦ last_from i s ]

-- The result, and the string that the zero bytes leave.
unfoldable pub basename : Name → Name × Name
unfolding strip_from last_from
basename [] = (b'.' ∷ [], [])
basename (c ∷ s) = let (t, i) = strip_from (length s) (c ∷ s) in (drop (last_from i t) t, t)

pub same_name_self : (x : Name) → same_name x x ≡ true
same_name_self [] = refl
same_name_self (a ∷ x) = rw (==_self a, same_name_self x) refl

pub same_name-eq : (x y : Name) → same_name x y ≡ true → x ≡ y
same_name-eq [] [] h = refl
same_name-eq [] (b ∷ y) h = cc
same_name-eq (a ∷ x) [] h = cc
same_name-eq (a ∷ x) (b ∷ y) h = ground (arith, same_name-eq x y, ==_iff a b)

-- A name in a path: at least one byte, and no slash.
abbrev pub HasNoSlash : Name → Type 0
HasNoSlash [] = Unit {0}
HasNoSlash (c ∷ w) = (c ≢ b'/') × HasNoSlash w

abbrev pub IsSegment : Name → Type 0
IsSegment [] = ⊥
IsSegment (c ∷ w) = HasNoSlash (c ∷ w)

abbrev pub AreSegments : List Name → Type 0
AreSegments [] = Unit {0}
AreSegments (n ∷ ns) = IsSegment n × AreSegments ns

-- The path of names with one slash between two of them.
abbrev pub join : Name → List Name → Name
join n [] = n
join n (n' ∷ ns) = n ++ (b'/' ∷ join n' ns)

tokens-plain : (w : Name) → HasNoSlash w → tokens w ≡ w ∷ []
unfolding tokens
tokens-plain [] h = refl
tokens-plain (c ∷ w) h =
    let e : (c == b'/') ≡ false = ground (arith, h.0) in rw (e, tokens, tokens-plain w h.1) refl

tokens-append : (w r : Name) → HasNoSlash w → tokens (w ++ (b'/' ∷ r)) ≡ w ∷ tokens r
unfolding tokens
tokens-append [] r h = refl
tokens-append (c ∷ w) r h =
    let e : (c == b'/') ≡ false = ground (arith, h.0) in rw (e, tokens, tokens-append w r h.1) refl

IsSegment-HasNoSlash : (w : Name) → IsSegment w → HasNoSlash w
IsSegment-HasNoSlash [] h = elim h [ ]
IsSegment-HasNoSlash (c ∷ w) h = h

pub tokens-join :
    (n : Name) (ns : List Name) → IsSegment n → AreSegments ns → tokens (join n ns) ≡ n ∷ ns
tokens-join n [] h hs = tokens-plain n (IsSegment-HasNoSlash n h)
tokens-join n (n' ∷ ns) h hs =
    tokens-append n (join n' ns) (IsSegment-HasNoSlash n h)
    ∙ ap (λ t. n ∷ t) (tokens-join n' ns hs.0 hs.1)
