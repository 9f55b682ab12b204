-- ===== src/Str/Number.antt =====
-- `itoa` of lib/str.c prints a number in its base, and how far its buffer reaches.
use flan.Base.{
  ℕ, zero, suc, ◌+◌, ◌-◌, ◌*◌, ◌/◌, ◌%◌, ◌^◌, ◌≤◌, ◌<◌, ◌≡◌, refl, inl, inr, ap, ◌∙◌, true, false,
  List, [], ◌∷◌, fault, ◌>>=◌, Returns, Returns-bind, Returns_mono, Returns-at, arith, ◌==◌, ==_iff,
  ltb, Bool-cases, if◌then◌else◌, length, All, get_or, ◌⊎◌, ◌≢◌,
}
use native.Mathlib.Nat.{
  div-add-mod', div-le_self, pow-zero, le-div_iff_mul-le, one-le-pow, pow-suc, mod-lt,
  div-lt_iff_lt-mul,
}
use flan.Str.{repr, itoa_from, itoa}
use flan.Str.Names.{Name}

-- The value of a hexadecimal digit, in lower case.
pub digit : ℕ → ℕ
digit c = if ltb c b'a' then c - b'0' else c - b'a' + 10

-- What a reader of digits computes, with the value so far.
pub read_from : ℕ → ℕ → List ℕ → ℕ
unfolding digit
read_from base n [] = n
read_from base n (c ∷ s) = read_from base (n * base + digit c) s

digit-repr : (d : ℕ) → d < 16 → Returns (repr d) λ c. digit c ≡ d
unfolding repr digit
digit-repr d low = elim (Bool-cases (ltb d 10)) [
  | inl dec ↦ (b'0' + d, rw dec, ground arith)
  | inr hex ↦
      let top : ltb d 16 ≡ true = ground arith in (b'a' + (d - 10), rw (hex, top), ground arith)
]

-- A digit of the base: its value and its character.
abbrev pub IsDigit : ℕ → ℕ → Type 0
IsDigit base c = (digit c < base) × (((b'0' ≤ c) × (c ≤ b'9')) ⊎ ((b'a' ≤ c) × (c ≤ b'f')))

-- What stands before `s`: "0" alone, or digits that do not begin with 0.
abbrev pub Leads : ℕ → Name → Name → Type 0
Leads num s t = ((num ≡ 0) × (t ≡ b'0' ∷ s)) ⊎ ((0 < num) × (get_or t 0 b'0' ≢ b'0'))

repr-IsDigit :
    (base d : ℕ)
    → d < base
    → base ≤ 16
    → Returns (repr d) λ c. IsDigit base c × (((d ≡ 0) × (c ≡ b'0')) ⊎ ((0 < d) × (c ≢ b'0')))
unfolding repr digit
repr-IsDigit base d low hi = elim (Bool-cases (ltb d 10)) [
  | inl dec ↦ (
    b'0' + d,
    rw dec refl,
    (
      (ground arith, inl (omega arith, ground arith)),
      elim (Bool-cases (d == 0)) [
        | inl none ↦ inl (ground arith, ground arith)
        | inr some ↦ inr (ground arith, ground arith)
      ],
    ),
  )
  | inr hex ↦
      let top : ltb d 16 ≡ true = ground arith in
      (
        b'a' + (d - 10),
        rw (hex, top) refl,
        ((ground arith, inr (omega arith, ground arith)), inr (ground arith, ground arith)),
      )
]

module _ (base : ℕ) (lo : 2 ≤ base) (hi : base ≤ 16) where
  base_pos : 0 < base
  base_pos = omega arith

  -- The last digit that is written.
  last_digit :
      (room num c : ℕ) (s : List ℕ)
      → (num / base == 0) ≡ true
      → digit c ≡ num % base
      → (read_from base 0 (c ∷ s) ≡ read_from base num s) × (length (c ∷ s) ≤ suc room + length s)
  unfolding read_from
  last_digit room num c s done e =
      let small : num / base ≡ 0 = (==_iff (num / base) 0).0 done in
      let whole : num % base ≡ num =
        omega (arith, div-add-mod' num base, ap (λ (t : ℕ). t * base) small) in
      (ap (λ (t : ℕ). read_from base t s) (omega (arith, e, whole)), omega arith)

  -- The digits that the loop puts before `s` read as `num`, and they are at most `room`.
  itoa_from-reads :
      (room num : ℕ) (s : List ℕ)
      → num < base ^ suc room
      → Returns
          (itoa_from (suc room) num base s)
          λ t. (read_from base 0 t ≡ read_from base num s) × (length t ≤ suc room + length s)
  unfolding itoa_from read_from
  itoa_from-reads zero num s small =
      let some_base : (base == 0) ≡ false = ground arith in
      let one : num < 1 * base =
        omega (arith, small, pow-suc base 0, ap (λ (t : ℕ). t * base) (pow-zero base)) in
      let done : (num / base == 0) ≡ true =
        (==_iff (num / base) 0).1 (omega (arith, (div-lt_iff_lt-mul base_pos).1 one)) in
      rw (some_base, itoa_from)
        (Returns-bind (digit-repr (num % base) (omega (arith, mod-lt num base_pos)))
          λ c e. rw done (c ∷ s, refl, last_digit 0 num c s done e))
  itoa_from-reads (suc room) num s small =
      let some_base : (base == 0) ≡ false = ground arith in
      let fits : num / base < base ^ suc room =
        (div-lt_iff_lt-mul base_pos).1 (rw (← pow-suc base (suc room)) small) in
      rw (some_base, itoa_from)
        (Returns-bind (digit-repr (num % base) (omega (arith, mod-lt num base_pos))) λ c e.
          elim (Bool-cases (num / base == 0)) [
            | inl done ↦ rw done (c ∷ s, refl, last_digit (suc room) num c s done e)
            | inr more ↦ rw more (
                Returns_mono (itoa_from-reads room (num / base) (c ∷ s) fits) λ t (r, n). (
                  r ∙ ap (λ (v : ℕ). read_from base v s) (rw e (div-add-mod' num base)),
                  omega (arith, n),
                ))
          ])

  -- A number that needs more digits runs over the front of the buffer.
  itoa_from-fault :
      (room num : ℕ) (s : List ℕ) → base ^ room ≤ num → itoa_from room num base s ≡ fault
  unfolding itoa_from
  itoa_from-fault zero num s big = refl
  itoa_from-fault (suc room) num s big =
      let some_base : (base == 0) ≡ false = ground arith in
      let still : base ^ room ≤ num / base =
        (le-div_iff_mul-le base_pos).1 (rw (← pow-suc base room) big) in
      let more : (num / base == 0) ≡ false = ground (arith, one-le-pow room base base_pos) in
      let (c, e, _) = digit-repr (num % base) (omega (arith, mod-lt num base_pos)) in
      rw (some_base, itoa_from, e, ◌>>=◌, more) (itoa_from-fault room (num / base) (c ∷ s) still)

  -- For a base from 2 to 16, `itoa` of a number with at most 49 digits returns at most 49 digits,
  -- which read back as the number.
  pub itoa-reads :
      (num : ℕ)
      → num < base ^ 49
      → Returns (itoa num base) λ t. (read_from base 0 t ≡ num) × (length t ≤ 49)
  unfolding itoa read_from
  itoa-reads num small =
      Returns_mono (itoa_from-reads 48 num [] small) λ t (r, n). (r, omega (arith, n))

  -- The first digit of a number, which is the last that is written, and those behind it.
  single :
      (num : ℕ) {c : ℕ} (s : Name)
      → (num / base == 0) ≡ true
      → ((num % base ≡ 0) × (c ≡ b'0')) ⊎ ((0 < num % base) × (c ≢ b'0'))
      → Leads num s (c ∷ s)
  single num s done kind =
      let small : num / base ≡ 0 = (==_iff (num / base) 0).0 done in
      let whole : num % base ≡ num =
        omega (arith, div-add-mod' num base, ap (λ (t : ℕ). t * base) small) in
      elim kind [
        | inl (none, at) ↦ inl (omega (arith, whole), ap (λ (x : ℕ). x ∷ s) at)
        | inr (some, other) ↦ inr (omega (arith, whole, some), other)
      ]

  further :
      (num : ℕ) {s' s : Name} (t : Name)
      → (num / base == 0) ≡ false
      → Leads (num / base) s' t
      → Leads num s t
  further num t more (inl (none, at)) =
      let other : (num / base == 0) ≡ true = (==_iff (num / base) 0).1 none in cc
  further num t more (inr (some, head)) = inr (omega (arith, some, div-le_self num base), head)

  itoa_from-Leads :
      (room num : ℕ) (s : Name)
      → num < base ^ suc room
      → All (IsDigit base) s
      → Returns (itoa_from (suc room) num base s) λ t. All (IsDigit base) t × Leads num s t
  unfolding itoa_from
  itoa_from-Leads zero num s small digits =
      let some_base : (base == 0) ≡ false = ground arith in
      let one : num < 1 * base =
        omega (arith, small, pow-suc base 0, ap (λ (t : ℕ). t * base) (pow-zero base)) in
      let done : (num / base == 0) ≡ true =
        (==_iff (num / base) 0).1 (omega (arith, (div-lt_iff_lt-mul base_pos).1 one)) in
      rw (some_base, itoa_from)
        (Returns-bind (repr-IsDigit base (num % base) (mod-lt num base_pos) hi)
          λ c (is_digit, kind). rw done (c ∷ s, refl, ((is_digit, digits), single num s done kind)))
  itoa_from-Leads (suc room) num s small digits =
      let some_base : (base == 0) ≡ false = ground arith in
      let fits : num / base < base ^ suc room =
        (div-lt_iff_lt-mul base_pos).1 (rw (← pow-suc base (suc room)) small) in
      rw (some_base, itoa_from)
        (Returns-bind (repr-IsDigit base (num % base) (mod-lt num base_pos) hi)
          λ c (is_digit, kind). elim (Bool-cases (num / base == 0)) [
            | inl done ↦ rw done (c ∷ s, refl, ((is_digit, digits), single num s done kind))
            | inr more ↦ rw more (
                Returns_mono (itoa_from-Leads room (num / base) (c ∷ s) fits (is_digit, digits))
                  λ t (all, leads). (all, further num t more leads))
          ])

  -- The digits are those of the base, and the first is not 0 unless the number is.
  pub itoa-Leads :
      (num : ℕ)
      → num < base ^ 49
      → Returns
          (itoa num base)
          λ t. (read_from base 0 t ≡ num) × All (IsDigit base) t × Leads num [] t
  unfolding itoa
  itoa-Leads num small =
      let (t, run, (all, leads)) = itoa_from-Leads 48 num [] small tt in
      (t, run, ((Returns-at (itoa-reads num small) run).0, all, leads))

  -- `itoa` of a larger number writes below its buffer: in base 2 this is every number from 2 ^ 49
  -- up, and so a part of `uint64_t`.
  pub itoa-fault : (num : ℕ) → base ^ 49 ≤ num → itoa num base ≡ fault
  unfolding itoa
  itoa-fault num big = itoa_from-fault 49 num [] big
