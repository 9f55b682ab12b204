-- ===== src/Base/Bits.antt =====
-- Masks and flags at variables: `&` with a run of ones, and `|` of parts that share no bit.
use Prim.Native.Nat.{
  ℕ, zero, suc, ◌+◌, ◌*◌, ◌/◌, ◌%◌, ◌-◌, ◌≤◌, ◌<◌, ◌^◌, min, max, bit_and, bit_or, digits,
  bit_and-bitwise, bit_or-bitwise,
}
use mathlib.Core.Path.{◌≡◌, refl, sym, ◌∙◌, ap}
use native.Mathlib.Omega.{arith}
use native.Mathlib.Nat.{
  pow-suc, one-le-pow, one-mul, mul-one, mul_right_comm, div-add-mod, mod-lt, mod-eq_of_lt,
  add-mul-mod_self_right, mul_comm, mul_assoc, div-div-eq-div-mul, min-zero, div-one, add-zero,
}

-- Digits to go beyond the number's own do not change the result.
digits_enough :
    (g : ℕ → ℕ) (f : ℕ → ℕ → ℕ) (n m a b : ℕ) → a ≤ n → a ≤ m → digits g f n a b ≡ digits g f m a b
digits_enough g f zero zero zero b p q = refl
digits_enough g f zero (suc m) zero b p q = refl
digits_enough g f (suc n) zero zero b p q = refl
digits_enough g f (suc n) (suc m) zero b p q = refl
digits_enough g f (suc n) (suc m) (suc a) b p q =
    ap (λ t. t * 2 + f (suc a % 2) (b % 2))
      (digits_enough g f n m (suc a / 2) (b / 2) (omega arith) (omega arith))
digits_enough g f zero m (suc a) b p q = absurd (omega arith)
digits_enough g f (suc n) zero (suc a) b p q = absurd (omega arith)

-- The lowest digit and the others, of `&`.
and_low : (a b : ℕ) → bit_and a b ≡ bit_and (a / 2) (b / 2) * 2 + min (a % 2) (b % 2)
and_low zero b = omega (arith, bit_and-bitwise 0 b, bit_and-bitwise 0 (b / 2))
and_low (suc a) b =
    bit_and-bitwise (suc a) b
    ∙ ap (λ t. t * 2 + min (suc a % 2) (b % 2))
        (digits_enough (λ _. 0) min a (suc a / 2) (suc a / 2) (b / 2) (omega arith) (omega arith)
          ∙ sym (bit_and-bitwise (suc a / 2) (b / 2)))

-- The same of `|`.
or_low : (a b : ℕ) → bit_or a b ≡ bit_or (a / 2) (b / 2) * 2 + max (a % 2) (b % 2)
or_low zero b = omega (arith, bit_or-bitwise 0 b, bit_or-bitwise 0 (b / 2))
or_low (suc a) b =
    bit_or-bitwise (suc a) b
    ∙ ap (λ t. t * 2 + max (suc a % 2) (b % 2))
        (digits_enough (λ t. t) max a (suc a / 2) (suc a / 2) (b / 2) (omega arith) (omega arith)
          ∙ sym (bit_or-bitwise (suc a / 2) (b / 2)))

two_pow_pos : (n : ℕ) → 0 < 2 ^ n
two_pow_pos n = one-le-pow n 2 (omega arith)

and_zero_below : (n a : ℕ) → a ≤ n → bit_and a 0 ≡ 0
and_zero_below zero a h = let e : a ≡ 0 = omega arith in rw e
and_zero_below (suc n) zero h = refl
and_zero_below (suc n) (suc a) h =
    omega (arith, and_low (suc a) 0, and_zero_below n (suc a / 2) (omega arith))

pub bit_and-zero : (a : ℕ) → bit_and a 0 ≡ 0
bit_and-zero a = and_zero_below a a (omega arith)

-- A remainder by twice p, digit by digit.
mod_double : (a p : ℕ) → 0 < p → a % (p * 2) ≡ a / 2 % p * 2 + a % 2
mod_double a p h =
    let q : ℕ = a / 2 / p in
    let r : ℕ = a / 2 % p in
    let e : a ≡ (r * 2 + a % 2) + q * (p * 2) =
      omega (arith, ap (λ (t : ℕ). t * 2) (div-add-mod (a / 2) p)) in
    let small : r * 2 + a % 2 < p * 2 = omega (arith, mod-lt (a / 2) h) in
    ap (λ (t : ℕ). t % (p * 2)) e
    ∙ add-mul-mod_self_right (r * 2 + a % 2) q (p * 2)
    ∙ mod-eq_of_lt small

-- `a & (2 ^ m - 1)` keeps the low m bits.
pub bit_and-ones : (m a : ℕ) → bit_and a (2 ^ m - 1) ≡ a % 2 ^ m
bit_and-ones zero a = omega (arith, bit_and-zero a)
bit_and-ones (suc m) a =
    let p = two_pow_pos m in
    let e : (2 ^ m * 2 - 1) / 2 ≡ 2 ^ m - 1 = omega arith in
    let i : (2 ^ m * 2 - 1) % 2 ≡ 1 = omega arith in
    rw pow-suc (
      and_low a (2 ^ m * 2 - 1)
      ∙ rw (e, i, bit_and-ones m (a / 2), mod_double a (2 ^ m) p) (omega arith))

half_double : (v : ℕ) → v * 2 / 2 ≡ v
half_double v = omega arith

double_mod : (v : ℕ) → v * 2 % 2 ≡ 0
double_mod v = omega arith

and_double : (a v : ℕ) → bit_and a (v * 2) ≡ bit_and (a / 2) v * 2
and_double a v =
    and_low a (v * 2) ∙ rw (half_double v, double_mod v) (omega (arith, min-zero (a % 2)))

or_double : (v b : ℕ) → bit_or (v * 2) b ≡ bit_or v (b / 2) * 2 + b % 2
or_double v b = or_low (v * 2) b ∙ rw (half_double v, double_mod v) (omega arith)

-- `a & ((2 ^ m - 1) << k)` keeps m bits at position k.
pub bit_and-mask : (k m a : ℕ) → bit_and a (2 ^ k * (2 ^ m - 1)) ≡ a / 2 ^ k % 2 ^ m * 2 ^ k
bit_and-mask zero m a = rw (one-mul, div-one, mul-one) (bit_and-ones m a)
bit_and-mask (suc k) m a =
    let e : 2 ^ k * 2 * (2 ^ m - 1) ≡ 2 ^ k * (2 ^ m - 1) * 2 =
      mul_right_comm (2 ^ k) 2 (2 ^ m - 1) in
    let d : a / 2 / 2 ^ k ≡ a / (2 ^ k * 2) =
      div-div-eq-div-mul a 2 (2 ^ k) ∙ ap (λ (t : ℕ). a / t) (mul_comm 2 (2 ^ k)) in
    rw (pow-suc 2 k, e, and_double, bit_and-mask k m (a / 2), d) (mul_assoc _ (2 ^ k) 2)

or_zero_below : (n a : ℕ) → a ≤ n → bit_or a 0 ≡ a
or_zero_below zero a h = let e : a ≡ 0 = omega arith in rw e
or_zero_below (suc n) zero h = refl
or_zero_below (suc n) (suc a) h =
    omega (arith, or_low (suc a) 0, or_zero_below n (suc a / 2) (omega arith))

-- `(a << k) | b` where b has at most k bits.
pub bit_or-add : (k a b : ℕ) → b < 2 ^ k → bit_or (a * 2 ^ k) b ≡ a * 2 ^ k + b
bit_or-add zero a b h =
    let e : b ≡ 0 = omega arith in rw (e, mul-one, add-zero) (or_zero_below a a (omega arith))
bit_or-add (suc k) a b h =
    let e : a * 2 ^ suc k ≡ a * 2 ^ k * 2 = rw pow-suc (sym (mul_assoc a (2 ^ k) 2)) in
    let small : b / 2 < 2 ^ k = omega (arith, pow-suc 2 k) in
    rw (e, or_double, bit_or-add k a (b / 2) small) (omega arith)

-- Three flags in the low bits of a number whose last three bits are 0.
pub bit_or-flags : (q : ℕ) → bit_or (bit_or (bit_or (q * 8) 1) 2) 4 ≡ q * 8 + 7
bit_or-flags q =
    let one : bit_or (q * 8) 1 ≡ q * 8 + 1 = bit_or-add 3 q 1 (omega arith) in
    let one' : bit_or (q * 4) 1 ≡ q * 4 + 1 = bit_or-add 2 q 1 (omega arith) in
    let one'' : bit_or (q * 2) 1 ≡ q * 2 + 1 = bit_or-add 1 q 1 (omega arith) in
    let h : (q * 8 + 1) / 2 ≡ q * 4 = omega arith in
    let h' : (q * 4 + 1) / 2 ≡ q * 2 = omega arith in
    let h'' : (q * 8 + 3) / 2 ≡ q * 4 + 1 = omega arith in
    let two : bit_or (q * 8 + 1) 2 ≡ q * 8 + 3 =
      omega (arith, rw (h, one') at (or_low (q * 8 + 1) 2)) in
    let two' : bit_or (q * 4 + 1) 2 ≡ q * 4 + 3 =
      omega (arith, rw (h', one'') at (or_low (q * 4 + 1) 2)) in
    rw (one, two) (omega (arith, rw (h'', two') at (or_low (q * 8 + 3) 4)))

-- `|` of numbers of k binary digits has k binary digits.
pub bit_or-lt : (k a b : ℕ) → a < 2 ^ k → b < 2 ^ k → bit_or a b < 2 ^ k
bit_or-lt zero a b p q =
    let e : a ≡ 0 = omega arith in
    let e' : b ≡ 0 = omega arith in rw (e, e') (omega (arith, or_zero_below 0 0 (omega arith)))
bit_or-lt (suc k) a b p q =
    let low : bit_or (a / 2) (b / 2) < 2 ^ k =
      bit_or-lt k (a / 2) (b / 2) (omega (arith, pow-suc 2 k)) (omega (arith, pow-suc 2 k)) in
    rw (or_low a b, pow-suc 2 k) (omega (arith, low))
