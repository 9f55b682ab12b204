-- ===== src/Pmm/Byte.antt =====
-- The bit macros of lib/stddef.h on one byte, checked for all bytes and bits.
use flan.Base.{
  ℕ, zero, suc, ◌<◌, ◌≡◌, refl, Bool, true, ◌&&◌, arith, ◌==◌, ==_iff, ltb, if◌then◌else◌,
}
use flan.Pmm.{byte_set, byte_clear, byte_test}

all_below : ℕ → (ℕ → Bool) → Bool
all_below zero p = true
all_below (suc n) p = p n && all_below n p

all_below-at : (n : ℕ) (p : ℕ → Bool) (x : ℕ) → all_below n p ≡ true → x < n → p x ≡ true
unfolding all_below
all_below-at zero p x h lt = absurd (omega arith)
all_below-at (suc n) p x h lt = ground (arith, all_below-at n p x)

-- One byte and two bits: what each macro leaves.
abbrev byte_laws : ℕ → ℕ → ℕ → Bool
byte_laws b i j =
    ltb (byte_set b i) 256
    && ltb (byte_clear b i) 256
    && byte_test (byte_set b i) j == (if i == j then 1 else byte_test b j)
    && byte_test (byte_clear b i) j == (if i == j then 0 else byte_test b j)
    && ltb (byte_test b j) 2

laws_table : all_below 256 (λ b. all_below 8 λ i. all_below 8 λ j. byte_laws b i j) ≡ true
unfolding all_below
laws_table = refl

laws_hold : (b i j : ℕ) → b < 256 → i < 8 → j < 8 → byte_laws b i j ≡ true
laws_hold b i j hb hi hj =
    all_below-at 8 _ j (all_below-at 8 _ i (all_below-at 256 _ b laws_table hb) hi) hj

module _ (b i j : ℕ) (hb : b < 256) (hi : i < 8) (hj : j < 8) where
  pub byte_set-lt : byte_set b i < 256
  byte_set-lt = ground (arith, laws_hold b i j hb hi hj)

  pub byte_clear-lt : byte_clear b i < 256
  byte_clear-lt = ground (arith, laws_hold b i j hb hi hj)

  pub byte_test-set : byte_test (byte_set b i) j ≡ (if i == j then 1 else byte_test b j)
  byte_test-set = ground (arith, laws_hold b i j hb hi hj)

  pub byte_test-clear : byte_test (byte_clear b i) j ≡ (if i == j then 0 else byte_test b j)
  byte_test-clear = ground (arith, laws_hold b i j hb hi hj)

  pub byte_test-lt : byte_test b j < 2
  byte_test-lt = ground (arith, laws_hold b i j hb hi hj)

ones_table : all_below 8 (λ k. byte_test 0xff k == 1) ≡ true
unfolding all_below
ones_table = refl

pub byte_test-ones : (k : ℕ) → k < 8 → byte_test 0xff k ≡ 1
byte_test-ones k h = (==_iff (byte_test 0xff k) 1).0 (all_below-at 8 _ k ones_table h)
