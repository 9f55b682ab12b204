-- ===== src/Initramfs/Octal.antt =====
-- `oct2int` of fs/initramfs.c and the numbers that an archive's headers write.
use flan.Base.{
  ℕ, zero, suc, ◌+◌, ◌*◌, ◌/◌, ◌%◌, ◌^◌, ◌≤◌, ◌<◌, ◌≡◌, ◌⊎◌, inl, inr, ap, ◌∙◌, sym, true, false,
  arith, ◌==◌,
}
use native.Mathlib.Nat.{
  pow-suc, div-div-eq-div-mul, div-one, add-zero, add_assoc, div-le_self, div-eq_of_lt,
}
use flan.Base.Words.{u64}
use flan.Mem.{Memory}
use flan.Initramfs.{digit, oct2int_from, oct2int}

-- The k octal digits of n stand at `str`, the highest first.
abbrev pub Digits : ℕ → ℕ → ℕ → Memory → Type 0
Digits zero n str m = Unit
Digits (suc k) n str m = (m str ≡ b'0' + n / 8 ^ k % 8) × Digits k n (str + 1) m

digit_lem : (d : ℕ) → d < 8 → digit (b'0' + d) ≡ d
digit_lem d low = ground arith

module _ (n : ℕ) (m : Memory) (small : n < 2 ^ 64) where
  oct2int_from-Digits :
      (k len str : ℕ)
      → k ≤ len
      → Digits k n str m
      → (k ≡ len) ⊎ (m (str + k) ≡ 0)
      → oct2int_from len str (n / 8 ^ k) m ≡ n
  unfolding oct2int_from
  oct2int_from-Digits zero zero str room digits stop = div-one n
  oct2int_from-Digits zero (suc len) str room digits (inl e) = absurd (omega arith)
  oct2int_from-Digits zero (suc len) str room digits (inr e) =
      let stop : (m str == 0) ≡ true = ground (arith, rw add-zero at e) in
      rw (stop, oct2int_from) (div-one n)
  oct2int_from-Digits (suc k) zero str room digits stop = absurd (omega arith)
  oct2int_from-Digits (suc k) (suc len) str room (here, later) stop =
      let q : ℕ = n / 8 ^ k in
      let some : (m str == 0) ≡ false = rw here (ground arith) in
      let high : n / 8 ^ suc k ≡ q / 8 =
        ap (λ (t : ℕ). n / t) (pow-suc 8 k) ∙ sym (div-div-eq-div-mul n (8 ^ k) 8) in
      let next : u64 (q / 8 * 8 + digit (b'0' + q % 8)) ≡ q =
        ap (λ (t : ℕ). u64 (q / 8 * 8 + t)) (digit_lem (q % 8) (omega arith))
        ∙ omega (arith, div-le_self n (8 ^ k)) in
      let stop' : (k ≡ len) ⊎ (m (str + 1 + k) ≡ 0) = elim stop [
        | inl e ↦ inl (omega arith)
        | inr e ↦ inr (rw (add_assoc str 1 k) (ap m (omega arith) ∙ e))
      ] in
      rw (some, oct2int_from, high, here, next)
        (oct2int_from-Digits k len (str + 1) (omega arith) later stop')

-- Let a field of at most `len` characters have the k octal digits of n, and be filled by them or end
-- with a zero byte. Where n has no more than k octal digits and is below 2 ^ 64, `oct2int` answers n.
pub oct2int-Digits :
    (k n len str : ℕ) (m : Memory)
    → n < 2 ^ 64
    → n < 8 ^ k
    → k ≤ len
    → Digits k n str m
    → (k ≡ len) ⊎ (m (str + k) ≡ 0)
    → oct2int str len m ≡ n
unfolding oct2int
oct2int-Digits k n len str m small fits room digits stop =
    ap (λ (t : ℕ). oct2int_from len str t m) (sym (div-eq_of_lt fits))
    ∙ oct2int_from-Digits n m small k len str room digits stop
