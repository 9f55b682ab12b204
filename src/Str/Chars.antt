-- ===== src/Str/Chars.antt =====
-- `strlen` and `strchr` of lib/str.c.
use flan.Base.{
  ℕ, zero, suc, ◌+◌, ◌-◌, ◌^◌, ◌≤◌, ◌<◌, ◌≡◌, ◌≢◌, ◌↔◌, refl, ◌⊎◌, inl, inr, ap, true, false, ok,
  Returns, Returns_mono, ok-injective, arith, ◌==◌, ==_iff, Bool-cases,
}
use native.Mathlib.Nat.{add-zero}
use flan.Mem.{Memory}
use flan.Str.{max_length, strlen_from, strlen, strchr_from, strchr}

-- A string of `n` bytes and a final zero byte stands at `p`.
pub record IsString (m : Memory) (p n : ℕ) : Type 0 where
  pub short : n < max_length
  pub end : m (p + n) ≡ 0
  pub nonzero : (i : ℕ) → i < n → m (p + i) ≢ 0

module _ (m : Memory) (p : ℕ) where
  strlen_from-end :
      (left ct n : ℕ)
      → ct ≤ n
      → n < ct + left
      → m (p + n) ≡ 0
      → ((i : ℕ) → i < n → m (p + i) ≢ 0)
      → strlen_from left ct p m ≡ ok n
  unfolding strlen_from
  strlen_from-end zero ct n low room end nonzero = absurd (omega arith)
  strlen_from-end (suc left) ct n low room end nonzero = elim (Bool-cases (ct == n)) [
    | inl here ↦
        let e : ct ≡ n = (==_iff ct n).0 here in
        let stop : (m (p + ct) == 0) ≡ true = (==_iff (m (p + ct)) 0).1 (rw e end) in
        rw (stop, strlen_from) (ap ok e)
    | inr before ↦
        let later : ct + 1 ≤ n = ground arith in
        let go : (m (p + ct) == 0) ≡ false = ground (arith, nonzero ct) in
        rw (go, strlen_from) (strlen_from-end left (ct + 1) n later (omega arith) end nonzero)
  ]

  strlen_from-ok :
      (left ct n : ℕ)
      → strlen_from left ct p m ≡ ok n
      → (ct ≤ n) × (n < ct + left) × (m (p + n) ≡ 0) × ((i : ℕ) → ct ≤ i → i < n → m (p + i) ≢ 0)
  unfolding strlen_from
  strlen_from-ok zero ct n run = cc
  strlen_from-ok (suc left) ct n run = elim (Bool-cases (m (p + ct) == 0)) [
    | inl stop ↦
        let e : ct ≡ n = ok-injective (rw (stop, strlen_from) at run) in
        (
          omega arith,
          omega arith,
          rw (← e) ((==_iff (m (p + ct)) 0).0 stop),
          λ i a b. absurd (omega arith),
        )
    | inr go ↦
        let (lo, hi, end, nonzero) = strlen_from-ok left (ct + 1) n (rw (go, strlen_from) at run) in
        (
          omega arith,
          omega arith,
          end,
          λ i a b. elim (Bool-cases (ct == i)) [
            | inl here ↦ rw (← (==_iff ct i).0 here) (ground arith)
            | inr after ↦ nonzero i (ground arith) b
          ],
        )
  ]

  -- `strlen` returns n exactly when a string of n bytes stands at `p`, shorter than 2 ^ 31 bytes.
  pub strlen_iff : (n : ℕ) → (strlen p m ≡ ok n) ↔ IsString m p n
  unfolding strlen
  strlen_iff n = (
    λ run.
        let (lo, hi, end, nonzero) = strlen_from-ok max_length 0 n run in
        record { short = omega arith; end = end; nonzero = λ i h. nonzero i (omega arith) h },
    λ s. strlen_from-end max_length 0 n (omega arith) (omega (arith, s.short)) s.end s.nonzero,
  )

  -- The first `c` among the bytes with the numbers from `lo` up to and with `n`, or `NULL`.
  abbrev pub FirstChar : ℕ → ℕ → ℕ → ℕ → Type 0
  FirstChar c lo n r =
      ((i : ℕ) × (lo ≤ i)
        × (i ≤ n)
        × (r ≡ p + i)
        × (m (p + i) ≡ c)
        × ((j : ℕ) → lo ≤ j → j < i → m (p + j) ≢ c))
      ⊎ ((r ≡ 0) × ((j : ℕ) → lo ≤ j → j ≤ n → m (p + j) ≢ c))

  FirstChar-next :
      (c lo n : ℕ) {r : ℕ} → m (p + lo) ≢ c → FirstChar c (lo + 1) n r → FirstChar c lo n r
  FirstChar-next c lo n other (inl (i, a, b, e, hit, first)) = inl (
    i,
    omega arith,
    b,
    e,
    hit,
    λ j u v. elim (Bool-cases (lo == j)) [
      | inl here ↦ rw (← (==_iff lo j).0 here) other
      | inr after ↦ first j (ground arith) v
    ],
  )
  FirstChar-next c lo n other (inr (e, no_char)) = inr (
    e,
    λ j u v. elim (Bool-cases (lo == j)) [
      | inl here ↦ rw (← (==_iff lo j).0 here) other
      | inr after ↦ no_char j (ground arith) v
    ],
  )

  strchr_from-FirstChar :
      (left c lo n : ℕ)
      → lo ≤ n
      → n < lo + left
      → m (p + n) ≡ 0
      → ((i : ℕ) → i < n → m (p + i) ≢ 0)
      → Returns (strchr_from left (p + lo) c m) (FirstChar c lo n)
  unfolding strchr_from
  strchr_from-FirstChar zero c lo n low room end nonzero = absurd (omega arith)
  strchr_from-FirstChar (suc left) c lo n low room end nonzero =
      elim (Bool-cases (m (p + lo) == c)) [
        | inl hit ↦
            rw (hit, strchr_from)
              (
                p + lo,
                refl,
                inl (lo, omega arith, low, refl, ground arith, λ j u v. absurd (omega arith)),
              )
        | inr other ↦ elim (Bool-cases (m (p + lo) == 0)) [
          | inl stop ↦
              let e : lo ≡ n = ground (arith, nonzero lo) in
              rw (other, strchr_from, stop)
                (
                  0,
                  refl,
                  inr (refl, λ j u v. let at : j ≡ lo = omega arith in rw at (ground arith)),
                )
          | inr go ↦
              let later : lo + 1 ≤ n = ground arith in
              let next : p + lo + 1 ≡ p + (lo + 1) = omega arith in
              rw (other, strchr_from, go, next)
                (Returns_mono
                  (strchr_from-FirstChar left c (lo + 1) n later (omega arith) end nonzero)
                  λ r found. FirstChar-next c lo n (ground arith) found)
        ]
      ]

  -- `strchr` on a string inside the address space returns the first place of the character, the
  -- final zero byte included, and `NULL` if it does not occur.
  pub strchr-FirstChar :
      (c n : ℕ) → IsString m p n → p + n < 2 ^ 64 → Returns (strchr p c m) (FirstChar c 0 n)
  unfolding strchr
  strchr-FirstChar c n s inside =
      rw add-zero at
        (strchr_from-FirstChar (2 ^ 64 - p) c 0 n (omega arith) (omega arith) s.end s.nonzero)
