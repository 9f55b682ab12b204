-- ===== src/Mem/Compare.antt =====
-- What `memcmp` of lib/str.c answers.
use flan.Base.{
  ℕ, zero, suc, ◌+◌, ◌<◌, ◌≤◌, ==_iff, ◌≡◌, ◌≢◌, ◌⊎◌, inl, inr, refl, Bool-cases, ◌==◌, ltb, ltb→lt,
  arith, if◌then◌else◌,
}
use flan.Base.Int.{ℤ, pos, negsuc}
use flan.Mem.{Memory, memcmp_from, memcmp}

-- How `r` answers for the bytes with the numbers from `lo` up to and without `hi`: 0 if they agree,
-- and else by the first two that differ.
abbrev pub Compared : Memory → ℕ → ℕ → ℕ → ℕ → ℤ → Type 0
Compared m s1 s2 lo hi r =
    ((r ≡ pos 0) × ((j : ℕ) → lo ≤ j → j < hi → m (s1 + j) ≡ m (s2 + j)))
    ⊎ ((i : ℕ) × (lo ≤ i)
        × (i < hi)
        × ((j : ℕ) → lo ≤ j → j < i → m (s1 + j) ≡ m (s2 + j))
        × (((r ≡ negsuc 0) × (m (s1 + i) < m (s2 + i)))
            ⊎ ((r ≡ pos 1) × (m (s2 + i) < m (s1 + i)))))

module _ (m : Memory) (s1 s2 : ℕ) where
  agree :
      (lo : ℕ) {hi : ℕ}
      → m (s1 + lo) ≡ m (s2 + lo)
      → ((j : ℕ) → lo + 1 ≤ j → j < hi → m (s1 + j) ≡ m (s2 + j))
      → (j : ℕ) → lo ≤ j
      → j < hi
      → m (s1 + j) ≡ m (s2 + j)
  agree lo here rest j p q = elim (Bool-cases (lo == j)) [
    | inl e ↦ rw (← (==_iff lo j).0 e) here
    | inr later ↦ rest j (ground arith) q
  ]

  agree_Compared :
      (lo : ℕ) {hi : ℕ} {r : ℤ}
      → m (s1 + lo) ≡ m (s2 + lo)
      → Compared m s1 s2 (lo + 1) hi r
      → Compared m s1 s2 lo hi r
  agree_Compared lo here (inl (e, all)) = inl (e, agree lo here all)
  agree_Compared lo here (inr (i, p, q, all, sign)) =
      inr (i, omega arith, q, agree lo here all, sign)

  first_difference :
      (a b : ℕ)
      → a ≢ b
      → let r : ℤ = if ltb a b then negsuc 0 else pos 1 in
        ((r ≡ negsuc 0) × (a < b)) ⊎ ((r ≡ pos 1) × (b < a))
  first_difference a b ne = elim (Bool-cases (ltb a b)) [
    | inl lower ↦ inl (rw lower, ltb→lt a b lower)
    | inr higher ↦ inr (rw higher, ground arith)
  ]

  memcmp_from-Compared :
      (k lo hi : ℕ) → lo + k ≡ hi → Compared m s1 s2 lo hi (memcmp_from k lo s1 s2 m)
  unfolding memcmp_from
  memcmp_from-Compared zero lo hi end = inl (refl, λ j p q. absurd (omega arith))
  memcmp_from-Compared (suc k) lo hi end = elim (Bool-cases (m (s1 + lo) == m (s2 + lo))) [
    | inl same ↦ rw same (
        agree_Compared lo ((==_iff (m (s1 + lo)) (m (s2 + lo))).0 same)
          (memcmp_from-Compared k (lo + 1) hi (omega arith)))
    | inr other ↦ rw other (
        inr (
          lo,
          omega arith,
          omega arith,
          λ j p q. absurd (omega arith),
          first_difference (m (s1 + lo)) (m (s2 + lo)) (ground arith),
        ))
  ]

-- `memcmp` answers 0 exactly when the two blocks agree, and else -1 or 1 by which block has the
-- smaller byte at the first place where they differ.
pub memcmp-Compared : (s1 s2 size : ℕ) (m : Memory) → Compared m s1 s2 0 size (memcmp s1 s2 size m)
unfolding memcmp
memcmp-Compared s1 s2 size m = memcmp_from-Compared m s1 s2 size 0 size (omega arith)
