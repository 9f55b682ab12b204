-- ===== src/Str/Same.antt =====
-- When two strings are the same: `strcmp` of lib/str.c, and the relation that it decides.
use flan.Base.{
  ℕ, ◌+◌, ◌<◌, ◌≡◌, refl, ◌⊎◌, inl, inr, Bool, true, false, ◌&&◌, ok, arith, ◌==◌, Bool-cases,
}
use flan.Mem.{Memory, memcmp}
use flan.Mem.Compare.{memcmp-Compared}
use flan.Str.{is_zero, strcmp}
use flan.Str.Chars.{IsString, strlen_iff}

-- The blocks of `n` bytes at `p` and of `k` bytes at `q` have the same length and bytes.
abbrev pub SameBytes : Memory → ℕ → ℕ → ℕ → ℕ → Type 0
SameBytes m p n q k = (n ≡ k) × ((i : ℕ) → i < n → m (p + i) ≡ m (q + i))

-- The test that lib/hashmap.c and `strcmp` make.
abbrev pub same_bytes : Memory → ℕ → ℕ → ℕ → ℕ → Bool
same_bytes m p n q k = n == k && is_zero (memcmp p q n m)

module _ (m : Memory) (p n q k : ℕ) where
  pub same_bytes-SameBytes : same_bytes m p n q k ≡ true → SameBytes m p n q k
  same_bytes-SameBytes h = elim (memcmp-Compared p q n m) [
    | inl (e, all) ↦ (ground arith, λ i low. all i (omega arith) low)
    | inr (i, lo, low, agree, sign) ↦ absurd (ground arith)
  ]

  pub SameBytes-same_bytes : SameBytes m p n q k → same_bytes m p n q k ≡ true
  SameBytes-same_bytes (length, bytes) = elim (memcmp-Compared p q n m) [
    | inl (e, all) ↦ rw e (ground arith)
    | inr (i, lo, low, agree, sign) ↦ let differ = bytes i low in absurd (omega arith)
  ]

-- `strcmp` of two strings returns, and answers `false` exactly if they have the same bytes.
pub strcmp-SameBytes :
    (m : Memory) (p n q k : ℕ)
    → IsString m p n
    → IsString m q k
    → ((strcmp p q m ≡ ok false) × SameBytes m p n q k)
      ⊎ ((strcmp p q m ≡ ok true) × ¬ SameBytes m p n q k)
unfolding strcmp
strcmp-SameBytes m p n q k s t = elim (Bool-cases (same_bytes m p n q k)) [
  | inl yes' ↦ inl (
    rw ((strlen_iff m p n).1 s, (strlen_iff m q k).1 t, yes') refl,
    same_bytes-SameBytes m p n q k yes',
  )
  | inr no' ↦ inr (
    rw ((strlen_iff m p n).1 s, (strlen_iff m q k).1 t, no') refl,
    λ h. let e = SameBytes-same_bytes m p n q k h in cc,
  )
]
