-- ===== src/Lock/Spin.antt =====
-- When `spinlock_acquire` returns, and when it gives up.
use flan.Base.{
  ℕ, zero, suc, ◌+◌, ◌≤◌, ◌<◌, ◌≡◌, ◌≢◌, refl, ◌⊎◌, inl, inr, Outcome, ok, halt, arith, ◌==◌,
  ==_iff, ltb, Bool-cases,
}
use flan.Lock.{Spinlock, max_spins, spin, acquire_among, spinlock_acquire, spinlock_release}

-- How the attempts from number `count` on end.
abbrev pub Ended : (ℕ → Spinlock) → ℕ → Outcome Spinlock → Type 0
Ended sees count r =
    ((i : ℕ) × (count ≤ i)
      × (i ≤ max_spins)
      × (sees i ≡ 0)
      × ((j : ℕ) → count ≤ j → j < i → sees j ≢ 0)
      × (r ≡ ok 1))
    ⊎ (((j : ℕ) → count ≤ j → j ≤ max_spins → sees j ≢ 0) × (r ≡ halt))

-- An attempt that failed comes before the others.
widen :
    (sees : ℕ → Spinlock) (count : ℕ) {r : Outcome Spinlock}
    → sees count ≢ 0
    → Ended sees (count + 1) r
    → Ended sees count r
widen sees count held (inl (i, lo, hi, free, first, e)) =
    inl (i, omega arith, hi, free, λ j p q. earlier j p (first j) q, e)
  where
    earlier : (j : ℕ) → count ≤ j → (count + 1 ≤ j → j < i → sees j ≢ 0) → j < i → sees j ≢ 0
    earlier j p rest q = elim (Bool-cases (count == j)) [
      | inl here ↦ rw (← (==_iff count j).0 here) held
      | inr later ↦ rest (ground arith) q
    ]
widen sees count held (inr (all, e)) = inr (λ j p q. after j p (all j) q, e)
  where
    after :
        (j : ℕ)
        → count ≤ j
        → (count + 1 ≤ j → j ≤ max_spins → sees j ≢ 0)
        → j ≤ max_spins
        → sees j ≢ 0
    after j p rest q = elim (Bool-cases (count == j)) [
      | inl here ↦ rw (← (==_iff count j).0 here) held
      | inr later ↦ rest (ground arith) q
    ]

spin-Ended :
    (fuel : ℕ) (sees : ℕ → Spinlock) (count : ℕ)
    → count ≤ max_spins
    → max_spins + 1 ≤ fuel + count
    → Ended sees count (spin fuel sees count)
unfolding spin
spin-Ended zero sees count low enough = absurd (omega arith)
spin-Ended (suc fuel) sees count low enough = elim (Bool-cases (sees count == 0)) [
  | inl free ↦
      rw (free, spin) (inl (count, ground arith, low, ground arith, ground arith, ground arith))
  | inr held ↦
      rw (held, spin)
        (elim (Bool-cases (ltb max_spins (count + 1))) [
          | inl last ↦ rw (last, spin) (inr (ground arith, refl))
          | inr more ↦
              rw (more, spin)
                (widen sees count (ground arith)
                  (spin-Ended fuel sees (count + 1) (ground arith) (omega arith)))
        ])
]

-- `spinlock_acquire` makes at most 10000001 attempts. It returns with the lock taken at the first
-- attempt that finds the word 0, and halts exactly when none of them does.
pub acquire_among_lem : (sees : ℕ → Spinlock) → Ended sees 0 (acquire_among sees)
unfolding acquire_among
acquire_among_lem sees = spin-Ended (max_spins + 1) sees 0 (omega arith) (omega arith)

pub acquire-free : spinlock_acquire 0 ≡ ok 1
unfolding spinlock_acquire acquire_among
acquire-free = refl

pub acquire-held : (l : Spinlock) → l ≢ 0 → spinlock_acquire l ≡ halt
unfolding spinlock_acquire
acquire-held l held = elim (acquire_among_lem (λ _. l)) [
  | inl (i, lo, hi, free, first, e) ↦ absurd (held free)
  | inr (all, e) ↦ e
]

pub release-acquired : spinlock_release 1 ≡ 0
unfolding spinlock_release
release-acquired = refl
