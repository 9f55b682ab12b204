-- ===== src/Lock/Tests.antt =====
-- lib/lock.c at concrete runs: a lock that becomes free, and a core that takes one.
use flan.Base.{ℕ, ◌≡◌, refl, true, false, ltb, if◌then◌else◌}
use flan.Lock.{Spinlock, acquire_among, spinlock_test_and_acq}
use flan.Lock.Spin.{Ended, acquire_among_lem}
use flan.Lock.Exclusion.{Cores, Step, attempt, start, next, mark, mutual_exclusion}

-- Held for two attempts.
abbrev held_twice : ℕ → Spinlock
held_twice i = if ltb i 2 then 1 else 0

acquire_among_lem_example : Ended held_twice 0 (acquire_among held_twice)
acquire_among_lem_example = acquire_among_lem held_twice

abbrev idle : Cores
idle = record { word = 0; inside = λ _. false }

abbrev one_inside : Cores
one_inside = record { word = 1; inside = mark (λ _. false) 3 true }

takes : Step idle one_inside
unfolding spinlock_test_and_acq
takes = attempt 3 refl refl

mutual_exclusion_example : ◌≡◌ {A = ℕ} 3 3
mutual_exclusion_example =
    mutual_exclusion {s = one_inside} 3 3 (next (start idle refl (λ _. refl)) takes) refl refl
