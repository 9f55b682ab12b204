-- ===== src/Lock.antt =====
-- lib/lock.c: the spinlock that every component takes.
pub mod Spin
pub mod Exclusion
mod Tests
use flan.Base.{
  ℕ, zero, suc, ◌+◌, Bool, true, false, Outcome, ok, halt, fault, ◌==◌, ltb, if◌then◌else◌,
}

-- The word `lock` of a `spinlock_t`; its field `file` is only printed.
abbrev pub Spinlock : Type 0
Spinlock = ℕ

abbrev pub lock_init : Spinlock
lock_init = 0

-- `__sync_bool_compare_and_swap`: whether the word was swapped, and the word after it.
abbrev pub cas : ℕ → ℕ → ℕ → Bool × ℕ
cas word old new = if word == old then (true, new) else (false, word)

unfoldable pub spinlock_test_and_acq : Spinlock → Bool × Spinlock
spinlock_test_and_acq l = cas l 0 1

abbrev pub max_spins : ℕ
max_spins = 10000000

-- The loop of `spinlock_acquire`, on fuel. `sees i` is the word at the attempt with number `i`:
-- other cores may change it in between. `fault` means that the fuel ran out.
unfoldable pub spin : ℕ → (ℕ → Spinlock) → ℕ → Outcome Spinlock
unfolding spinlock_test_and_acq
spin zero sees spinlock_count = fault
spin (suc fuel) sees spinlock_count =
    let (acquired, word) = spinlock_test_and_acq (sees spinlock_count) in
    elim acquired [
      | true ↦ ok word
      | false ↦ elim (ltb max_spins (spinlock_count + 1)) [
        | true ↦ halt
        | false ↦ spin fuel sees (spinlock_count + 1)
      ]
    ]

-- `spinlock_acquire` against other cores.
unfoldable pub acquire_among : (ℕ → Spinlock) → Outcome Spinlock
unfolding spin
acquire_among sees = spin (max_spins + 1) sees 0

-- `spinlock_acquire` where no other core touches the lock meanwhile.
unfoldable pub spinlock_acquire : Spinlock → Outcome Spinlock
spinlock_acquire l = acquire_among (λ _. l)

unfoldable pub spinlock_release : Spinlock → Spinlock
spinlock_release l = (cas l 1 0).1
