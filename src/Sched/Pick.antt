-- ===== src/Sched/Pick.antt =====
-- `get_next_thread` of proc/sched.c goes once around the ring.
use flan.Base.{
  ℕ, zero, suc, ◌<◌, ◌≡◌, ◌≢◌, refl, ap, ◌∙◌, inl, inr, Bool, Bool-cases, true, false, not, ◌||◌,
  ◌&&◌, List, [], ◌∷◌, All, ok, arith, ◌==◌, if◌then◌else◌, length,
}
use flan.Lock.{Spinlock, spinlock_test_and_acq}
use flan.Sched.{Thread, Threads, put, next_from, get_next_thread}
use flan.Sched.Ring.{Linked, IsRing}
use flan.Sched.Enqueue.{start_apart}

-- Neither blocked nor running, and no core holds its lock.
pub is_ready : Thread → Bool
is_ready t = not t.blocked && not t.running && t.lock == 0

-- The first ready thread of a list, or 0.
pub pick : Threads → List ℕ → ℕ
unfolding is_ready
pick s [] = 0
pick s (x ∷ xs) = if is_ready (s x) then x else pick s xs

-- The threads after a pick: the lock of the one that was picked is taken.
abbrev pub taken : Threads → ℕ → Threads
taken s n = if n == 0 then s else put s n (record (s n) { lock = 1 })

test-free : (l : Spinlock) → (l == 0) ≡ true → spinlock_test_and_acq l ≡ (true, 1)
unfolding spinlock_test_and_acq
test-free l free = rw free refl

test-held : (l : Spinlock) → (l == 0) ≡ false → spinlock_test_and_acq l ≡ (false, l)
unfolding spinlock_test_and_acq
test-held l held = rw held refl

next_from-pick :
    (fuel : ℕ) (s : Threads) (a c : ℕ) (xs : List ℕ)
    → Linked s a xs c
    → All (λ y. y ≢ c) xs
    → All (λ y. y ≢ 0) xs
    → length xs < fuel
    → next_from fuel (s a).next c s ≡ ok (pick s xs, taken s (pick s xs))
unfolding next_from pick is_ready
next_from-pick zero s a c xs links apart some' enough = absurd (omega arith)
next_from-pick (suc fuel) s a c [] (n, p) apart some' enough =
    let stop : (c == c) ≡ true = ground arith in rw (n, stop, next_from) refl
next_from-pick (suc fuel) s a c (x ∷ xs) (n, p, links) (ne, apart) (nz, some') enough =
    let go : (x == c) ≡ false = ground arith in
    let go' : (x == 0) ≡ false = ground arith in
    let rest = next_from-pick fuel s x c xs links apart some' (omega arith) in
    ap (λ (y : ℕ). next_from (suc fuel) y c s) n
    ∙ rw (go, go', next_from)
        (elim (Bool-cases ((s x).blocked || (s x).running)) [
          | inl busy ↦
              let not_ready : (not (s x).blocked && not (s x).running && (s x).lock == 0) ≡ false =
                ground arith in
              rw (not_ready, busy, next_from) rest
          | inr idle ↦ elim (Bool-cases ((s x).lock == 0)) [
            | inl free ↦
                let ready : (not (s x).blocked && not (s x).running && (s x).lock == 0) ≡ true =
                  ground arith in
                let got : (spinlock_test_and_acq (s x).lock).1 ≡ 1 =
                  ap (λ r. r.1) (test-free (s x).lock free) in
                rw (ready, idle, next_from, test-free (s x).lock free, go')
                  (ap (λ (w : ℕ). ok (x, put s x (record (s x) { lock = w }))) got)
            | inr held ↦
                let not_ready : (not (s x).blocked && not (s x).running && (s x).lock == 0)
                    ≡ false =
                  ground arith in
                rw (not_ready, idle, next_from, test-held (s x).lock held) rest
          ]
        ])

-- In a ring, with as many rounds as it has threads, `get_next_thread` returns the first thread
-- behind the current one that is ready, with its lock taken, and `NULL` when none is ready; it
-- changes no other thread.
pub get_next_thread-pick :
    (fuel : ℕ) (s : Threads) (c : ℕ) (xs : List ℕ)
    → IsRing s c xs
    → length xs < fuel
    → get_next_thread fuel c s ≡ ok (pick s xs, taken s (pick s xs))
unfolding get_next_thread
get_next_thread-pick fuel s c xs ring enough =
    next_from-pick fuel s c c xs ring.links (start_apart c xs ring.distinct) ring.some_others enough
