-- ===== src/Sched.antt =====
-- proc/sched.c: the ring of threads, and how a core picks the next one.
pub mod Ring
pub mod Enqueue
pub mod Dequeue
pub mod Pick
mod Tests
use flan.Base.{
  ℕ, zero, suc, ◌+◌, ◌-◌, ◌*◌, ◌%◌, Bool, true, false, ◌||◌, Outcome, ok, fault, ◌>>=◌, ◌==◌,
  if◌then◌else◌,
}
use flan.Base.Words.{add64, sub64}
use flan.Lock.{Spinlock, lock_init, spinlock_test_and_acq, spinlock_acquire, spinlock_release}

-- `thread_t`, with the fields that the scheduler uses; `state` is the address of the saved frame.
pub record Thread : Type 0 where
  pub prev : ℕ
  pub next : ℕ
  pub cr3 : ℕ
  pub running : Bool
  pub process : ℕ
  pub lock : Spinlock
  pub state : ℕ
  pub timeslice : ℕ
  pub enqueued : Bool
  pub blocked : Bool
  pub gs_base : ℕ

-- The thread at each address.
abbrev pub Threads : Type 0
Threads = ℕ → Thread

abbrev pub put : Threads → ℕ → Thread → Threads
put s a t b = if a == b then t else s b

-- `sched_queue_t`
pub record SchedQueue : Type 0 where
  pub start : ℕ
  pub end : ℕ
  pub lock : Spinlock

-- What one core has: its current and idle threads, the registers that a switch sets, and the time
-- slice that the timer was last armed with.
pub record CpuLocal : Type 0 where
  pub current_thread : ℕ
  pub idle_thread : ℕ
  pub gs_base : ℕ
  pub kgs_base : ℕ
  pub cr3 : ℕ
  pub timer : ℕ

pub record Sched : Type 0 where
  pub threads : Threads
  pub queue : SchedQueue
  pub cpu : CpuLocal

-- The links that `sched_enqueue_thread` writes, in the order of the code.
unfoldable pub link_last : Threads → ℕ → ℕ → ℕ → Threads
link_last s start end thread =
    let s1 = put s thread (record (s thread) { prev = end }) in
    let s2 = put s1 end (record (s1 end) { next = thread }) in
    let s3 = put s2 thread (record (s2 thread) { next = start }) in
    put s3 start (record (s3 start) { prev = thread })

unfoldable pub sched_enqueue_thread : ℕ → Sched → Outcome (Bool × Sched)
sched_enqueue_thread thread s = if (s.threads thread).enqueued then ok (true, s) else do
  lock ← spinlock_acquire s.queue.lock
  let is_empty = s.queue.start == 0 || s.queue.end == 0
  let start = if is_empty then thread else s.queue.start
  let end = if is_empty then thread else s.queue.end
  let threads = link_last s.threads start end thread
  ok (
    true,
    record s {
      threads = put threads thread (record (threads thread) { enqueued = true });
      queue = record { start = start; end = thread; lock = spinlock_release lock };
    },
  )

-- The links that `dequeue_thread` writes; it leaves the queue's ends as they are.
unfoldable pub unlink : Threads → ℕ → Threads
unlink s thread =
    let n = (s thread).next in
    let s1 = put s n (record (s n) { prev = (s thread).prev }) in
    let p = (s1 thread).prev in put s1 p (record (s1 p) { next = (s1 thread).next })

unfoldable pub dequeue_thread : ℕ → Sched → Bool × Sched
dequeue_thread thread s =
    if (s.threads thread).enqueued
    then (
      true,
      let threads = unlink s.threads thread in
          record s {
            threads = put threads thread (record (threads thread) {
              lock = spinlock_release (threads thread).lock;
              enqueued = false;
              running = false;
            });
          },
    )
    else (true, s)

-- The loop of `get_next_thread`, on fuel; the first result is `NULL` or the thread, whose lock is
-- then taken. `fault` means that the fuel ran out.
unfoldable pub next_from : ℕ → ℕ → ℕ → Threads → Outcome (ℕ × Threads)
unfolding spinlock_test_and_acq
next_from zero next_thread current_thread s = fault
next_from (suc fuel) next_thread current_thread s =
    elim (next_thread == current_thread || next_thread == 0) [
      | true ↦ ok (0, s)
      | false ↦ elim ((s next_thread).blocked || (s next_thread).running) [
        | true ↦ next_from fuel (s next_thread).next current_thread s
        | false ↦
            let (acquired, word) = spinlock_test_and_acq (s next_thread).lock in
            elim acquired [
              | true ↦ ok (next_thread, put s next_thread (record (s next_thread) { lock = word }))
              | false ↦ next_from fuel (s next_thread).next current_thread s
            ]
      ]
    ]

unfoldable pub get_next_thread : ℕ → ℕ → Threads → Outcome (ℕ × Threads)
get_next_thread fuel current_thread s = next_from fuel (s current_thread).next current_thread s

-- `switch_to_thread` sets `running` and resumes at the saved frame, which is the result; where no
-- thread is ready the handler returns to the interrupted frame. `is_user` says whether `cs` of a
-- saved frame is that of user code.
unfoldable pub sched_vector : ℕ → (ℕ → Bool) → ℕ → Sched → Outcome (ℕ × Sched)
sched_vector fuel is_user state s = do
  let current = s.cpu.current_thread
  let threads =
      if (s.threads current).running
      then put s.threads current
          (record (s.threads current) { state = state; gs_base = s.cpu.gs_base })
      else s.threads
  (next, threads1) ← get_next_thread fuel current threads
  if next == 0
      then ok (
        state,
        record s {
          threads = threads1;
          cpu = record s.cpu { timer = (threads1 current).timeslice };
        },
      )
      else let threads2 = put threads1 current (record (threads1 current) {
        running = false;
        lock = spinlock_release (threads1 current).lock;
      }) in
        ok (
          (threads2 next).state,
          record s {
            threads = put threads2 next (record (threads2 next) { running = true });
            cpu = record s.cpu {
              current_thread = next;
              kgs_base =
                  if is_user (threads2 next).state then (threads2 next).gs_base else s.cpu.gs_base;
              cr3 = (threads2 next).cr3;
              timer = (threads2 current).timeslice;
            };
          },
        )

-- `dequeue_and_die` up to its `kheap_free`, and then the core on its idle thread.
unfoldable pub dequeue_and_die : Sched → Sched
dequeue_and_die s =
    let dead = (dequeue_thread s.cpu.current_thread s).1 in
    record dead { cpu = record dead.cpu { current_thread = dead.cpu.idle_thread } }
