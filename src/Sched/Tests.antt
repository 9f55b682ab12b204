-- ===== src/Sched/Tests.antt =====
-- proc/sched.c at a ring of three threads, 10, 20 and 30, of which the first runs.
use flan.Base.{ℕ, ◌≡◌, refl, Bool, true, false, [], ◌∷◌, ok, arith, ◌==◌, if◌then◌else◌}
use flan.Lock.{spinlock_release}
use flan.Sched.{Thread, Threads, Sched, sched_enqueue_thread, dequeue_thread, get_next_thread}
use flan.Sched.Ring.{IsRing}
use flan.Sched.Enqueue.{IsQueue, sched_enqueue_thread-IsQueue}
use flan.Sched.Dequeue.{dequeue_thread-IsRing}
use flan.Sched.Pick.{pick, taken, get_next_thread-pick}

abbrev thread : ℕ → ℕ → Bool → Thread
thread prev next queued = record {
  prev = prev;
  next = next;
  cr3 = 0;
  running = prev == 30;
  process = 0;
  lock = 0;
  state = 0;
  timeslice = 3;
  enqueued = queued;
  blocked = false;
  gs_base = 0;
}

abbrev threads : Threads
threads a =
    if a == 10
    then thread 30 20 true
    else if a == 20
    then thread 10 30 true
    else if a == 30
    then thread 20 10 true
    else thread 0 0 false

abbrev three : Sched
three = record {
  threads = threads;
  queue = record { start = 10; end = 30; lock = 0 };
  cpu = record {
    current_thread = 10;
    idle_thread = 0;
    gs_base = 0;
    kgs_base = 0;
    cr3 = 0;
    timer = 0;
  };
}

three-IsRing : IsRing threads 10 (20 ∷ 30 ∷ [])
three-IsRing = record {
  links = (refl, refl, (refl, refl, (refl, refl)));
  distinct = ((omega arith, (omega arith, _)), ((omega arith, _), _));
  some_start = omega arith;
  some_others = (omega arith, (omega arith, _));
}

three-IsQueue : IsQueue three (10 ∷ 20 ∷ 30 ∷ [])
three-IsQueue = (refl, refl, refl, three-IsRing)

sched_enqueue_thread-IsQueue_example :
    (s' : Sched) × (sched_enqueue_thread 40 three ≡ ok (true, s'))
    × IsQueue s' (10 ∷ 20 ∷ 30 ∷ 40 ∷ [])
    × (sched_enqueue_thread 40 s' ≡ ok (true, s'))
sched_enqueue_thread-IsQueue_example =
    sched_enqueue_thread-IsQueue three (10 ∷ 20 ∷ 30 ∷ []) 40 three-IsQueue
      (omega arith, (omega arith, (omega arith, _))) (omega arith) refl

dequeue_thread-IsRing_example :
    let s' : Sched = (dequeue_thread 20 three).1 in
    IsRing s'.threads 10 (30 ∷ [])
    × ((s'.threads 20).enqueued ≡ false)
    × ((s'.threads 20).running ≡ false)
    × ((s'.threads 20).lock ≡ spinlock_release (threads 20).lock)
dequeue_thread-IsRing_example = dequeue_thread-IsRing three 10 20 [] (30 ∷ []) three-IsRing refl

get_next_thread-pick_example :
    get_next_thread 3 10 threads
    ≡ ok (pick threads (20 ∷ 30 ∷ []), taken threads (pick threads (20 ∷ 30 ∷ [])))
get_next_thread-pick_example =
    get_next_thread-pick 3 threads 10 (20 ∷ 30 ∷ []) three-IsRing (omega arith)
