-- ===== src/Sched/Enqueue.antt =====
-- `sched_enqueue_thread` of proc/sched.c puts a thread at the end of the ring.
use flan.Base.{
  ℕ, ◌≡◌, ◌≢◌, refl, sym, ◌∙◌, true, false, List, [], ◌∷◌, ◌++◌, All, ok, ◌>>=◌, arith, ◌==◌,
  ==_self,
}
use flan.Lock.Spin.{acquire-free, release-acquired}
use flan.Sched.{Threads, Sched, put, link_last, sched_enqueue_thread}
use flan.Sched.Ring.{Linked, last, Distinct, IsRing, All-last}

module _ (s s' : Threads) (t z : ℕ) (end : ℕ)
    (next_kept : (b : ℕ) → b ≢ end → b ≢ t → (s' b).next ≡ (s b).next)
    (prev_kept : (b : ℕ) → b ≢ z → b ≢ t → (s' b).prev ≡ (s b).prev) (end_next : (s' end).next ≡ t)
    (new_next : (s' t).next ≡ z) (new_prev : (s' t).prev ≡ end) (start_prev : (s' z).prev ≡ t) where
  append-Linked :
      (a : ℕ) (xs : List ℕ)
      → Linked s a xs z
      → last a xs ≡ end
      → Distinct a xs
      → All (λ y. y ≢ z) xs
      → a ≢ t
      → All (λ y. y ≢ t) xs
      → Linked s' a (xs ++ t ∷ []) z
  append-Linked a [] links here d inner other others =
      (rw here end_next, new_prev ∙ sym here, (new_next, start_prev))
  append-Linked a (x ∷ xs) (n, p, links) here (later, d) (nz, inner) other (nt, others) = (
    next_kept a (λ e. All-last (λ y. y ≢ a) x xs later.0 later.1 (here ∙ sym e)) other ∙ n,
    prev_kept x nz nt ∙ p,
    append-Linked x xs links here d inner nt others,
  )

All-append : (P : ℕ → Type 0) (xs : List ℕ) (t : ℕ) → All P xs → P t → All P (xs ++ t ∷ [])
All-append P [] t ps p = (p, _)
All-append P (x ∷ xs) t (q, ps) p = (q, All-append P xs t ps p)

last-append : (a : ℕ) (xs : List ℕ) (t : ℕ) → last a (xs ++ t ∷ []) ≡ t
last-append a [] t = refl
last-append a (x ∷ xs) t = last-append x xs t

Distinct-append :
    (a : ℕ) (xs : List ℕ) (t : ℕ)
    → Distinct a xs
    → a ≢ t
    → All (λ y. y ≢ t) xs
    → Distinct a (xs ++ t ∷ [])
Distinct-append a [] t d other others = ((λ e. other (sym e), _), _)
Distinct-append a (x ∷ xs) t (later, d) other (nt, others) = (
  All-append (λ y. y ≢ a) (x ∷ xs) t later (λ e. other (sym e)),
  Distinct-append x xs t d nt others,
)

-- What distinctness says of the ring's start.
pub start_apart : (a : ℕ) (xs : List ℕ) → Distinct a xs → All (λ y. y ≢ a) xs
start_apart a [] d = _
start_apart a (x ∷ xs) (later, d) = later

-- The ends of the queue for the threads in order.
abbrev pub IsQueue : Sched → List ℕ → Type 0
IsQueue s [] = (s.queue.start ≡ 0) × (s.queue.lock ≡ 0)
IsQueue s (a ∷ xs) =
    (s.queue.start ≡ a) × (s.queue.end ≡ last a xs) × (s.queue.lock ≡ 0) × IsRing s.threads a xs

abbrev enqueued_last : Threads → ℕ → ℕ → ℕ → Threads
enqueued_last s start end t =
    let s' = link_last s start end t in put s' t (record (s' t) { enqueued = true })

module _ (s : Threads) (a t : ℕ) (xs : List ℕ) (ring : IsRing s a xs) (other : a ≢ t)
    (others : All (λ y. y ≢ t) xs) (some_t : t ≢ 0) where
  end_apart : last a xs ≢ t
  end_apart = All-last (λ y. y ≢ t) a xs other others

  append-IsRing : IsRing (enqueued_last s a (last a xs) t) a (xs ++ t ∷ [])
  unfolding link_last
  append-IsRing =
      let s' = enqueued_last s a (last a xs) t in
      record {
        links =
            append-Linked s s' t a (last a xs) (λ b not_end not_t. ground (arith, end_apart))
              (λ b not_start not_t. ground (arith, end_apart)) (ground (arith, end_apart))
              (ground (arith, end_apart)) (ground (arith, end_apart)) (ground (arith, end_apart)) a
              xs ring.links refl ring.distinct (start_apart a xs ring.distinct) other others;
        distinct = Distinct-append a xs t ring.distinct other others;
        some_start = ring.some_start;
        some_others = All-append (λ y. y ≢ 0) xs t ring.some_others some_t;
      }

single-IsRing : (s : Threads) (t : ℕ) → t ≢ 0 → IsRing (enqueued_last s t t t) t []
unfolding link_last
single-IsRing s t some_t = record {
  links = (ground arith, ground arith);
  distinct = _;
  some_start = some_t;
  some_others = _;
}

enqueued_twice :
    (s : Sched) (t : ℕ) → (s.threads t).enqueued ≡ true → sched_enqueue_thread t s ≡ ok (true, s)
unfolding sched_enqueue_thread
enqueued_twice s t marked = rw marked refl

enqueued_last-marks :
    (s : Threads) (start end t : ℕ) → (enqueued_last s start end t t).enqueued ≡ true
enqueued_last-marks s start end t = rw (==_self t) refl

-- On a well-formed queue `sched_enqueue_thread` of a thread that is in no queue returns true and a
-- well-formed queue with the thread behind the others; the thread is marked, and a second call
-- changes nothing.
pub sched_enqueue_thread-IsQueue :
    (s : Sched) (xs : List ℕ) (t : ℕ)
    → IsQueue s xs
    → All (λ y. y ≢ t) xs
    → t ≢ 0
    → (s.threads t).enqueued ≡ false
    → (s' : Sched) × (sched_enqueue_thread t s ≡ ok (true, s'))
      × IsQueue s' (xs ++ t ∷ [])
      × (sched_enqueue_thread t s' ≡ ok (true, s'))
unfolding sched_enqueue_thread
sched_enqueue_thread-IsQueue s [] t (start, free) others some_t out = (
  record s {
    threads = enqueued_last s.threads t t t;
    queue = record { start = t; end = t; lock = 0 };
  },
  rw (out, start, free, acquire-free, ◌>>=◌, release-acquired) refl,
  (refl, refl, refl, single-IsRing s.threads t some_t),
  enqueued_twice _ t (enqueued_last-marks s.threads t t t),
)
sched_enqueue_thread-IsQueue s (a ∷ xs) t (start, end, free, ring) (other, others) some_t out =
    let start' : (s.queue.start == 0) ≡ false = ground (arith, ring.some_start) in
    let some_end : last a xs ≢ 0 = All-last (λ y. y ≢ 0) a xs ring.some_start ring.some_others in
    let end' : (s.queue.end == 0) ≡ false = ground arith in
    (
      record s {
        threads = enqueued_last s.threads a (last a xs) t;
        queue = record { start = a; end = t; lock = 0 };
      },
      rw (out, start', end', start, end, free, acquire-free, ◌>>=◌, release-acquired) refl,
      (
        refl,
        sym (last-append a xs t),
        refl,
        append-IsRing s.threads a t xs ring other others some_t,
      ),
      enqueued_twice _ t (enqueued_last-marks s.threads a (last a xs) t),
    )
