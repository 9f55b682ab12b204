-- ===== src/Sched/Dequeue.antt =====
-- `dequeue_thread` of proc/sched.c takes a thread out of the ring.
use flan.Base.{
  ℕ, ◌≡◌, ◌≢◌, refl, sym, ◌∙◌, Bool, true, false, List, [], ◌∷◌, ◌++◌, All, arith, if◌then◌else◌,
}
use flan.Lock.{spinlock_release}
use flan.Sched.{Threads, Sched, put, unlink, dequeue_thread}
use flan.Sched.Enqueue.{start_apart}
use flan.Sched.Ring.{Linked, last, Distinct, IsRing}

-- The thread behind `t` in a list that ends in `z`.
abbrev pub head : List ℕ → ℕ → ℕ
head [] z = z
head (y ∷ ys) z = y

module _ (t : ℕ) (P : ℕ → Type 0) where
  prefix-last : (a : ℕ) (xs ys : List ℕ) → P a → All P (xs ++ t ∷ ys) → P (last a xs)
  prefix-last a [] ys q qs = q
  prefix-last a (x ∷ xs) ys q (q', qs) = prefix-last x xs ys q' qs

  behind : {z : ℕ} (xs ys : List ℕ) → All P (xs ++ t ∷ ys) → P z → P (head ys z)
  behind [] [] qs q = q
  behind [] (y ∷ ys) (qt, (qy, qs)) q = qy
  behind (x ∷ xs) ys (q', qs) q = behind xs ys qs q

module _ (s s' : Threads) (t z p n : ℕ) (next_kept : (b : ℕ) → b ≢ p → (s' b).next ≡ (s b).next)
    (prev_kept : (b : ℕ) → b ≢ n → (s' b).prev ≡ (s b).prev) (link : (s' p).next ≡ n)
    (back : (s' n).prev ≡ p) where
  -- The links behind the thread that goes.
  tail-Linked :
      (ys : List ℕ)
      → (a : ℕ) → a ≢ p
      → All (λ y. y ≢ p) ys
      → All (λ y. y ≢ n) ys
      → z ≢ n
      → Linked s a ys z
      → Linked s' a ys z
  tail-Linked [] a other others ahead end (f, b) = (next_kept a other ∙ f, prev_kept z end ∙ b)
  tail-Linked (y ∷ ys) a other (o, others) (h, ahead) end (f, b, links) =
      (next_kept a other ∙ f, prev_kept y h ∙ b, tail-Linked ys y o others ahead end links)

  remove-Linked :
      (a : ℕ) (xs ys : List ℕ)
      → Linked s a (xs ++ t ∷ ys) z
      → last a xs ≡ p
      → head ys z ≡ n
      → Distinct a (xs ++ t ∷ ys)
      → All (λ y. y ≢ z) (xs ++ t ∷ ys)
      → Linked s' a (xs ++ ys) z
  remove-Linked a [] [] (f, b, links) at ahead d apart = (rw (at, ahead) link, rw (at, ahead) back)
  remove-Linked a [] (y ∷ ys) (f, b, (f', b', links)) at ahead ((ta, (ya, later)), (ty, d))
        (tz, (yz, apart)) =
      (
        rw (at, ahead) link,
        rw (at, ahead) back,
        tail-Linked ys y (rw (← at) ya) (rw (← at) later) (rw (← ahead) (start_apart y ys d))
            (rw (← ahead) (λ e. yz (sym e))) links,
      )
  remove-Linked a (x ∷ xs) ys (f, b, links) at ahead (later, d) (xz, apart) = (
    next_kept a (λ e. prefix-last t (λ y. y ≢ a) x xs ys later.0 later.1 (at ∙ sym e)) ∙ f,
    prev_kept x (λ e.
          behind t (λ y. y ≢ x) xs ys (start_apart x (xs ++ t ∷ ys) d) (λ e'. xz (sym e'))
            (ahead ∙ sym e))
        ∙ b,
    remove-Linked x xs ys links at ahead d apart,
  )

-- The neighbours of a thread in the ring.
neighbours :
    (s : Threads) (t z a : ℕ) (xs ys : List ℕ)
    → Linked s a (xs ++ t ∷ ys) z
    → ((s t).prev ≡ last a xs) × ((s t).next ≡ head ys z)
neighbours s t z a [] [] (f, b, (f', b')) = (b, f')
neighbours s t z a [] (y ∷ ys) (f, b, (f', b', links)) = (b, f')
neighbours s t z a (x ∷ xs) ys (f, b, links) = neighbours s t z x xs ys links

All-remove : (P : ℕ → Type 0) (t : ℕ) (xs ys : List ℕ) → All P (xs ++ t ∷ ys) → All P (xs ++ ys)
All-remove P t [] ys (q, qs) = qs
All-remove P t (x ∷ xs) ys (q, qs) = (q, All-remove P t xs ys qs)

Distinct-remove : (a t : ℕ) (xs ys : List ℕ) → Distinct a (xs ++ t ∷ ys) → Distinct a (xs ++ ys)
Distinct-remove a t [] [] d = _
Distinct-remove a t [] (y ∷ ys) ((ta, later), (ty, d)) = (later, d)
Distinct-remove a t (x ∷ xs) ys (later, d) =
    (All-remove (λ y. y ≢ a) t (x ∷ xs) ys later, Distinct-remove x t xs ys d)

-- The thread is none of its neighbours.
head_apart : (t z : ℕ) (ys : List ℕ) → Distinct t ys → z ≢ t → head ys z ≢ t
head_apart t z [] d other = other
head_apart t z (y ∷ ys) ((yt, later), d) other = yt

apart :
    (a t : ℕ) (xs ys : List ℕ)
    → Distinct a (xs ++ t ∷ ys)
    → (a ≢ t) × (last a xs ≢ t) × Distinct t ys
apart a t [] ys ((ta, later), d) = (λ e. ta (sym e), λ e. ta (sym e), d)
apart a t (x ∷ xs) ys (later, d) =
    let (first, end, rest) = apart x t xs ys d in
    (λ e. middle (λ y. y ≢ a) t xs ys later.1 (sym e), end, rest)
  where
    middle : (P : ℕ → Type 0) (t : ℕ) (xs ys : List ℕ) → All P (xs ++ t ∷ ys) → P t
    middle P t [] ys (q, qs) = q
    middle P t (x ∷ xs) ys (q, qs) = middle P t xs ys qs

if_then {ℓ} : {A : Type ℓ} (b : Bool) (x y : A) → b ≡ true → (if b then x else y) ≡ x
if_then b x y h = rw h refl

-- The threads after `t` was taken out.
dequeued : Threads → ℕ → Threads
dequeued s t = put (unlink s t) t (record (unlink s t t) {
  lock = spinlock_release (unlink s t t).lock;
  enqueued = false;
  running = false;
})

dequeue_thread-dequeued :
    (s : Sched) (t : ℕ)
    → (s.threads t).enqueued ≡ true
    → dequeue_thread t s ≡ (true, record s { threads = dequeued s.threads t })
unfolding dequeue_thread dequeued
dequeue_thread-dequeued s t queued = if_then _ _ _ queued

module _ (s : Threads) (a t : ℕ) (xs ys : List ℕ) (ring : IsRing s a (xs ++ t ∷ ys)) where
  dequeued-IsRing : IsRing (dequeued s t) a (xs ++ ys)
  unfolding dequeued unlink
  dequeued-IsRing =
      let (back, front) = neighbours s t a a xs ys ring.links in
      let (a_t, p_t, rest) = apart a t xs ys ring.distinct in
      let n_t = head_apart t a ys rest a_t in
      record {
        links =
            remove-Linked s (dequeued s t) t a (last a xs) (head ys a)
              (λ b other. ground (arith, back, front, p_t, n_t))
              (λ b other. ground (arith, back, front, p_t, n_t))
              (ground (arith, back, front, p_t, n_t)) (ground (arith, back, front, p_t, n_t)) a xs
              ys ring.links refl refl ring.distinct (start_apart a (xs ++ t ∷ ys) ring.distinct);
        distinct = Distinct-remove a t xs ys ring.distinct;
        some_start = ring.some_start;
        some_others = All-remove (λ y. y ≢ 0) t xs ys ring.some_others;
      }

  dequeued-fields :
      ((dequeued s t t).enqueued ≡ false)
      × ((dequeued s t t).running ≡ false)
      × ((dequeued s t t).lock ≡ spinlock_release (s t).lock)
  unfolding dequeued unlink
  dequeued-fields =
      let (back, front) = neighbours s t a a xs ys ring.links in
      let (a_t, p_t, rest) = apart a t xs ys ring.distinct in
      let n_t = head_apart t a ys rest a_t in
      (ground arith, ground arith, ground (arith, back, front, p_t, n_t))

-- `dequeue_thread` of a thread behind the start of the ring leaves the ring without it, in the same
-- order, and the thread stopped and out of the queue with its lock released.
pub dequeue_thread-IsRing :
    (s : Sched) (a t : ℕ) (xs ys : List ℕ)
    → IsRing s.threads a (xs ++ t ∷ ys)
    → (s.threads t).enqueued ≡ true
    → let s' : Sched = (dequeue_thread t s).1 in
      IsRing s'.threads a (xs ++ ys)
      × ((s'.threads t).enqueued ≡ false)
      × ((s'.threads t).running ≡ false)
      × ((s'.threads t).lock ≡ spinlock_release (s.threads t).lock)
dequeue_thread-IsRing s a t xs ys ring queued =
    let (out, stopped, released) = dequeued-fields s.threads a t xs ys ring in
    rw (dequeue_thread-dequeued s t queued)
      (dequeued-IsRing s.threads a t xs ys ring, out, stopped, released)
