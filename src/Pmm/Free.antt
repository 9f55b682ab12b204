-- ===== src/Pmm/Free.antt =====
-- `pmm_free` of memory/pmm.c, alone and after `pmm_malloc`.
use flan.Base.{
  ℕ, ◌+◌, ◌-◌, ◌/◌, ◌≤◌, ◌<◌, ◌≡◌, ◌≢◌, refl, inl, inr, true, false, Returns, Returns-bind,
  Returns_mono, Returns-at, ok, ◌∙◌, arith,
}
use flan.Base.Words.{add64}
use flan.Lock.Spin.{acquire-free, release-acquired}
use flan.Pmm.{Pmm, frame_size, pmm_malloc, pmm_free}
use flan.Pmm.Bitmap.{used, Reads}
use flan.Pmm.Ranges.{fill, clear_from-Reads}
use flan.Pmm.Malloc.{IsValid, FirstFit, pmm_malloc-FirstFit}

-- `pmm_free` of a run that lies below the limit returns, and marks exactly that run as free. The
-- allocator stays valid.
pub pmm_free-Reads :
    (ptr frames : ℕ) (p : Pmm)
    → IsValid p
    → ptr / frame_size + frames ≤ p.limit
    → Returns (pmm_free ptr frames p) λ p'.
      Reads p.bitmap
        (fill (used p.bitmap) (ptr / frame_size) (ptr / frame_size + frames) false)
        p'.bitmap
      × IsValid p'
      × (p'.limit ≡ p.limit)
unfolding pmm_free
pmm_free-Reads ptr frames p v low =
    let rounds : add64 frames (ptr / frame_size) - ptr / frame_size ≡ frames = omega arith in
    rw (v.unlocked, acquire-free, release-acquired, rounds)
      (Returns-bind (clear_from-Reads frames (ptr / frame_size) p.bitmap v.bytes (omega arith))
        λ m r. (
          _,
          refl,
          (
            r,
            record {
              unlocked = refl;
              bytes = r.bytes;
              fits = omega (arith, r.size);
              small = v.small;
            },
            refl,
          ),
        ))

-- What `pmm_malloc` leaves is valid again.
pub pmm_malloc-IsValid :
    (wanted : ℕ) (p : Pmm) {ptr : ℕ} {q : Pmm}
    → 0 < wanted
    → IsValid p
    → 0 < p.limit
    → pmm_malloc wanted p ≡ ok (ptr, q)
    → IsValid q × FirstFit p.bitmap p.limit wanted (ptr, q.bitmap) × (q.limit ≡ p.limit)
pmm_malloc-IsValid wanted p {ptr} {q} pos v some_frame run =
    after (Returns-at (pmm_malloc-FirstFit wanted p pos v some_frame) run)
  where
    after :
        FirstFit p.bitmap p.limit wanted (ptr, q.bitmap) × (q.limit ≡ p.limit) × (q.pmm_lock ≡ 0)
        → IsValid q × FirstFit p.bitmap p.limit wanted (ptr, q.bitmap) × (q.limit ≡ p.limit)
    after (inl c, same, free) = (
      record {
        unlocked = free;
        bytes = c.marked.bytes;
        fits = omega (arith, c.marked.size, v.fits);
        small = omega (arith, v.small);
      },
      inl c,
      same,
    )
    after (inr (null, kept, no_run), same, free) = (
      record {
        unlocked = free;
        bytes = rw kept v.bytes;
        fits = rw (kept, same) v.fits;
        small = rw same v.small;
      },
      inr (null, kept, no_run),
      same,
    )

-- Freeing what `pmm_malloc` gave out returns, and makes every frame read as before the allocation.
pub pmm_free-pmm_malloc :
    (wanted : ℕ) (p : Pmm) {ptr : ℕ} {q : Pmm}
    → 0 < wanted
    → IsValid p
    → 0 < p.limit
    → pmm_malloc wanted p ≡ ok (ptr, q)
    → ptr ≢ 0
    → Returns (pmm_free ptr wanted q) λ r. ((f : ℕ) → used r.bitmap f ≡ used p.bitmap f) × IsValid r
pmm_free-pmm_malloc wanted p {ptr} {q} pos v some_frame run got =
    after (pmm_malloc-IsValid wanted p pos v some_frame run)
  where
    after :
        IsValid q × FirstFit p.bitmap p.limit wanted (ptr, q.bitmap) × (q.limit ≡ p.limit)
        → Returns
            (pmm_free ptr wanted q)
            λ r. ((f : ℕ) → used r.bitmap f ≡ used p.bitmap f) × IsValid r
    after (vq, inr (null, kept, no_run), same) = absurd (got null)
    after (vq, inl c, same) =
        let at : ptr / frame_size ≡ c.start = omega (arith, c.address) in
        Returns_mono (pmm_free-Reads ptr wanted q vq (omega (arith, c.below))) λ r (freed, vr, _).
          (λ f. rw at at (freed.reads f) ∙ refill f (c.free f) (c.marked.reads f), vr)
      where
        refill :
            (f : ℕ)
            → (c.start ≤ f → f < c.start + wanted → used p.bitmap f ≡ false)
            → used q.bitmap f ≡ fill (used p.bitmap) c.start (c.start + wanted) true f
            → fill (used q.bitmap) c.start (c.start + wanted) false f ≡ used p.bitmap f
        refill f free marked = ground arith
