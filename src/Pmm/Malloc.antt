-- ===== src/Pmm/Malloc.antt =====
-- `pmm_malloc` of memory/pmm.c is a first fit over the free frames.
use flan.Base.{
  ℕ, zero, suc, ◌+◌, ◌-◌, ◌*◌, ◌^◌, ◌≤◌, ◌<◌, ◌≡◌, ◌≢◌, refl, ◌⊎◌, inl, inr, true, false, List,
  Outcome, ◌>>=◌, Returns, Returns-bind, arith, ◌==◌, ==_iff, ltb, ltb→lt, Bool-cases, length,
}
use flan.Base.Words.{add64}
use flan.Lock.Spin.{acquire-free, release-acquired}
use flan.Pmm.{Pmm, frame_size, claim, malloc_from, pmm_malloc}
use flan.Pmm.Bitmap.{used, IsBytes, Reads, bit_test-used}
use flan.Pmm.Ranges.{fill, claim_from-Reads}

-- The lock is free, every frame below the limit has a bit, and a byte holds 8 bits. No machine has
-- 2 ^ 52 frames: that would be all of a 64-bit address space.
pub record IsValid (p : Pmm) : Type 0 where
  pub unlocked : p.pmm_lock ≡ 0
  pub bytes : IsBytes p.bitmap
  pub fits : p.limit ≤ 8 * length p.bitmap
  pub small : p.limit ≤ 2 ^ 52

-- `n` free frames from `start` on.
abbrev pub FreeRun : List ℕ → ℕ → ℕ → Type 0
FreeRun m start n = (f : ℕ) → start ≤ f → f < start + n → used m f ≡ false

-- The address `ptr` of the first free run of `wanted` frames, which is marked in `m'`.
pub record Claimed (m : List ℕ) (limit wanted ptr : ℕ) (m' : List ℕ) : Type 0 where
  pub start : ℕ
  pub address : ptr ≡ frame_size * start
  pub above : 1 ≤ start
  pub below : start + wanted ≤ limit
  pub free : FreeRun m start wanted
  pub marked : Reads m (fill (used m) start (start + wanted) true) m'
  pub first : (t : ℕ) → 1 ≤ t → t < start → ¬ FreeRun m t wanted

abbrev pub FirstFit : List ℕ → ℕ → ℕ → ℕ × List ℕ → Type 0
FirstFit m limit wanted (ptr, m') =
    Claimed m limit wanted ptr m'
    ⊎ ((ptr ≡ 0) × (m' ≡ m) × ((t : ℕ) → 1 ≤ t → t + wanted ≤ limit → ¬ FreeRun m t wanted))

module _ (wanted limit : ℕ) (pos : 0 < wanted) (small : limit ≤ 2 ^ 52) (m : List ℕ)
    (bytes : IsBytes m) (fits : limit ≤ 8 * length m) where
  -- The frame before `frame` end a free run of `a` frames, and nothing fits below that.
  record Scanned (frame a : ℕ) : Type 0 where
    short : a < wanted
    room : a < frame
    run : FreeRun m (frame - a) a
    none_before : (t : ℕ) → 1 ≤ t → t < frame - a → ¬ FreeRun m t wanted

  scan_start : Scanned 1 0
  scan_start = record {
    short = pos;
    room = omega arith;
    run = λ f p q. absurd (omega arith);
    none_before = λ t p q. absurd (omega arith);
  }

  -- A used frame ends the run, and every run that would hold it.
  restart : {frame a : ℕ} → Scanned frame a → used m frame ≡ true → Scanned (frame + 1) 0
  restart {frame} {a} s taken = record {
    short = pos;
    room = omega arith;
    run = λ f p q. absurd (omega arith);
    none_before = λ t p q run. elim (Bool-cases (ltb t (frame - a))) [
      | inl lower ↦ s.none_before t p (ltb→lt t (frame - a) lower) run
      | inr higher ↦ let clash = run frame (omega arith) (ground arith) in cc
    ];
  }

  -- A free frame makes the run longer.
  extend :
      {frame a : ℕ}
      → Scanned frame a
      → used m frame ≡ false
      → a + 1 ≢ wanted
      → Scanned (frame + 1) (a + 1)
  extend {frame} s free more = record {
    short = omega arith;
    room = omega arith;
    run = λ f p q. elim (Bool-cases (f == frame)) [
      | inl here ↦ rw ((==_iff f frame).0 here) free
      | inr before ↦ s.run f (ground arith) (ground arith)
    ];
    none_before = λ t p q. s.none_before t p (omega arith);
  }

  claim-FirstFit :
      (frame a : ℕ) (rest : ℕ → List ℕ → Outcome (ℕ × List ℕ))
      → Scanned frame a
      → frame < limit
      → used m frame ≡ false
      → (Scanned (frame + 1) (a + 1) → Returns (rest (a + 1) m) (FirstFit m limit wanted))
      → Returns (claim wanted frame (add64 a 1) m rest) (FirstFit m limit wanted)
  unfolding claim
  claim-FirstFit frame a rest s low free next =
      let one_more : add64 a 1 ≡ a + 1 = omega arith in
      rw one_more (elim (Bool-cases (a + 1 == wanted)) [
        | inr more ↦ rw (more, claim) (next (extend s free (ground arith)))
        | inl full ↦
            let e : a + 1 ≡ wanted = (==_iff (a + 1) wanted).0 full in
            rw (full, claim)
              (Returns-bind
                (claim_from-Reads wanted 0 frame m bytes (omega arith) (omega arith) (omega arith))
                λ m' r. (
                  _,
                  refl,
                  inl (record {
                    start = frame - a;
                    address = omega arith;
                    above = omega arith;
                    below = omega arith;
                    free = λ f p q. elim (Bool-cases (f == frame)) [
                      | inl here ↦ rw ((==_iff f frame).0 here) free
                      | inr before ↦ s.run f (omega arith) (ground arith)
                    ];
                    marked = record {
                      size = r.size;
                      bytes = r.bytes;
                      reads = λ f. ground (arith, r.reads f);
                    };
                    first = s.none_before;
                  }),
                ))
      ])

  malloc_from-FirstFit :
      (n frame a : ℕ)
      → Scanned frame a
      → frame + n ≡ limit
      → Returns (malloc_from n frame a wanted m) (FirstFit m limit wanted)
  unfolding malloc_from
  malloc_from-FirstFit zero frame a s end =
      ((0, m), refl, inr (refl, refl, λ t p q. s.none_before t p (omega arith)))
  malloc_from-FirstFit (suc n) frame a s end = elim (Bool-cases (used m frame)) [
    | inl taken ↦
        let short : (a == wanted) ≡ false = ground arith in
        rw (bit_test-used m bytes frame (omega arith), taken, ◌>>=◌, short)
          (malloc_from-FirstFit n (frame + 1) 0 (restart s taken) (omega arith))
    | inr free ↦
        rw (bit_test-used m bytes frame (omega arith), free)
          (claim-FirstFit frame a _ s (omega arith) free
            (λ s'. malloc_from-FirstFit n (frame + 1) (a + 1) s' (omega arith)))
  ]

-- In a valid allocator `pmm_malloc` of at least one frame returns, with the lock free. It returns
-- the address of the first run of `wanted` free frames from frame 1 up to the limit, after
-- marking exactly that run; if there is no such run it returns `NULL` and changes no bit.
pub pmm_malloc-FirstFit :
    (wanted : ℕ) (p : Pmm)
    → 0 < wanted
    → IsValid p
    → 0 < p.limit
    → Returns (pmm_malloc wanted p) λ (ptr, p').
      FirstFit p.bitmap p.limit wanted (ptr, p'.bitmap) × (p'.limit ≡ p.limit) × (p'.pmm_lock ≡ 0)
unfolding pmm_malloc
pmm_malloc-FirstFit wanted p pos v some_frame =
    rw (v.unlocked, acquire-free, release-acquired)
      (Returns-bind
        (malloc_from-FirstFit wanted p.limit pos v.small p.bitmap v.bytes v.fits (p.limit - 1) 1 0
          (scan_start wanted p.limit pos v.small p.bitmap v.bytes v.fits) (omega arith))
        λ (ptr, m) fit. (_, refl, (fit, refl, refl)))
