-- ===== src/Pmm/Calloc.antt =====
-- `pmm_calloc` and `pmm_alloc` of memory/pmm.c, with the memory that they clear.
use flan.Base.{
  ℕ, ◌+◌, ◌-◌, ◌*◌, ◌/◌, ◌^◌, ◌≤◌, ◌<◌, ◌≡◌, ◌≢◌, refl, ◌⊎◌, inl, inr, Outcome, halt, ok, ◌>>=◌,
  Returns, Returns-bind, arith, false, ◌==◌, if◌then◌else◌,
}
use flan.Base.Words.{add64, mul64}
use flan.Mem.{Memory}
use flan.Mem.Fill.{filled, memset-filled}
use flan.Pmm.{Pmm, frame_size, pmm_calloc, pmm_alloc}
use flan.Pmm.Malloc.{IsValid, FirstFit, FreeRun, pmm_malloc-FirstFit}

module _ (hhdm_offset : ℕ) where
  -- How `pmm_alloc` ends: with the first run of enough frames for `size` bytes, cleared, or, where
  -- there is none, in a failed `assert`.
  abbrev pub AllocEnds : ℕ → Pmm → Memory → Outcome (ℕ × Pmm × Memory) → Type 0
  AllocEnds size p mem r =
      let frames : ℕ = (size + (frame_size - 1)) / frame_size in
      Returns r (λ (ptr, p', mem').
        FirstFit p.bitmap p.limit frames (ptr, p'.bitmap)
        × (ptr ≢ 0)
        × ((a : ℕ)
            → mem' a
              ≡ filled mem (ptr + hhdm_offset) (ptr + hhdm_offset + frames * frame_size) 0 a))
      ⊎ ((r ≡ halt) × ((t : ℕ) → 1 ≤ t → t + frames ≤ p.limit → ¬ FreeRun p.bitmap t frames))

module _ (hhdm_offset : ℕ) (mapped : hhdm_offset ≢ 0) where
  -- `pmm_calloc` picks and marks frames as `pmm_malloc` does, and clears `frames` frames of memory
  -- from `ptr` on and nothing else. It does so also where `ptr` is `NULL`: then it has allocated
  -- nothing, and clears the frames from physical address 0 on.
  pub pmm_calloc-FirstFit :
      (frames : ℕ) (p : Pmm) (mem : Memory)
      → 0 < frames
      → frames < 2 ^ 52
      → IsValid p
      → 0 < p.limit
      → Returns (pmm_calloc hhdm_offset frames p mem) λ (ptr, p', mem').
        FirstFit p.bitmap p.limit frames (ptr, p'.bitmap)
        × (p'.limit ≡ p.limit)
        × (p'.pmm_lock ≡ 0)
        × ((a : ℕ)
            → mem' a ≡ filled mem (ptr + hhdm_offset) (ptr + hhdm_offset + frames * frame_size) 0 a)
  unfolding pmm_calloc
  pmm_calloc-FirstFit frames p mem pos few v some_frame =
      let bytes : mul64 frames frame_size ≡ frames * frame_size = omega arith in
      rw bytes (
        Returns-bind (pmm_malloc-FirstFit frames p pos v some_frame) λ (ptr, p') (fit, same, free).
          Returns-bind (memset-filled (ptr + hhdm_offset) 0 (frames * frame_size) mem (omega arith))
            λ mem' cleared. (_, refl, (fit, same, free, cleared)))

  -- `pmm_alloc` of at least one byte ends with the first run of enough frames, cleared, or, where
  -- there is none, in a failed `assert`.
  pub pmm_alloc-AllocEnds :
      (size : ℕ) (p : Pmm) (mem : Memory)
      → 0 < size
      → size < 2 ^ 63
      → IsValid p
      → 0 < p.limit
      → AllocEnds hhdm_offset size p mem (pmm_alloc hhdm_offset size p mem)
  unfolding pmm_alloc
  pmm_alloc-AllocEnds size p mem pos low v some_frame =
      let exact : add64 size (frame_size - 1) ≡ size + (frame_size - 1) = omega arith in
      rw exact (ends (pmm_calloc-FirstFit _ p mem (omega arith) (omega arith) v some_frame))
    where
      ends :
          Returns
            (pmm_calloc hhdm_offset ((size + (frame_size - 1)) / frame_size) p mem)
            (λ (ptr, p', mem').
              let frames : ℕ = (size + (frame_size - 1)) / frame_size in
              FirstFit p.bitmap p.limit frames (ptr, p'.bitmap)
              × (p'.limit ≡ p.limit)
              × (p'.pmm_lock ≡ 0)
              × ((a : ℕ)
                  → mem' a
                    ≡ filled mem (ptr + hhdm_offset) (ptr + hhdm_offset + frames * frame_size) 0 a))
          → AllocEnds hhdm_offset size p mem (
              pmm_calloc hhdm_offset ((size + (frame_size - 1)) / frame_size) p mem
              >>= (λ (ptr, p', mem'). if ptr == 0 then halt else ok (ptr, p', mem')))
      ends ((ptr, p', mem'), e, (inl c, same, free, cleared)) =
          let some_ptr : ptr ≢ 0 = omega (arith, c.address, c.above) in
          let test : (ptr == 0) ≡ false = ground arith in
          rw e (inl ((ptr, p', mem'), rw test, (inl c, some_ptr, cleared)))
      ends ((ptr, p', mem'), e, (inr (null, kept, no_run), same, free, cleared)) =
          rw (e, ◌>>=◌, null) (inr (refl, no_run))
