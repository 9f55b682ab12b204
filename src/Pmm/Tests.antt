-- ===== src/Pmm/Tests.antt =====
-- memory/pmm.c at a concrete bitmap of 16 frames, of which the first two are used.
use flan.Base.{
  ℕ, zero, suc, ◌+◌, ◌-◌, ◌*◌, ◌/◌, ◌%◌, ◌^◌, ◌<◌, ◌≡◌, ◌↔◌, refl, inl, inr, List, [], ◌∷◌, length,
  ok, Returns, arith, true, false, not, All,
}
use flan.Lock.{spinlock_acquire, acquire_among, spinlock_release}
use flan.Mem.{Memory}
use flan.Pmm.{
  Pmm, frame_size, pmm_malloc, pmm_free, pmm_alloc, Entry, bitmap_size_of, pmm_init, malloc_from,
  bit_test, claim, bit_set,
}
use flan.Pmm.Bitmap.{used, IsBytes, Reads}
use flan.Pmm.Ranges.{fill}
use flan.Pmm.Malloc.{IsValid, FirstFit, pmm_malloc-FirstFit}
use flan.Pmm.Free.{pmm_free-Reads, pmm_free-pmm_malloc}
use flan.Pmm.Calloc.{AllocEnds, pmm_alloc-AllocEnds}
use flan.Pmm.MemoryMap.{IsSound, has_room}
use flan.Pmm.Highest.{Highest}
use flan.Pmm.Holder.{Holds, bitmap_bytes, is_left}
use flan.Pmm.Init.{pmm_init-free, bitmap_short_iff}

abbrev some_used : List ℕ
some_used = 3 ∷ 0 ∷ []

abbrev frames : Pmm
frames = record { bitmap = some_used; limit = 16; pmm_lock = 0 }

some_used-IsBytes : IsBytes some_used
some_used-IsBytes zero = omega arith
some_used-IsBytes (suc zero) = omega arith
some_used-IsBytes (suc (suc i)) = omega arith

frames-IsValid : IsValid frames
frames-IsValid = record {
  unlocked = refl;
  bytes = some_used-IsBytes;
  fits = omega arith;
  small = omega arith;
}

abbrev blank : Memory
blank a = 7

pmm_malloc-FirstFit_example :
    Returns
      (pmm_malloc 3 frames)
      λ (ptr, p'). FirstFit some_used 16 3 (ptr, p'.bitmap) × (p'.limit ≡ 16) × (p'.pmm_lock ≡ 0)
pmm_malloc-FirstFit_example =
    pmm_malloc-FirstFit 3 frames (omega arith) frames-IsValid (omega arith)

pmm_free-Reads_example : Returns (pmm_free 4096 1 frames) λ p'.
    Reads some_used
      (fill (used some_used) (4096 / frame_size) (4096 / frame_size + 1) false)
      p'.bitmap
    × IsValid p'
    × (p'.limit ≡ 16)
pmm_free-Reads_example = pmm_free-Reads 4096 1 frames frames-IsValid (omega arith)

-- Frames 2, 3 and 4 are taken.
abbrev after_malloc : Pmm
after_malloc = record { bitmap = 31 ∷ 0 ∷ []; limit = 16; pmm_lock = 0 }

three_taken : pmm_malloc 3 frames ≡ ok (8192, after_malloc)
unfolding pmm_malloc spinlock_acquire acquire_among malloc_from bit_test claim bit_set
    spinlock_release
three_taken = refl

pmm_free-pmm_malloc_example :
    Returns
      (pmm_free 8192 3 after_malloc)
      λ r. ((f : ℕ) → used r.bitmap f ≡ used some_used f) × IsValid r
pmm_free-pmm_malloc_example =
    pmm_free-pmm_malloc 3 frames {ptr = 8192} {q = after_malloc} (omega arith) frames-IsValid
      (omega arith) three_taken (omega arith)

pmm_alloc-AllocEnds_example :
    AllocEnds (2 ^ 47) 5000 frames blank (pmm_alloc (2 ^ 47) 5000 frames blank)
pmm_alloc-AllocEnds_example =
    pmm_alloc-AllocEnds (2 ^ 47) (λ z. absurd (omega arith)) 5000 frames blank (omega arith)
      (omega arith) frames-IsValid (omega arith)

-- A reserved entry, and 64 usable frames above it.
abbrev memory_map : List Entry
memory_map =
    record { base = 0; size = 4096; kind = 1 }
    ∷ record { base = 4096; size = 262144; kind = 0 }
    ∷ []

memory_map-IsSound : All (IsSound 0 (2 ^ 64 - 1)) memory_map
memory_map-IsSound =
    (inl refl, (inr (record { base_aligned = refl; size_aligned = refl; ends = omega arith }), _))

memory_map-Highest : Highest 0 refl memory_map 266240
memory_map-Highest = (
  (inl refl, (inr (record { base_aligned = refl; size_aligned = refl; ends = omega arith }), tt)),
  inr (inr (inl (refl, refl))),
)

memory_map-room : has_room 0 (bitmap_bytes 266240) memory_map ≡ true
unfolding has_room
memory_map-room = refl

pmm_init-free_example : Returns (pmm_init 0 memory_map) λ p.
    IsValid p
    × (p.limit ≡ 266240 / frame_size)
    × ((x : Holds 0 refl (bitmap_bytes 266240) memory_map) × ((f : ℕ)
          → f < 8 * length p.bitmap
          → used p.bitmap f ≡ not (is_left 0 refl (bitmap_bytes 266240) x f)))
    × (length p.bitmap ≡ bitmap_bytes 266240)
pmm_init-free_example =
    pmm_init-free 0 refl memory_map 266240 memory_map-IsSound memory_map-Highest memory_map-room
      (omega arith)

bitmap_short_iff_example :
    (8 * bitmap_size_of 12288 < 12288 / frame_size)
    ↔ ((0 < 12288 / frame_size % 32768) × (12288 / frame_size % 32768 < 8))
bitmap_short_iff_example = bitmap_short_iff 12288 (omega arith)
