-- ===== src/Pmm.antt =====
-- memory/pmm.c and the bit macros of lib/stddef.h: physical page frames, one bit each in a bitmap.
pub mod Byte
pub mod Bitmap
pub mod Ranges
pub mod Malloc
pub mod Free
pub mod Calloc
pub mod MemoryMap
pub mod Highest
pub mod Holder
pub mod Init
mod Tests
use flan.Base.{
  ℕ, zero, suc, ◌+◌, ◌-◌, ◌*◌, ◌/◌, ◌%◌, ◌^◌, bit_and, bit_or, Bool, true, false, List, [], ◌∷◌,
  Outcome, ok, halt, fault, ◌>>=◌, ◌>>◌, ◌==◌, ltb, leb, if◌then◌else◌, length, get_or, set,
  replicate,
}
use flan.Base.Words.{add64, sub64, mul64, u64, align_up}
use flan.Mem.{Memory, memset}
use flan.Lock.{Spinlock, lock_init, spinlock_acquire, spinlock_release}

abbrev pub frame_size : ℕ
frame_size = 4096

-- `bitmap`, `limit` and `pmm_lock`. A byte of the bitmap is below 256.
pub record Pmm : Type 0 where
  pub bitmap : List ℕ
  pub limit : ℕ
  pub pmm_lock : Spinlock

-- The three macros on the byte that they reach, for a bit below 8. `~(1 << k)`, cut to a byte, is
-- `255 - 2 ^ k`.
abbrev pub byte_set : ℕ → ℕ → ℕ
byte_set b k = bit_or b (2 ^ k)

abbrev pub byte_clear : ℕ → ℕ → ℕ
byte_clear b k = bit_and b (255 - 2 ^ k)

abbrev pub byte_test : ℕ → ℕ → ℕ
byte_test b k = bit_and (b / 2 ^ k) 1

-- An access outside of the bitmap is undefined.
unfoldable pub bit_set : List ℕ → ℕ → Outcome (List ℕ)
bit_set m bit =
    if ltb (bit / 8) (length m)
    then ok (set m (bit / 8) (byte_set (get_or m (bit / 8) 0) (bit % 8)))
    else fault

unfoldable pub bit_clear : List ℕ → ℕ → Outcome (List ℕ)
bit_clear m bit =
    if ltb (bit / 8) (length m)
    then ok (set m (bit / 8) (byte_clear (get_or m (bit / 8) 0) (bit % 8)))
    else fault

unfoldable pub bit_test : List ℕ → ℕ → Outcome ℕ
bit_test m bit =
    if ltb (bit / 8) (length m) then ok (byte_test (get_or m (bit / 8) 0) (bit % 8)) else fault

-- The loop of `pmm_free` over `i`, with the rounds that are left.
unfoldable pub clear_from : ℕ → ℕ → List ℕ → Outcome (List ℕ)
clear_from zero i m = ok m
clear_from (suc n) i m = bit_clear m i >>= clear_from n (i + 1)

-- `ptr` is the address as a number. The loop runs to `frames + frame`, at most 2 ^ 64.
unfoldable pub pmm_free : ℕ → ℕ → Pmm → Outcome Pmm
pmm_free ptr frames p = do
  lock ← spinlock_acquire p.pmm_lock
  let frame = ptr / frame_size
  m ← clear_from (add64 frames frame - frame) frame p.bitmap
  ok (record p { bitmap = m; pmm_lock = spinlock_release lock })

-- The inner loop of `pmm_malloc`, `i` up to `wanted_frames`, with the rounds that are left.
unfoldable pub claim_from : ℕ → ℕ → ℕ → List ℕ → Outcome (List ℕ)
claim_from zero i frame m = ok m
claim_from (suc n) i frame m = bit_set m (sub64 frame i) >>= claim_from n (i + 1) frame

-- `if (available_frames == wanted_frames) { … return ptr; }`, and else the rest of the loop.
unfoldable pub claim :
    ℕ → ℕ → ℕ → List ℕ → (ℕ → List ℕ → Outcome (ℕ × List ℕ)) → Outcome (ℕ × List ℕ)
unfolding claim_from
claim wanted_frames frame available_frames m rest = elim (available_frames == wanted_frames) [
  | true ↦ do
    m' ← claim_from wanted_frames 0 frame m
    ok (mul64 frame_size (sub64 frame (sub64 wanted_frames 1)), m')
  | false ↦ rest available_frames m
]

-- The outer loop, with the rounds that are left up to `limit`. The result is `ptr`, 0 for `NULL`.
unfoldable pub malloc_from : ℕ → ℕ → ℕ → ℕ → List ℕ → Outcome (ℕ × List ℕ)
malloc_from zero frame available_frames wanted_frames m = ok (0, m)
malloc_from (suc n) frame available_frames wanted_frames m = bit_test m frame >>= (λ used.
    elim (used == 0) [
      | true ↦
          claim wanted_frames frame (add64 available_frames 1) m
            (λ a m'. malloc_from n (frame + 1) a wanted_frames m')
      | false ↦ elim (available_frames == wanted_frames) [
        | true ↦
            claim wanted_frames frame available_frames m
              (λ a m'. malloc_from n (frame + 1) a wanted_frames m')
        | false ↦ malloc_from n (frame + 1) 0 wanted_frames m
      ]
    ])

unfoldable pub pmm_malloc : ℕ → Pmm → Outcome (ℕ × Pmm)
pmm_malloc wanted_frames p = do
  lock ← spinlock_acquire p.pmm_lock
  (ptr, m) ← malloc_from (p.limit - 1) 1 0 wanted_frames p.bitmap
  ok (ptr, record p { bitmap = m; pmm_lock = spinlock_release lock })

-- `hhdm_offset` is what the boot protocol answers for `HHDM_OFFSET`: physical memory is mapped from
-- there on.
module _ (hhdm_offset : ℕ) where
  unfoldable pub pmm_calloc : ℕ → Pmm → Memory → Outcome (ℕ × Pmm × Memory)
  pmm_calloc frames p mem = do
    (ptr, p') ← pmm_malloc frames p
    mem' ← memset (ptr + hhdm_offset) 0 (mul64 frames frame_size) mem
    ok (ptr, p', mem')

  unfoldable pub pmm_alloc : ℕ → Pmm → Memory → Outcome (ℕ × Pmm × Memory)
  pmm_alloc size p mem = do
    (ptr, p', mem') ← pmm_calloc (add64 size (frame_size - 1) / frame_size) p mem
    if ptr == 0 then halt else ok (ptr, p', mem')

-- `struct limine_memmap_entry`, from the boot protocol.
pub record Entry : Type 0 where
  pub base : ℕ
  pub size : ℕ
  pub kind : ℕ

-- `!x`
abbrev pub c_not : ℕ → ℕ
c_not x = if x == 0 then 1 else 0

-- The loop over `t`, with the rounds that are left.
unfoldable pub free_from : ℕ → ℕ → ℕ → Pmm → Outcome Pmm
free_from zero base t p = ok p
free_from (suc n) base t p = pmm_free (base + t) 1 p >>= free_from n base (t + frame_size)

abbrev pub bitmap_size_of : ℕ → ℕ
bitmap_size_of highest = align_up (highest / frame_size / 8) frame_size

-- `usable` is `LIMINE_MEMMAP_USABLE` of the boot protocol's header.
module _ (usable : ℕ) where
  -- `!mmaps[i]->type == LIMINE_MEMMAP_USABLE`, where C negates the type first.
  abbrev pub is_skipped : Entry → Bool
  is_skipped e = c_not e.kind == usable

  -- The first loop of `pmm_init`; its sums `usable` and `available` are only printed.
  unfoldable pub highest_from : List Entry → ℕ → ℕ
  highest_from [] highest = highest
  highest_from (e ∷ es) highest = highest_from es (
      if is_skipped e
      then highest
      else if ltb highest (add64 e.base e.size)
      then add64 e.base e.size
      else highest)

  -- The second loop: the bitmap's bytes, and the entries without them. With no entry that is large
  -- enough `bitmap` stays `NULL`, here a bitmap of no bytes.
  unfoldable pub carve : ℕ → List Entry → List ℕ × List Entry
  carve bitmap_size [] = ([], [])
  carve bitmap_size (e ∷ es) =
      let rest = carve bitmap_size es in
      if is_skipped e
      then (rest.0, e ∷ rest.1)
      else if leb bitmap_size e.size
      then (
        replicate bitmap_size 0xff,
        record e { size = e.size - bitmap_size; base = add64 e.base bitmap_size } ∷ es,
      )
      else (rest.0, e ∷ rest.1)

  -- The third loop.
  unfoldable pub free_entries : List Entry → Pmm → Outcome Pmm
  free_entries [] p = ok p
  free_entries (e ∷ es) p = elim (e.kind == usable) [
    | false ↦ free_entries es p
    | true ↦ free_from ((e.size + (frame_size - 1)) / frame_size) e.base 0 p >>= free_entries es
  ]

  unfoldable pub pmm_init : List Entry → Outcome Pmm
  pmm_init es =
      let highest = highest_from es 0 in
      let carved = carve (bitmap_size_of highest) es in
      free_entries carved.1
        (record { bitmap = carved.0; limit = highest / frame_size; pmm_lock = lock_init })
