-- ===== src/Kheap.antt =====
-- memory/kheap.c: the kernel's heap, a list of free blocks in page frames.
pub mod Fit
pub mod Release
mod Tests
use flan.Base.{
  ℕ, zero, suc, ◌+◌, ◌-◌, ◌*◌, ◌/◌, ◌%◌, Bool, true, false, ◌&&◌, Option, none, some, List, [], ◌∷◌,
  ◌++◌, Outcome, ok, halt, fault, ◌>>=◌, ◌==◌, ltb, leb, if◌then◌else◌,
}
use flan.Base.Words.{add64, sub64, mul64, align_up}
use flan.Lock.{Spinlock, spinlock_acquire, spinlock_release}
use flan.Mem.{Memory, memset, memcpy}
use flan.Pmm.{Pmm, frame_size, pmm_malloc, pmm_free}

abbrev pub header_size : ℕ
header_size = 24

-- The order of the blocks in `free_list`, whose links are that order, the field `size` of each
-- block by its address, the lock, and the frames. The bytes of a block follow its header of 24
-- bytes: `cBlock` is at `block + 24`.
pub record Kheap : Type 0 where
  pub free_list : List ℕ
  pub size : ℕ → ℕ
  pub kheap_lock : Spinlock
  pub pmm : Pmm

abbrev pub set_size : (ℕ → ℕ) → ℕ → ℕ → ℕ → ℕ
set_size size block n b = if block == b then n else size b

unfoldable pub add_block : ℕ → ℕ → Kheap → Kheap
add_block addr n h = record h {
  free_list = h.free_list ++ addr ∷ [];
  size = set_size h.size addr (sub64 n header_size);
}

-- `(alloc_node_t *)(prevBlock + prevBlock->size + HEADER_SIZE)`, where the addition counts in
-- `alloc_node_t`, of 32 bytes.
abbrev pub block_end : (ℕ → ℕ) → ℕ → ℕ
block_end size block = add64 (add64 block (mul64 32 (size block))) (32 * header_size)

-- The loop of `coalesce_dll` behind `prevBlock`.
unfoldable pub coalesce_from : (ℕ → ℕ) → ℕ → List ℕ → List ℕ × (ℕ → ℕ)
coalesce_from size prev [] = ([], size)
coalesce_from size prev (block ∷ blocks) = elim (block_end size prev == block) [
  | true ↦
      coalesce_from (set_size size prev (add64 (size prev) (add64 (size block) header_size))) prev
        blocks
  | false ↦ let rest = coalesce_from size block blocks in (block ∷ rest.0, rest.1)
]

unfoldable pub coalesce : List ℕ → (ℕ → ℕ) → List ℕ × (ℕ → ℕ)
coalesce [] size = ([], size)
coalesce (block ∷ blocks) size =
    let rest = coalesce_from size block blocks in (block ∷ rest.0, rest.1)

abbrev pub coalesce_dll : Kheap → Kheap
coalesce_dll h =
    let merged = coalesce h.free_list h.size in record h { free_list = merged.0; size = merged.1 }

-- The first loop of `kheap_alloc`.
unfoldable pub first_fit : (ℕ → ℕ) → ℕ → List ℕ → Option ℕ
first_fit size n [] = none
first_fit size n (block ∷ blocks) =
    if leb n (size block) then some block else first_fit size n blocks

-- The list with other blocks in the place of one.
unfoldable pub replace : List ℕ → ℕ → List ℕ → List ℕ
replace [] block new = []
replace (b ∷ blocks) block new = if b == block then new ++ blocks else b ∷ replace blocks block new

-- What `kheap_alloc` does with the block that it found.
unfoldable pub take_block : ℕ → ℕ → Kheap → Kheap
take_block block n h = elim (leb header_size (h.size block - n)) [
  | true ↦
      let new_block = block + header_size + n in
      record h {
        free_list = replace h.free_list block (new_block ∷ []);
        size = set_size (set_size h.size new_block (h.size block - n - header_size)) block n;
      }
  | false ↦ record h { free_list = replace h.free_list block [] }
]

-- The loop of `kheap_free`: the block goes before the first one with a higher address.
unfoldable pub insert_before : List ℕ → ℕ → Option (List ℕ)
insert_before [] block = none
insert_before (b ∷ blocks) block =
    if ltb block b
    then some (block ∷ b ∷ blocks)
    else elim (insert_before blocks block) [ none ↦ none | some rest ↦ some (b ∷ rest) ]

-- Where no address is higher the block goes to the front of the list.
unfoldable pub place_block : List ℕ → ℕ → List ℕ
place_block blocks block = elim (insert_before blocks block) [
  | none ↦ block ∷ blocks
  | some placed ↦ placed
]

module _ (hhdm_offset : ℕ) where
  -- On fuel, for the call of itself after a block was added; `fault` means that it ran out.
  unfoldable pub kheap_alloc : ℕ → ℕ → Kheap → Outcome (ℕ × Kheap)
  kheap_alloc zero n h = fault
  kheap_alloc (suc fuel) n h = spinlock_acquire h.kheap_lock >>= (λ lock.
      elim (first_fit h.size n h.free_list) [
        | some block ↦ ok (
          block + header_size,
          record (take_block block n h) { kheap_lock = spinlock_release lock },
        )
        | none ↦
            let frames = align_up (add64 n header_size) frame_size / frame_size in
            pmm_malloc frames h.pmm >>= (λ (new, pmm).
              kheap_alloc fuel n
                (record (coalesce_dll (add_block (new + hhdm_offset) (mul64 frames frame_size) h)) {
                  kheap_lock = spinlock_release lock;
                  pmm = pmm;
                }))
      ])

  unfoldable pub kheap_calloc : ℕ → ℕ → Kheap → Memory → Outcome (ℕ × Kheap × Memory)
  kheap_calloc fuel n h m = do
    (ptr, h') ← kheap_alloc fuel n h
    if ptr == 0 then ok (0, h', m) else memset ptr 0 n m >>= (λ m'. ok (ptr, h', m'))

  -- A block that fills page frames is given to the physical memory manager; that path returns
  -- before it releases the lock. `HHDM_OFFSET` is subtracted from an `alloc_node_t *`, so that the
  -- address goes down by 32 times as many bytes.
  unfoldable pub kheap_free : ℕ → Kheap → Outcome Kheap
  kheap_free ptr h = spinlock_acquire h.kheap_lock >>= (λ lock.
      let block = ptr - header_size in
      let page = block - header_size in
      elim (leb frame_size (add64 (h.size block) 32) && page % frame_size == 0) [
        | true ↦
            pmm_free (sub64 page (mul64 32 hhdm_offset)) (add64 (h.size block) 32 / frame_size)
              h.pmm
            >>= (λ pmm. ok (record h { kheap_lock = lock; pmm = pmm }))
        | false ↦
            ok (record (coalesce_dll (record h { free_list = place_block h.free_list block })) {
              kheap_lock = spinlock_release lock;
            })
      ])

  unfoldable pub kheap_realloc : ℕ → ℕ → ℕ → Kheap → Memory → Outcome (ℕ × Kheap × Memory)
  kheap_realloc fuel ptr new_size h m =
      if ptr == 0 && new_size == 0
      then ok (0, h, m)
      else if new_size == 0
      then kheap_free ptr h >>= (λ h'. ok (0, h', m))
      else if ptr == 0
      then kheap_alloc fuel new_size h >>= (λ (ret, h'). ok (ret, h', m))
      else let old_size = h.size (ptr - header_size) in
        kheap_alloc fuel new_size h >>= (λ (ret, h').
          if ret == 0
          then ok (0, h', m)
          else memcpy ret ptr old_size m >>= (λ m'. ok (ret, h', m')))

  unfoldable pub kheap_init : Kheap → Outcome Kheap
  kheap_init h = do
    (new, pmm) ← pmm_malloc 1 h.pmm
    ok (record (add_block (new + hhdm_offset) frame_size h) { pmm = pmm })
