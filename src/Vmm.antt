-- ===== src/Vmm.antt =====
-- memory/vmm.c: page tables of four levels in physical memory, which is mapped from `HHDM_OFFSET`
-- on.
pub mod Index
pub mod Tree
pub mod Descend
pub mod Walk
pub mod Map
mod Tests
use flan.Base.{
  ℕ, zero, suc, ◌+◌, ◌-◌, ◌*◌, ◌/◌, ◌^◌, bit_and, bit_or, true, false, Outcome, ok, halt, ◌>>=◌,
  ◌>>◌, ◌==◌, if◌then◌else◌,
}
use flan.Base.Words.{add64, sub64, align_up}
use flan.Mem.{Memory}
use flan.Mem.Word.{load64, store64}
use flan.Lock.{Spinlock, spinlock_acquire, spinlock_release}
use flan.Pmm.{Pmm, frame_size, pmm_calloc, pmm_alloc}

-- The state that the functions share: the frames, the memory, and `vmm_lock`.
pub record Vmm : Type 0 where
  pub pmm : Pmm
  pub memory : Memory
  pub vmm_lock : Spinlock

abbrev pub pte_addr_mask : ℕ
pte_addr_mask = 0x000ffffffffff000

abbrev pub pte_present : ℕ
pte_present = 1

abbrev pub pte_writable : ℕ
pte_writable = 2

abbrev pub pte_user : ℕ
pte_user = 4

-- `(virtual_address & ((uint64_t)0x1ff << shift)) >> shift`
unfoldable pub level_index : ℕ → ℕ → ℕ
level_index shift virtual_address = bit_and virtual_address (2 ^ shift * 0x1ff) / 2 ^ shift

-- `assert` of a pointer.
abbrev pub assert : ℕ → Outcome (Unit {0})
assert p = if p == 0 then halt else ok _

module _ (hhdm_offset : ℕ) where
  -- `next` of `get_next_level` where the entry is not present.
  unfoldable pub add_level : ℕ → ℕ → Vmm → Outcome (ℕ × Vmm)
  add_level current_level index s =
      pmm_calloc hhdm_offset 1 s.pmm s.memory >>= (λ (next, pmm, memory). elim (next == 0) [
        | true ↦ halt
        | false ↦ ok (
          next + hhdm_offset,
          record s {
            pmm = pmm;
            memory =
                store64 (current_level + 8 * index)
                  (bit_or (bit_or (bit_or next pte_present) pte_writable) pte_user) memory;
          },
        )
      ])

  unfoldable pub get_next_level : ℕ → ℕ → Vmm → Outcome (ℕ × Vmm)
  get_next_level current_level index s =
      let entry = load64 (current_level + 8 * index) s.memory in
      elim (bit_and entry 1 == 0) [
        | false ↦ ok (add64 (bit_and entry pte_addr_mask) hhdm_offset, s)
        | true ↦ add_level current_level index s
      ]

  -- The table of the last level for an address, as every function below finds it; `top` is
  -- `pagemap->top`.
  unfoldable pub walk : ℕ → ℕ → Vmm → Outcome (ℕ × Vmm)
  walk top virtual_address s = do
    (pml3, s3) ← get_next_level top (level_index 39 virtual_address) s
    assert pml3
    (pml2, s2) ← get_next_level pml3 (level_index 30 virtual_address) s3
    assert pml2
    (pml1, s1) ← get_next_level pml2 (level_index 21 virtual_address) s2
    assert pml1
    ok (pml1, s1)

  -- `pml1[pml1_index] = entry` under the lock.
  unfoldable pub set_page : ℕ → ℕ → ℕ → Vmm → Outcome Vmm
  set_page top virtual_address entry s = do
    lock ← spinlock_acquire s.vmm_lock
    (pml1, t) ← walk top virtual_address (record s { vmm_lock = lock })
    ok (record t {
      memory = store64 (pml1 + 8 * level_index 12 virtual_address) entry t.memory;
      vmm_lock = spinlock_release t.vmm_lock;
    })

  unfoldable pub vmm_map_page : ℕ → ℕ → ℕ → ℕ → Vmm → Outcome Vmm
  vmm_map_page top physical_address virtual_address flags s =
      set_page top virtual_address (bit_or physical_address flags) s

  -- `invlpg` is left out.
  unfoldable pub vmm_unmap_page : ℕ → ℕ → Vmm → Outcome Vmm
  vmm_unmap_page top virtual_address s = set_page top virtual_address 0 s

  -- The loop of `vmm_map_pages`, with the rounds that are left before `i`.
  unfoldable pub map_pages_from : ℕ → ℕ → ℕ → ℕ → ℕ → ℕ → Vmm → Outcome Vmm
  map_pages_from zero i top physical_address virtual_address flags s = ok s
  map_pages_from (suc n) i top physical_address virtual_address flags s =
      vmm_map_page top (add64 physical_address (i * frame_size))
        (add64 virtual_address (i * frame_size)) flags s
      >>= map_pages_from n (i + 1) top physical_address virtual_address flags

  unfoldable pub vmm_map_pages : ℕ → ℕ → ℕ → ℕ → ℕ → Vmm → Outcome Vmm
  vmm_map_pages top physical_address virtual_address flags pages s =
      map_pages_from pages 0 top physical_address virtual_address flags s

  unfoldable pub virt_to_pte : ℕ → ℕ → Vmm → Outcome (ℕ × Vmm)
  virt_to_pte top virtual_address s = do
    (pml1, t) ← walk top virtual_address s
    ok (pml1 + 8 * level_index 12 virtual_address, t)

  unfoldable pub virt_to_phys : ℕ → ℕ → Vmm → Outcome (ℕ × Vmm)
  virt_to_phys top virtual_address s = do
    (pte, t) ← virt_to_pte top virtual_address s
    ok (bit_and (load64 pte t.memory) pte_addr_mask, t)

  -- The loop of `vmm_new_pagemap`, with the rounds that are left before `i`.
  unfoldable pub copy_entries : ℕ → ℕ → ℕ → ℕ → Memory → Memory
  copy_entries zero i top kernel_top m = m
  copy_entries (suc n) i top kernel_top m =
      copy_entries n (i + 1) top kernel_top
        (store64 (top + 8 * i) (load64 (kernel_top + 8 * i) m) m)

  -- The address of the new `pagemap_t`, whose field `top` is written to memory; `kernel_top` is
  -- `kernel_pagemap->top`.
  unfoldable pub vmm_new_pagemap : ℕ → Vmm → Outcome (ℕ × Vmm)
  vmm_new_pagemap kernel_top s = do
    (ptr, pmm1, m1) ← pmm_alloc hhdm_offset 8 s.pmm s.memory
    let pagemap = ptr + hhdm_offset
    assert pagemap
    (top, pmm2, m2) ← pmm_calloc hhdm_offset 1 pmm1 m1
    assert top
    ok (
      pagemap,
      record s {
        pmm = pmm2;
        memory =
            copy_entries 256 256 (top + hhdm_offset) kernel_top
              (store64 pagemap (top + hhdm_offset) m2);
      },
    )

  -- The loops of `vmm_init`, with the rounds that are left before `i`.
  unfoldable pub map_kernel : ℕ → ℕ → ℕ → ℕ → ℕ → Vmm → Outcome Vmm
  map_kernel zero i top physical virtual s = ok s
  map_kernel (suc n) i top physical virtual s =
      vmm_map_page top (add64 physical i) (add64 virtual i) (bit_or pte_present pte_writable) s
      >>= map_kernel n (i + frame_size) top physical virtual

  unfoldable pub map_low : ℕ → ℕ → ℕ → Vmm → Outcome Vmm
  map_low zero i top s = ok s
  map_low (suc n) i top s = do
    s1 ← vmm_map_page top i i (bit_or pte_present pte_writable) s
    s2 ← vmm_map_page top i (add64 i hhdm_offset) (bit_or pte_present pte_writable) s1
    map_low n (i + frame_size) top s2

  -- `physical` and `virtual` are the bases in the boot protocol's answer; the printing and the load
  -- of `cr3` are left out. The result is `kernel_pagemap`.
  unfoldable pub vmm_init : ℕ → ℕ → ℕ → Vmm → Outcome (ℕ × Vmm)
  vmm_init physical virtual kernel_end_addr s = do
    (ptr, pmm1, m1) ← pmm_alloc hhdm_offset 8 s.pmm s.memory
    let kernel_pagemap = ptr + hhdm_offset
    (next, pmm2, m2) ← pmm_calloc hhdm_offset 1 pmm1 m1
    assert next
    let top = next + hhdm_offset
    let length = sub64 (align_up kernel_end_addr frame_size) virtual
    s1 ←
        map_kernel ((length + (frame_size - 1)) / frame_size) 0 top physical virtual
          (record s { pmm = pmm2; memory = store64 kernel_pagemap top m2 })
    s2 ← map_low 0xfffff 0x1000 top s1
    ok (kernel_pagemap, s2)
