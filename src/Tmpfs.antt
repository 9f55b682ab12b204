-- ===== src/Tmpfs.antt =====
-- fs/tmpfs.c: files that live in blocks of the kernel's heap.
pub mod Contents
mod Tests
use flan.Base.{
  ℕ, ◌+◌, ◌-◌, ◌*◌, ◌/◌, ◌%◌, ◌^◌, Outcome, ok, halt, ◌>>=◌, ◌==◌, ltb, leb, if◌then◌else◌,
}
use flan.Base.Words.{u32, add64, sub64, mul64}
use flan.Lock.{Spinlock, spinlock_acquire, spinlock_release}
use flan.Mem.{Memory, memcpy}
use flan.Pmm.{frame_size}

-- The fields of `vfs_node_t` that the reads and writes use, with those of its `struct stat`, whose
-- sizes are not negative.
pub record File : Type 0 where
  pub data' : ℕ
  pub st_size : ℕ
  pub st_blocks : ℕ
  pub offset : ℕ
  pub lock : Spinlock

-- The result is an `int`, and so is `offset` of the node: both are kept here as their 32 bits.
unfoldable pub tmpfs_read : ℕ → ℕ → ℕ → File → Memory → Outcome (ℕ × File × Memory)
tmpfs_read buff count offset node m =
    let max = sub64 node.st_size offset in
    let n = if ltb max count then max else count in
    spinlock_acquire node.lock >>= (λ lock. memcpy buff (node.data' + offset) n m >>= (λ m'.
      ok (u32 n, record node { lock = spinlock_release lock; offset = u32 (node.offset + n) }, m')))

module _ (kheap_realloc : ℕ → ℕ → Memory → Outcome (ℕ × Memory)) where
  -- `new = kheap_realloc(...)` and what follows it under the test of the blocks.
  unfoldable pub extend : ℕ → ℕ → File → Memory → Outcome (File × Memory)
  extend page end node m = do
    (new, m') ← kheap_realloc node.data' (mul64 (page + 1) frame_size) m
    if new == 0
        then halt
        else ok (record node { data' = new; st_blocks = page + 1; st_size = end }, m')

  unfoldable pub tmpfs_write : ℕ → ℕ → ℕ → File → Memory → Outcome (ℕ × File × Memory)
  tmpfs_write buff count offset node m = do
    let end = add64 offset count
    let page = end / frame_size
    lock ← spinlock_acquire node.lock
    (node1, m1) ← if leb node.st_blocks page then extend page end node m else ok (node, m)
    m2 ← memcpy (node1.data' + offset) buff count m1
    ok (u32 count, record node1 { lock = spinlock_release lock }, m2)
