-- ===== src/Tmpfs/Contents.antt =====
-- What fs/tmpfs.c reads back, and what it reads past the end of a file.
use flan.Base.{
  ℕ, ◌+◌, ◌-◌, ◌/◌, ◌%◌, ◌^◌, ◌≤◌, ◌<◌, ◌≡◌, ◌≢◌, refl, ap, ◌∙◌, ◌⊎◌, inl, inr, false, Outcome,
  ◌>>=◌, Returns, Returns-bind, Returns_mono, arith, ltb, leb,
}
use flan.Base.Words.{u32, add64, sub64}
use flan.Lock.Spin.{acquire-free, release-acquired}
use flan.Mem.{Memory}
use flan.Mem.Copy.{memcpy-copied, copied, copied-inside, copied-outside}
use flan.Pmm.{frame_size}
use flan.Tmpfs.{File, tmpfs_read, tmpfs_write}

-- The lock is free and the file has a block.
pub record IsFile (node : File) : Type 0 where
  pub free : node.lock ≡ 0
  pub some_data : node.data' ≢ 0
  pub small : node.st_size < 2 ^ 63

-- A read inside of a file, to a buffer outside of it: the whole memory, and the bytes of the buffer.
pub tmpfs_read-memory :
    (node : File) (buff count offset : ℕ) (m : Memory)
    → IsFile node
    → offset + count ≤ node.st_size
    → buff ≢ 0
    → (node.data' + node.st_size ≤ buff) ⊎ (buff + count ≤ node.data')
    → Returns (tmpfs_read buff count offset node m) λ (n, node', m').
      (n ≡ u32 count)
      × (node' ≡ record node { offset = (node.offset + count) % 2 ^ 32 })
      × ((a : ℕ) → m' a ≡ copied m buff (node.data' + offset) count a)
unfolding tmpfs_read
tmpfs_read-memory node buff count offset m file inside some_buff far =
    let max : sub64 node.st_size offset ≡ node.st_size - offset =
      omega (arith, inside, file.small) in
    let whole : ltb (node.st_size - offset) count ≡ false = ground arith in
    let apart : (buff ≤ node.data' + offset) ⊎ (node.data' + offset + count ≤ buff) = elim far [
      | inl a ↦ inr (omega (arith, a, inside))
      | inr a ↦ inl (omega (arith, a))
    ] in
    rw (max, whole, file.free, acquire-free, ◌>>=◌, release-acquired)
      (Returns-bind
        (memcpy-copied buff (node.data' + offset) count m some_buff (omega (arith, file.some_data))
          apart)
        λ m' c. (_, refl, (refl, refl, c)))

pub tmpfs_read-copied :
    (node : File) (buff count offset : ℕ) (m : Memory)
    → IsFile node
    → offset + count ≤ node.st_size
    → buff ≢ 0
    → (node.data' + node.st_size ≤ buff) ⊎ (buff + count ≤ node.data')
    → Returns (tmpfs_read buff count offset node m) λ (n, node', m').
      (n ≡ u32 count)
      × (node' ≡ record node { offset = (node.offset + count) % 2 ^ 32 })
      × ((i : ℕ) → i < count → m' (buff + i) ≡ m (node.data' + offset + i))
tmpfs_read-copied node buff count offset m file inside some_buff far =
    Returns_mono (tmpfs_read-memory node buff count offset m file inside some_buff far)
      λ (n, node', m') (all, same, c).
        (all, same, λ i low. c (buff + i) ∙ copied-inside m buff (node.data' + offset) count i low)

-- A write inside the blocks of a file, below its size, returns the low 32 bits of `count`. A read of
-- the same bytes to a buffer outside of the file then returns the same, and the buffer holds what was
-- written. The other bytes of the file are as before.
pub tmpfs_write-tmpfs_read :
    (realloc : ℕ → ℕ → Memory → Outcome (ℕ × Memory)) (node : File) (source buff count offset : ℕ)
    (m : Memory)
    → IsFile node
    → offset + count ≤ node.st_size
    → (offset + count) / frame_size < node.st_blocks
    → source ≢ 0
    → buff ≢ 0
    → (node.data' + node.st_size ≤ source) ⊎ (source + count ≤ node.data')
    → (node.data' + node.st_size ≤ buff) ⊎ (buff + count ≤ node.data')
    → Returns (tmpfs_write realloc source count offset node m) λ (n, node', m').
      (n ≡ u32 count)
      × ((j : ℕ)
          → j < node.st_size
          → (j < offset) ⊎ (offset + count ≤ j)
          → m' (node.data' + j) ≡ m (node.data' + j))
      × Returns (tmpfs_read buff count offset node' m') λ (n', node'', m'').
        (n' ≡ u32 count)
        × ((i : ℕ) → i < count → m'' (buff + i) ≡ m (source + i))
        × (node''.offset ≡ (node.offset + count) % 2 ^ 32)
unfolding tmpfs_write
tmpfs_write-tmpfs_read realloc node source buff count offset m file inside blocks some_source
      some_buff far far' =
    let exact : add64 offset count ≡ offset + count = omega (arith, inside, file.small) in
    let room : leb node.st_blocks ((offset + count) / frame_size) ≡ false = ground arith in
    rw (file.free, acquire-free, ◌>>=◌, exact, room, release-acquired)
      (Returns-bind
        (memcpy-copied (node.data' + offset) source count m (omega (arith, file.some_data))
          some_source
          (elim far [ inl a ↦ inl (omega (arith, a, inside)) | inr a ↦ inr (omega (arith, a)) ]))
        λ m' c. (
          _,
          refl,
          (
            refl,
            λ j low_j beside.
                c (node.data' + j)
                ∙ copied-outside m (node.data' + offset) source count (node.data' + j)
                    (elim beside [
                      | inl a ↦ inl (omega (arith, a))
                      | inr a ↦ inr (omega (arith, a))
                    ]),
            let (r, run, (all, node_same, bytes)) =
                  tmpfs_read-copied (record node { lock = 0 }) buff count offset m'
                    (record { free = refl; some_data = file.some_data; small = file.small }) inside
                    some_buff far' in
                (
                  r,
                  run,
                  (
                    all,
                    λ i low.
                        bytes i low
                        ∙ c (node.data' + offset + i)
                        ∙ copied-inside m (node.data' + offset) source count i low,
                    ap (λ f. f.offset) node_same,
                  ),
                ),
          ),
        ))

-- A read past the end of a file is not cut short: `st_size - offset` wraps around, so that the read
-- returns the whole `count` and copies the bytes that lie behind the file's block.
pub tmpfs_read-past :
    (node : File) (buff count offset i : ℕ) (m : Memory)
    → IsFile node
    → node.st_size < offset
    → offset < 2 ^ 62
    → count < 2 ^ 62
    → buff ≢ 0
    → (node.data' + offset + count ≤ buff) ⊎ (buff + count ≤ node.data' + offset)
    → i < count
    → Returns
        (tmpfs_read buff count offset node m)
        λ (n, node', m'). (n ≡ u32 count) × (m' (buff + i) ≡ m (node.data' + offset + i))
unfolding tmpfs_read
tmpfs_read-past node buff count offset i m file past few few' some_buff far low =
    let whole : ltb (sub64 node.st_size offset) count ≡ false = ground arith in
    rw (whole, file.free, acquire-free, ◌>>=◌)
      (Returns-bind
        (memcpy-copied buff (node.data' + offset) count m some_buff (omega (arith, file.some_data))
          (elim far [ inl a ↦ inr a | inr a ↦ inl (omega (arith, a)) ]))
        λ m' c.
          (_, refl, (refl, c (buff + i) ∙ copied-inside m buff (node.data' + offset) count i low)))
