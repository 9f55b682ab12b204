-- ===== src/Tmpfs/Tests.antt =====
-- fs/tmpfs.c at a file of 100 bytes in one block.
use flan.Base.{ℕ, ◌+◌, ◌<◌, ◌≤◌, ◌⊎◌, ◌%◌, ◌^◌, ◌≡◌, refl, inl, Outcome, halt, Returns, arith}
use flan.Mem.{Memory}
use flan.Tmpfs.{File, tmpfs_read, tmpfs_write}
use flan.Tmpfs.Contents.{IsFile, tmpfs_write-tmpfs_read}

abbrev ramp : Memory
ramp a = a

abbrev hundred : File
hundred = record { data' = 4096; st_size = 100; st_blocks = 1; offset = 7; lock = 0 }

hundred-IsFile : IsFile hundred
hundred-IsFile = record { free = refl; some_data = omega arith; small = omega arith }

-- A heap that has nothing left.
abbrev no_heap : ℕ → ℕ → Memory → Outcome (ℕ × Memory)
no_heap ptr size m = halt

tmpfs_write-tmpfs_read_example :
    Returns (tmpfs_write no_heap 9000 5 20 hundred ramp) λ (n, node', m').
      (n ≡ 5)
      × ((j : ℕ) → j < 100 → (j < 20) ⊎ (20 + 5 ≤ j) → m' (4096 + j) ≡ ramp (4096 + j))
      × Returns (tmpfs_read 20000 5 20 node' m') λ (n', node'', m'').
        (n' ≡ 5)
        × ((i : ℕ) → i < 5 → m'' (20000 + i) ≡ ramp (9000 + i))
        × (node''.offset ≡ (7 + 5) % 2 ^ 32)
tmpfs_write-tmpfs_read_example =
    tmpfs_write-tmpfs_read no_heap hundred 9000 20000 5 20 ramp hundred-IsFile (omega arith)
      (omega arith) (omega arith) (omega arith) (inl (omega arith)) (inl (omega arith))
