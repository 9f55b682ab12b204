-- ===== src/Syscalls/Reading.antt =====
-- `syscall_seek` and `syscall_read` of sys/syscalls/syscalls.c on an open file.
use flan.Base.{
  ℕ, ◌+◌, ◌%◌, ◌^◌, ◌≤◌, ◌<◌, ◌≡◌, ◌≢◌, ◌⊎◌, refl, false, some, ok, ◌>>=◌, Returns, arith, ◌==◌,
  ==_self, leb,
}
use flan.Base.Int.{pos, negsuc, same_ℤ}
use flan.Base.Words.{u32, mul64}
use flan.Lock.Spin.{acquire-free, release-acquired}
use flan.Tmpfs.{File}
use flan.Tmpfs.Contents.{IsFile, tmpfs_read-copied}
use flan.Vector.{Vector, vector_get, to_int}
use flan.Vfs.{Vfs, tmpfs, put_node}
use flan.Vfs.Calls.{vfs_read}
use flan.Syscalls.{
  Process, seek_set, fd_to_node, new_offset, set_offset, syscall_seek, syscall_read, extend_offset,
}

-- The address of a descriptor's node.
abbrev pub slot_of : Process → ℕ → ℕ
slot_of p n = p.fildes.data' + mul64 n p.fildes.item_size

-- The vector of descriptors is free and has the descriptor `n`; `AT_FDCWD` is negative.
pub record HasFd (p : Process) (n : ℕ) : Type 0 where
  pub free : p.fildes.lock ≡ 0
  pub open_fd : n < p.fildes.items
  pub some_data : p.fildes.data' ≢ 0

pub vector_get-inside :
    (v : Vector) (i : ℕ)
    → v.lock ≡ 0
    → i < v.items
    → vector_get v i ≡ ok (v.data' + mul64 i v.item_size, v)
unfolding vector_get
vector_get-inside v i free inside =
    let e : leb v.items i ≡ false = ground arith in
    rw (free, acquire-free, ◌>>=◌, e, release-acquired) refl

module _ (cwd_number : ℕ) where
  pub fd_to_node-slot :
      (p : Process) (n : ℕ)
      → HasFd p n
      → fd_to_node (negsuc cwd_number) (pos n) p ≡ ok (slot_of p n, p)
  unfolding fd_to_node
  fd_to_node-slot p n h =
      let e : same_ℤ (pos n) (negsuc cwd_number) ≡ false = ground arith in
      let some_slot : (slot_of p n == 0) ≡ false = ground (arith, h.some_data) in
      rw (e, vector_get-inside p.fildes n h.free h.open_fd, ◌>>=◌, some_slot) refl

  syscall_read-copied :
      (p : Process) (v : Vfs) (n o buf count : ℕ) (f : File)
      → HasFd p n
      → (v.nodes (slot_of p n)).fs ≡ some tmpfs
      → (v.nodes (slot_of p n)).file ≡ f
      → f.offset ≡ o
      → IsFile f
      → o + count ≤ f.st_size
      → o + count < 2 ^ 31
      → buf ≢ 0
      → (f.data' + f.st_size ≤ buf) ⊎ (buf + count ≤ f.data')
      → Returns (syscall_read (negsuc cwd_number) (pos n) buf count p v) λ (r, p', v').
        (r ≡ pos count)
        × ((i : ℕ) → i < count → v'.memory (buf + i) ≡ v.memory (f.data' + o + i))
        × ((v'.nodes (slot_of p n)).file.offset ≡ o + count)
  unfolding syscall_read vfs_read
  syscall_read-copied p v n o buf count f h on_tmpfs is_f offset file inside few some_buf far =
      let some_slot : (slot_of p n == 0) ≡ false = ground (arith, h.some_data) in
      let extended : extend_offset f.offset ≡ o = rw offset (ground arith) in
      let (r, run, (all, node_same, bytes)) =
        tmpfs_read-copied f buf count o v.memory file inside some_buf far in
      let sum : (f.offset + count) % 2 ^ 32 ≡ o + count = omega (arith, offset) in
      let int_count : to_int r.0 ≡ pos count = rw all (ground arith) in
      rw (fd_to_node-slot p n h, ◌>>=◌, some_slot, on_tmpfs, is_f, extended, run)
        (_, refl, (int_count, bytes, rw (==_self (slot_of p n), node_same) sum))

  -- `syscall_seek` to a place in an open file returns the place. `syscall_read` from the same
  -- descriptor, where the bytes lie inside the file and the buffer outside of it, then returns
  -- `count`, and the buffer holds the file's bytes from that place on; the next read begins behind
  -- them.
  pub syscall_seek-syscall_read :
      (p : Process) (v : Vfs) (n o buf count : ℕ)
      → HasFd p n
      → (v.nodes (slot_of p n)).fs ≡ some tmpfs
      → IsFile (v.nodes (slot_of p n)).file
      → o + count ≤ (v.nodes (slot_of p n)).file.st_size
      → o + count < 2 ^ 31
      → buf ≢ 0
      → ((v.nodes (slot_of p n)).file.data' + (v.nodes (slot_of p n)).file.st_size ≤ buf)
        ⊎ (buf + count ≤ (v.nodes (slot_of p n)).file.data')
      → Returns (syscall_seek (negsuc cwd_number) (pos n) (pos o) seek_set p v) λ (place, p', v').
        (place ≡ pos o)
        × Returns (syscall_read (negsuc cwd_number) (pos n) buf count p' v') λ (r, p'', v'').
          (r ≡ pos count)
          × ((i : ℕ)
              → i < count
              → v''.memory (buf + i) ≡ v.memory ((v.nodes (slot_of p n)).file.data' + o + i))
          × ((v''.nodes (slot_of p n)).file.offset ≡ o + count)
  unfolding syscall_seek new_offset set_offset
  syscall_seek-syscall_read p v n o buf count h on_tmpfs file inside few some_buf far =
      let slot = slot_of p n in
      let some_slot : (slot_of p n == 0) ≡ false = ground (arith, h.some_data) in
      let start : u32 o ≡ o = omega arith in
      let sought = record (v.nodes (slot_of p n)).file { offset = o } in
      let v' = put_node (slot_of p n) (record (v.nodes (slot_of p n)) { file = sought }) v in
      rw (fd_to_node-slot p n h, ◌>>=◌, some_slot, start)
        (
          (pos o, p, v'),
          refl,
          (
            refl,
            syscall_read-copied p v' n o buf count sought h (rw (==_self (slot_of p n)) on_tmpfs)
                (rw (==_self (slot_of p n)) refl) refl
                (record { free = file.free; some_data = file.some_data; small = file.small }) inside
                few some_buf far,
          ),
        )
