-- ===== src/Syscalls.antt =====
-- sys/syscalls/syscalls.c, with the descriptors of fs/vfs.c that it uses.
pub mod Reading
pub mod Slots
pub mod Opening
mod Tests
use flan.Base.{
  ℕ, zero, suc, ◌+◌, ◌-◌, ◌*◌, ◌/◌, ◌%◌, ◌^◌, bit_and, bit_or, Bool, true, false, not, ◌&&◌, ◌||◌,
  Option, none, some, List, [], ◌∷◌, Outcome, ok, halt, fault, ◌>>=◌, ◌==◌, ltb, leb, if◌then◌else◌,
}
use flan.Base.Int.{ℤ, pos, negsuc, ◌+ℤ◌, same_ℤ}
use flan.Base.Words.{u32, add64, mul64, align_up}
use flan.Lock.{spinlock_acquire, spinlock_release}
use flan.Mem.{Memory}
use flan.Pmm.{frame_size, pmm_calloc}
use flan.Str.Names.{Name}
use flan.Vector.{Vector, acquire, release, vector_get, vector_get_index, to_int}
use flan.Vfs.{Vfs, VfsNode, put_node, copy_string, path_to_node, path_to_parent}
use flan.Vfs.Calls.{vfs_create, vfs_read, s_ifreg}
use flan.Vmm.{Vmm, pte_present, pte_writable, pte_user, vmm_map_pages}

-- `errno` of the current thread.
pub data Errno : Type 0 where
  no_error : Errno
  ebadf : Errno
  enoent : Errno
  enomem : Errno
  einval : Errno

-- What the calls use of the current thread and its process. The vector holds copies of nodes.
pub record Process : Type 0 where
  pub cwd : ℕ
  pub fildes : Vector
  pub current_filde : ℕ
  pub anon_base : ℕ
  pub errno : Errno

-- `vector_replace(process->fildes, node, i)`: the node is copied to the place of the item.
unfoldable pub replace_node : Vector → ℕ → ℕ → Vfs → Outcome (ℕ × Vector × Vfs)
replace_node fildes node i v = do
  (ptr, v1) ← vector_get fildes i
  v2 ← acquire v1
  if ptr == 0 then halt else ok (ptr, release v2, put_node ptr (v.nodes node) v)

unfoldable pub vfs_open : ℕ → ℕ → Name → Process → Vfs → Outcome (ℕ × Process × Vfs)
vfs_open fuel parent path p v = do
  lock ← spinlock_acquire v.vfs_lock
  ret ← path_to_node fuel parent path (record v { vfs_lock = lock })
  elim (ret.result == 0) [
    | true ↦ ok (0, record p { errno = enoent }, record v { vfs_lock = spinlock_release lock })
    | false ↦
        replace_node p.fildes ret.result p.current_filde (record v { vfs_lock = lock })
        >>= (λ (node, fildes, v'). ok (
          node,
          record p { fildes = fildes; current_filde = p.current_filde + 1 },
          record v' { vfs_lock = spinlock_release v'.vfs_lock },
        ))
  ]

unfoldable pub node_to_fd : ℕ → Process → Outcome (ℤ × Process)
node_to_fd node p = do
  (result, fildes) ← vector_get_index p.fildes node
  ok (
    result,
    record p { fildes = fildes; errno = if same_ℤ result (negsuc 0) then enoent else p.errno },
  )

-- The conversion of an `int` to `uint64_t`.
abbrev pub to_u64 : ℤ → ℕ
to_u64 (pos n) = n
to_u64 (negsuc n) = 2 ^ 64 - 1 - n

-- The 32 bits of a node's `offset` as the `uint64_t` that they are converted to.
abbrev pub extend_offset : ℕ → ℕ
extend_offset offset = to_u64 (to_int offset)

-- `SEEK_SET`, `SEEK_CUR`, `SEEK_END` and any other number.
pub data Whence : Type 0 where
  seek_set : Whence
  seek_cur : Whence
  seek_end : Whence
  seek_other : Whence

-- The number of `AT_FDCWD` comes from a header of the C library.
module _ (at_fdcwd : ℤ) where
  unfoldable pub fd_to_node : ℤ → Process → Outcome (ℕ × Process)
  fd_to_node fd p = do
    (result, fildes) ←
        if same_ℤ fd at_fdcwd then ok (p.cwd, p.fildes) else vector_get p.fildes (to_u64 fd)
    ok (result, record p { fildes = fildes; errno = if result == 0 then ebadf else p.errno })

  -- The switch of `syscall_seek`; `none` is its default. A null node is an undefined access where
  -- its fields are read.
  unfoldable pub new_offset : ℕ → ℤ → Whence → Vfs → Outcome (Option ℤ)
  new_offset node offset seek_set v = ok (some offset)
  new_offset node offset seek_cur v =
      if node == 0 then fault else ok (some (to_int (v.nodes node).file.offset +ℤ offset))
  new_offset node offset seek_end v =
      if node == 0 then fault else ok (some (pos (v.nodes node).file.st_size +ℤ offset))
  new_offset node offset seek_other v = ok none

  -- The end of `syscall_seek`. `off_t` is taken not to overflow.
  unfoldable pub set_offset : ℕ → Option ℤ → Process → Vfs → Outcome (ℤ × Process × Vfs)
  set_offset node none p v = ok (negsuc 0, record p { errno = einval }, v)
  set_offset node (some (negsuc n)) p v = ok (negsuc 0, record p { errno = einval }, v)
  set_offset node (some (pos n)) p v =
      if node == 0
      then fault
      else ok (
        pos n,
        p,
        put_node node
            (record (v.nodes node) { file = record (v.nodes node).file { offset = u32 n } }) v,
      )

  unfoldable pub syscall_seek : ℤ → ℤ → Whence → Process → Vfs → Outcome (ℤ × Process × Vfs)
  syscall_seek fd offset whence p v = do
    (node, p') ← fd_to_node fd p
    new_off ← new_offset node offset whence v
    set_offset node new_off p' v

  unfoldable pub syscall_read : ℤ → ℕ → ℕ → Process → Vfs → Outcome (ℤ × Process × Vfs)
  syscall_read fd buf count p v = do
    (node, p') ← fd_to_node fd p
    elim (node == 0) [
      | true ↦ ok (negsuc 0, record p' { errno = enoent }, v)
      | false ↦
          vfs_read node buf count (extend_offset (v.nodes node).file.offset) v
          >>= (λ (n, v'). ok (to_int n, p', v'))
    ]

  -- `vfs_create` is called with the function `basename`: the path is the bytes of its code, up to
  -- the first zero byte. `create` is the test of `O_CREAT` in the flags.
  unfoldable pub syscall_openat :
      ℕ → Name → ℤ → Name → Bool → Process → Vfs → Outcome (ℤ × Process × Vfs)
  syscall_openat fuel basename_code dirfd pathname create p v = do
    (dir, p1) ← fd_to_node dirfd p
    (node, p2, v2) ← vfs_open fuel dir pathname p1 v
    elim (node == 0) [
      | false ↦ do (fd, p3) ← node_to_fd node p2; ok (fd, p3, v2)
      | true ↦ elim create [
        | false ↦ ok (negsuc 0, record p2 { errno = enoent }, v2)
        | true ↦ path_to_parent fuel dir pathname v2 >>= (λ parent. elim (parent == 0) [
          | true ↦ ok (negsuc 0, record p2 { errno = enoent }, v2)
          | false ↦
              let (new_pathname, v3) = copy_string pathname v2 in
              elim (new_pathname == 0) [
                | true ↦ ok (negsuc 0, record p2 { errno = enomem }, v3)
                | false ↦ do
                  (made, v4) ← vfs_create fuel parent basename_code s_ifreg v3
                  (fd, p3) ← node_to_fd made p2
                  ok (fd, p3, v4)
              ]
        ])
      ]
    ]

-- `USER_SPACE_END` of memory/vmm.h
abbrev pub user_space_end : ℕ
user_space_end = 0x00007fffffffffff

-- `syscall_mmap`, with the tests of `MAP_ANON` and `MAP_FIXED` in the flags; `none` is `MAP_FAILED`,
-- and `top` is `pagemap->top`.
module _ (hhdm_offset : ℕ) where
  abbrev pub pages_of : ℕ → ℕ
  pages_of length = align_up length frame_size / frame_size

  -- What follows the choice of the address.
  unfoldable pub map_anon : ℕ → ℕ → ℕ → ℕ → Process → Vmm → Outcome (Option ℕ × Process × Vmm)
  map_anon top virt pages prot p s = do
    (phys, pmm, memory) ← pmm_calloc hhdm_offset pages s.pmm s.memory
    let s' = record s { pmm = pmm; memory = memory }
    elim (phys == 0) [
      | true ↦ ok (none, p, s')
      | false ↦
          vmm_map_pages hhdm_offset top phys virt
            (bit_or (bit_or (bit_or prot pte_present) pte_writable) pte_user) pages s'
          >>= (λ t. ok (some virt, p, t))
    ]

  unfoldable pub syscall_mmap :
      ℕ → ℕ → ℕ → ℕ → Bool → Bool → Process → Vmm → Outcome (Option ℕ × Process × Vmm)
  syscall_mmap top hint length prot anon fixed p s = elim anon [
    | false ↦ ok (none, p, s)
    | true ↦
        let pages = pages_of length in
        elim fixed [
          | true ↦ elim (ltb user_space_end hint || (length == 0) || (hint == 0)) [
            | true ↦ ok (none, record p { errno = einval }, s)
            | false ↦ map_anon top hint pages prot p s
          ]
          | false ↦
              map_anon top p.anon_base pages prot
                (record p { anon_base = add64 p.anon_base (mul64 pages frame_size) }) s
        ]
  ]
