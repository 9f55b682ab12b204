-- ===== src/Vfs/Calls.antt =====
-- The file systems of fs/tmpfs.c and fs/ext2fs.c, and the calls of fs/vfs.c that go through them.
use flan.Base.{
  ℕ, bit_and, Bool, true, false, not, ◌||◌, Option, none, some, [], ◌∷◌, Outcome, ok, halt, fault,
  ◌>>=◌, ◌==◌, if◌then◌else◌,
}
use flan.Base.Words.{add64}
use flan.Lock.{spinlock_acquire, spinlock_release}
use flan.Mem.{Memory}
use flan.Pmm.{frame_size}
use flan.Tmpfs.{tmpfs_read, tmpfs_write}
use flan.Str.Names.{Name, same_name, basename}
use flan.Vfs.{
  Fs, ext2fs, tmpfs, Vfs, put, put_node, calloc, vfs_create_node, create_dot, path_to_node,
  get_node,
}

-- `S_ISDIR` and `S_ISREG` of fcntl.h, by the type bits of lib/stat.h.
abbrev pub s_ifdir : ℕ
s_ifdir = 0x4000

abbrev pub s_ifreg : ℕ
s_ifreg = 0x8000

abbrev pub file_type : ℕ → ℕ
file_type mode = bit_and mode 0xf000

-- The block of a new file, cleared.
unfoldable pub tmpfs_data : ℕ → Vfs → Outcome Vfs
tmpfs_data node v = calloc frame_size v >>= (λ (new_data, v1). elim (new_data == 0) [
  | true ↦ halt
  | false ↦ ok (
      put_node node
        (record (v1.nodes node) { file = record (v1.nodes node).file { data' = new_data } }) v1)
])

unfoldable pub tmpfs_create : ℕ → Name → ℕ → Vfs → Outcome (ℕ × Vfs)
tmpfs_create parent name mode v = do
  (node, v1) ← vfs_create_node parent name (some tmpfs) (file_type mode == s_ifdir) v
  v2 ← if file_type mode == s_ifreg then tmpfs_data node v1 else ok v1
  ok (
    node,
    record v2 {
      nodes = put v2.nodes node (record (v2.nodes node) {
        st_mode = mode;
        st_ino = v2.inode_number;
        file = record (v2.nodes node).file { st_size = frame_size; st_blocks = 1 };
      });
      inode_number = add64 v2.inode_number 1;
    },
  )

-- The file system of the node itself is set, not that of the new one.
unfoldable pub tmpfs_mount : ℕ → ℕ → Name → Vfs → Outcome (ℕ × Vfs)
tmpfs_mount node dev name v = do
  (ret, v1) ← tmpfs_create node name s_ifdir v
  ok (ret, put_node node (record (v1.nodes node) { fs = some tmpfs }) v1)

-- The calls through `vfs_fs_t`. Those of ext2 only answer `NULL`.
unfoldable pub fs_create : Fs → ℕ → Name → ℕ → Vfs → Outcome (ℕ × Vfs)
fs_create tmpfs parent name mode v = tmpfs_create parent name mode v
fs_create ext2fs parent name mode v = ok (0, v)

unfoldable pub fs_mount : Fs → ℕ → ℕ → Name → Vfs → Outcome (ℕ × Vfs)
fs_mount tmpfs node dev name v = tmpfs_mount node dev name v
fs_mount ext2fs node dev name v = ok (0, v)

-- `target_node` must be a node where it is used; an ext2 mount has a null node, of which
-- `create_dot` reads `fs`.
unfoldable pub vfs_mount : ℕ → ℕ → Option Name → Name → Name → Vfs → Outcome (Bool × Vfs)
vfs_mount fuel parent source target fs_name v = do
  lock ← spinlock_acquire v.vfs_lock
  let v1 = record v { vfs_lock = lock }
  dev ← elim source [ none ↦ ok 0 | some path ↦ get_node fuel parent path v1 ]
  p2n_result ← path_to_node fuel parent target v1
  fs ← elim (v1.filesystems fs_name) [ none ↦ fault | some f ↦ ok f ]
  let target_node = p2n_result.result
  (mount_node, v2) ← fs_mount fs target_node dev (basename target).0 v1
  if target_node == 0 || mount_node == 0 then fault else do
    let v3 = put_node target_node (record (v2.nodes target_node) { mountpoint = mount_node }) v2
    v4 ← create_dot p2n_result.parent mount_node v3
    ok (true, record v4 { vfs_lock = spinlock_release v4.vfs_lock })

unfoldable pub vfs_create : ℕ → ℕ → Name → ℕ → Vfs → Outcome (ℕ × Vfs)
vfs_create fuel parent path mode v = do
  p2n_result ← path_to_node fuel parent path v
  elim (p2n_result.parent == 0 || not (p2n_result.result == 0)) [
    | true ↦ ok (0, v)
    | false ↦ elim (v.nodes p2n_result.parent).fs [
      | none ↦ fault
      | some target_fs ↦ do
        (node, v1) ← fs_create target_fs p2n_result.parent (basename path).0 mode v
        elim (node == 0 || not (file_type mode == s_ifdir)) [
          | true ↦ ok (node, v1)
          | false ↦ do v2 ← create_dot p2n_result.parent node v1; ok (node, v2)
        ]
    ]
  ]

-- The calls through `node->fs`; a null `fs` is an undefined access.
unfoldable pub vfs_read : ℕ → ℕ → ℕ → ℕ → Vfs → Outcome (ℕ × Vfs)
vfs_read node buff count offset v = elim (v.nodes node).fs [
  | none ↦ fault
  | some tmpfs ↦ tmpfs_read buff count offset (v.nodes node).file v.memory >>= (λ (n, file, m).
      ok (n, put_node node (record (v.nodes node) { file = file }) (record v { memory = m })))
  | some ext2fs ↦ ok (0, v)
]

unfoldable pub vfs_write :
    (ℕ → ℕ → Memory → Outcome (ℕ × Memory)) → ℕ → ℕ → ℕ → ℕ → Vfs → Outcome (ℕ × Vfs)
vfs_write kheap_realloc node buff count offset v = elim (v.nodes node).fs [
  | none ↦ fault
  | some tmpfs ↦
      tmpfs_write kheap_realloc buff count offset (v.nodes node).file v.memory >>= (λ (n, file, m).
        ok (n, put_node node (record (v.nodes node) { file = file }) (record v { memory = m })))
  | some ext2fs ↦ ok (0, v)
]

unfoldable pub add_filesystem : Fs → Name → Vfs → Outcome Vfs
add_filesystem fs fs_name v = do
  lock ← spinlock_acquire v.vfs_lock
  ok (record v {
    filesystems = λ name. if same_name fs_name name then some fs else v.filesystems name;
    vfs_lock = spinlock_release lock;
  })

-- The names "tmpfs" and "ext2fs".
abbrev pub tmpfs_name : Name
tmpfs_name = b't' ∷ b'm' ∷ b'p' ∷ b'f' ∷ b's' ∷ []

abbrev pub ext2fs_name : Name
ext2fs_name = b'e' ∷ b'x' ∷ b't' ∷ b'2' ∷ b'f' ∷ b's' ∷ []

unfoldable pub vfs_init : ℕ → Vfs → Outcome (Bool × Vfs)
vfs_init fuel v = do
  (root, v1) ← vfs_create_node 0 [] none true v
  let filesystems = λ (name : Name).
      if same_name ext2fs_name name
      then some ext2fs
      else if same_name tmpfs_name name
      then some tmpfs
      else none
  vfs_mount fuel root none (b'/' ∷ []) tmpfs_name
      (record v1 { root = root; filesystems = filesystems })
