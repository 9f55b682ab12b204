-- ===== src/Vfs.antt =====
-- fs/vfs.c: the tree of nodes, paths and mounts. A string is the list of its bytes before the final
-- zero byte.
pub mod Calls
pub mod Paths
pub mod Resolve
pub mod LastName
pub mod Grown
pub mod Create
pub mod Stops
pub mod Writes
mod Tests
use flan.Base.{
  ℕ, zero, suc, ◌+◌, ◌-◌, ◌*◌, ◌/◌, ◌%◌, ◌^◌, bit_and, Bool, true, false, not, ◌&&◌, ◌||◌, Option,
  none, some, List, [], ◌∷◌, ◌++◌, Outcome, ok, halt, fault, ◌>>=◌, ◌==◌, ltb, leb, if◌then◌else◌,
  length, get_or, take, drop,
}
use flan.Base.Words.{add64, sub64, mul64}
use flan.Lock.{Spinlock, spinlock_acquire, spinlock_release}
use flan.Mem.{Memory, store, memset}
use flan.Pmm.{frame_size}
use flan.Tmpfs.{File, tmpfs_read, tmpfs_write}
use flan.Str.Names.{Name, same_name, tokens, leading, basename}

-- The tables of functions that the kernel has, `vfs_fs_t`.
pub data Fs : Type 0 where
  tmpfs : Fs
  ext2fs : Fs

-- What `children` maps a name to, 0 where it has no entry. lib/hashmap.c is a map in this sense. It
-- keeps the pointer to the name that it is given: the model is of the runs in which the strings that
-- were given as names stay as they are.
abbrev pub Directory : Type 0
Directory = Name → ℕ

-- `vfs_node_t`; `file` has the fields that reads and writes use. A null `fs` or `children` is
-- `none`, any other null pointer 0.
pub record VfsNode : Type 0 where
  pub name : Name
  pub parent : ℕ
  pub children : Option Directory
  pub fs : Option Fs
  pub mountpoint : ℕ
  pub link : ℕ
  pub st_mode : ℕ
  pub st_ino : ℕ
  pub file : File

-- The nodes by their addresses, what the next calls of `kheap_alloc` and `kheap_calloc` answer, and
-- the globals. `memory` has the bytes of buffers and strings.
pub record Vfs : Type 0 where
  pub nodes : ℕ → VfsNode
  pub heap : List ℕ
  pub memory : Memory
  pub root : ℕ
  pub filesystems : Name → Option Fs
  pub vfs_lock : Spinlock
  pub inode_number : ℕ

abbrev pub put : (ℕ → VfsNode) → ℕ → VfsNode → ℕ → VfsNode
put nodes a node b = if a == b then node else nodes b

abbrev pub put_node : ℕ → VfsNode → Vfs → Vfs
put_node a node v = record v { nodes = put v.nodes a node }

-- `kheap_alloc`, which answers `NULL` when the heap has nothing left.
unfoldable pub alloc : Vfs → ℕ × Vfs
alloc v = elim v.heap [ [] ↦ (0, v) | a ∷ heap ↦ (a, record v { heap = heap }) ]

-- `kheap_calloc`, which clears the bytes of the block.
unfoldable pub calloc : ℕ → Vfs → Outcome (ℕ × Vfs)
calloc n v =
    let (ptr, v1) = alloc v in
    elim (ptr == 0) [
      | true ↦ ok (0, v1)
      | false ↦ memset ptr 0 n v1.memory >>= (λ m. ok (ptr, record v1 { memory = m }))
    ]

-- The bytes of a string and its final zero byte, at `a`.
unfoldable pub store_string : ℕ → Name → Memory → Memory
store_string a [] m = store m a 0
store_string a (c ∷ cs) m = store_string (a + 1) cs (store m a c)

-- A block for a string and its final zero byte, and the copy of the string to it: `strdup`, which
-- `vfs_create_node` writes out for the node's name.
unfoldable pub copy_string : Name → Vfs → ℕ × Vfs
copy_string name v =
    let (d, v1) = alloc v in
    elim (d == 0) [
      | true ↦ (0, v1)
      | false ↦ (d, record v1 { memory = store_string d name v1.memory })
    ]

-- `sizeof(vfs_node_t)`, with the fields that lib/stat.h gives `stat`, and
-- `sizeof(hashmap_entry_t)`.
abbrev pub sizeof_node : ℕ
sizeof_node = 216

abbrev pub sizeof_entry : ℕ
sizeof_entry = 32

-- A node as `kheap_calloc` clears it.
abbrev pub blank_node : VfsNode
blank_node = record {
  name = [];
  parent = 0;
  children = none;
  fs = none;
  mountpoint = 0;
  link = 0;
  st_mode = 0;
  st_ino = 0;
  file = record { data' = 0; st_size = 0; st_blocks = 0; offset = 0; lock = 0 };
}

-- `reduce_node`, on fuel; a cycle of mounts and links never returns, which is `fault` here.
unfoldable pub reduce_node : ℕ → ℕ → Vfs → Outcome ℕ
reduce_node zero node v = fault
reduce_node (suc fuel) node v = elim ((v.nodes node).mountpoint == 0) [
  | false ↦ reduce_node fuel (v.nodes node).mountpoint v
  | true ↦ elim ((v.nodes node).link == 0) [
    | false ↦ reduce_node fuel (v.nodes node).link v
    | true ↦ ok node
  ]
]

abbrev pub insert : Directory → Name → ℕ → Directory
insert d key val name = if same_name key name then val else d name

-- `hashmap_set(node->children, key, val)`, which answers false where there is no room for a new
-- entry, and `hashmap_get(node->children, key)`; a null pointer is an undefined access.
unfoldable pub set_child : ℕ → Name → ℕ → Vfs → Outcome (Bool × Vfs)
set_child node key val v = elim (v.nodes node).children [
  | none ↦ fault
  | some d ↦ do
    (new_entry, v1) ← if d key == 0 then calloc sizeof_entry v else ok (d key, v)
    if new_entry == 0
        then ok (false, v1)
        else ok
            (true, put_node node (record (v1.nodes node) { children = some (insert d key val) }) v1)
]

unfoldable pub get_child : ℕ → Name → Vfs → Outcome ℕ
get_child node key v = elim (v.nodes node).children [ none ↦ fault | some d ↦ ok (d key) ]

-- The map of a new directory is taken to be made.
unfoldable pub vfs_create_node : ℕ → Name → Option Fs → Bool → Vfs → Outcome (ℕ × Vfs)
vfs_create_node parent name fs dir v = calloc sizeof_node v >>= (λ (node, v1). elim (node == 0) [
  | true ↦ halt
  | false ↦
      let (node_name, v2) = copy_string name v1 in
      let parent' = if parent == 0 then v.root else parent in
      let v3 =
        put_node node
          (record blank_node {
            name = name;
            parent = parent';
            fs = fs;
            children = if dir then some (λ _. 0) else none;
          })
          v2 in
      elim (node_name == 0) [
        | true ↦ halt
        | false ↦ elim (parent' == 0) [
          | true ↦ ok (node, v3)
          | false ↦
              set_child parent' name node v3
              >>= (λ (entered, v4). elim entered [ true ↦ ok (node, v4) | false ↦ halt ])
        ]
      ]
])

-- Both nodes are created with the name ".".
unfoldable pub create_dot : ℕ → ℕ → Vfs → Outcome Vfs
create_dot parent node v = do
  (dot, v1) ← vfs_create_node node (b'.' ∷ []) (v.nodes node).fs false v
  (dotdot, v2) ← vfs_create_node node (b'.' ∷ []) (v1.nodes node).fs false v1
  let v3 = put_node dot (record (v2.nodes dot) { link = node }) v2
  let v4 = put_node dotdot (record (v3.nodes dotdot) { link = parent }) v3
  (dot_entered, v5) ← set_child node (b'.' ∷ []) dot v4
  (dotdot_entered, v6) ← set_child node (b'.' ∷ b'.' ∷ []) dotdot v5
  ok v6

-- `path_to_node_t`
pub record PathToNode : Type 0 where
  pub parent : ℕ
  pub result : ℕ

-- The loop over the segments that `strtok` gives. The next segment is taken before the test of
-- the node.
unfoldable pub follow : ℕ → ℕ → List Name → Vfs → Outcome PathToNode
follow parent_node current_node [] v = ok (record { parent = parent_node; result = current_node })
follow parent_node current_node (segment ∷ segments) v =
    get_child current_node segment v >>= (λ node. elim (node == 0) [
      | true ↦ elim segments [
        | [] ↦ ok (record { parent = parent_node; result = 0 })
        | _ ∷ _ ↦ ok (record { parent = 0; result = 0 })
      ]
      | false ↦
          follow (elim (v.nodes node).children [ none ↦ parent_node | some _ ↦ node ]) node segments
            v
    ])

-- The path between its leading slashes and one last slash.
abbrev pub inner : ℕ → Name → Name
inner index path =
    let dir : ℕ = if get_or path (length path - 1) 0 == b'/' then 1 else 0 in
    take (length path - (index + dir)) (drop index path)

-- The fuel is for `reduce_node`. A null path is the empty one.
unfoldable pub path_to_node : ℕ → ℕ → Name → Vfs → Outcome PathToNode
path_to_node fuel parent [] v = ok (record { parent = 0; result = 0 })
path_to_node fuel parent (c ∷ path) v = do
  parent_node ← reduce_node fuel (if parent == 0 then v.root else parent) v
  current_node ← if c == b'/' then reduce_node fuel v.root v else ok parent_node
  elim (leading (c ∷ path)) [
    | none ↦ ok (record { parent = parent_node; result = current_node })
    | some index ↦ follow parent_node current_node (tokens (inner index (c ∷ path))) v
  ]

unfoldable pub get_node : ℕ → ℕ → Name → Vfs → Outcome ℕ
get_node fuel parent path v = do ret ← path_to_node fuel parent path v; ok ret.result

unfoldable pub path_to_parent : ℕ → ℕ → Name → Vfs → Outcome ℕ
path_to_parent fuel parent path v = do ret ← path_to_node fuel parent path v; ok ret.parent
