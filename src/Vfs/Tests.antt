-- ===== src/Vfs/Tests.antt =====
-- fs/vfs.c at a small tree, and from `vfs_init` on.
use flan.Base.{ℕ, ◌≡◌, refl, inr, false, none, some, List, [], ◌∷◌, ok, fault, Returns, arith}
use flan.Pmm.{frame_size}
use flan.Vfs.{Vfs, tmpfs, blank_node, put, insert, path_to_node, reduce_node}
use flan.Vfs.Calls.{vfs_create, s_ifreg}
use flan.Str.Names.{Name, IsSegment, AreSegments}
use flan.Vfs.Paths.{path_to}
use flan.Vfs.Resolve.{Walks, here, down, found, parent_after, path_to_node-found}
use flan.Vfs.Create.{CanCreate, vfs_create-path_to_node}
use flan.Vfs.Stops.{path_through, path_to_node-stops}

abbrev usr : Name
usr = b'u' ∷ b's' ∷ b'r' ∷ []

abbrev log : Name
log = b'l' ∷ b'o' ∷ b'g' ∷ []

-- The root at 8 has a directory "usr" at 16, and that an entry "." at 24, which is no directory.
abbrev tree : Vfs
tree = record {
  nodes =
      put
        (put (λ _. blank_node) 8
          (record blank_node { children = some (insert (λ _. 0) usr 16); fs = some tmpfs }))
        16
        (record blank_node { children = some (insert (λ _. 0) (b'.' ∷ []) 24); fs = some tmpfs });
  heap = 40 ∷ 300 ∷ 400 ∷ 4096 ∷ [];
  memory = λ _. 7;
  root = 8;
  filesystems = λ _. none;
  vfs_lock = 0;
  inode_number = 5;
}

reduce_node-tree : reduce_node 3 8 tree ≡ ok 8
unfolding reduce_node
reduce_node-tree = refl

usr-AreSegments : AreSegments (usr ∷ [])
usr-AreSegments = omega arith

log-IsSegment : IsSegment log
log-IsSegment = omega arith

to_usr : Walks tree 16 8 (usr ∷ [])
to_usr = down 8 usr [] (insert (λ _. 0) usr 16) refl (omega arith) (here 16 refl)

-- "/usr/log" is not there yet.
path_to_node-found_example :
    path_to_node 3 0 (path_to 1 (usr ∷ []) log false) tree
    ≡ ok (found tree (parent_after (usr ∷ []) 8 16) 0)
path_to_node-found_example =
    path_to_node-found 3 0 tree 8 8 16 1 (insert (λ _. 0) (b'.' ∷ []) 24) (usr ∷ []) log false
      reduce_node-tree reduce_node-tree usr-AreSegments log-IsSegment to_usr refl

log-CanCreate : CanCreate tree 16 (insert (λ _. 0) (b'.' ∷ []) 24) log 40 300 400 4096 [] s_ifreg
log-CanCreate = record {
  directory = refl;
  some_directory = omega arith;
  on_tmpfs = refl;
  absent = refl;
  room = refl;
  some_node = omega arith;
  some_name = omega arith;
  some_entry = omega arith;
  some_data = omega arith;
  unused = refl;
  regular = refl;
}

vfs_create-path_to_node_example :
    Returns (vfs_create 3 0 (path_to 1 (usr ∷ []) log false) s_ifreg tree) λ (made, v').
      (made ≡ 40)
      × (path_to_node 3 0 (path_to 1 (usr ∷ []) log false) v'
          ≡ ok (record { parent = 16; result = 40 }))
      × ((v'.nodes 40).file
          ≡ record { data' = 4096; st_size = frame_size; st_blocks = 1; offset = 0; lock = 0 })
      × ((s e : ℕ) (ns : List Name) → Walks tree e s ns → Walks v' e s ns)
      × ((v'.nodes 40).fs ≡ some tmpfs)
vfs_create-path_to_node_example =
    vfs_create-path_to_node 3 0 tree 8 8 1 (usr ∷ []) log 16 (insert (λ _. 0) (b'.' ∷ []) 24) 40 300
      400 4096 [] s_ifreg reduce_node-tree reduce_node-tree usr-AreSegments log-IsSegment to_usr
      refl log-CanCreate

-- "/usr/./log" goes through the node of ".".
path_to_node-stops_example :
    path_to_node 3 0 (path_through 1 (usr ∷ []) (b'.' ∷ []) log [] false) tree ≡ fault
path_to_node-stops_example =
    path_to_node-stops 3 0 tree 8 8 16 1 (insert (λ _. 0) (b'.' ∷ []) 24) (usr ∷ []) (b'.' ∷ []) log
      [] false reduce_node-tree reduce_node-tree usr-AreSegments (omega arith) to_usr refl
      (inr (omega arith, refl))
