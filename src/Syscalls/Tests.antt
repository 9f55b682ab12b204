-- ===== src/Syscalls/Tests.antt =====
-- sys/syscalls/syscalls.c for a process with four descriptors, of which one is taken.
use flan.Base.{
  ℕ, ◌+◌, ◌<◌, ◌≡◌, refl, inl, true, false, none, some, List, [], ◌∷◌, ok, halt, Returns, arith,
}
use flan.Base.Int.{pos, negsuc}
use flan.Str.Names.{Name, IsSegment, tokens, leading}
use flan.Tmpfs.{File}
use flan.Vfs.{
  Vfs, tmpfs, blank_node, put, insert, alloc, copy_string, store_string, get_child, follow,
  reduce_node, path_to_node,
}
use flan.Vfs.Paths.{path_to}
use flan.Vfs.Resolve.{Walks, here}
use flan.Vfs.Create.{CanCreate, vfs_create-path_to_node}
use flan.Pmm.{frame_size}
use flan.Vfs.Calls.{vfs_create, s_ifreg}
use flan.Syscalls.{
  Process, no_error, enoent, seek_set, fd_to_node, syscall_seek, syscall_read, syscall_openat,
}
use flan.Syscalls.Reading.{slot_of, syscall_seek-syscall_read}
use flan.Syscalls.Slots.{HasRoom}
use flan.Syscalls.Opening.{syscall_openat-fd_to_node, syscall_openat-create}

abbrev log : Name
log = b'l' ∷ b'o' ∷ b'g' ∷ []

abbrev tmp : Name
tmp = b't' ∷ b'm' ∷ b'p' ∷ []

abbrev log_file : File
log_file = record { data' = 4096; st_size = 100; st_blocks = 1; offset = 0; lock = 0 }

-- The root at 8 has the file "log" at 16; the first descriptor's copy of it is at 1000.
abbrev tree : Vfs
tree = record {
  nodes =
      put
        (put
          (put (λ _. blank_node) 8
            (record blank_node { children = some (insert (λ _. 0) log 16); fs = some tmpfs }))
          16 (record blank_node { fs = some tmpfs; file = log_file }))
        1000 (record blank_node { fs = some tmpfs; file = log_file });
  heap = 64 ∷ 40 ∷ 300 ∷ 400 ∷ 16384 ∷ [];
  memory = λ a. a;
  root = 8;
  filesystems = λ _. none;
  vfs_lock = 0;
  inode_number = 5;
}

abbrev shell : Process
shell = record {
  cwd = 8;
  fildes = record { items = 4; item_size = 200; capacity = 800; lock = 0; data' = 1000 };
  current_filde = 1;
  anon_base = 0x80000000000;
  errno = no_error;
}

shell-HasRoom : HasRoom shell
shell-HasRoom = record {
  free = refl;
  room = omega arith;
  few = omega arith;
  some_size = omega arith;
  some_data = omega arith;
  fits = omega arith;
}

log-found : path_to_node 3 8 log tree ≡ ok (record { parent = 8; result = 16 })
unfolding path_to_node reduce_node follow get_child tokens leading
log-found = refl

syscall_openat-fd_to_node_example :
    Returns (syscall_openat (negsuc 99) 3 [] (negsuc 99) log false shell tree) λ (fd, p', v').
      (fd ≡ pos 1)
      × (p'.current_filde ≡ 1 + 1)
      × Returns (fd_to_node (negsuc 99) fd p') λ (slot, p'').
        (v'.nodes slot ≡ tree.nodes 16) × (p''.fildes ≡ shell.fildes) × (p''.errno ≡ no_error)
syscall_openat-fd_to_node_example =
    syscall_openat-fd_to_node 99 3 [] log false 8 16 shell tree shell-HasRoom (omega arith) refl
      log-found (omega arith)

tmp-missing : path_to_node 3 8 tmp tree ≡ ok (record { parent = 8; result = 0 })
unfolding path_to_node reduce_node follow get_child tokens leading
tmp-missing = refl

-- The tree after the copy of the path is made at 64.
abbrev with_copy : Vfs
with_copy = record tree {
  heap = 40 ∷ 300 ∷ 400 ∷ 16384 ∷ [];
  memory = store_string 64 tmp tree.memory;
}

tmp-copied : copy_string tmp tree ≡ (64, with_copy)
unfolding copy_string alloc
tmp-copied = refl

-- The bytes at the function.
abbrev code : Name
code = 85 ∷ 72 ∷ []

root-reduced : reduce_node 3 8 with_copy ≡ ok 8
unfolding reduce_node
root-reduced = refl

code-IsSegment : IsSegment code
code-IsSegment = omega arith

code-CanCreate : CanCreate with_copy 8 (insert (λ _. 0) log 16) code 40 300 400 16384 [] s_ifreg
code-CanCreate = record {
  directory = refl;
  some_directory = omega arith;
  on_tmpfs = refl;
  absent = refl;
  room = refl;
  some_node = omega arith;
  some_name = omega arith;
  some_entry = omega arith;
  some_data = omega arith;
  unused = refl;
  regular = refl;
}

code_made : Returns (vfs_create 3 8 (path_to 0 [] code false) s_ifreg with_copy) λ (made, v').
    (made ≡ 40)
    × (path_to_node 3 8 (path_to 0 [] code false) v' ≡ ok (record { parent = 8; result = 40 }))
    × ((v'.nodes 40).file
        ≡ record { data' = 16384; st_size = frame_size; st_blocks = 1; offset = 0; lock = 0 })
    × ((s e : ℕ) (ns : List Name) → Walks with_copy e s ns → Walks v' e s ns)
    × ((v'.nodes 40).fs ≡ some tmpfs)
code_made =
    vfs_create-path_to_node 3 8 with_copy 8 8 0 [] code 8 (insert (λ _. 0) log 16) 40 300 400 16384
      [] s_ifreg root-reduced root-reduced (omega arith) code-IsSegment (here 8 refl) refl
      code-CanCreate

syscall_openat-create_example :
    Returns (syscall_openat (negsuc 99) 3 code (negsuc 99) tmp true shell tree) λ (fd, p', v').
      (fd ≡ negsuc 0)
      × (p'.errno ≡ enoent)
      × (v' ≡ code_made.0.1)
      × (fd_to_node (negsuc 99) (pos 0) p' ≡ halt)
syscall_openat-create_example =
    syscall_openat-create 99 3 code tmp 8 64 code_made.0.0 0 shell tree with_copy code_made.0.1
      shell-HasRoom (omega arith) refl tmp-missing (omega arith) tmp-copied (omega arith)
      code_made.1 (inl (omega (arith, code_made.2.0)))

syscall_seek-syscall_read_example :
    Returns (syscall_seek (negsuc 99) (pos 0) (pos 20) seek_set shell tree) λ (place, p', v').
      (place ≡ pos 20)
      × Returns (syscall_read (negsuc 99) (pos 0) 9000 5 p' v') λ (r, p'', v'').
        (r ≡ pos 5)
        × ((i : ℕ) → i < 5 → v''.memory (9000 + i) ≡ tree.memory (4096 + 20 + i))
        × ((v''.nodes (slot_of shell 0)).file.offset ≡ 20 + 5)
syscall_seek-syscall_read_example =
    syscall_seek-syscall_read 99 shell tree 0 20 9000 5
      (record { free = refl; open_fd = omega arith; some_data = omega arith }) refl
      (record { free = refl; some_data = omega arith; small = omega arith }) (omega arith)
      (omega arith) (omega arith) (inl (omega arith))
