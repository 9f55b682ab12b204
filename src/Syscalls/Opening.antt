-- ===== src/Syscalls/Opening.antt =====
-- `syscall_openat` of sys/syscalls/syscalls.c and `vfs_open` of fs/vfs.c.
use native.Mathlib.Nat.{mul_comm}
use flan.Base.{
  ℕ, ◌+◌, ◌*◌, ◌<◌, ◌≡◌, ◌≢◌, ◌⊎◌, refl, ◌∙◌, Bool, true, false, ◌||◌, ok, halt, ◌>>=◌, Returns,
  arith, ◌==◌, ==_self, ltb,
}
use flan.Base.Int.{pos, negsuc, same_ℤ}
use flan.Base.Words.{mul64}
use flan.Lock.Spin.{acquire-free, acquire-held, release-acquired}
use flan.Str.Names.{Name}
use flan.Vector.{vector_get, vector_get_index}
use flan.Vfs.{Vfs, put_node, copy_string, path_to_node, path_to_parent}
use flan.Vfs.Calls.{vfs_create, s_ifreg}
use flan.Vfs.Writes.{path_to_node-same}
use flan.Syscalls.Slots.{HasRoom, vector_get_index-inside, replace_node-room}
use flan.Syscalls.{Process, enoent, vfs_open, node_to_fd, fd_to_node, syscall_openat}
use flan.Syscalls.Reading.{slot_of, fd_to_node-slot}

-- `path_to_node` does not look at the lock.
path_to_node-unlocked :
    (fuel parent l : ℕ) (path : Name) (v : Vfs)
    → path_to_node fuel parent path (record v { vfs_lock = l }) ≡ path_to_node fuel parent path v
path_to_node-unlocked fuel parent l path v =
    path_to_node-same v (record v { vfs_lock = l })
      (record { children = λ x. refl; mountpoints = λ x. refl; links = λ x. refl; roots = refl })
      fuel parent path

-- The state after the node at `node` was opened.
abbrev pub opened : Process → ℕ → Vfs → Vfs
opened p node v = put_node (slot_of p p.current_filde) (v.nodes node) v

module _ (cwd_number : ℕ) where
  vfs_open-found :
      (fuel parent node : ℕ) (path : Name) (d : ℕ) (p : Process) (v : Vfs)
      → HasRoom p
      → v.vfs_lock ≡ 0
      → path_to_node fuel parent path v ≡ ok (record { parent = d; result = node })
      → node ≢ 0
      → vfs_open fuel parent path p v
        ≡ ok (
          slot_of p p.current_filde,
          record p { current_filde = p.current_filde + 1 },
          record (opened p node v) { vfs_lock = 0 },
        )
  unfolding vfs_open
  vfs_open-found fuel parent node path d p v h free found some_node =
      let there : (node == 0) ≡ false = ground arith in
      rw
        (
          free,
          acquire-free,
          ◌>>=◌,
          path_to_node-unlocked fuel parent 1 path v ∙ found,
          vfs_open,
          there,
          replace_node-room p node (record v { vfs_lock = 1 }) h,
          ◌>>=◌,
          release-acquired,
        )
        refl

  -- `syscall_openat` of an existing path, relative to the current directory, returns the next
  -- descriptor, also where `O_CREAT` is set, and moves on to the one after it. The descriptor then
  -- leads to a copy of the node.
  pub syscall_openat-fd_to_node :
      (fuel : ℕ) (basename_code path : Name) (create : Bool) (d node : ℕ) (p : Process) (v : Vfs)
      → HasRoom p
      → p.cwd ≢ 0
      → v.vfs_lock ≡ 0
      → path_to_node fuel p.cwd path v ≡ ok (record { parent = d; result = node })
      → node ≢ 0
      → Returns
          (syscall_openat
            (negsuc cwd_number)
            fuel
            basename_code
            (negsuc cwd_number)
            path
            create
            p
            v)
          λ (fd, p', v').
            (fd ≡ pos p.current_filde)
            × (p'.current_filde ≡ p.current_filde + 1)
            × Returns (fd_to_node (negsuc cwd_number) fd p') λ (slot, p'').
              (v'.nodes slot ≡ v.nodes node) × (p''.fildes ≡ p.fildes) × (p''.errno ≡ p.errno)
  unfolding syscall_openat node_to_fd fd_to_node
  syscall_openat-fd_to_node fuel basename_code path create d node p v h some_cwd free found
        some_node =
      let cwd : (p.cwd == 0) ≡ false = ground arith in
      let self : same_ℤ (negsuc cwd_number) (negsuc cwd_number) ≡ true = ground arith in
      let some_slot : (slot_of p p.current_filde == 0) ≡ false = ground (arith, h.some_data) in
      let positive : same_ℤ (pos p.current_filde) (negsuc 0) ≡ false = ground arith in
      let p' : Process = record p { current_filde = p.current_filde + 1 } in
      let index =
        vector_get_index-inside p.fildes p.current_filde h.free h.room h.few h.some_size h.fits in
      rw
        (
          self,
          ◌>>=◌,
          cwd,
          vfs_open-found fuel p.cwd node path d p v h free found some_node,
          some_slot,
          index,
          positive,
        )
        (
          _,
          refl,
          (
            refl,
            refl,
            (
              (slot_of p p.current_filde, p'),
              fd_to_node-slot cwd_number p' p.current_filde
                  (record { free = h.free; open_fd = h.room; some_data = h.some_data }),
              (rw (==_self (slot_of p p.current_filde)) refl, refl, refl),
            ),
          ),
        )

  at_cwd :
      (p : Process)
      → p.cwd ≢ 0
      → fd_to_node (negsuc cwd_number) (negsuc cwd_number) p ≡ ok (p.cwd, p)
  unfolding fd_to_node
  at_cwd p some_cwd =
      let cwd : (p.cwd == 0) ≡ false = ground arith in
      let self : same_ℤ (negsuc cwd_number) (negsuc cwd_number) ≡ true = ground arith in
      rw (self, ◌>>=◌, cwd) refl

  vfs_open-missing :
      (fuel parent : ℕ) (path : Name) (d : ℕ) (p : Process) (v : Vfs)
      → v.vfs_lock ≡ 0
      → path_to_node fuel parent path v ≡ ok (record { parent = d; result = 0 })
      → vfs_open fuel parent path p v ≡ ok (0, record p { errno = enoent }, v)
  unfolding vfs_open
  vfs_open-missing fuel parent path d p v free missing =
      rw
        (
          free,
          acquire-free,
          ◌>>=◌,
          path_to_node-unlocked fuel parent 1 path v ∙ missing,
          release-acquired,
        )
        refl

  node_to_fd-outside :
      (made : ℕ) (p : Process)
      → HasRoom p
      → (made < p.fildes.data') ⊎ (p.fildes.data' + p.fildes.items * p.fildes.item_size < made)
      → node_to_fd made p
        ≡ ok (negsuc 0, record p { fildes = record p.fildes { lock = 1 }; errno = enoent })
  unfolding node_to_fd vector_get_index
  node_to_fd-outside made p h outside =
      let whole : mul64 p.fildes.item_size p.fildes.items ≡ p.fildes.items * p.fildes.item_size =
        omega (arith, mul_comm p.fildes.item_size p.fildes.items, h.fits) in
      let far : (ltb (p.fildes.data' + p.fildes.items * p.fildes.item_size) made
            || ltb made p.fildes.data')
          ≡ true =
        ground arith in
      rw (h.free, acquire-free, ◌>>=◌, whole, far) refl

  fd_to_node-held :
      (n : ℕ) (p : Process) → p.fildes.lock ≡ 1 → fd_to_node (negsuc cwd_number) (pos n) p ≡ halt
  unfolding fd_to_node vector_get
  fd_to_node-held n p held =
      let other : same_ℤ (pos n) (negsuc cwd_number) ≡ false = ground arith in
      rw (other, held, acquire-held 1 (omega arith)) refl

  -- Let the vector of descriptors have room and its lock and that of the file system be free. With
  -- `O_CREAT`, a path relative to the current directory that is missing in an existing directory ends
  -- without a descriptor, where there is room for the copy of the path and `vfs_create` returns: what
  -- `vfs_create` answers, wherever outside of the vector of descriptors it lies, is not one of the
  -- vector's copies. The result is -1 with ENOENT, and the vector's lock stays held, so that the next
  -- use of a descriptor halts in the deadlock check.
  pub syscall_openat-create :
      (fuel : ℕ) (basename_code path : Name) (d copy made n : ℕ) (p : Process) (v v2 v3 : Vfs)
      → HasRoom p
      → p.cwd ≢ 0
      → v.vfs_lock ≡ 0
      → path_to_node fuel p.cwd path v ≡ ok (record { parent = d; result = 0 })
      → d ≢ 0
      → copy_string path v ≡ (copy, v2)
      → copy ≢ 0
      → vfs_create fuel d basename_code s_ifreg v2 ≡ ok (made, v3)
      → (made < p.fildes.data') ⊎ (p.fildes.data' + p.fildes.items * p.fildes.item_size < made)
      → Returns
          (syscall_openat (negsuc cwd_number) fuel basename_code (negsuc cwd_number) path true p v)
          λ (fd, p', v').
            (fd ≡ negsuc 0)
            × (p'.errno ≡ enoent)
            × (v' ≡ v3)
            × (fd_to_node (negsuc cwd_number) (pos n) p' ≡ halt)
  unfolding syscall_openat path_to_parent
  syscall_openat-create fuel basename_code path d copy made n p v v2 v3 h some_cwd free missing
        some_d copied some_copy made_ok outside =
      let cwd : (p.cwd == 0) ≡ false = ground arith in
      let self : same_ℤ (negsuc cwd_number) (negsuc cwd_number) ≡ true = ground arith in
      let some_parent : (d == 0) ≡ false = ground arith in
      let new_pathname : (copy == 0) ≡ false = ground arith in
      let p2 : Process = record p { errno = enoent } in
      let room : HasRoom p2 = record {
        free = h.free;
        room = h.room;
        few = h.few;
        some_size = h.some_size;
        some_data = h.some_data;
        fits = h.fits;
      } in
      rw
        (
          at_cwd p some_cwd,
          ◌>>=◌,
          vfs_open-missing fuel p.cwd path d p v free missing,
          missing,
          some_parent,
          copied,
          new_pathname,
          copied,
          made_ok,
          node_to_fd-outside made p2 room outside,
        )
        (
          _,
          refl,
          (
            refl,
            refl,
            refl,
            fd_to_node-held n (record p2 { fildes = record p.fildes { lock = 1 } }) refl,
          ),
        )
