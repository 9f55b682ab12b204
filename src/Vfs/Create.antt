-- ===== src/Vfs/Create.antt =====
-- `vfs_create` of fs/vfs.c, with `tmpfs_create`, and the paths before and after.
use flan.Base.{
  ℕ, ◌≡◌, ◌≢◌, refl, sym, ap, ◌∙◌, false, none, some, List, ◌∷◌, ok, ◌>>=◌, Returns, ◌==◌, ==_iff,
  ==_self, true, if◌then◌else◌, arith, Bool-cases, inl, inr,
}
use flan.Mem.{Memory}
use flan.Mem.Fill.{memset-filled}
use flan.Pmm.{frame_size}
use flan.Vfs.{
  Vfs, VfsNode, Directory, tmpfs, put, put_node, calloc, blank_node, insert, reduce_node, set_child,
  alloc, copy_string, store_string, sizeof_node, sizeof_entry, vfs_create_node, path_to_node,
}
use flan.Vfs.Calls.{file_type, s_ifreg, tmpfs_data, tmpfs_create, fs_create, vfs_create}
use flan.Str.Names.{Name, same_name_self, IsSegment, AreSegments}
use flan.Vfs.Paths.{path_to, start_of}
use flan.Vfs.Resolve.{Walks, parent_after, path_to_node-found}
use flan.Vfs.Grown.{IsGrown, Walks-IsGrown, reduce_node-same}
use flan.Vfs.LastName.{basename-path_to}

-- What the creation of a regular file named `last` in the directory `d` needs: room for the node,
-- its name, the directory's entry and the file's block, an address that holds no node yet, and a directory of tmpfs without that name.
pub record CanCreate (v : Vfs) (d : ℕ) (c : Directory) (last : Name)
    (node node_name entry data' : ℕ) (rest : List ℕ) (mode : ℕ) : Type 0 where
  pub directory : (v.nodes d).children ≡ some c
  pub some_directory : d ≢ 0
  pub on_tmpfs : (v.nodes d).fs ≡ some tmpfs
  pub absent : c last ≡ 0
  pub room : v.heap ≡ node ∷ node_name ∷ entry ∷ data' ∷ rest
  pub some_node : node ≢ 0
  pub some_name : node_name ≢ 0
  pub some_entry : entry ≢ 0
  pub some_data : data' ≢ 0
  pub unused : v.nodes node ≡ blank_node
  pub regular : file_type mode ≡ s_ifreg

-- The node that is made, and the directory with its entry.
abbrev pub Created : Vfs → Vfs → ℕ → Directory → Name → ℕ → ℕ → Type 0
Created v v' d c last node data' =
    ((v'.nodes d).children ≡ some (insert c last node))
    × ((v'.nodes node).children ≡ none)
    × ((v'.nodes node).file
        ≡ record { data' = data'; st_size = frame_size; st_blocks = 1; offset = 0; lock = 0 })
    × ((x : ℕ) → x ≢ d → x ≢ node → v'.nodes x ≡ v.nodes x)
    × ((v'.nodes d).mountpoint ≡ (v.nodes d).mountpoint)
    × ((v'.nodes d).link ≡ (v.nodes d).link)
    × ((v'.nodes node).mountpoint ≡ 0)
    × ((v'.nodes node).link ≡ 0)
    × (v'.root ≡ v.root)
    × ((v'.nodes node).fs ≡ some tmpfs)

alloc-take :
    (v : Vfs) (a : ℕ) (rest : List ℕ) → v.heap ≡ a ∷ rest → alloc v ≡ (a, record v { heap = rest })
unfolding alloc
alloc-take v a rest room = rw (room, alloc) refl

calloc-take :
    (n : ℕ) (v : Vfs) (a : ℕ) (rest : List ℕ)
    → v.heap ≡ a ∷ rest
    → a ≢ 0
    → (m : Memory) × (calloc n v ≡ ok (a, record v { heap = rest; memory = m }))
unfolding calloc
calloc-take n v a rest room some_a =
    let e : (a == 0) ≡ false = ground arith in
    let (m, run, filled) = memset-filled a 0 n v.memory some_a in
    let take = alloc-take v a rest room in (m, rw (take, calloc, e, take, run, ◌>>=◌) refl)

copy_string-take :
    (name : Name) (v : Vfs) (a : ℕ) (rest : List ℕ)
    → v.heap ≡ a ∷ rest
    → a ≢ 0
    → copy_string name v ≡ (a, record v { heap = rest; memory = store_string a name v.memory })
unfolding copy_string
copy_string-take name v a rest room some_a =
    let e : (a == 0) ≡ false = ground arith in
    let take = alloc-take v a rest room in rw (take, copy_string, e, take) refl

set_child-new :
    (v : Vfs) (node : ℕ) (c : Directory) (key : Name) (val entry : ℕ) (rest : List ℕ)
    → (v.nodes node).children ≡ some c
    → c key ≡ 0
    → v.heap ≡ entry ∷ rest
    → entry ≢ 0
    → (m : Memory) × (set_child node key val v
        ≡ ok (
          true,
          put_node node
              (record (v.nodes node) { children = some (insert c key val) })
              (record v { heap = rest; memory = m }),
        ))
unfolding set_child
set_child-new v node c key val entry rest dir absent room some_entry =
    let e : (entry == 0) ≡ false = ground arith in
    let (m, run) = calloc-take sizeof_entry v entry rest room some_entry in
    (m, rw (dir, set_child, absent, run, ◌>>=◌, e) refl)

tmpfs_data-ok :
    (v : Vfs) (node data' : ℕ) (rest : List ℕ)
    → v.heap ≡ data' ∷ rest
    → data' ≢ 0
    → (m : Memory) × (tmpfs_data node v
        ≡ ok (record v {
          heap = rest;
          memory = m;
          nodes =
              put v.nodes node
                (record (v.nodes node) { file = record (v.nodes node).file { data' = data' } });
        }))
unfolding tmpfs_data
tmpfs_data-ok v node data' rest room some_data =
    let e : (data' == 0) ≡ false = ground arith in
    let (m, run) = calloc-take frame_size v data' rest room some_data in
    (m, rw (run, ◌>>=◌, e) refl)

module _ (v : Vfs) (d : ℕ) (c : Directory) (last : Name) (node node_name entry data' : ℕ)
    (rest : List ℕ) (mode : ℕ)
    (can : CanCreate v d c last node node_name entry data' rest mode) where
  abbrev entered : Memory → Vfs
  entered m = record v {
    heap = data' ∷ rest;
    memory = m;
    nodes =
        put (put v.nodes node (record blank_node { name = last; parent = d; fs = some tmpfs })) d
          (record (v.nodes d) { children = some (insert c last node) });
  }

  apart : (node == d) ≡ false
  apart = elim (Bool-cases (node == d)) [
    | inl e ↦
        let at : node ≡ d = (==_iff node d).0 e in
        let no_children : (v.nodes d).children ≡ none =
          ap (λ x. (v.nodes x).children) (sym at) ∙ ap (λ n. n.children) can.unused in
        cc (no_children, can.directory)
    | inr e ↦ e
  ]

  apart' : (d == node) ≡ false
  apart' = ground (arith, apart)

  vfs_create_node-entered :
      (m : Memory) × (vfs_create_node d last (some tmpfs) false v ≡ ok (node, entered m))
  unfolding vfs_create_node
  vfs_create_node-entered =
      let (m1, run1) = calloc-take sizeof_node v node _ can.room can.some_node in
      let no_node : (node == 0) ≡ false = ground (arith, can.some_node) in
      let no_d : (d == 0) ≡ false = ground (arith, can.some_directory) in
      let no_name : (node_name == 0) ≡ false = ground (arith, can.some_name) in
      let v1 : Vfs = record v { heap = node_name ∷ entry ∷ data' ∷ rest; memory = m1 } in
      let run2 = copy_string-take last v1 node_name _ refl can.some_name in
      let v3 : Vfs =
        put_node node (record blank_node { name = last; parent = d; fs = some tmpfs })
          (record v { heap = entry ∷ data' ∷ rest; memory = store_string node_name last m1 }) in
      let dir : (v3.nodes d).children ≡ some c = rw (apart) can.directory in
      let (m, run3) =
        set_child-new v3 d c last node entry (data' ∷ rest) dir can.absent refl can.some_entry in
      (
        m,
        rw
            (
              run1, vfs_create_node, ◌>>=◌, no_node, run2, no_name, no_d, no_d, run2, no_d, run3,
              apart,
            )
            refl,
      )

  tmpfs_create-Created :
      Returns
        (tmpfs_create d last mode v)
        λ (made, v'). (made ≡ node) × Created v v' d c last node data'
  unfolding tmpfs_create
  tmpfs_create-Created =
      let (m, entering) = vfs_create_node-entered in
      let (m', run) = tmpfs_data-ok (entered m) node data' rest refl can.some_data in
      rw (can.regular, entering, ◌>>=◌, run)
        (
          _,
          refl,
          (
            refl,
            (
              rw (apart, ==_self d) refl,
              rw (==_self node, apart') refl,
              rw (==_self node, apart') refl,
              (λ x a b.
                  let e : (d == x) ≡ false = ground arith in
                  let e' : (node == x) ≡ false = ground arith in rw (e', e) refl),
              rw (apart, ==_self d) refl,
              rw (apart, ==_self d) refl,
              rw (==_self node, apart') refl,
              rw (==_self node, apart') refl,
              refl,
              rw (==_self node, apart') refl,
            ),
          ),
        )

  Created-IsGrown : (v' : Vfs) → Created v v' d c last node data' → IsGrown v v' d c last node
  Created-IsGrown v' made = record {
    before = can.directory;
    after = made.0;
    absent = can.absent;
    others = λ x c' x_ne dir.
        let x_ne' : x ≢ node = λ e.
          let no_children : (v.nodes x).children ≡ none =
            ap (λ y. (v.nodes y).children) e ∙ ap (λ n. n.children) can.unused in
          cc (no_children, dir) in
        ap (λ n. n.children) (made.3 x x_ne x_ne') ∙ dir;
  }

  -- A field that the creation does not change in the directory, and that is 0 in a blank node.
  kept_field :
      (v' : Vfs) (f : VfsNode → ℕ)
      → f (v'.nodes d) ≡ f (v.nodes d)
      → f (v'.nodes node) ≡ 0
      → f blank_node ≡ 0
      → ((x : ℕ) → x ≢ d → x ≢ node → v'.nodes x ≡ v.nodes x)
      → (x : ℕ) → f (v'.nodes x) ≡ f (v.nodes x)
  kept_field v' f at_d at_node blank others x = elim (Bool-cases (x == d)) [
    | inl e ↦ let at : x ≡ d = (==_iff x d).0 e in rw (at) at_d
    | inr e ↦ elim (Bool-cases (x == node)) [
      | inl e' ↦
          let at : x ≡ node = (==_iff x node).0 e' in
          rw (at) (at_node ∙ sym (ap f can.unused ∙ blank))
      | inr e' ↦ ap f (others x (ground arith) (ground arith))
    ]
  ]

  module _ (v' : Vfs) (made : Created v v' d c last node data') where
    reduce_node-Created : (fuel x : ℕ) → reduce_node fuel x v' ≡ reduce_node fuel x v
    reduce_node-Created fuel x =
        reduce_node-same v v' fuel x (kept_field v' (λ n. n.mountpoint) made.4 made.6 refl made.3)
          (kept_field v' (λ n. n.link) made.5 made.7 refl made.3)

    path_to_node-Created :
        (fuel parent parent' root' k : ℕ) (names : List Name)
        → reduce_node fuel (if parent == 0 then v.root else parent) v ≡ ok parent'
        → reduce_node fuel v.root v ≡ ok root'
        → AreSegments names
        → IsSegment last
        → Walks v d (start_of k parent' root') names
        → parent_after names parent' d ≡ d
        → path_to_node fuel parent (path_to k names last false) v'
          ≡ ok (record { parent = d; result = node })
    path_to_node-Created fuel parent parent' root' k names to_parent to_root hs h w same =
        let entry : insert c last node last ≡ node = rw (same_name_self last) refl in
        let no_node : (node == 0) ≡ false = ground (arith, can.some_node) in
        path_to_node-found fuel parent v' parent' root' d k (insert c last node) names last false
          (ap (λ r. reduce_node fuel (if parent == 0 then r else parent) v') made.8
            ∙ reduce_node-Created fuel (if parent == 0 then v.root else parent)
            ∙ to_parent)
          (ap (λ r. reduce_node fuel r v') made.8 ∙ reduce_node-Created fuel v.root ∙ to_root) hs h
          (Walks-IsGrown v v' d c last node d (start_of k parent' root') names
            (Created-IsGrown v' made) w)
          made.0
        ∙ rw (entry, no_node, made.1) (ap (λ p. ok (record { parent = p; result = node })) same)

-- Where the names before the last lead to a directory of tmpfs without an entry of that name, and
-- the directory is the one that `path_to_node` answers as the parent, `vfs_create` of a regular
-- file, with room on the heap, makes the file with one block. The path then finds it, in that
-- directory, as a file of tmpfs, and every walk that was possible before leads where it led.
pub vfs_create-path_to_node :
    (fuel parent : ℕ) (v : Vfs) (parent' root' k : ℕ) (names : List Name) (last : Name) (d : ℕ)
    (c : Directory) (node node_name entry data' : ℕ) (rest : List ℕ) (mode : ℕ)
    → reduce_node fuel (if parent == 0 then v.root else parent) v ≡ ok parent'
    → reduce_node fuel v.root v ≡ ok root'
    → AreSegments names
    → IsSegment last
    → Walks v d (start_of k parent' root') names
    → parent_after names parent' d ≡ d
    → CanCreate v d c last node node_name entry data' rest mode
    → Returns (vfs_create fuel parent (path_to k names last false) mode v) λ (made, v').
      (made ≡ node)
      × (path_to_node fuel parent (path_to k names last false) v'
          ≡ ok (record { parent = d; result = node }))
      × ((v'.nodes node).file
          ≡ record { data' = data'; st_size = frame_size; st_blocks = 1; offset = 0; lock = 0 })
      × ((s e : ℕ) (ns : List Name) → Walks v e s ns → Walks v' e s ns)
      × ((v'.nodes node).fs ≡ some tmpfs)
unfolding vfs_create fs_create
vfs_create-path_to_node fuel parent v parent' root' k names last d c node node_name entry data' rest
      mode to_parent to_root hs h w same can =
    let before =
      path_to_node-found fuel parent v parent' root' d k c names last false to_parent to_root hs h w
        can.directory in
    let no_d : (d == 0) ≡ false = ground (arith, can.some_directory) in
    let no_node : (node == 0) ≡ false = ground (arith, can.some_node) in
    let ((made, v'), run, (made_node, created)) =
      tmpfs_create-Created v d c last node node_name entry data' rest mode can in
    let before0 : path_to_node fuel parent (path_to k names last false) v
        ≡ ok (record { parent = d; result = 0 }) =
      before ∙ rw (same, can.absent) refl in
    (
      (node, v'),
      rw
          (
            before0,
            vfs_create,
            ◌>>=◌,
            no_d,
            can.on_tmpfs,
            basename-path_to k names last h,
            run,
            made_node,
            no_node,
            can.regular,
          )
          (ap (λ a. ok (a, v')) made_node),
      (
        refl,
        path_to_node-Created v d c last node node_name entry data' rest mode can v' created fuel
            parent parent' root' k names to_parent to_root hs h w same,
        created.2,
        λ s e ns w'.
            Walks-IsGrown v v' d c last node e s ns
              (Created-IsGrown v d c last node node_name entry data' rest mode can v' created) w',
        created.9,
      ),
    )
