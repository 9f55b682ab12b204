-- ===== src/Vfs/Writes.antt =====
-- Writes through fs/vfs.c change what files hold, not where paths lead.
use flan.Base.{
  ℕ, ◌+◌, ◌/◌, ◌^◌, ◌<◌, ◌≤◌, ◌≡◌, ◌≢◌, ◌⊎◌, inl, inr, ◌∙◌, refl, sym, ap, false, some, none,
  Option, List, [], ◌∷◌, Outcome, ok, ◌>>=◌, Returns, Returns-bind, bind-ext, Bool-cases, ==_iff,
  ==_self, ◌==◌, if◌then◌else◌, arith, leb,
}
use native.Mathlib.Nat.{add-zero}
use flan.Base.Words.{u32, add64}
use flan.Lock.Spin.{acquire-free, release-acquired}
use flan.Mem.{Memory}
use flan.Mem.Copy.{memcpy-copied, copied-inside}
use flan.Pmm.{frame_size}
use flan.Str.Names.{Name, leading, tokens}
use flan.Tmpfs.{File, tmpfs_write}
use flan.Vfs.{Vfs, tmpfs, put_node, reduce_node, get_child, follow, PathToNode, path_to_node, inner}
use flan.Vfs.Calls.{vfs_write}
use flan.Vfs.Grown.{reduce_node-same}

-- The same directories, mounts and links.
pub record SameTree (v v' : Vfs) : Type 0 where
  pub children : (x : ℕ) → (v'.nodes x).children ≡ (v.nodes x).children
  pub mountpoints : (x : ℕ) → (v'.nodes x).mountpoint ≡ (v.nodes x).mountpoint
  pub links : (x : ℕ) → (v'.nodes x).link ≡ (v.nodes x).link
  pub roots : v'.root ≡ v.root

-- The end of `path_to_node`, behind the leading slashes.
abbrev ended : Vfs → Name → ℕ → ℕ → Option ℕ → Outcome PathToNode
ended v path p x none = ok (record { parent = p; result = x })
ended v path p x (some index) = follow p x (tokens (inner index path)) v

module _ (v v' : Vfs) (same : SameTree v v') where
  get_child-same : (node : ℕ) (key : Name) → get_child node key v' ≡ get_child node key v
  unfolding get_child
  get_child-same node key = rw (same.children node, get_child) refl

  follow-same :
      (names : List Name) (parent current : ℕ)
      → follow parent current names v' ≡ follow parent current names v
  unfolding follow
  follow-same [] parent current = refl
  follow-same (name ∷ names) parent current = rw (get_child-same current name) (
      bind-ext (get_child current name v) λ node. elim (Bool-cases (node == 0)) [
        | inl none' ↦ rw none' refl
        | inr found ↦ rw (found, same.children node) (follow-same names _ node)
      ])

  reduce_node-kept : (fuel x : ℕ) → reduce_node fuel x v' ≡ reduce_node fuel x v
  reduce_node-kept fuel x = reduce_node-same v v' fuel x same.mountpoints same.links

  ended-same :
      (path : Name) (p x : ℕ) (index : Option ℕ) → ended v' path p x index ≡ ended v path p x index
  ended-same path p x none = refl
  ended-same path p x (some index) = follow-same (tokens (inner index path)) p x

  pub path_to_node-same :
      (fuel parent : ℕ) (path : Name)
      → path_to_node fuel parent path v' ≡ path_to_node fuel parent path v
  unfolding path_to_node
  path_to_node-same fuel parent [] = refl
  path_to_node-same fuel parent (c ∷ path) =
      simp (same.roots, reduce_node-kept)
        (bind-ext (reduce_node fuel (if parent == 0 then v.root else parent) v) λ p.
          bind-ext (if c == b'/' then reduce_node fuel v.root v else ok p)
            λ x. ended-same (c ∷ path) p x (leading (c ∷ path)))

-- A write from the start of a file, inside of its blocks.
pub tmpfs_write-bytes :
    (realloc : ℕ → ℕ → Memory → Outcome (ℕ × Memory)) (node : File) (source count : ℕ) (m : Memory)
    → node.lock ≡ 0
    → node.data' ≢ 0
    → count / frame_size < node.st_blocks
    → count < 2 ^ 64
    → source ≢ 0
    → (node.data' ≤ source) ⊎ (source + count ≤ node.data')
    → Returns (tmpfs_write realloc source count 0 node m) λ (n, node', m').
      (n ≡ u32 count)
      × (node'.data' ≡ node.data')
      × ((i : ℕ) → i < count → m' (node.data' + i) ≡ m (source + i))
unfolding tmpfs_write
tmpfs_write-bytes realloc node source count m free some_data blocks small some_source far =
    let exact : add64 0 count ≡ count = omega arith in
    let room : leb node.st_blocks (count / frame_size) ≡ false = ground arith in
    rw (free, acquire-free, ◌>>=◌, exact, room, release-acquired)
      (Returns-bind
        (memcpy-copied (node.data' + 0) source count m (omega arith) some_source
          (omega (arith, far)))
        λ m' c. (
          _,
          refl,
          (
            refl,
            refl,
            λ i low.
                ap (λ (t : ℕ). m' (t + i)) (sym (add-zero node.data'))
                ∙ c (node.data' + 0 + i)
                ∙ copied-inside m (node.data' + 0) source count i low,
          ),
        ))

put_node-SameTree :
    (v : Vfs) (node : ℕ) (file : File) (m : Memory)
    → SameTree v (put_node node (record (v.nodes node) { file = file }) (record v { memory = m }))
put_node-SameTree v node file m = record {
  children = λ x. elim (Bool-cases (node == x)) [
    | inl here ↦ rw (here, (==_iff node x).0 here) refl
    | inr other ↦ rw other refl
  ];
  mountpoints = λ x. elim (Bool-cases (node == x)) [
    | inl here ↦ rw (here, (==_iff node x).0 here) refl
    | inr other ↦ rw other refl
  ];
  links = λ x. elim (Bool-cases (node == x)) [
    | inl here ↦ rw (here, (==_iff node x).0 here) refl
    | inr other ↦ rw other refl
  ];
  roots = refl;
}

-- The same through `vfs_write`, which leaves all paths as they were.
pub vfs_write-bytes :
    (realloc : ℕ → ℕ → Memory → Outcome (ℕ × Memory)) (v : Vfs) (node source count : ℕ)
    → (v.nodes node).fs ≡ some tmpfs
    → (v.nodes node).file.lock ≡ 0
    → (v.nodes node).file.data' ≢ 0
    → count / frame_size < (v.nodes node).file.st_blocks
    → count < 2 ^ 64
    → source ≢ 0
    → ((v.nodes node).file.data' ≤ source) ⊎ (source + count ≤ (v.nodes node).file.data')
    → Returns (vfs_write realloc node source count 0 v) λ (n, v').
      (n ≡ u32 count)
      × SameTree v v'
      × ((v'.nodes node).file.data' ≡ (v.nodes node).file.data')
      × ((i : ℕ) → i < count → v'.memory ((v.nodes node).file.data' + i) ≡ v.memory (source + i))
unfolding vfs_write
vfs_write-bytes realloc v node source count on_tmpfs free some_data blocks small some_source far =
    let ((n, file, m), run, (all, same, bytes)) =
      tmpfs_write-bytes realloc (v.nodes node).file source count v.memory free some_data blocks
        small some_source far in
    rw (on_tmpfs, vfs_write, run, ◌>>=◌)
      (_, refl, (all, put_node-SameTree v node file m, rw (==_self node) same, bytes))
