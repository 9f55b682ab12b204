-- ===== src/Vfs/Grown.antt =====
-- What a new entry in a directory keeps of the walks and links of fs/vfs.c.
use flan.Base.{
  ℕ, zero, suc, ◌≡◌, ◌≢◌, refl, sym, ap, ◌∙◌, some, List, [], ◌∷◌, ◌==◌, ==_iff, arith, Bool-cases,
  inl, inr,
}
use flan.Vfs.{Vfs, Directory, insert, reduce_node}
use flan.Str.Names.{Name, same_name, same_name-eq}
use flan.Vfs.Resolve.{Walks, here, down}

-- The links that `reduce_node` follows are the same.
pub reduce_node-same :
    (v v' : Vfs) (fuel node : ℕ)
    → ((x : ℕ) → (v'.nodes x).mountpoint ≡ (v.nodes x).mountpoint)
    → ((x : ℕ) → (v'.nodes x).link ≡ (v.nodes x).link)
    → reduce_node fuel node v' ≡ reduce_node fuel node v
unfolding reduce_node
reduce_node-same v v' zero node mounts links = refl
reduce_node-same v v' (suc fuel) node mounts links =
    let to_mount = reduce_node-same v v' fuel (v.nodes node).mountpoint mounts links in
    let to_link = reduce_node-same v v' fuel (v.nodes node).link mounts links in
    elim (Bool-cases ((v.nodes node).mountpoint == 0)) [
      | inr m ↦ rw (mounts node, m, reduce_node, mounts node) to_mount
      | inl m ↦ elim (Bool-cases ((v.nodes node).link == 0)) [
        | inr l ↦ rw (mounts node, m, reduce_node, links node, l, links node) to_link
        | inl l ↦ rw (mounts node, m, reduce_node, links node, l) refl
      ]
    ]

-- A directory with a new entry, under a name that had none, leads on where it led before.
pub record IsGrown (v v' : Vfs) (d : ℕ) (c : Directory) (last : Name) (node : ℕ) : Type 0 where
  pub before : (v.nodes d).children ≡ some c
  pub after : (v'.nodes d).children ≡ some (insert c last node)
  pub absent : c last ≡ 0
  pub others :
      (x : ℕ) (c' : Directory)
      → x ≢ d
      → (v.nodes x).children ≡ some c'
      → (v'.nodes x).children ≡ some c'

insert_other :
    (c : Directory) (last name : Name) (node : ℕ)
    → c last ≡ 0
    → c name ≢ 0
    → insert c last node name ≡ c name
insert_other c last name node absent there = elim (Bool-cases (same_name last name)) [
  | inl e ↦ absurd (there (ap c (sym (same_name-eq last name e)) ∙ absent))
  | inr e ↦ rw e refl
]

pub Walks-IsGrown :
    (v v' : Vfs) (d : ℕ) (c : Directory) (last : Name) (node : ℕ) (e s : ℕ) (names : List Name)
    → IsGrown v v' d c last node
    → Walks v e s names
    → Walks v' e s names
Walks-IsGrown v v' d c last node e s [] g (here _ at) = here s at
Walks-IsGrown v v' d c last node e s (name ∷ names) g (down _ _ _ c' dir there w) =
    let rest = Walks-IsGrown v v' d c last node e (c' name) names g w in
    elim (Bool-cases (s == d)) [
      | inl same ↦
          let at : s ≡ d = (==_iff s d).0 same in
          let same_dir : c' ≡ c = cc (dir, g.before, at) in
          let no_name : c name ≢ 0 = rw same_dir at there in
          let kept : insert c last node name ≡ c' name =
            insert_other c last name node g.absent no_name ∙ ap (λ f. f name) (sym same_dir) in
          down s name names (insert c last node) (ap (λ x. (v'.nodes x).children) at ∙ g.after)
            (rw kept there) (rw kept rest)
      | inr differ ↦ down s name names c' (g.others s c' (ground arith) dir) there rest
    ]
