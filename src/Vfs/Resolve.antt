-- ===== src/Vfs/Resolve.antt =====
-- The result of `path_to_node` of fs/vfs.c by the directories on the way.
use flan.Base.{
  ℕ, ◌≡◌, ◌≢◌, refl, ap, ◌∙◌, Bool, false, none, some, List, [], ◌∷◌, ◌++◌, ok, ◌>>=◌, ◌==◌,
  if◌then◌else◌, arith, Bool-cases, inl, inr,
}
use flan.Vfs.{Vfs, Directory, PathToNode, reduce_node, get_child, follow, path_to_node}
use flan.Str.Names.{Name, IsSegment, AreSegments}
use flan.Vfs.Paths.{path_to, start_of, path_to_node-follow}

-- The walk from one node to another along the names, by the directories.
pub data Walks (v : Vfs) (e : ℕ) : ℕ → List Name → Type 0 where
  here : (d : ℕ) → d ≡ e → Walks v e d []
  down :
      (d : ℕ) (name : Name) (names : List Name) (c : Directory)
      → (v.nodes d).children ≡ some c
      → c name ≢ 0
      → Walks v e (c name) names
      → Walks v e d (name ∷ names)

abbrev pub next_parent : Vfs → ℕ → ℕ → ℕ
next_parent v parent node = elim (v.nodes node).children [ none ↦ parent | some _ ↦ node ]

-- What the code answers for the entry of a directory that `parent` stands for: a directory is its
-- own parent in the result.
abbrev pub found : Vfs → ℕ → ℕ → PathToNode
found v parent node = record {
  parent =
      if node == 0 then parent else elim (v.nodes node).children [ none ↦ parent | some _ ↦ node ];
  result = node;
}

abbrev pub parent_after : List Name → ℕ → ℕ → ℕ
parent_after [] parent d = parent
parent_after (n ∷ ns) parent d = d

pub get_child-some :
    (v : Vfs) (d : ℕ) (c : Directory) (name : Name)
    → (v.nodes d).children ≡ some c
    → get_child d name v ≡ ok (c name)
unfolding get_child
get_child-some v d c name e = rw (e, get_child) refl

follow-last :
    (v : Vfs) (d : ℕ) (c : Directory) (last : Name) (names : List Name) (parent s : ℕ)
    → (v.nodes d).children ≡ some c
    → Walks v d s names
    → follow parent s (names ++ (last ∷ [])) v ≡ ok (found v (parent_after names parent d) (c last))
unfolding follow
follow-last v d c last [] parent s e (here _ at) =
    rw (at, get_child-some v d c last e, ◌>>=◌)
      (elim (Bool-cases (c last == 0)) [
        | inl no_node ↦ rw no_node (ground arith)
        | inr node ↦ rw node refl
      ])
follow-last v d c last (name ∷ []) parent s e (down _ _ _ c' e' there (here _ at)) =
    let more : (c' name == 0) ≡ false = ground (arith, there) in
    let p : next_parent v parent (c' name) ≡ d = rw (at, e, next_parent) (at) in
    rw (get_child-some v s c' name e', ◌>>=◌, more)
      (ap (λ q. follow q (c' name) (last ∷ []) v) p
        ∙ follow-last v d c last [] d (c' name) e (here (c' name) at))
follow-last v d c last (name ∷ name' ∷ names) parent s e
      (down _ _ _ c' e' there (down _ _ _ c'' e'' there' w)) =
    let more : (c' name == 0) ≡ false = ground (arith, there) in
    rw (get_child-some v s c' name e', ◌>>=◌, more)
      (follow-last v d c last (name' ∷ names) (next_parent v parent (c' name)) (c' name) e
        (down (c' name) name' names c'' e'' there' w))

AreSegments-snoc :
    (names : List Name) (last : Name)
    → AreSegments names
    → IsSegment last
    → AreSegments (names ++ (last ∷ []))
AreSegments-snoc [] last hs h = (h, tt)
AreSegments-snoc (n ∷ ns) last hs h = (hs.0, AreSegments-snoc ns last hs.1 h)

-- A path of names, with any number of slashes before it and at most one behind, whose names but
-- the last lead from directory to directory to `d`: `path_to_node` answers the last name's entry
-- in `d`, or null where there is none. The answer's parent is the entry where that is a directory,
-- and else `d`; but for a single name it is the given parent, also for an absolute path, which
-- begins at the root.
pub path_to_node-found :
    (fuel parent : ℕ) (v : Vfs) (parent' root' d k : ℕ) (c : Directory) (names : List Name)
    (last : Name) (trail : Bool)
    → reduce_node fuel (if parent == 0 then v.root else parent) v ≡ ok parent'
    → reduce_node fuel v.root v ≡ ok root'
    → AreSegments names
    → IsSegment last
    → Walks v d (start_of k parent' root') names
    → (v.nodes d).children ≡ some c
    → path_to_node fuel parent (path_to k names last trail) v
      ≡ ok (found v (parent_after names parent' d) (c last))
path_to_node-found fuel parent v parent' root' d k c [] last trail to_parent to_root hs h w dir =
    path_to_node-follow fuel parent v parent' root' k last [] trail to_parent to_root h tt
    ∙ follow-last v d c last [] parent' (start_of k parent' root') dir w
path_to_node-found fuel parent v parent' root' d k c (n ∷ ns) last trail to_parent to_root hs h w
      dir =
    path_to_node-follow fuel parent v parent' root' k n (ns ++ (last ∷ [])) trail to_parent to_root
      hs.0 (AreSegments-snoc ns last hs.1 h)
    ∙ follow-last v d c last (n ∷ ns) parent' (start_of k parent' root') dir w
