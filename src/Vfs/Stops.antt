-- ===== src/Vfs/Stops.antt =====
-- The paths at which `path_to_node` of fs/vfs.c finds nothing.
use flan.Base.{
  ℕ, ◌≡◌, ◌≢◌, ◌⊎◌, refl, ◌∙◌, Bool, false, none, some, List, [], ◌∷◌, ◌++◌, Outcome, ok, fault,
  ◌>>=◌, ◌==◌, if◌then◌else◌, arith, inl, inr,
}
use flan.Vfs.{Vfs, Directory, PathToNode, reduce_node, get_child, follow, path_to_node}
use flan.Str.Names.{Name, AreSegments}
use flan.Vfs.Paths.{path_of, start_of, path_to_node-follow}
use flan.Vfs.Resolve.{Walks, here, down, get_child-some, next_parent}

-- The two ways in which a path ends at an entry with a name behind it: there is no entry, or the
-- entry is not a directory.
abbrev pub stop : ℕ → Outcome PathToNode
stop entry = if entry == 0 then ok (record { parent = 0; result = 0 }) else fault

follow-stops :
    (v : Vfs) (d : ℕ) (c : Directory) (mid next : Name) (more names : List Name) (parent s : ℕ)
    → (v.nodes d).children ≡ some c
    → (c mid ≡ 0) ⊎ ((c mid ≢ 0) × ((v.nodes (c mid)).children ≡ none))
    → Walks v d s names
    → follow parent s (names ++ (mid ∷ next ∷ more)) v ≡ stop (c mid)
unfolding follow get_child
follow-stops v d c mid next more [] parent s e (inl missing) (here _ at) =
    rw (at, get_child-some v d c mid e, ◌>>=◌, missing) refl
follow-stops v d c mid next more [] parent s e (inr (there, file)) (here _ at) =
    let found : (c mid == 0) ≡ false = ground arith in
    rw (at, get_child-some v d c mid e, ◌>>=◌, found, get_child, file) refl
follow-stops v d c mid next more (name ∷ names) parent s e kind (down _ _ _ c' e' there w) =
    let found : (c' name == 0) ≡ false = ground (arith, there) in
    rw (get_child-some v s c' name e', ◌>>=◌, found)
      (follow-stops v d c mid next more names (next_parent v parent (c' name)) (c' name) e kind w)

-- A path of names with at least one name behind `mid`.
abbrev pub path_through : ℕ → List Name → Name → Name → List Name → Bool → Name
path_through k [] mid next more trail = path_of k mid (next ∷ more) trail
path_through k (n ∷ ns) mid next more trail = path_of k n (ns ++ (mid ∷ next ∷ more)) trail

AreSegments-append : (xs ys : List Name) → AreSegments xs → AreSegments ys → AreSegments (xs ++ ys)
AreSegments-append [] ys h h' = h'
AreSegments-append (x ∷ xs) ys h h' = (h.0, AreSegments-append xs ys h.1 h')

-- Where a name in the middle of a path has no entry, `path_to_node` answers null for the node and
-- for its parent. Where the entry is not a directory, as the nodes of "." and ".." are not, it
-- reads the null pointer that stands for its directory.
pub path_to_node-stops :
    (fuel parent : ℕ) (v : Vfs) (parent' root' d k : ℕ) (c : Directory) (names : List Name)
    (mid next : Name) (more : List Name) (trail : Bool)
    → reduce_node fuel (if parent == 0 then v.root else parent) v ≡ ok parent'
    → reduce_node fuel v.root v ≡ ok root'
    → AreSegments names
    → AreSegments (mid ∷ next ∷ more)
    → Walks v d (start_of k parent' root') names
    → (v.nodes d).children ≡ some c
    → (c mid ≡ 0) ⊎ ((c mid ≢ 0) × ((v.nodes (c mid)).children ≡ none))
    → path_to_node fuel parent (path_through k names mid next more trail) v
      ≡ (if c mid == 0 then ok (record { parent = 0; result = 0 }) else fault)
path_to_node-stops fuel parent v parent' root' d k c [] mid next more trail to_parent to_root hs h w
      dir kind =
    path_to_node-follow fuel parent v parent' root' k mid (next ∷ more) trail to_parent to_root h.0
      h.1
    ∙ follow-stops v d c mid next more [] parent' (start_of k parent' root') dir kind w
path_to_node-stops fuel parent v parent' root' d k c (n ∷ ns) mid next more trail to_parent to_root
      hs h w dir kind =
    path_to_node-follow fuel parent v parent' root' k n (ns ++ (mid ∷ next ∷ more)) trail to_parent
      to_root hs.0 (AreSegments-append ns (mid ∷ next ∷ more) hs.1 h)
    ∙ follow-stops v d c mid next more (n ∷ ns) parent' (start_of k parent' root') dir kind w
