-- ===== src/Vfs/Paths.antt =====
-- What `path_to_node` of fs/vfs.c finds at a path.
use mathlib.Core.List.{append-nil}
use flan.Base.{
  ℕ, zero, suc, ◌+◌, ◌-◌, ◌<◌, ◌≡◌, ◌≢◌, refl, ap, Bool, true, false, some, List, [], ◌∷◌, ◌++◌, ok,
  ◌>>=◌, ◌==◌, if◌then◌else◌, length, get_or, take, drop, replicate, arith, length-append,
  length-replicate,
}
use flan.Vfs.{Vfs, reduce_node, follow, inner, path_to_node}
use flan.Str.Names.{Name, leading, IsSegment, AreSegments, join, tokens-join}

-- `k` slashes.
abbrev pub slashes : ℕ → Name
slashes k = replicate k b'/'

-- A path of names: slashes, the names with one slash between them, and a last slash or none.
abbrev pub path_of : ℕ → Name → List Name → Bool → Name
path_of k n ns trail = slashes k ++ (join n ns ++ (if trail then b'/' ∷ [] else []))

-- The path of some names and a last one.
abbrev pub path_to : ℕ → List Name → Name → Bool → Name
path_to k [] last trail = path_of k last [] trail
path_to k (n ∷ ns) last trail = path_of k n (ns ++ (last ∷ [])) trail

-- A string that begins and ends with another byte than a slash.
pub record IsInner (w : Name) : Type 0 where
  pub first : get_or w 0 b'/' ≢ b'/'
  pub last : get_or w (length w - 1) 0 ≢ b'/'
  pub some_length : 0 < length w

pub get_or-append_right : (x y : Name) (i d : ℕ) → get_or (x ++ y) (length x + i) d ≡ get_or y i d
get_or-append_right [] y i d = ground arith
get_or-append_right (a ∷ x) y i d =
    let e : suc (length x) + i ≡ suc (length x + i) = omega arith in
    rw e (get_or-append_right x y i d)

pub get_or-append_left : (x y : Name) (i d : ℕ) → i < length x → get_or (x ++ y) i d ≡ get_or x i d
get_or-append_left [] y i d h = elim h [ ]
get_or-append_left (a ∷ x) y zero d h = refl
get_or-append_left (a ∷ x) y (suc i) d h = get_or-append_left x y i d (omega arith)

pub segment-IsInner : (n : Name) → IsSegment n → IsInner n
segment-IsInner [] h = elim h [ ]
segment-IsInner (a ∷ []) h = record { first = h.0; last = h.0; some_length = omega arith }
segment-IsInner (a ∷ b ∷ n) h =
    let r = segment-IsInner (b ∷ n) h.1 in
    let e : suc (suc (length n)) - 1 ≡ suc (length n) = omega arith in
    let e' : suc (length n) - 1 ≡ length n = omega arith in
    record { first = h.0; last = rw e (rw e' at r.last); some_length = omega arith }

join-IsInner : (n : Name) (ns : List Name) → IsSegment n → AreSegments ns → IsInner (join n ns)
join-IsInner n [] h hs = segment-IsInner n h
join-IsInner n (n' ∷ ns) h hs =
    let r = segment-IsInner n h in
    let r' = join-IsInner n' ns hs.0 hs.1 in
    let e : length (n ++ (b'/' ∷ join n' ns)) - 1 ≡ length n + suc (length (join n' ns) - 1) =
      omega (arith, length-append n (b'/' ∷ join n' ns), r'.some_length) in
    record {
      first = rw (get_or-append_left n (b'/' ∷ join n' ns) 0 b'/' r.some_length) r.first;
      last =
          rw (e, get_or-append_right n (b'/' ∷ join n' ns) (suc (length (join n' ns) - 1)) 0)
            r'.last;
      some_length = omega (arith, length-append n (b'/' ∷ join n' ns));
    }

leading-slashes : (k : ℕ) (w : Name) → get_or w 0 b'/' ≢ b'/' → leading (slashes k ++ w) ≡ some k
unfolding leading
leading-slashes zero [] h = ground arith
leading-slashes zero (c ∷ w) h = ground arith
leading-slashes (suc k) w h = rw (leading-slashes k w h) refl

drop-slashes : (k : ℕ) (w : Name) → drop k (slashes k ++ w) ≡ w
drop-slashes zero w = refl
drop-slashes (suc k) w = drop-slashes k w

take-length : (x y : Name) → take (length x) (x ++ y) ≡ x
take-length [] y = refl
take-length (a ∷ x) y = ap (λ t. a ∷ t) (take-length x y)

get_or-slashes : (k : ℕ) (y : Name) (i d : ℕ) → get_or (slashes k ++ y) (k + i) d ≡ get_or y i d
get_or-slashes zero y i d = ground arith
get_or-slashes (suc k) y i d =
    let e : suc k + i ≡ suc (k + i) = omega arith in rw e (get_or-slashes k y i d)

length-slashes : (k : ℕ) (y : Name) → length (slashes k ++ y) ≡ k + length y
length-slashes k y = omega (arith, length-append (slashes k) y, length-replicate {A = ℕ} k b'/')

inner-bare : (k : ℕ) (w : Name) → IsInner w → inner k (slashes k ++ w) ≡ w
inner-bare k w r =
    let len : length (slashes k ++ w) ≡ k + length w = length-slashes k w in
    let e : k + length w - 1 ≡ k + (length w - 1) = omega (arith, r.some_length) in
    let no_dir : (get_or w (length w - 1) 0 == b'/') ≡ false = ground (arith, r.last) in
    let n : k + length w - (k + 0) ≡ length w = omega arith in
    rw (len, e, get_or-slashes k w (length w - 1) 0, no_dir, n, drop-slashes k w)
      (rw append-nil at (take-length w []))

inner-trail : (k : ℕ) (w : Name) → inner k (slashes k ++ (w ++ (b'/' ∷ []))) ≡ w
inner-trail k w =
    let len : length (slashes k ++ (w ++ (b'/' ∷ []))) ≡ k + (length w + 1) =
      omega (arith, length-slashes k (w ++ (b'/' ∷ [])), length-append w (b'/' ∷ [])) in
    let e : k + (length w + 1) - 1 ≡ k + (length w + 0) = omega arith in
    let n : k + (length w + 1) - (k + 1) ≡ length w = omega arith in
    rw
      (
        len,
        e,
        get_or-slashes k (w ++ (b'/' ∷ [])) (length w + 0) 0,
        get_or-append_right w (b'/' ∷ []) 0 0,
        n,
        drop-slashes k (w ++ (b'/' ∷ [])),
      )
      (take-length w (b'/' ∷ []))

inner-path_of :
    (k : ℕ) (n : Name) (ns : List Name) (trail : Bool)
    → IsSegment n
    → AreSegments ns
    → inner k (path_of k n ns trail) ≡ join n ns
inner-path_of k n ns true h hs = inner-trail k (join n ns)
inner-path_of k n ns false h hs = rw append-nil (inner-bare k (join n ns) (join-IsInner n ns h hs))

-- Where the walk begins: an absolute path at the root, another at the parent.
abbrev pub start_of : ℕ → ℕ → ℕ → ℕ
start_of zero parent root = parent
start_of (suc k) parent root = root

leading-path_of :
    (k : ℕ) (n : Name) (ns : List Name) (trail : Bool)
    → IsSegment n
    → AreSegments ns
    → leading (path_of k n ns trail) ≡ some k
leading-path_of k n ns trail h hs =
    let r = join-IsInner n ns h hs in
    leading-slashes k (join n ns ++ (if trail then b'/' ∷ [] else [])) (
      rw (get_or-append_left (join n ns) (if trail then b'/' ∷ [] else []) 0 b'/' r.some_length)
        r.first)

pub path_to_node-follow :
    (fuel parent : ℕ) (v : Vfs) (parent' root' k : ℕ) (n : Name) (ns : List Name) (trail : Bool)
    → reduce_node fuel (if parent == 0 then v.root else parent) v ≡ ok parent'
    → reduce_node fuel v.root v ≡ ok root'
    → IsSegment n
    → AreSegments ns
    → path_to_node fuel parent (path_of k n ns trail) v
      ≡ follow parent' (start_of k parent' root') (n ∷ ns) v
unfolding path_to_node
path_to_node-follow fuel parent v parent' root' k [] ns trail to_parent to_root h hs = elim h [ ]
path_to_node-follow fuel parent v parent' root' (suc k) (c ∷ n) ns trail to_parent to_root h hs =
    rw
      (
        to_parent,
        ◌>>=◌,
        to_root,
        leading-path_of (suc k) (c ∷ n) ns trail h hs,
        inner-path_of (suc k) (c ∷ n) ns trail h hs,
        tokens-join (c ∷ n) ns h hs,
      )
      refl
path_to_node-follow fuel parent v parent' root' zero (c ∷ n) [] trail to_parent to_root h hs =
    let e : (c == b'/') ≡ false = ground (arith, h.0) in
    rw
      (
        to_parent,
        ◌>>=◌,
        e,
        leading-path_of zero (c ∷ n) [] trail h hs,
        inner-path_of zero (c ∷ n) [] trail h hs,
        tokens-join (c ∷ n) [] h hs,
      )
      refl
path_to_node-follow fuel parent v parent' root' zero (c ∷ n) (n' ∷ ns) trail to_parent to_root h
      hs =
    let e : (c == b'/') ≡ false = ground (arith, h.0) in
    rw
      (
        to_parent,
        ◌>>=◌,
        e,
        leading-path_of zero (c ∷ n) (n' ∷ ns) trail h hs,
        inner-path_of zero (c ∷ n) (n' ∷ ns) trail h hs,
        tokens-join (c ∷ n) (n' ∷ ns) h hs,
      )
      refl
