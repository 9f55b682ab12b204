-- ===== src/Vfs/LastName.antt =====
-- The last name of a path, as `basename` of lib/str.c finds it.
use mathlib.Core.List.{append_assoc, append-nil}
use flan.Base.{
  ℕ, zero, suc, ◌+◌, ◌-◌, ◌<◌, ◌≡◌, ◌≢◌, refl, sym, ap, ◌∙◌, false, List, [], ◌∷◌, ◌++◌, ◌==◌,
  length, get_or, drop, arith, length-append,
}
use flan.Str.Names.{Name, IsSegment, HasNoSlash, join, strip_from, last_from, basename}
use flan.Vfs.Paths.{slashes, path_to, get_or-append_right, segment-IsInner}

-- What comes before a last name: nothing, or a string that ends with a slash.
data IsPrefix : Name → Type 0 where
  nothing : IsPrefix []
  slash : (x : Name) → IsPrefix (x ++ (b'/' ∷ []))

get_or-HasNoSlash : (w : Name) (i : ℕ) → HasNoSlash w → i < length w → get_or w i 0 ≢ b'/'
get_or-HasNoSlash [] i h low = elim low [ ]
get_or-HasNoSlash (c ∷ w) zero h low = h.0
get_or-HasNoSlash (c ∷ w) (suc i) h low = get_or-HasNoSlash w i h.1 (omega arith)

last_from-before : (pre w : Name) → IsPrefix pre → last_from (length pre) (pre ++ w) ≡ length pre
unfolding last_from
last_from-before _ w nothing = refl
last_from-before _ w (slash x) =
    let len : length (x ++ (b'/' ∷ [])) ≡ suc (length x + 0) =
      omega (arith, length-append x (b'/' ∷ [])) in
    rw (len, append_assoc x (b'/' ∷ []) w, last_from, get_or-append_right x (b'/' ∷ w) 0 0) refl

last_from-prefix :
    (pre w : Name) (j : ℕ)
    → IsPrefix pre
    → HasNoSlash w
    → j < length w
    → last_from (length pre + j) (pre ++ w) ≡ length pre
unfolding last_from
last_from-prefix pre w zero p h low =
    let e : length pre + 0 ≡ length pre = omega arith in rw e (last_from-before pre w p)
last_from-prefix pre w (suc j) p h low =
    let e : length pre + suc j ≡ suc (length pre + j) = omega arith in
    let no : (get_or w j 0 == b'/') ≡ false = ground (arith, get_or-HasNoSlash w j h) in
    rw (e, last_from, get_or-append_right pre w j 0, no)
      (last_from-prefix pre w j p h (omega arith))

drop-length : (x y : Name) → drop (length x) (x ++ y) ≡ y
drop-length [] y = refl
drop-length (a ∷ x) y = drop-length x y

strip_from-stays : (i : ℕ) (s : Name) → get_or s i 0 ≢ b'/' → strip_from i s ≡ (s, i)
unfolding strip_from
strip_from-stays zero s h = refl
strip_from-stays (suc i) s h =
    let e : (get_or s (suc i) 0 == b'/') ≡ false = ground arith in rw (e, strip_from) refl

basename-drop :
    (s : Name)
    → 0 < length s
    → get_or s (length s - 1) 0 ≢ b'/'
    → (basename s).0 ≡ drop (last_from (length s - 1) s) s
unfolding basename
basename-drop [] some_length h = elim some_length [ ]
basename-drop (c ∷ s) some_length h =
    let e : suc (length s) - 1 ≡ length s = omega arith in
    rw (strip_from-stays (length s) (c ∷ s) (rw e at h), e) refl

basename-prefix : (pre w : Name) → IsPrefix pre → IsSegment w → (basename (pre ++ w)).0 ≡ w
basename-prefix pre [] p h = elim h [ ]
basename-prefix pre (c ∷ w) p h =
    let r = segment-IsInner (c ∷ w) h in
    let e : length (pre ++ c ∷ w) - 1 ≡ length pre + length w =
      omega (arith, length-append pre (c ∷ w)) in
    let e' : suc (length w) - 1 ≡ length w = omega arith in
    let last : get_or (pre ++ c ∷ w) (length (pre ++ c ∷ w) - 1) 0 ≢ b'/' =
      rw (e, get_or-append_right pre (c ∷ w) (length w) 0) (rw e' at r.last) in
    basename-drop (pre ++ c ∷ w) (omega (arith, length-append pre (c ∷ w))) last
    ∙ ap (λ i. drop i (pre ++ c ∷ w))
        (ap (λ i. last_from i (pre ++ c ∷ w)) e
          ∙ last_from-prefix pre (c ∷ w) (length w) p h (omega arith))
    ∙ drop-length pre (c ∷ w)

join-snoc :
    (n : Name) (ns : List Name) (last : Name)
    → join n (ns ++ (last ∷ [])) ≡ (join n ns ++ (b'/' ∷ [])) ++ last
join-snoc n [] last = sym (append_assoc n (b'/' ∷ []) last)
join-snoc n (m ∷ ms) last = ap (λ t. n ++ (b'/' ∷ t)) (join-snoc m ms last) ∙ simp append_assoc

slashes-IsPrefix : (k : ℕ) → IsPrefix (slashes k)
slashes-IsPrefix zero = nothing
slashes-IsPrefix (suc k) = rw (← slashes-snoc k) (slash (slashes k))
  where
    slashes-snoc : (k : ℕ) → slashes k ++ (b'/' ∷ []) ≡ slashes (suc k)
    slashes-snoc zero = refl
    slashes-snoc (suc k) = ap (λ t. b'/' ∷ t) (slashes-snoc k)

-- The name that `vfs_create` gives to the new node.
pub basename-path_to :
    (k : ℕ) (names : List Name) (last : Name)
    → IsSegment last
    → (basename (path_to k names last false)).0 ≡ last
basename-path_to k [] last h =
    rw append-nil (basename-prefix (slashes k) last (slashes-IsPrefix k) h)
basename-path_to k (n ∷ ns) last h =
    ap (λ t. (basename t).0) (rw (append-nil, join-snoc n ns last) (simp append_assoc))
    ∙ basename-prefix ((slashes k ++ join n ns) ++ (b'/' ∷ [])) last
        (slash (slashes k ++ join n ns)) h
