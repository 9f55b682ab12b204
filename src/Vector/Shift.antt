-- ===== src/Vector/Shift.antt =====
-- `vector_remove` and `vector_insert` of lib/vector.c, which move the items behind a place.
use flan.Base.{
  ℕ, ◌+◌, ◌-◌, ◌*◌, ◌%◌, ◌≤◌, ◌<◌, ◌≡◌, ◌≢◌, ◌⊎◌, inl, inr, ◌∙◌, refl, Outcome, ◌>>=◌, Returns,
  Returns-bind, arith, ltb, lt→ltb, if◌then◌else◌,
}
use flan.Base.Words.{add64}
use native.Mathlib.Nat.{mod-eq_of_lt, mod-lt}
use flan.Lock.Spin.{acquire-free, release-acquired}
use flan.Mem.{Memory}
use flan.Mem.Copy.{
  memcpy-copied, memcpy-repeated, copied-inside, copied-outside, repeated-inside, repeated-outside,
}
use flan.Vector.{Vector, vector_remove, vector_insert}
use flan.Vector.Element.{IsVector, Outside, Moves, grow-Ready, Place-of}

-- `vector_remove` of an item in a well-formed vector returns one with an item less. A byte before
-- the item is as before, and behind it each byte is the one that stood an item further on.
pub vector_remove-bytes :
    (v : Vector) (m : Memory) (i j : ℕ)
    → IsVector v
    → i < v.items
    → j < v.items * v.item_size - v.item_size
    → Returns (vector_remove v i m) λ (v', m').
      (v'.items + 1 ≡ v.items)
      × (v'.data' ≡ v.data')
      × (v'.lock ≡ 0)
      × (m' (v.data' + j)
          ≡ (if ltb j (i * v.item_size) then m (v.data' + j) else m (v.data' + (j + v.item_size))))
unfolding vector_remove
vector_remove-bytes v m i j valid low low' =
    let at : ℕ = i * v.item_size in
    let size : ℕ = v.items * v.item_size in
    let p = Place-of v i valid low in
    let some_data : v.data' ≢ 0 =
      valid.some_data (omega (arith, p.ends, valid.fits, valid.some_size)) in
    rw
      (valid.free, acquire-free, ◌>>=◌, lt→ltb i v.items low, p.next, p.start, p.end, p.all, p.left)
      (Returns-bind
        (memcpy-copied (v.data' + at) (v.data' + (at + v.item_size)) (size - at) m
          (omega (arith, some_data)) (omega (arith, some_data)) (inl (omega arith)))
        λ m' c. rw release-acquired (
          _,
          refl,
          (omega (arith, p.few, valid.small), refl, refl, c (v.data' + j) ∙ ground (arith, p.ends)),
        ))

-- Where the caller's bytes lie with respect to the place, and a byte of them.
around :
    (source s data' at size : ℕ)
    → Outside source s data' (size + s)
    → at + s ≤ size
    → (data' + at ≤ source) ⊎ (source + s ≤ data' + at)
around source s data' at size (inl below) ends = inr (omega arith)
around source s data' at size (inr above) ends = inl (omega arith)

beside :
    (source s data' at size b : ℕ)
    → Outside source s data' (size + s)
    → at + s ≤ size
    → b < s
    → (source + b < data' + at + s) ⊎ (data' + at + s + (size - at) ≤ source + b)
beside source s data' at size b (inl below) ends low = inl (omega arith)
beside source s data' at size b (inr above) ends low = inr (omega arith)

-- Let `kheap_realloc` be as for `vector_push`, and `source` lie outside of the vector. Then
-- `vector_insert` before an item of a well-formed vector, also the first one, returns one with an
-- item more, its lock free and its data not null, but its `memcpy` from the front does not move the
-- items behind the place: each of them becomes a copy of the item that stood there. The new item and
-- those before it are right.
pub vector_insert-bytes :
    (realloc : ℕ → ℕ → Memory → Outcome (ℕ × Memory)) (v : Vector) (source : ℕ) (m : Memory) (i : ℕ)
    → IsVector v
    → source ≢ 0
    → Outside source v.item_size v.data' (v.items * v.item_size + v.item_size)
    → Moves realloc (record v { lock = 1 }) source (v.items * v.item_size + v.item_size) m
    → i < v.items
    → Returns (vector_insert realloc v source i m) λ (v', m').
      (v'.items ≡ v.items + 1)
      × (v'.lock ≡ 0)
      × (v'.data' ≢ 0)
      × ((j : ℕ) → j < i * v.item_size → m' (v'.data' + j) ≡ m (v.data' + j))
      × ((b : ℕ) → b < v.item_size → m' (v'.data' + i * v.item_size + b) ≡ m (source + b))
      × ((k : ℕ)
          → k < v.items * v.item_size - i * v.item_size
          → m' (v'.data' + i * v.item_size + v.item_size + k)
            ≡ m (v.data' + (i * v.item_size + k % v.item_size)))
unfolding vector_insert
vector_insert-bytes realloc v source m i valid some_source outside moves low =
    let at : ℕ = i * v.item_size in
    let size : ℕ = v.items * v.item_size in
    let p = Place-of v i valid low in
    let more : add64 size v.item_size ≡ size + v.item_size =
      mod-eq_of_lt (omega (arith, valid.small)) in
    rw (valid.free, acquire-free, ◌>>=◌, p.size, more)
      (Returns-bind
        (grow-Ready realloc (record v { lock = 1 }) source (size + v.item_size) m valid.fits
          (omega (arith, valid.some_size)) valid.some_data outside moves)
        λ (v2, m2) r.
          let base : v2.data' + (at + v.item_size) ≡ v2.data' + at + v.item_size = omega arith in
          rw
            (
              r.size_kept, r.items_kept, r.lock_kept, p.next, p.start, p.end, p.all, p.left, base,
              release-acquired,
            )
            (Returns-bind
              (memcpy-repeated (v2.data' + at) v.item_size (size - at) m2
                (omega (arith, r.some_data)) valid.some_size)
              λ m3 c3.
                Returns-bind
                  (memcpy-copied (v2.data' + at) source v.item_size m3 (omega (arith, r.some_data))
                    some_source (around source v.item_size v2.data' at size r.outside p.ends))
                  λ m4 c4. (
                    _,
                    refl,
                    (
                      omega (arith, p.few, valid.small),
                      refl,
                      r.some_data,
                      λ j low_j.
                          c4 (v2.data' + j)
                          ∙ copied-outside m3 (v2.data' + at) source v.item_size (v2.data' + j)
                              (inl (omega arith))
                          ∙ c3 (v2.data' + j)
                          ∙ repeated-outside m2 (v2.data' + at) v.item_size (size - at)
                              (v2.data' + j) (inl (omega arith))
                          ∙ r.bytes j (omega (arith, p.ends)),
                      λ b low_b.
                          let s_out =
                            beside source v.item_size v2.data' at size b r.outside p.ends low_b in
                          c4 (v2.data' + at + b)
                          ∙ copied-inside m3 (v2.data' + at) source v.item_size b low_b
                          ∙ c3 (source + b)
                          ∙ repeated-outside m2 (v2.data' + at) v.item_size (size - at) (source + b)
                              s_out
                          ∙ r.source_kept b low_b,
                      λ k low_k.
                          let fold = mod-lt k valid.some_size in
                          let at_k : v2.data' + at + k % v.item_size
                              ≡ v2.data' + (at + k % v.item_size) =
                            omega arith in
                          c4 (v2.data' + at + v.item_size + k)
                          ∙ copied-outside m3 (v2.data' + at) source v.item_size
                              (v2.data' + at + v.item_size + k) (inr (omega arith))
                          ∙ c3 (v2.data' + at + v.item_size + k)
                          ∙ repeated-inside m2 (v2.data' + at) v.item_size (size - at) k low_k
                          ∙ rw at_k (r.bytes (at + k % v.item_size) (omega (arith, fold, p.ends))),
                    ),
                  )))
