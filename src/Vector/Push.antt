-- ===== src/Vector/Push.antt =====
-- `vector_push` of lib/vector.c.
use flan.Base.{
  ℕ, ◌+◌, ◌-◌, ◌*◌, ◌≤◌, ◌<◌, ◌≡◌, ◌≢◌, ◌⊎◌, inl, inr, ◌∙◌, refl, Outcome, ◌>>=◌, Returns,
  Returns-bind, arith,
}
use flan.Base.Words.{mul64, add64}
use native.Mathlib.Nat.{mod-eq_of_lt}
use flan.Lock.Spin.{acquire-free, release-acquired}
use flan.Mem.{Memory}
use flan.Mem.Copy.{memcpy-copied}
use flan.Vector.{Vector, vector_push}
use flan.Vector.Element.{IsVector, Outside, Moves, grow-Ready}

pub Outside-end :
    (source size data' n : ℕ)
    → Outside source size data' (n + size)
    → (data' + n ≤ source) ⊎ (source + size ≤ data' + n)
Outside-end source size data' n (inl below) = inr (omega arith)
Outside-end source size data' n (inr above) = inl (omega arith)

drop_base : (a b : ℕ) → a + b - a ≡ b
drop_base a b = omega arith

-- Let `kheap_realloc`, where the vector must grow, move its bytes to a block of the new size that
-- does not meet the one at `source`. Then `vector_push` on a well-formed vector, also an empty one,
-- returns one with one more item, its lock free and its data not null, with capacity for its items.
-- The old items have their bytes, also where they were moved, and the new one has those at `source`,
-- which lies outside of the vector.
pub vector_push-bytes :
    (realloc : ℕ → ℕ → Memory → Outcome (ℕ × Memory)) (v : Vector) (source : ℕ) (m : Memory)
    → IsVector v
    → source ≢ 0
    → Outside source v.item_size v.data' (v.items * v.item_size + v.item_size)
    → Moves realloc (record v { lock = 1 }) source (v.items * v.item_size + v.item_size) m
    → Returns (vector_push realloc v source m) λ (v', m').
      (v'.items ≡ v.items + 1)
      × (v'.item_size ≡ v.item_size)
      × (v'.lock ≡ 0)
      × (v.items * v.item_size + v.item_size ≤ v'.capacity)
      × (v'.data' ≢ 0)
      × ((i : ℕ) → i < v.items * v.item_size → m' (v'.data' + i) ≡ m (v.data' + i))
      × ((b : ℕ) → b < v.item_size → m' (v'.data' + v.items * v.item_size + b) ≡ m (source + b))
unfolding vector_push
vector_push-bytes realloc v source m valid some_source outside moves =
    let size : ℕ = v.items * v.item_size in
    let exact : mul64 v.items v.item_size ≡ size = mod-eq_of_lt (omega (arith, valid.small)) in
    let exact' : add64 size v.item_size ≡ size + v.item_size =
      mod-eq_of_lt (omega (arith, valid.small)) in
    let few : v.items ≤ size = grind (arith, valid.some_size) in
    rw (valid.free, acquire-free, ◌>>=◌, exact, exact')
      (Returns-bind
        (grow-Ready realloc (record v { lock = 1 }) source (size + v.item_size) m valid.fits
          (omega (arith, valid.some_size)) valid.some_data outside moves)
        λ (v2, m2) r.
          rw (r.size_kept, r.items_kept, r.lock_kept, release-acquired)
            (Returns-bind
              (memcpy-copied (v2.data' + size) source v.item_size m2 (omega (arith, r.some_data))
                some_source (Outside-end source v.item_size v2.data' size r.outside))
              λ m3 c. (
                _,
                refl,
                (
                  omega (arith, few, valid.small),
                  refl,
                  refl,
                  r.room,
                  r.some_data,
                  λ i low. c (v2.data' + i) ∙ ground (arith, r.bytes i low),
                  λ b low'.
                      c (v2.data' + size + b)
                      ∙ rw (drop_base (v2.data' + size) b) (ground (arith, r.source_kept b low')),
                ),
              )))
