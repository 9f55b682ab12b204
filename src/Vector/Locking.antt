-- ===== src/Vector/Locking.antt =====
-- The lock of a vector of lib/vector.c after a lookup outside of it.
use flan.Base.{
  ℕ, ◌+◌, ◌*◌, ◌≤◌, ◌<◌, ◌≡◌, refl, ◌⊎◌, inl, inr, Bool-cases, Outcome, ok, halt, ◌>>=◌, arith, leb,
}
use flan.Lock.Spin.{acquire-free, acquire-held, release-acquired}
use flan.Mem.{Memory}
use flan.Vector.Element.{IsVector, Place-of}
use flan.Vector.{Vector, vector_get, vector_get_items, vector_push, vector_pop}

-- In a well-formed vector `vector_get` returns the address of an item and leaves the lock free; but
-- past the end it returns `NULL` with the lock held, and then `vector_get` of the same index,
-- `vector_get_items`, `vector_pop` and `vector_push` each halt in the deadlock check of
-- `spinlock_acquire`.
pub vector_get-Locks :
    (realloc : ℕ → ℕ → Memory → Outcome (ℕ × Memory)) (v : Vector) (i source : ℕ) (m : Memory)
    → IsVector v
    → ((i < v.items) × (vector_get v i ≡ ok (v.data' + i * v.item_size, record v { lock = 0 })))
      ⊎ ((v.items ≤ i)
          × ((v' : Vector) × (vector_get v i ≡ ok (0, v'))
              × (vector_get v' i ≡ halt)
              × (vector_get_items v' ≡ halt)
              × (vector_pop v' ≡ halt)
              × (vector_push realloc v' source m ≡ halt)))
unfolding vector_get vector_get_items vector_pop vector_push
vector_get-Locks realloc v i source m valid =
    let held = acquire-held 1 (omega arith) in
    elim (Bool-cases (leb v.items i)) [
      | inr inside ↦
          let low : i < v.items = ground arith in
          inl (
            low,
            rw
                (
                  valid.free,
                  acquire-free,
                  ◌>>=◌,
                  inside,
                  release-acquired,
                  (Place-of v i valid low).start,
                )
                refl,
          )
      | inl past ↦ inr (
        ground arith,
        (
          record v { lock = 1 },
          rw (valid.free, acquire-free, ◌>>=◌, past) refl,
          rw held refl,
          rw held refl,
          rw held refl,
          rw held refl,
        ),
      )
    ]
