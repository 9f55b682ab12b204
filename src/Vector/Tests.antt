-- ===== src/Vector/Tests.antt =====
-- lib/vector.c at a vector of three items of two bytes, in a block of six.
use flan.Base.{
  ℕ, ◌+◌, ◌-◌, ◌*◌, ◌%◌, ◌<◌, ◌≤◌, ◌≡◌, ◌⊎◌, ◌≢◌, ◌∙◌, ◌>>=◌, ◌==◌, [], ◌∷◌, refl, inl, inr,
  Outcome, ok, halt, Returns, arith, if◌then◌else◌,
}
use flan.Kheap.{Kheap, first_fit, take_block, kheap_alloc, kheap_realloc}
use flan.Lock.Spin.{acquire-free}
use flan.Mem.{Memory}
use flan.Mem.Copy.{memcpy-copied, copied-inside, copied-outside}
use flan.Vector.{Vector, vector_get, vector_get_items, vector_pop, vector_push, vector_insert}
use flan.Vector.Element.{IsVector, Moves}
use flan.Vector.Push.{vector_push-bytes}
use flan.Vector.Shift.{vector_insert-bytes}
use flan.Vector.Locking.{vector_get-Locks}

abbrev ramp : Memory
ramp a = a

abbrev three : Vector
three = record { items = 3; item_size = 2; capacity = 6; lock = 0; data' = 100 }

three-IsVector : IsVector three
three-IsVector = record {
  free = refl;
  some_size = omega arith;
  fits = omega arith;
  small = omega arith;
  some_data = λ _. omega arith;
}

-- The kernel's heap with the vector's block of 6 bytes and a free block of 100 bytes.
abbrev heap : Kheap
heap = record {
  free_list = 2000 ∷ [];
  size = λ block. if block == 76 then 6 else 100;
  kheap_lock = 0;
  pmm = record { bitmap = []; limit = 0; pmm_lock = 0 };
}

abbrev realloc : ℕ → ℕ → Memory → Outcome (ℕ × Memory)
realloc ptr size m = kheap_realloc 4096 1 ptr size heap m >>= (λ (new, h, m'). ok (new, m'))

realloc-Moves : Moves realloc (record three { lock = 1 }) 40 8 ramp
unfolding kheap_realloc kheap_alloc first_fit take_block
realloc-Moves =
    let (m', run, c) =
      memcpy-copied 2024 100 6 ramp (omega arith) (omega arith) (inr (omega arith)) in
    (
      (2024, m'),
      rw (acquire-free, run) refl,
      (
        omega arith,
        λ i low. c (2024 + i) ∙ copied-inside ramp 2024 100 6 i low,
        λ b low. c (40 + b) ∙ copied-outside ramp 2024 100 6 (40 + b) (inl (omega arith)),
        inl (omega arith),
      ),
    )

vector_push-bytes_example : Returns (vector_push realloc three 40 ramp) λ (v', m').
    (v'.items ≡ 3 + 1)
    × (v'.item_size ≡ 2)
    × (v'.lock ≡ 0)
    × (3 * 2 + 2 ≤ v'.capacity)
    × (v'.data' ≢ 0)
    × ((i : ℕ) → i < 3 * 2 → m' (v'.data' + i) ≡ ramp (100 + i))
    × ((b : ℕ) → b < 2 → m' (v'.data' + 3 * 2 + b) ≡ ramp (40 + b))
vector_push-bytes_example =
    vector_push-bytes realloc three 40 ramp three-IsVector (omega arith) (inl (omega arith))
      realloc-Moves

vector_insert-bytes_example : Returns (vector_insert realloc three 40 1 ramp) λ (v', m').
    (v'.items ≡ 3 + 1)
    × (v'.lock ≡ 0)
    × (v'.data' ≢ 0)
    × ((j : ℕ) → j < 1 * 2 → m' (v'.data' + j) ≡ ramp (100 + j))
    × ((b : ℕ) → b < 2 → m' (v'.data' + 1 * 2 + b) ≡ ramp (40 + b))
    × ((k : ℕ) → k < 3 * 2 - 1 * 2 → m' (v'.data' + 1 * 2 + 2 + k) ≡ ramp (100 + (1 * 2 + k % 2)))
vector_insert-bytes_example =
    vector_insert-bytes realloc three 40 ramp 1 three-IsVector (omega arith) (inl (omega arith))
      realloc-Moves (omega arith)

vector_get-Locks_example :
    ((7 < 3) × (vector_get three 7 ≡ ok (100 + 7 * 2, record three { lock = 0 })))
    ⊎ ((3 ≤ 7)
        × ((v' : Vector) × (vector_get three 7 ≡ ok (0, v'))
            × (vector_get v' 7 ≡ halt)
            × (vector_get_items v' ≡ halt)
            × (vector_pop v' ≡ halt)
            × (vector_push realloc v' 40 ramp ≡ halt)))
vector_get-Locks_example = vector_get-Locks realloc three 7 40 ramp three-IsVector
