-- ===== src/Vector/Element.antt =====
-- A vector of lib/vector.c in memory, and what a caller of it relies on.
use flan.Base.{
  ℕ, ◌+◌, ◌-◌, ◌*◌, ◌^◌, ◌≤◌, ◌<◌, ◌≡◌, ◌≢◌, ◌⊎◌, inl, inr, refl, false, Outcome, ok, ◌>>=◌,
  Returns, Bool-cases, arith, ltb, ◌==◌, if◌then◌else◌,
}
use flan.Base.Words.{mul64, add64, sub64}
use native.Mathlib.Nat.{mod-eq_of_lt, mul_comm}
use flan.Mem.{Memory}
use flan.Vector.{Vector, grow}

-- An item that comes earlier ends before a later one.
pub item-le : (size i n : ℕ) → i < n → i * size + size ≤ n * size
item-le size i n low = grind arith

-- The lock is free, the items lie in the allocated bytes, and one more would not wrap.
pub record IsVector (v : Vector) : Type 0 where
  pub free : v.lock ≡ 0
  pub some_size : 0 < v.item_size
  pub fits : v.items * v.item_size ≤ v.capacity
  pub small : v.items * v.item_size + v.item_size < 2 ^ 63
  pub some_data : v.capacity ≢ 0 → v.data' ≢ 0

-- The `size` bytes at `source` lie outside of the `n` bytes at `data'`.
abbrev pub Outside : ℕ → ℕ → ℕ → ℕ → Type 0
Outside source size data' n = (source + size ≤ data') ⊎ (data' + n ≤ source)

-- What `kheap_realloc` promises for the `capacity` bytes at `data'`: a block with the same bytes,
-- apart from the caller's `size` bytes at `source`, which it does not change.
abbrev pub Moves : (ℕ → ℕ → Memory → Outcome (ℕ × Memory)) → Vector → ℕ → ℕ → Memory → Type 0
Moves realloc v source new_size m = Returns (realloc v.data' new_size m) λ (ptr, m').
    (ptr ≢ 0)
    × ((i : ℕ) → i < v.capacity → m' (ptr + i) ≡ m (v.data' + i))
    × ((b : ℕ) → b < v.item_size → m' (source + b) ≡ m (source + b))
    × Outside source v.item_size ptr new_size

-- The vector with room for `new_size` bytes, and the same items.
pub record Ready (v : Vector) (source new_size : ℕ) (m : Memory) (v2 : Vector) (m2 : Memory)
    : Type 0 where
  pub items_kept : v2.items ≡ v.items
  pub size_kept : v2.item_size ≡ v.item_size
  pub lock_kept : v2.lock ≡ v.lock
  pub some_data : v2.data' ≢ 0
  pub room : new_size ≤ v2.capacity
  pub bytes : (i : ℕ) → i < v.items * v.item_size → m2 (v2.data' + i) ≡ m (v.data' + i)
  pub source_kept : (b : ℕ) → b < v.item_size → m2 (source + b) ≡ m (source + b)
  pub outside : Outside source v.item_size v2.data' new_size

pub grow-Ready :
    (realloc : ℕ → ℕ → Memory → Outcome (ℕ × Memory)) (v : Vector) (source new_size : ℕ)
    (m : Memory)
    → v.items * v.item_size ≤ v.capacity
    → 0 < new_size
    → (v.capacity ≢ 0 → v.data' ≢ 0)
    → Outside source v.item_size v.data' new_size
    → Moves realloc v source new_size m
    → Returns
        (if ltb v.capacity new_size then grow realloc new_size v m else ok (v, m))
        λ (v2, m2). Ready v source new_size m v2 m2
unfolding grow
grow-Ready realloc v source new_size m fits some_size some_data outside
      ((ptr, m'), run, (some_ptr, moved, kept, apart)) =
    elim (Bool-cases (ltb v.capacity new_size)) [
      | inr enough ↦ rw enough (
        _,
        refl,
        record {
          items_kept = refl;
          size_kept = refl;
          lock_kept = refl;
          some_data = some_data (ground arith);
          room = ground arith;
          bytes = λ i low. refl;
          source_kept = λ b low. refl;
          outside = outside;
        },
      )
      | inl short ↦
          let test : (ptr == 0) ≡ false = ground (arith, some_ptr) in
          rw (short, run, ◌>>=◌, test)
            (
              _,
              refl,
              record {
                items_kept = refl;
                size_kept = refl;
                lock_kept = refl;
                some_data = some_ptr;
                room = omega arith;
                bytes = λ i low. moved i (omega (arith, fits));
                source_kept = kept;
                outside = apart;
              },
            )
    ]

-- The products of 64 bits that the functions compute for an item `i` do not wrap.
pub record Place (v : Vector) (i : ℕ) : Type 0 where
  pub ends : i * v.item_size + v.item_size ≤ v.items * v.item_size
  pub few : v.items ≤ v.items * v.item_size
  pub next : add64 i 1 ≡ i + 1
  pub start : mul64 i v.item_size ≡ i * v.item_size
  pub end : mul64 (i + 1) v.item_size ≡ i * v.item_size + v.item_size
  pub all : mul64 v.item_size v.items ≡ v.items * v.item_size
  pub size : mul64 v.items v.item_size ≡ v.items * v.item_size
  pub left :
      sub64 (v.items * v.item_size) (i * v.item_size) ≡ v.items * v.item_size - i * v.item_size

pub Place-of : (v : Vector) (i : ℕ) → IsVector v → i < v.items → Place v i
Place-of v i valid low =
    let ends = item-le v.item_size i v.items low in
    let few : v.items ≤ v.items * v.item_size = grind (arith, valid.some_size) in
    let after : (i + 1) * v.item_size ≡ i * v.item_size + v.item_size = grind arith in
    record {
      ends = ends;
      few = few;
      next = mod-eq_of_lt (omega (arith, few, valid.small));
      start = mod-eq_of_lt (omega (arith, valid.small, ends));
      end = rw after (mod-eq_of_lt (omega (arith, valid.small, ends)));
      all = rw (mul_comm v.item_size v.items) (mod-eq_of_lt (omega (arith, valid.small)));
      size = mod-eq_of_lt (omega (arith, valid.small));
      left = omega (arith, ends, valid.small);
    }
