-- ===== src/Vector.antt =====
-- lib/vector.c: an array of items of one size that grows by `kheap_realloc`.
pub mod Element
pub mod Push
pub mod Shift
pub mod Locking
mod Tests
use flan.Base.{
  ℕ, ◌+◌, ◌-◌, ◌*◌, ◌/◌, ◌%◌, ◌^◌, true, false, ◌||◌, Outcome, ok, halt, fault, ◌>>=◌, ◌>>◌, ◌==◌,
  ltb, leb, if◌then◌else◌,
}
use flan.Base.Int.{ℤ, pos, negsuc}
use flan.Base.Words.{add64, sub64, mul64}
use flan.Lock.{Spinlock, lock_init, spinlock_acquire, spinlock_release}
use flan.Mem.{Memory, memcpy}

-- `vector_t`; the items stand in memory from `data` on.
pub record Vector : Type 0 where
  pub items : ℕ
  pub item_size : ℕ
  pub capacity : ℕ
  pub lock : Spinlock
  pub data' : ℕ

unfoldable pub vector_create : ℕ → Vector
vector_create item_size = record {
  items = 0;
  item_size = item_size;
  capacity = 0;
  lock = lock_init;
  data' = 0;
}

unfoldable pub vector_size : Vector → ℕ
vector_size v = mul64 v.items v.item_size

abbrev pub acquire : Vector → Outcome Vector
acquire v = spinlock_acquire v.lock >>= (λ l. ok (record v { lock = l }))

abbrev pub release : Vector → Vector
release v = record v { lock = spinlock_release v.lock }

unfoldable pub vector_get_items : Vector → Outcome (ℕ × Vector)
vector_get_items v = do v' ← acquire v; ok (v'.items, release v')

-- Past the end the function returns before it releases the lock.
unfoldable pub vector_get : Vector → ℕ → Outcome (ℕ × Vector)
vector_get v i = do
  v' ← acquire v
  if leb v'.items i then ok (0, v') else ok (v'.data' + mul64 i v'.item_size, release v')

unfoldable pub vector_remove : Vector → ℕ → Memory → Outcome (Vector × Memory)
vector_remove v i m = do
  v' ← acquire v
  m' ←
      if ltb i v'.items
      then memcpy (v'.data' + mul64 i v'.item_size) (v'.data' + mul64 (add64 i 1) v'.item_size)
          (sub64 (mul64 v'.item_size v'.items) (mul64 i v'.item_size)) m
      else ok m
  ok (release (record v' { items = sub64 v'.items 1 }), m')

unfoldable pub vector_pop : Vector → Outcome Vector
vector_pop v = do v' ← acquire v; ok (release (record v' { items = sub64 v'.items 1 }))

unfoldable pub vector_replace : Vector → ℕ → ℕ → Memory → Outcome (ℕ × Vector × Memory)
vector_replace v source i m = do
  (ptr, v1) ← vector_get v i
  v2 ← acquire v1
  m' ← memcpy ptr source v2.item_size m
  ok (ptr, release v2, m')

-- The conversion of a `uint64_t` to `int`.
abbrev pub to_int : ℕ → ℤ
to_int n = if ltb (n % 2 ^ 32) (2 ^ 31) then pos (n % 2 ^ 32) else negsuc (2 ^ 32 - 1 - n % 2 ^ 32)

-- Outside of the items the function returns before it releases the lock.
unfoldable pub vector_get_index : Vector → ℕ → Outcome (ℤ × Vector)
vector_get_index v ptr = do
  v' ← acquire v
  if ltb (v'.data' + mul64 v'.item_size v'.items) ptr || ltb ptr v'.data'
      then ok (negsuc 0, v')
      else if v'.item_size == 0
      then fault
      else ok (to_int ((ptr - v'.data') / v'.item_size), release v')

-- The heap's function, from memory/kheap.c: the new address and the memory after the call.
module _ (kheap_realloc : ℕ → ℕ → Memory → Outcome (ℕ × Memory)) where
  -- `ptr = kheap_realloc(...); assert(ptr); vector->data = ptr; vector->capacity = new_size`
  unfoldable pub grow : ℕ → Vector → Memory → Outcome (Vector × Memory)
  grow new_size v m = do
    (ptr, m') ← kheap_realloc v.data' new_size m
    if ptr == 0 then halt else ok (record v { data' = ptr; capacity = new_size }, m')

  unfoldable pub vector_push : Vector → ℕ → Memory → Outcome (Vector × Memory)
  vector_push v source m = do
    v1 ← acquire v
    let size = mul64 v1.items v1.item_size
    let new_size = add64 size v1.item_size
    (v2, m2) ← if ltb v1.capacity new_size then grow new_size v1 m else ok (v1, m)
    m3 ← memcpy (v2.data' + size) source v2.item_size m2
    ok (release (record v2 { items = add64 v2.items 1 }), m3)

  unfoldable pub vector_insert : Vector → ℕ → ℕ → Memory → Outcome (Vector × Memory)
  vector_insert v source i m = do
    v1 ← acquire v
    let size = mul64 v1.items v1.item_size
    let new_size = add64 size v1.item_size
    (v2, m2) ← if ltb v1.capacity new_size then grow new_size v1 m else ok (v1, m)
    m3 ←
        memcpy (v2.data' + mul64 (add64 i 1) v2.item_size) (v2.data' + mul64 i v2.item_size)
          (sub64 (mul64 v2.item_size v2.items) (mul64 i v2.item_size)) m2
    m4 ← memcpy (v2.data' + mul64 i v2.item_size) source v2.item_size m3
    ok (release (record v2 { items = add64 v2.items 1 }), m4)

  unfoldable pub vector_reserve : Vector → ℕ → Memory → Outcome (Vector × Memory)
  vector_reserve v new_cap m = do
    v1 ← acquire v
    let new_size = mul64 new_cap v1.item_size
    (v2, m2) ← if ltb v1.capacity new_size then grow new_size v1 m else ok (v1, m)
    ok (release v2, m2)

  unfoldable pub vector_resize : Vector → ℕ → Memory → Outcome (Vector × Memory)
  vector_resize v items m = do
    v1 ← acquire v
    let new_size = mul64 items v1.item_size
    (v2, m2) ← if ltb v1.capacity new_size then grow new_size v1 m else ok (v1, m)
    ok (release (record v2 { items = items }), m2)
