-- ===== src/Syscalls/Slots.antt =====
-- The vector of open files of sys/syscalls/syscalls.c.
use native.Mathlib.Nat.{mul-div_cancel, mul_comm}
use flan.Base.{
  ℕ, ◌+◌, ◌-◌, ◌*◌, ◌/◌, ◌%◌, ◌^◌, ◌≤◌, ◌<◌, ◌≡◌, ◌≢◌, refl, true, false, ◌||◌, ok, ◌>>=◌, arith,
  ◌==◌, ltb,
}
use flan.Base.Int.{pos}
use flan.Base.Words.{mul64}
use flan.Lock.Spin.{acquire-free, release-acquired}
use flan.Vector.{Vector, vector_get_index}
use flan.Vfs.{Vfs, put_node}
use flan.Syscalls.{Process, replace_node}
use flan.Syscalls.Reading.{slot_of, vector_get-inside}

-- The vector of descriptors as `sched_process` makes it, with a place for the next one.
pub record HasRoom (p : Process) : Type 0 where
  pub free : p.fildes.lock ≡ 0
  pub room : p.current_filde < p.fildes.items
  pub few : p.fildes.items < 2 ^ 31
  pub some_size : 0 < p.fildes.item_size
  pub some_data : p.fildes.data' ≢ 0
  pub fits : p.fildes.data' + p.fildes.items * p.fildes.item_size < 2 ^ 64

pub vector_get_index-inside :
    (v : Vector) (i : ℕ)
    → v.lock ≡ 0
    → i < v.items
    → v.items < 2 ^ 31
    → 0 < v.item_size
    → v.data' + v.items * v.item_size < 2 ^ 64
    → vector_get_index v (v.data' + mul64 i v.item_size) ≡ ok (pos i, v)
unfolding vector_get_index
vector_get_index-inside v i free low few some_size fits =
    let size = v.item_size in
    let product : i * size + size ≤ v.items * size = grind arith in
    let at : mul64 i size ≡ i * size = omega (arith, product, fits) in
    let whole : mul64 size v.items ≡ v.items * size = omega (arith, mul_comm size v.items, fits) in
    let inside : (ltb (v.data' + v.items * size) (v.data' + i * size)
          || ltb (v.data' + i * size) v.data')
        ≡ false =
      ground (arith, product) in
    let some_items : (size == 0) ≡ false = ground arith in
    let offset : v.data' + i * size - v.data' ≡ i * size = omega arith in
    let quotient : i * size / size ≡ i = mul-div_cancel i some_size in
    let word : i % 2 ^ 32 ≡ i = omega arith in
    let positive : ltb i (2 ^ 31) ≡ true = ground arith in
    rw
      (
        free, acquire-free, ◌>>=◌, at, whole, inside, some_items, offset, quotient, word, positive,
        release-acquired,
      )
      refl

pub replace_node-room :
    (p : Process) (node : ℕ) (v : Vfs)
    → HasRoom p
    → replace_node p.fildes node p.current_filde v
      ≡ ok (
        slot_of p p.current_filde,
        p.fildes,
        put_node (slot_of p p.current_filde) (v.nodes node) v,
      )
unfolding replace_node
replace_node-room p node v h =
    let some_slot : (slot_of p p.current_filde == 0) ≡ false = ground (arith, h.some_data) in
    rw
      (
        vector_get-inside p.fildes p.current_filde h.free h.room,
        ◌>>=◌,
        h.free,
        acquire-free,
        some_slot,
        release-acquired,
      )
      refl
