-- ===== src/Mem/Fill.antt =====
-- What `memset` of lib/str.c writes.
use flan.Base.{
  ℕ, zero, suc, ◌+◌, ◌≡◌, ◌≢◌, refl, false, ◌&&◌, Returns, arith, leb, ltb, ◌==◌, if◌then◌else◌,
  ◌<◌, ◌⊎◌, ◌≤◌, inl, inr,
}
use flan.Base.Words.{u8}
use flan.Mem.{Memory, store, memset_from, memset}

-- The bytes from `lo` up to and without `hi` are `n`, and the others as before.
abbrev pub filled : Memory → ℕ → ℕ → ℕ → Memory
filled m lo hi n a = if leb lo a && ltb a hi then n else m a

memset_from-filled :
    (k i ptr n : ℕ) (m : Memory) (a : ℕ)
    → memset_from k i ptr n m a ≡ filled m (ptr + i) (ptr + (i + k)) (u8 n) a
unfolding memset_from
memset_from-filled zero i ptr n m a = ground arith
memset_from-filled (suc k) i ptr n m a =
    ground (arith, memset_from-filled k (i + 1) ptr n (store m (ptr + i) (u8 n)) a)

-- `memset` to an address that is not `NULL` returns; the `size` bytes from there on are then the
-- value, cut to a byte, and no other byte has changed.
pub memset-filled :
    (ptr n size : ℕ) (m : Memory)
    → ptr ≢ 0
    → Returns (memset ptr n size m) λ m'. (a : ℕ) → m' a ≡ filled m ptr (ptr + size) (u8 n) a
unfolding memset
memset-filled ptr n size m some_ptr =
    let e : (ptr == 0) ≡ false = ground arith in
    (
      memset_from size 0 ptr n m,
      rw e refl,
      λ a. ground (arith, memset_from-filled size 0 ptr n m a),
    )

pub filled-outside : (m : Memory) (lo hi v a : ℕ) → (a < lo) ⊎ (hi ≤ a) → filled m lo hi v a ≡ m a
filled-outside m lo hi v a (inl below) = ground arith
filled-outside m lo hi v a (inr above) = ground arith
