-- ===== src/Pmm/Bitmap.antt =====
-- The bitmap of memory/pmm.c as a set of used frames, and the bit macros on it.
use flan.Base.{
  ℕ, ◌*◌, ◌/◌, ◌%◌, ◌<◌, ◌≡◌, refl, inl, inr, Bool, true, false, List, ok, Returns, arith, ◌==◌,
  ==_iff, ltb, lt→ltb, replicate, get_or-replicate, Bool-cases, if◌then◌else◌, length, get_or, set,
  length-set, get_or-set_self, get_or-set_ne,
}
use flan.Pmm.{byte_test, bit_set, bit_clear, bit_test}
use flan.Pmm.Byte.{
  byte_set-lt, byte_clear-lt, byte_test-set, byte_test-clear, byte_test-lt, byte_test-ones,
}

-- The bit of a frame is 1: it is not free.
unfoldable pub used : List ℕ → ℕ → Bool
used m f = byte_test (get_or m (f / 8) 0) (f % 8) == 1

abbrev pub IsBytes : List ℕ → Type 0
IsBytes m = (i : ℕ) → get_or m i 0 < 256

-- `m'` comes from `m` by writes of bits, and reads as `view`.
pub record Reads (m : List ℕ) (view : ℕ → Bool) (m' : List ℕ) : Type 0 where
  pub size : length m' ≡ length m
  pub bytes : IsBytes m'
  pub reads : (f : ℕ) → used m' f ≡ view f

abbrev pub put : (ℕ → Bool) → ℕ → Bool → ℕ → Bool
put view f b g = if f == g then b else view g

module _ (m : List ℕ) (bytes : IsBytes m) (f : ℕ) (inside : f / 8 < length m) where
  write_byte :
      (b : ℕ) (v : Bool)
      → b < 256
      → ((j : ℕ)
          → j < 8
          → byte_test b j
            ≡ (if f % 8 == j then (if v then 1 else 0) else byte_test (get_or m (f / 8) 0) j))
      → Reads m (put (used m) f v) (set m (f / 8) b)
  unfolding used
  write_byte b v small law = record {
    size = length-set m (f / 8) b;
    bytes = λ i. elim (Bool-cases (f / 8 == i)) [
      | inl here ↦ rw (← (==_iff (f / 8) i).0 here, get_or-set_self m (f / 8) b 0 inside) small
      | inr other ↦ rw (get_or-set_ne m (f / 8) i b 0 (ground arith)) (bytes i)
    ];
    reads = λ g. elim (Bool-cases (f / 8 == g / 8)) [
      | inl here ↦
          let e : g / 8 ≡ f / 8 = ground arith in
          rw (e, get_or-set_self m (f / 8) b 0 inside) (ground (arith, law (g % 8) (omega arith)))
      | inr other ↦ rw (get_or-set_ne m (f / 8) (g / 8) b 0 (ground arith)) (ground arith)
    ];
  }

  pub bit_test-used : bit_test m f ≡ ok (if used m f then 1 else 0)
  unfolding bit_test used
  bit_test-used = ground (
    arith,
    byte_test-lt (get_or m (f / 8) 0) 0 (f % 8) (bytes (f / 8)) (omega arith) (omega arith),
  )

  pub bit_set-Reads : Returns (bit_set m f) (Reads m (put (used m) f true))
  unfolding bit_set
  bit_set-Reads = (
    _,
    rw (lt→ltb _ _ inside) refl,
    write_byte _ true (byte_set-lt _ (f % 8) 0 (bytes (f / 8)) (omega arith) (omega arith))
        (λ j h. byte_test-set _ (f % 8) j (bytes (f / 8)) (omega arith) h),
  )

  pub bit_clear-Reads : Returns (bit_clear m f) (Reads m (put (used m) f false))
  unfolding bit_clear
  bit_clear-Reads = (
    _,
    rw (lt→ltb _ _ inside) refl,
    write_byte _ false (byte_clear-lt _ (f % 8) 0 (bytes (f / 8)) (omega arith) (omega arith))
        (λ j h. byte_test-clear _ (f % 8) j (bytes (f / 8)) (omega arith) h),
  )

-- A bitmap of bytes 0xff: every frame is used.
pub ones-IsBytes : (n : ℕ) → IsBytes (replicate n 0xff)
ones-IsBytes n i = ground (arith, get_or-replicate {A = ℕ} n i 0xff 0)

pub used-ones : (n f : ℕ) → f < 8 * n → used (replicate n 0xff) f ≡ true
unfolding used
used-ones n f low =
    let inside : ltb (f / 8) n ≡ true = ground arith in
    rw (get_or-replicate {A = ℕ} n (f / 8) 0xff 0, inside, byte_test-ones (f % 8) (omega arith))
      refl
