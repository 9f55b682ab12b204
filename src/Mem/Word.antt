-- ===== src/Mem/Word.antt =====
-- Words of several bytes in memory, the lowest byte first.
use flan.Base.{
  ℕ, zero, suc, ◌+◌, ◌*◌, ◌/◌, ◌%◌, ◌^◌, ◌≤◌, ◌<◌, ◌≡◌, ◌⊎◌, inl, inr, ◌∙◌, refl, arith,
}
use native.Mathlib.Nat.{pow-suc, pow-zero, div-lt_iff_lt-mul}
use flan.Mem.{Memory, store}

unfoldable pub load_bytes : ℕ → ℕ → Memory → ℕ
load_bytes zero a m = 0
load_bytes (suc n) a m = m a + load_bytes n (a + 1) m * 256

unfoldable pub store_bytes : ℕ → ℕ → ℕ → Memory → Memory
store_bytes zero a v m = m
store_bytes (suc n) a v m = store_bytes n (a + 1) (v / 256) (store m a (v % 256))

-- A `uint64_t` at an address.
unfoldable pub load64 : ℕ → Memory → ℕ
load64 a m = load_bytes 8 a m

unfoldable pub store64 : ℕ → ℕ → Memory → Memory
store64 a v m = store_bytes 8 a v m

store_bytes-below : (n a v : ℕ) (m : Memory) (b : ℕ) → b < a → store_bytes n a v m b ≡ m b
unfolding store_bytes
store_bytes-below zero a v m b low = refl
store_bytes-below (suc n) a v m b low =
    ground (arith, store_bytes-below n (a + 1) (v / 256) (store m a (v % 256)) b)

store_bytes-above : (n a v : ℕ) (m : Memory) (b : ℕ) → a + n ≤ b → store_bytes n a v m b ≡ m b
unfolding store_bytes
store_bytes-above zero a v m b high = refl
store_bytes-above (suc n) a v m b high =
    ground (arith, store_bytes-above n (a + 1) (v / 256) (store m a (v % 256)) b)

load_bytes-same :
    (n a : ℕ) (m m' : Memory)
    → ((b : ℕ) → a ≤ b → b < a + n → m' b ≡ m b)
    → load_bytes n a m' ≡ load_bytes n a m
unfolding load_bytes
load_bytes-same zero a m m' same = refl
load_bytes-same (suc n) a m m' same =
    rw
      (
        same a (omega arith) (omega arith),
        load_bytes-same n (a + 1) m m' (λ b p q. same b (omega arith) (omega arith)),
      )
      refl

load_bytes-store_bytes :
    (n a v : ℕ) (m : Memory) → v < 256 ^ n → load_bytes n a (store_bytes n a v m) ≡ v
unfolding load_bytes store_bytes
load_bytes-store_bytes zero a v m low = omega (arith, pow-zero 256)
load_bytes-store_bytes (suc n) a v m low =
    let rest =
      load_bytes-store_bytes n (a + 1) (v / 256) (store m a (v % 256))
        ((div-lt_iff_lt-mul (omega arith)).1 (rw (← pow-suc 256 n) low)) in
    rw (rest, store_bytes-below n (a + 1) (v / 256) (store m a (v % 256)) a (omega arith))
      (ground arith)

-- What was stored is loaded, and a store elsewhere does not change a word.
pub load64-store64 : (a v : ℕ) (m : Memory) → v < 2 ^ 64 → load64 a (store64 a v m) ≡ v
unfolding load64 store64
load64-store64 a v m low = load_bytes-store_bytes 8 a v m low

pub load64-store64_apart :
    (a b v : ℕ) (m : Memory) → (a + 8 ≤ b) ⊎ (b + 8 ≤ a) → load64 a (store64 b v m) ≡ load64 a m
unfolding load64 store64
load64-store64_apart a b v m (inl below) =
    load_bytes-same 8 a m (store_bytes 8 b v m) (λ c p q. store_bytes-below 8 b v m c (omega arith))
load64-store64_apart a b v m (inr above) =
    load_bytes-same 8 a m (store_bytes 8 b v m) (λ c p q. store_bytes-above 8 b v m c (omega arith))

-- A word whose bytes are the same is the same.
pub load64-same :
    (a : ℕ) (m m' : Memory) → ((b : ℕ) → a ≤ b → b < a + 8 → m' b ≡ m b) → load64 a m' ≡ load64 a m
unfolding load64
load64-same a m m' same = load_bytes-same 8 a m m' same

load64-blank : (a : ℕ) → load64 a (λ _. 0) ≡ 0
unfolding load64 load_bytes
load64-blank a = refl

pub load64-zero : (a : ℕ) (m : Memory) → ((b : ℕ) → a ≤ b → b < a + 8 → m b ≡ 0) → load64 a m ≡ 0
load64-zero a m zeros = load64-same a (λ _. 0) m zeros ∙ load64-blank a

-- The bytes beside a word that is stored.
pub store64_outside : (a v : ℕ) (m : Memory) (b : ℕ) → (b < a) ⊎ (a + 8 ≤ b) → store64 a v m b ≡ m b
unfolding store64
store64_outside a v m b (inl below) = store_bytes-below 8 a v m b below
store64_outside a v m b (inr above) = store_bytes-above 8 a v m b above
