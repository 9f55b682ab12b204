-- ===== src/Mem/Copy.antt =====
-- What `memcpy` of lib/str.c writes. It copies from the lowest byte up.
use flan.Base.{
  ℕ, zero, suc, ◌+◌, ◌-◌, ◌<◌, ◌≤◌, ◌≡◌, ◌≢◌, ◌⊎◌, inl, inr, Bool-cases, leb→le, ◌∙◌, ap, ◌%◌, refl,
  false, ◌&&◌, Returns, arith, leb, ltb, ◌==◌, if◌then◌else◌,
}
use native.Mathlib.Nat.{mod-eq-sub-mod, mod-eq_of_lt, zero-add}
use flan.Mem.{Memory, store, memcpy_from, memcpy}

-- The bytes from `dest` on are those from `src` on in `m`.
abbrev pub copied : Memory → ℕ → ℕ → ℕ → Memory
copied m dest src n a = if leb dest a && ltb a (dest + n) then m (src + (a - dest)) else m a

memcpy_from-copied :
    (k i dest src : ℕ) (m : Memory) (a : ℕ)
    → (dest ≤ src) ⊎ (src + (i + k) ≤ dest)
    → memcpy_from k i dest src m a ≡ copied m (dest + i) (src + i) k a
unfolding memcpy_from
memcpy_from-copied zero i dest src m a apart = ground arith
memcpy_from-copied (suc k) i dest src m a apart =
    ground (arith, memcpy_from-copied k (i + 1) dest src (store m (dest + i) (m (src + i))) a)

-- `memcpy` between addresses that are not `NULL` returns. If the destination starts at or below
-- the source, or the source ends at or below the destination, the `n` bytes there are then those
-- that the source held, and no other byte has changed.
pub memcpy-copied :
    (dest src n : ℕ) (m : Memory)
    → dest ≢ 0
    → src ≢ 0
    → (dest ≤ src) ⊎ (src + n ≤ dest)
    → Returns (memcpy dest src n m) λ m'. (a : ℕ) → m' a ≡ copied m dest src n a
unfolding memcpy
memcpy-copied dest src n m some_dest some_src apart =
    let d : (dest == 0) ≡ false = ground arith in
    let s : (src == 0) ≡ false = ground arith in
    (
      memcpy_from n 0 dest src m,
      rw (s, d) refl,
      λ a. ground (arith, memcpy_from-copied n 0 dest src m a),
    )

-- The bytes from `src + gap` on repeat the `gap` bytes from `src` on.
abbrev pub repeated : Memory → ℕ → ℕ → ℕ → Memory
repeated m src gap n a =
    if leb (src + gap) a && ltb a (src + gap + n) then m (src + (a - (src + gap)) % gap) else m a

module _ (old : Memory) (src gap : ℕ) (pos : 0 < gap) where
  repeat_step :
      (i : ℕ) (m : Memory)
      → ((a : ℕ) → m a ≡ repeated old src gap i a)
      → (a : ℕ) → store m (src + gap + i) (m (src + i)) a ≡ repeated old src gap (i + 1) a
  repeat_step i m same a = elim (Bool-cases (src + gap + i == a)) [
    | inr other ↦ rw other (same a ∙ ground arith)
    | inl here ↦ elim (Bool-cases (leb gap i)) [
      | inl far ↦
          let e : a ≡ src + gap + i = ground arith in
          let fold : i % gap ≡ (i - gap) % gap = mod-eq-sub-mod (leb→le gap i far) in
          let d : src + gap + i - (src + gap) ≡ i = omega arith in
          let d' : src + i - (src + gap) ≡ i - gap = omega arith in
          let read : m (src + i) ≡ old (src + i % gap) =
            same (src + i) ∙ rw (d', fold) (ground arith) in
          rw (here, e, d, read) (ground arith)
      | inr near ↦
          let e : a ≡ src + gap + i = ground arith in
          let small : i % gap ≡ i = mod-eq_of_lt (ground arith) in
          let d : src + gap + i - (src + gap) ≡ i = omega arith in
          let read : m (src + i) ≡ old (src + i % gap) = same (src + i) ∙ rw small (ground arith) in
          rw (here, e, d, read) (ground arith)
    ]
  ]

  memcpy_from-repeated :
      (k i : ℕ) (m : Memory)
      → ((a : ℕ) → m a ≡ repeated old src gap i a)
      → (a : ℕ) → memcpy_from k i (src + gap) src m a ≡ repeated old src gap (i + k) a
  unfolding memcpy_from
  memcpy_from-repeated zero i m same a = let e : i + 0 ≡ i = omega arith in rw e (same a)
  memcpy_from-repeated (suc k) i m same a =
      let e : i + suc k ≡ i + 1 + k = omega arith in
      rw e (memcpy_from-repeated k (i + 1) _ (repeat_step i m same) a)

-- `memcpy` to a destination `gap` bytes above the start of the source does not move the bytes:
-- where the two overlap, the first `gap` bytes of the source come again and again.
pub memcpy-repeated :
    (src gap n : ℕ) (m : Memory)
    → src ≢ 0
    → 0 < gap
    → Returns (memcpy (src + gap) src n m) λ m'. (a : ℕ) → m' a ≡ repeated m src gap n a
unfolding memcpy
memcpy-repeated src gap n m some_src pos =
    let d : (src + gap == 0) ≡ false = ground arith in
    let s : (src == 0) ≡ false = ground arith in
    (
      memcpy_from n 0 (src + gap) src m,
      rw (s, d) refl,
      λ a.
          memcpy_from-repeated m src gap pos n 0 m (λ b. ground arith) a
          ∙ ap (λ (t : ℕ). repeated m src gap t a) (zero-add n),
    )

drop_base : (a b : ℕ) → a + b - a ≡ b
drop_base a b = omega arith

-- The two views inside and outside of the destination.
pub copied-inside :
    (m : Memory) (dest src n b : ℕ) → b < n → copied m dest src n (dest + b) ≡ m (src + b)
copied-inside m dest src n b low = rw (drop_base dest b) (ground arith)

pub copied-outside :
    (m : Memory) (dest src n a : ℕ) → (a < dest) ⊎ (dest + n ≤ a) → copied m dest src n a ≡ m a
copied-outside m dest src n a (inl below) = ground arith
copied-outside m dest src n a (inr above) = ground arith

pub repeated-inside :
    (m : Memory) (src gap n k : ℕ)
    → k < n
    → repeated m src gap n (src + gap + k) ≡ m (src + k % gap)
repeated-inside m src gap n k low = rw (drop_base (src + gap) k) (ground arith)

pub repeated-outside :
    (m : Memory) (src gap n a : ℕ)
    → (a < src + gap) ⊎ (src + gap + n ≤ a)
    → repeated m src gap n a ≡ m a
repeated-outside m src gap n a (inl below) = ground arith
repeated-outside m src gap n a (inr above) = ground arith
