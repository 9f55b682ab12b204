-- ===== src/Vmm/Index.antt =====
-- How memory/vmm.c takes a virtual address apart.
use flan.Base.{ℕ, ◌/◌, ◌%◌, ◌^◌, ◌<◌, ◌≡◌, ◌↔◌, ◌∙◌, ap, arith}
use flan.Base.Bits.{bit_and-mask}
use native.Mathlib.Nat.{mul-div_cancel}
use flan.Pmm.{frame_size}
use flan.Vmm.{level_index}

pub level_index-digit : (shift va : ℕ) → 0 < 2 ^ shift → level_index shift va ≡ va / 2 ^ shift % 512
unfolding level_index
level_index-digit shift va pos =
    ap (λ (t : ℕ). t / 2 ^ shift) (bit_and-mask shift 9 va) ∙ mul-div_cancel _ pos

-- Two addresses below 2 ^ 48 have the same index at each of the four levels exactly when they lie
-- on the same page; so each page has an entry of its own.
pub level_index_iff :
    (va vb : ℕ)
    → va < 2 ^ 48
    → vb < 2 ^ 48
    → ((level_index 39 va ≡ level_index 39 vb)
        × (level_index 30 va ≡ level_index 30 vb)
        × (level_index 21 va ≡ level_index 21 vb)
        × (level_index 12 va ≡ level_index 12 vb))
      ↔ (va / frame_size ≡ vb / frame_size)
level_index_iff va vb low low' =
    rw
      (
        level_index-digit 39 va (omega arith),
        level_index-digit 30 va (omega arith),
        level_index-digit 21 va (omega arith),
        level_index-digit 12 va (omega arith),
        level_index-digit 39 vb (omega arith),
        level_index-digit 30 vb (omega arith),
        level_index-digit 21 vb (omega arith),
        level_index-digit 12 vb (omega arith),
      )
      (λ h. omega arith, λ h. (omega arith, omega arith, omega arith, omega arith))
