-- ===== src/Kheap/Tests.antt =====
-- memory/kheap.c at a heap of two free blocks.
use flan.Base.{ℕ, zero, suc, refl, [], ◌∷◌, arith, ◌==◌, if◌then◌else◌}
use flan.Pmm.{Pmm}
use flan.Pmm.Bitmap.{IsBytes}
use flan.Pmm.Malloc.{IsValid}
use flan.Kheap.{Kheap}

abbrev sizes : ℕ → ℕ
sizes b = if b == 1000 then 100 else if b == 2000 then 400 else if b == 20504 then 8160 else 0

abbrev frames : Pmm
frames = record { bitmap = 255 ∷ 255 ∷ []; limit = 16; pmm_lock = 0 }

frames-IsBytes : IsBytes (255 ∷ 255 ∷ [])
frames-IsBytes zero = omega arith
frames-IsBytes (suc zero) = omega arith
frames-IsBytes (suc (suc i)) = omega arith

frames-IsValid : IsValid frames
frames-IsValid = record {
  unlocked = refl;
  bytes = frames-IsBytes;
  fits = omega arith;
  small = omega arith;
}

abbrev two : Kheap
two = record { free_list = 1000 ∷ 2000 ∷ []; size = sizes; kheap_lock = 0; pmm = frames }
