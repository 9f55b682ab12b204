-- ===== src/Vmm/Tests.antt =====
-- memory/vmm.c at a machine of 16 frames, of which frame 1 holds an empty top table.
use flan.Base.{
  ℕ, zero, suc, ◌+◌, ◌*◌, ◌/◌, ◌^◌, ◌≡◌, ◌↔◌, ◌⊎◌, refl, [], ◌∷◌, true, false, ok, halt, Returns,
  arith, ◌==◌, if◌then◌else◌,
}
use flan.Mem.{Memory}
use flan.Mem.Word.{load64-zero}
use flan.Pmm.{frame_size}
use flan.Pmm.Bitmap.{used, IsBytes}
use flan.Vmm.{Vmm, level_index, vmm_map_page, virt_to_phys}
use flan.Vmm.Index.{level_index_iff}
use flan.Vmm.Tree.{is_present, table, entry, IsTree}
use flan.Vmm.Walk.{IsScarce, Path4}
use flan.Vmm.Map.{IsWritten, vmm_map_page-virt_to_phys}

abbrev blank : Memory
blank a = 0

abbrev machine : Vmm
machine = record {
  pmm = record { bitmap = 3 ∷ 0 ∷ []; limit = 16; pmm_lock = 0 };
  memory = blank;
  vmm_lock = 0;
}

abbrev level : ℕ → ℕ
level f = if f == 1 then 4 else 0

abbrev offset : ℕ
offset = 2 ^ 47

machine-IsBytes : IsBytes (3 ∷ 0 ∷ [])
machine-IsBytes zero = omega arith
machine-IsBytes (suc zero) = omega arith
machine-IsBytes (suc (suc i)) = omega arith

frame_1-used : used (3 ∷ 0 ∷ []) 1 ≡ true
unfolding used
frame_1-used = refl

machine-absent : (f i : ℕ) → is_present (entry offset machine f i) ≡ false
machine-absent f i = rw (load64-zero (table offset f + 8 * i) blank (λ b p q. refl)) refl

machine-IsTree : IsTree offset level machine
machine-IsTree = record {
  valid = record {
    unlocked = refl;
    bytes = machine-IsBytes;
    fits = omega arith;
    small = omega arith;
  };
  some_frame = omega arith;
  narrow = omega arith;
  reach = omega arith;
  reserved = λ f some_level.
      (let at : f ≡ 1 = ground arith in rw at (frame_1-used, omega arith, omega arith));
  down = λ f i inner low present. absurd (let no_entry = machine-absent f i in cc);
}

vmm_map_page-virt_to_phys_example :
    ((vmm_map_page offset (table offset 1) (9 * frame_size) 0x400000 7 machine ≡ halt)
      × IsScarce offset machine
      × ((last : ℕ) → ¬ Path4 offset level machine 1 0x400000 last))
    ⊎ Returns (vmm_map_page offset (table offset 1) (9 * frame_size) 0x400000 7 machine) (λ t.
      IsWritten offset 1 0x400000 (9 * frame_size + 7) t
      × (virt_to_phys offset (table offset 1) 0x400000 t ≡ ok (9 * frame_size, t)))
vmm_map_page-virt_to_phys_example =
    vmm_map_page-virt_to_phys offset (omega arith) level machine 1 0x400000 machine-IsTree refl refl
      9 7 (omega arith) (omega arith)

level_index_iff_example :
    ((level_index 39 0x400010 ≡ level_index 39 0x400ff0)
      × (level_index 30 0x400010 ≡ level_index 30 0x400ff0)
      × (level_index 21 0x400010 ≡ level_index 21 0x400ff0)
      × (level_index 12 0x400010 ≡ level_index 12 0x400ff0))
    ↔ (0x400010 / frame_size ≡ 0x400ff0 / frame_size)
level_index_iff_example = level_index_iff 0x400010 0x400ff0 (omega arith) (omega arith)
