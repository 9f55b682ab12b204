-- ===== src/Vmm/Tree.antt =====
-- The page tables of memory/vmm.c as a tree of page frames, and its entries.
use flan.Base.{
  ℕ, ◌+◌, ◌*◌, ◌/◌, ◌%◌, ◌^◌, bit_and, ◌≤◌, ◌<◌, ◌≡◌, ◌≢◌, refl, ◌∙◌, Bool, true, false, inl, inr,
  ok, arith, ◌⊎◌, leb, ◌==◌, Bool-cases,
}
use flan.Base.Bits.{bit_and-mask, bit_and-ones}
use flan.Base.Words.{add64}
use flan.Mem.Word.{load64}
use flan.Pmm.{frame_size}
use flan.Pmm.Bitmap.{used}
use flan.Pmm.Malloc.{IsValid}
use flan.Vmm.{Vmm, pte_addr_mask, get_next_level}

-- Whether an entry is present, and the frame that it names.
abbrev pub is_present : ℕ → Bool
is_present e = e % 2 == 1

abbrev pub target : ℕ → ℕ
target e = e / frame_size % 2 ^ 40

module _ (hhdm_offset : ℕ) where
  -- The address of a page frame, and the entry of index `i` in it.
  abbrev pub table : ℕ → ℕ
  table f = f * frame_size + hhdm_offset

  abbrev pub entry : Vmm → ℕ → ℕ → ℕ
  entry s f i = load64 (table f + 8 * i) s.memory

  -- Every frame has a level, which is 0 for a frame that is no table. A present entry of a table
  -- leads one level down, as far as level 1, and the allocator does not hand a table out. An entry
  -- holds 40 bits of a frame's number.
  pub record IsTree (level : ℕ → ℕ) (s : Vmm) : Type 0 where
    pub valid : IsValid s.pmm
    pub some_frame : 0 < s.pmm.limit
    pub narrow : s.pmm.limit ≤ 2 ^ 40
    pub reach : hhdm_offset + s.pmm.limit * frame_size < 2 ^ 64
    pub reserved :
        (f : ℕ) → level f ≢ 0 → (used s.pmm.bitmap f ≡ true) × (1 ≤ f) × (f < s.pmm.limit)
    pub down :
        (f i : ℕ)
        → 2 ≤ level f
        → i < 512
        → is_present (entry s f i) ≡ true
        → level (target (entry s f i)) + 1 ≡ level f

  -- The entry `i` of the table `f` is present and names `g`.
  pub record Leads (s : Vmm) (f i g : ℕ) : Type 0 where
    pub present : is_present (entry s f i) ≡ true
    pub names : target (entry s f i) ≡ g

  -- Where the entry is present, `get_next_level` follows it and changes nothing.
  pub get_next_level-present :
      (s : Vmm) (f i g : ℕ)
      → Leads s f i g
      → table g < 2 ^ 64
      → get_next_level hhdm_offset (table f) i s ≡ ok (table g, s)
  unfolding get_next_level
  get_next_level-present s f i g l low =
      let e = load64 (table f + 8 * i) s.memory in
      let bit : (bit_and e 1 == 0) ≡ false = ground (arith, bit_and-ones 1 e, l.present) in
      let mask : bit_and e pte_addr_mask ≡ g * frame_size =
        bit_and-mask 12 40 e ∙ rw l.names refl in
      let wide : add64 (g * frame_size) hhdm_offset ≡ g * frame_size + hhdm_offset =
        omega (arith, low) in
      rw (bit, get_next_level, mask, wide) refl

  -- The words of two entries do not overlap, unless they are the same entry.
  pub entries_apart :
      (f i g j : ℕ)
      → i < 512
      → j < 512
      → (g ≢ f) ⊎ (j ≢ i)
      → (table g + 8 * j + 8 ≤ table f + 8 * i) ⊎ (table f + 8 * i + 8 ≤ table g + 8 * j)
  entries_apart f i g j low low' other =
      elim (Bool-cases (leb (table g + 8 * j + 8) (table f + 8 * i))) [
        | inl before ↦ inl (ground arith)
        | inr after ↦ inr (ground arith)
      ]
