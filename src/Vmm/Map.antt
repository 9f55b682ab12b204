-- ===== src/Vmm/Map.antt =====
-- What memory/vmm.c's page tables translate after `vmm_map_page` and `vmm_unmap_page`.
use flan.Base.{
  ℕ, ◌+◌, ◌*◌, ◌^◌, bit_and, ◌≤◌, ◌<◌, ◌≡◌, ◌≢◌, refl, ap, ◌∙◌, ◌⊎◌, inl, inr, ok, halt, ◌>>=◌,
  Returns, arith,
}
use flan.Base.Bits.{bit_or-add, bit_and-mask}
use flan.Lock.Spin.{acquire-free, release-acquired}
use flan.Mem.Word.{load64, store64, load64-store64, load64-store64_apart}
use flan.Pmm.{frame_size}
use flan.Vmm.{
  Vmm, pte_addr_mask, level_index, set_page, vmm_map_page, vmm_unmap_page, virt_to_pte,
  virt_to_phys,
}
use flan.Vmm.Tree.{table, entry, entries_apart, IsTree}
use flan.Vmm.Walk.{level_index-lt, IsScarce, Path4, Leads-kept, walk-Path4, walk-Walked}

module _ (hhdm_offset : ℕ) where
  -- The tables after a write to an entry of the last level.
  module _ {level : ℕ → ℕ} {s : Vmm} {top va last : ℕ} (tree : IsTree hhdm_offset level s)
      (p : Path4 hhdm_offset level s top va last) (v lock : ℕ) where
    written : Vmm
    written = record s {
      memory = store64 (table hhdm_offset last + 8 * level_index 12 va) v s.memory;
      vmm_lock = lock;
    }

    inner_entry :
        (f i : ℕ) → 2 ≤ level f → i < 512 → entry hhdm_offset written f i ≡ entry hhdm_offset s f i
    unfolding written
    inner_entry f i inner low =
        let other : f ≢ last = λ e. omega (arith, ap level e, p.last_level, inner) in
        load64-store64_apart _ _ v s.memory (
          entries_apart hhdm_offset last (level_index 12 va) f i
            (level_index-lt 12 va (omega arith)) low (inl other))

    written-IsTree : IsTree hhdm_offset level written
    unfolding written
    written-IsTree = record {
      valid = tree.valid;
      some_frame = tree.some_frame;
      narrow = tree.narrow;
      reach = tree.reach;
      reserved = tree.reserved;
      down = λ f i inner low present.
          let e = inner_entry f i inner low in rw e (tree.down f i inner low (rw e at present));
    }

    written-Path4 : Path4 hhdm_offset level written top va last
    written-Path4 = record {
      third = p.third;
      second = p.second;
      top_level = p.top_level;
      third_level = p.third_level;
      second_level = p.second_level;
      last_level = p.last_level;
      first_step = Leads-kept hhdm_offset p.first_step (
          inner_entry top (level_index 39 va) (omega (arith, p.top_level))
            (level_index-lt 39 va (omega arith)));
      second_step = Leads-kept hhdm_offset p.second_step (
          inner_entry p.third (level_index 30 va) (omega (arith, p.third_level))
            (level_index-lt 30 va (omega arith)));
      last_step = Leads-kept hhdm_offset p.last_step (
          inner_entry p.second (level_index 21 va) (omega (arith, p.second_level))
            (level_index-lt 21 va (omega arith)));
    }

  -- The state after an entry of the last level was set.
  pub record IsWritten (top va v : ℕ) (t : Vmm) : Type 0 where
    pub level : ℕ → ℕ
    pub tree : IsTree hhdm_offset level t
    pub last : ℕ
    pub path : Path4 hhdm_offset level t top va last
    pub value : entry hhdm_offset t last (level_index 12 va) ≡ v
    pub free : t.vmm_lock ≡ 0

  set_page-IsWritten :
      hhdm_offset ≢ 0
      → (level : ℕ → ℕ) (s : Vmm) (top va v : ℕ) → IsTree hhdm_offset level s
      → level top ≡ 4
      → s.vmm_lock ≡ 0
      → v < 2 ^ 64
      → ((set_page hhdm_offset (table hhdm_offset top) va v s ≡ halt)
          × IsScarce hhdm_offset s
          × ((last : ℕ) → ¬ Path4 hhdm_offset level s top va last))
        ⊎ Returns (set_page hhdm_offset (table hhdm_offset top) va v s) (IsWritten top va v)
  unfolding set_page written
  set_page-IsWritten mapped level s top va v tree root_level free low =
      let s1 : Vmm = record s { vmm_lock = 1 } in
      let tree1 : IsTree hhdm_offset level s1 = record {
        valid = tree.valid;
        some_frame = tree.some_frame;
        narrow = tree.narrow;
        reach = tree.reach;
        reserved = tree.reserved;
        down = tree.down;
      } in
      rw (free, acquire-free, ◌>>=◌)
        (elim (walk-Walked hhdm_offset mapped level s1 top va tree1 root_level) [
          | inl (stop, scarce, no_path) ↦ inl (
            rw stop refl,
            scarce,
            λ last p. no_path last (record {
              third = p.third;
              second = p.second;
              top_level = p.top_level;
              third_level = p.third_level;
              second_level = p.second_level;
              last_level = p.last_level;
              first_step = Leads-kept hhdm_offset p.first_step refl;
              second_step = Leads-kept hhdm_offset p.second_step refl;
              last_step = Leads-kept hhdm_offset p.last_step refl;
            }),
          )
          | inr ((pml1, t), run, w) ↦
              let t' : Vmm = record t {
                memory = store64 (table hhdm_offset w.last + 8 * level_index 12 va) v t.memory;
                vmm_lock = 0;
              } in
              inr (
                t',
                rw (run, ◌>>=◌, w.address, w.lock, release-acquired) refl,
                record {
                  level = w.level;
                  tree = written-IsTree w.tree w.path v 0;
                  last = w.last;
                  path = written-Path4 w.tree w.path v 0;
                  value = load64-store64 _ v t.memory low;
                  free = refl;
                },
              )
        ])

  module _ (mapped : hhdm_offset ≢ 0) (level : ℕ → ℕ) (s : Vmm) (top va : ℕ)
      (tree : IsTree hhdm_offset level s) (root_level : level top ≡ 4) (free : s.vmm_lock ≡ 0) where
    virt_to_pte-IsWritten :
        (v : ℕ) (t : Vmm) (x : IsWritten top va v t)
        → virt_to_pte hhdm_offset (table hhdm_offset top) va t
          ≡ ok (table hhdm_offset x.last + 8 * level_index 12 va, t)
    unfolding virt_to_pte
    virt_to_pte-IsWritten v t x = rw (walk-Path4 hhdm_offset mapped x.tree x.path) refl

    -- In a well-formed tree of page tables with the lock free, `vmm_map_page` of a page frame, with
    -- flags below 4096, either fails in an `assert`, where at most two frames are free and not all
    -- tables that lead to the address are there, or returns a well-formed tree again, with the lock
    -- free, in which `virt_to_phys` translates the address to that frame and changes nothing.
    pub vmm_map_page-virt_to_phys :
        (frame flags : ℕ)
        → frame < 2 ^ 40
        → flags < frame_size
        → ((vmm_map_page hhdm_offset (table hhdm_offset top) (frame * frame_size) va flags s ≡ halt)
            × IsScarce hhdm_offset s
            × ((last : ℕ) → ¬ Path4 hhdm_offset level s top va last))
          ⊎ Returns
              (vmm_map_page hhdm_offset (table hhdm_offset top) (frame * frame_size) va flags s)
              (λ t.
                IsWritten top va (frame * frame_size + flags) t
                × (virt_to_phys hhdm_offset (table hhdm_offset top) va t
                    ≡ ok (frame * frame_size, t)))
    unfolding vmm_map_page virt_to_phys
    vmm_map_page-virt_to_phys frame flags low few =
        let v : ℕ = frame * frame_size + flags in
        rw (bit_or-add 12 frame flags few)
          (elim (set_page-IsWritten mapped level s top va v tree root_level free (omega arith)) [
            | inl stop ↦ inl stop
            | inr (t, run, x) ↦
                let mask : bit_and v pte_addr_mask ≡ frame * frame_size =
                  bit_and-mask 12 40 v ∙ omega arith in
                inr (t, run, (x, rw (virt_to_pte-IsWritten v t x, ◌>>=◌, x.value, mask) refl))
          ])

    -- `vmm_unmap_page` ends in the same two ways, and leaves an entry for the address that is 0, and
    -- so not present.
    pub vmm_unmap_page-virt_to_pte :
        ((vmm_unmap_page hhdm_offset (table hhdm_offset top) va s ≡ halt)
          × IsScarce hhdm_offset s
          × ((last : ℕ) → ¬ Path4 hhdm_offset level s top va last))
        ⊎ Returns (vmm_unmap_page hhdm_offset (table hhdm_offset top) va s) (λ t.
          (pte : ℕ) × (virt_to_pte hhdm_offset (table hhdm_offset top) va t ≡ ok (pte, t))
          × (load64 pte t.memory ≡ 0)
          × IsWritten top va 0 t)
    unfolding vmm_unmap_page
    vmm_unmap_page-virt_to_pte =
        elim (set_page-IsWritten mapped level s top va 0 tree root_level free (omega arith)) [
          | inl stop ↦ inl stop
          | inr (t, run, x) ↦ inr (t, run, (_, virt_to_pte-IsWritten 0 t x, x.value, x))
        ]
