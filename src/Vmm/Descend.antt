-- ===== src/Vmm/Descend.antt =====
-- One step of memory/vmm.c down the tree of page tables: `get_next_level`.
use flan.Base.{
  ℕ, ◌+◌, ◌-◌, ◌*◌, bit_and, bit_or, ◌≤◌, ◌<◌, ◌≡◌, ◌≢◌, refl, sym, ap, ◌∙◌, ◌⊎◌, true, false, inl,
  inr, Outcome, ok, halt, ◌>>=◌, Returns, arith, ◌&&◌, ◌==◌, ==_iff, Bool-cases, if◌then◌else◌,
}
use flan.Base.Bits.{bit_or-flags, bit_and-ones}
use flan.Mem.{Memory}
use flan.Mem.Fill.{filled}
use flan.Mem.Word.{store64, load64-store64, load64-store64_apart, load64-same, load64-zero}
use flan.Pmm.{Pmm, frame_size}
use flan.Pmm.Bitmap.{used}
use flan.Pmm.Malloc.{Claimed, FirstFit}
use flan.Pmm.Calloc.{pmm_calloc-FirstFit}
use flan.Vmm.{Vmm, add_level, get_next_level}
use flan.Vmm.Tree.{
  is_present, target, table, entry, entries_apart, IsTree, Leads, get_next_level-present,
}

module _ (hhdm_offset : ℕ) where
  -- The tree after a step to a table of the next level: `level` is kept on the tables that were
  -- there, and so is every entry of them that was present.
  pub record Descended (level : ℕ → ℕ) (s : Vmm) (f i : ℕ) (next : ℕ) (t : Vmm) : Type 0 where
    pub level' : ℕ → ℕ
    pub tree : IsTree hhdm_offset level' t
    pub child : ℕ
    pub address : next ≡ table hhdm_offset child
    pub below : level' child + 1 ≡ level f
    pub leads : Leads hhdm_offset t f i child
    pub grown : (g : ℕ) → level g ≢ 0 → level' g ≡ level g
    pub kept :
        (g j : ℕ)
        → level g ≢ 0
        → j < 512
        → is_present (entry hhdm_offset s g j) ≡ true
        → entry hhdm_offset t g j ≡ entry hhdm_offset s g j
    pub lock : t.vmm_lock ≡ s.vmm_lock
    pub limit : t.pmm.limit ≡ s.pmm.limit
    pub taken : ℕ
    pub frames : (g : ℕ) → g ≢ taken → used t.pmm.bitmap g ≡ used s.pmm.bitmap g

  -- No frame is free.
  abbrev pub IsFull : Vmm → Type 0
  IsFull s = (g : ℕ) → 1 ≤ g → g < s.pmm.limit → used s.pmm.bitmap g ≡ true

  module _ (mapped : hhdm_offset ≢ 0) (level : ℕ → ℕ) (s : Vmm) (tree : IsTree hhdm_offset level s)
      (f i : ℕ) (inner : 2 ≤ level f) (low : i < 512) where
    follow :
        is_present (entry hhdm_offset s f i) ≡ true
        → Returns
            (get_next_level hhdm_offset (table hhdm_offset f) i s)
            (λ (next, t). Descended level s f i next t)
    follow present =
        let g : ℕ = target (entry hhdm_offset s f i) in
        let below = tree.down f i inner low present in
        let (_, _, inside) = tree.reserved g (omega (arith, below, inner)) in
        let leads : Leads hhdm_offset s f i g = record { present = present; names = refl } in
        (
          (table hhdm_offset g, s),
          get_next_level-present hhdm_offset s f i g leads (omega (arith, tree.reach, inside)),
          record {
            level' = level;
            tree = tree;
            child = g;
            address = refl;
            below = below;
            leads = leads;
            grown = λ g' some'. refl;
            kept = λ g' j some' low' p. refl;
            lock = refl;
            limit = refl;
            taken = 0;
            frames = λ g' other. refl;
          },
        )

    module _ (absent : is_present (entry hhdm_offset s f i) ≡ false) (ptr : ℕ) (q : Pmm)
        (m : Memory) (c : Claimed s.pmm.bitmap s.pmm.limit 1 ptr q.bitmap)
        (same : q.limit ≡ s.pmm.limit) (free : q.pmm_lock ≡ 0)
        (cleared : (a : ℕ)
          → m a
            ≡ filled s.memory (ptr + hhdm_offset) (ptr + hhdm_offset + 1 * frame_size) 0 a) where
      -- The state after the new frame `c.start` was hung below the entry.
      grown_state : Vmm
      grown_state = record s {
        pmm = q;
        memory = store64 (table hhdm_offset f + 8 * i) (c.start * frame_size + 7) m;
      }

      fresh : level c.start ≡ 0
      fresh = elim (Bool-cases (level c.start == 0)) [
        | inl zero' ↦ (==_iff (level c.start) 0).0 zero'
        | inr table' ↦
            let (taken, _, _) = tree.reserved c.start (ground arith) in
            let clash = c.free c.start (omega arith) (omega arith) in cc
      ]

      new_level : ℕ → ℕ
      new_level g = if c.start == g then level f - 1 else level g

      new_level-old : (g : ℕ) → level g ≢ 0 → new_level g ≡ level g
      unfolding new_level
      new_level-old g some_level = ground (arith, fresh)

      own_entry : entry hhdm_offset grown_state f i ≡ c.start * frame_size + 7
      unfolding grown_state
      own_entry =
          load64-store64 (table hhdm_offset f + 8 * i) (c.start * frame_size + 7) m
            (omega (arith, c.below, tree.valid.small))

      new_entry : (j : ℕ) → j < 512 → entry hhdm_offset grown_state c.start j ≡ 0
      unfolding grown_state
      new_entry j low' =
          let apart : f ≢ c.start = λ e. ground (arith, fresh, ap level e) in
          load64-store64_apart (table hhdm_offset c.start + 8 * j) (table hhdm_offset f + 8 * i) _ m
            (entries_apart hhdm_offset f i c.start j low low' (inl λ e. apart (sym e)))
          ∙ load64-zero _ m (λ b p q. cleared b ∙ ground (arith, c.address))

      old_entry :
          (g j : ℕ)
          → level g ≢ 0
          → j < 512
          → (g ≢ f) ⊎ (j ≢ i)
          → entry hhdm_offset grown_state g j ≡ entry hhdm_offset s g j
      unfolding grown_state
      old_entry g j some_level low' other =
          let apart : g ≢ c.start = λ e. ground (arith, fresh, ap level e) in
          load64-store64_apart (table hhdm_offset g + 8 * j) (table hhdm_offset f + 8 * i) _ m
            (entries_apart hhdm_offset f i g j low low' other)
          ∙ load64-same _ s.memory m (λ b p q. cleared b ∙ ground (arith, c.address))

      new_level-other : (g : ℕ) → (c.start == g) ≡ false → new_level g ≡ level g
      unfolding new_level
      new_level-other g other = ground arith

      elsewhere : (g j : ℕ) → (f == g && i == j) ≡ false → (g ≢ f) ⊎ (j ≢ i)
      elsewhere g j apart = elim (Bool-cases (f == g)) [
        | inl here ↦ inr (ground arith)
        | inr other ↦ inl (ground arith)
      ]

      new_reserved : (g : ℕ) → new_level g ≢ 0 → (used q.bitmap g ≡ true) × (1 ≤ g) × (g < q.limit)
      unfolding new_level
      new_reserved g some_level = elim (Bool-cases (c.start == g)) [
        | inl here ↦ (
          c.marked.reads g ∙ ground arith,
          ground (arith, c.above),
          ground (arith, c.below, same),
        )
        | inr other ↦
            let (taken, above, inside) = tree.reserved g (ground arith) in
            (c.marked.reads g ∙ ground arith, above, omega (arith, same, inside))
      ]

      down_old :
          (g j : ℕ)
          → 2 ≤ level g
          → j < 512
          → (g ≢ f) ⊎ (j ≢ i)
          → is_present (entry hhdm_offset grown_state g j) ≡ true
          → new_level (target (entry hhdm_offset grown_state g j)) + 1 ≡ level g
      down_old g j inner' low' other present =
          let e = old_entry g j (omega arith) low' other in
          let below = tree.down g j inner' low' (rw e at present) in
          rw e (
            omega (
              arith,
              below,
              new_level-old (target (entry hhdm_offset s g j)) (omega (arith, below, inner')),
            ))

      own_target : target (entry hhdm_offset grown_state f i) ≡ c.start
      own_target = rw own_entry (omega (arith, c.below, tree.narrow))

      down_own : new_level (target (entry hhdm_offset grown_state f i)) + 1 ≡ level f
      unfolding new_level
      down_own = rw own_target (ground arith)

      new_down :
          (g j : ℕ)
          → 2 ≤ new_level g
          → j < 512
          → is_present (entry hhdm_offset grown_state g j) ≡ true
          → new_level (target (entry hhdm_offset grown_state g j)) + 1 ≡ new_level g
      new_down g j inner' low' present = elim (Bool-cases (c.start == g)) [
        | inl here ↦
            let e : entry hhdm_offset grown_state g j ≡ 0 =
              rw (← (==_iff c.start g).0 here) (new_entry j low') in
            absurd (ground (arith, present, e))
        | inr other ↦
            let old : new_level g ≡ level g = new_level-other g other in
            rw old (elim (Bool-cases (f == g && i == j)) [
              | inl own ↦
                  let at : f ≡ g = ground arith in
                  let at' : i ≡ j = ground arith in rw (← at, ← at') down_own
              | inr apart ↦
                  down_old g j (omega (arith, inner', old)) low' (elsewhere g j apart) present
            ])
      ]

      grown-IsTree : IsTree hhdm_offset new_level grown_state
      unfolding new_level grown_state
      grown-IsTree = record {
        valid = record {
          unlocked = free;
          bytes = c.marked.bytes;
          fits = omega (arith, c.marked.size, tree.valid.fits, same);
          small = omega (arith, same, tree.valid.small);
        };
        some_frame = omega (arith, same, tree.some_frame);
        narrow = omega (arith, same, tree.narrow);
        reach = omega (arith, same, tree.reach);
        reserved = new_reserved;
        down = new_down;
      }

      new-Leads : Leads hhdm_offset grown_state f i c.start
      new-Leads = record { present = rw own_entry (ground arith); names = own_target }

      below_new : new_level c.start + 1 ≡ level f
      unfolding new_level
      below_new = ground arith

      present_elsewhere :
          (g j : ℕ) → is_present (entry hhdm_offset s g j) ≡ true → (g ≢ f) ⊎ (j ≢ i)
      present_elsewhere g j present = elsewhere g j (elim (Bool-cases (f == g && i == j)) [
        | inr apart ↦ apart
        | inl own ↦
            let at : f ≡ g = ground arith in
            let at' : i ≡ j = ground arith in
            let clash : is_present (entry hhdm_offset s g j) ≡ false = rw (← at, ← at') absent in
            absurd cc
      ])

      add-Descended : Descended level s f i (ptr + hhdm_offset) grown_state
      unfolding grown_state
      add-Descended = record {
        level' = new_level;
        tree = grown-IsTree;
        child = c.start;
        address = omega (arith, c.address);
        below = below_new;
        leads = new-Leads;
        grown = new_level-old;
        kept = λ g j some_level low' present.
            old_entry g j some_level low' (present_elsewhere g j present);
        lock = refl;
        limit = same;
        taken = c.start;
        frames = λ g other. c.marked.reads g ∙ ground arith;
      }

    -- A step ends in the next table, or, where the table is missing and there is no free frame for
    -- it, in a failed `assert`.
    pub get_next_level-Descended :
        ((get_next_level hhdm_offset (table hhdm_offset f) i s ≡ halt)
          × (IsFull s × (is_present (entry hhdm_offset s f i) ≡ false)))
        ⊎ Returns
            (get_next_level hhdm_offset (table hhdm_offset f) i s)
            (λ (next, t). Descended level s f i next t)
    unfolding get_next_level add_level grown_state
    get_next_level-Descended = elim (Bool-cases (is_present (entry hhdm_offset s f i))) [
      | inl present ↦ inr (follow present)
      | inr absent ↦
          let bit : (bit_and (entry hhdm_offset s f i) 1 == 0) ≡ true =
            ground (arith, bit_and-ones 1 (entry hhdm_offset s f i), absent) in
          let ((ptr, q, m), run, (fit, same, free, cleared)) =
            pmm_calloc-FirstFit hhdm_offset mapped 1 s.pmm s.memory (omega arith) (omega arith)
              tree.valid tree.some_frame in
          rw (bit, get_next_level, add_level, run, ◌>>=◌)
            (added absent ptr q m fit same free cleared)
    ]
      where
        added :
            (absent : is_present (entry hhdm_offset s f i) ≡ false) (ptr : ℕ) (q : Pmm) (m : Memory)
            → FirstFit s.pmm.bitmap s.pmm.limit 1 (ptr, q.bitmap)
            → q.limit ≡ s.pmm.limit
            → q.pmm_lock ≡ 0
            → ((a : ℕ)
                → m a
                  ≡ filled s.memory (ptr + hhdm_offset) (ptr + hhdm_offset + 1 * frame_size) 0 a)
            → let r : Outcome (ℕ × Vmm) = elim (ptr == 0) [
              | true ↦ halt
              | false ↦ ok (
                ptr + hhdm_offset,
                record s {
                  pmm = q;
                  memory =
                      store64 (table hhdm_offset f + 8 * i) (bit_or (bit_or (bit_or ptr 1) 2) 4) m;
                },
              )
            ] in
              ((r ≡ halt) × (IsFull s × (is_present (entry hhdm_offset s f i) ≡ false)))
              ⊎ Returns r (λ (next, t). Descended level s f i next t)
        added absent ptr q m (inr (null, kept, no_run)) same free cleared = rw null (
            inl (
              refl,
              (
                λ g above inside. elim (Bool-cases (used s.pmm.bitmap g)) [
                  | inl taken ↦ taken
                  | inr open' ↦ absurd (
                      no_run g above (omega arith)
                        (λ f' lo hi. let e : f' ≡ g = omega arith in rw e open'))
                ],
                absent,
              ),
            ))
        added absent ptr q m (inl c) same free cleared =
            let some_ptr : (ptr == 0) ≡ false = ground (arith, c.address, c.above) in
            let at : ptr ≡ c.start * 512 * 8 = omega (arith, c.address) in
            let flags : bit_or (bit_or (bit_or ptr 1) 2) 4 ≡ c.start * frame_size + 7 =
              ap (λ (t : ℕ). bit_or (bit_or (bit_or t 1) 2) 4) at
              ∙ bit_or-flags (c.start * 512)
              ∙ omega arith in
            rw (some_ptr, flags) (inr (_, refl, add-Descended absent ptr q m c same free cleared))
