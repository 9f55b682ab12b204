-- ===== src/Vmm/Walk.antt =====
-- The walk of memory/vmm.c down the four levels of page tables.
use flan.Base.{
  ℕ, ◌/◌, ◌^◌, ◌<◌, ◌≡◌, ◌≢◌, ◌≤◌, sym, true, refl, ◌∙◌, ◌⊎◌, false, inl, inr, Outcome, ok, halt,
  ◌>>=◌, Returns, arith, ◌==◌,
}
use native.Mathlib.Nat.{mod-lt}
use flan.Pmm.Bitmap.{used}
use flan.Vmm.{Vmm, level_index, walk}
use flan.Vmm.Index.{level_index-digit}
use flan.Vmm.Tree.{table, entry, IsTree, Leads, get_next_level-present}
use flan.Vmm.Descend.{Descended, get_next_level-Descended}

pub level_index-lt : (shift va : ℕ) → 0 < 2 ^ shift → level_index shift va < 512
level_index-lt shift va pos =
    rw (level_index-digit shift va pos) (mod-lt (va / 2 ^ shift) (omega arith))

module _ (hhdm_offset : ℕ) where
  -- The tables of a virtual address are in place, the last one in the frame `last`.
  pub record Path4 (level : ℕ → ℕ) (s : Vmm) (top va last : ℕ) : Type 0 where
    pub third : ℕ
    pub second : ℕ
    pub top_level : level top ≡ 4
    pub third_level : level third ≡ 3
    pub second_level : level second ≡ 2
    pub last_level : level last ≡ 1
    pub first_step : Leads hhdm_offset s top (level_index 39 va) third
    pub second_step : Leads hhdm_offset s third (level_index 30 va) second
    pub last_step : Leads hhdm_offset s second (level_index 21 va) last

  -- The walk after the tables are in place finds the last one and changes nothing.
  module _ (mapped : hhdm_offset ≢ 0) {level : ℕ → ℕ} {s : Vmm} {top va last : ℕ}
      (tree : IsTree hhdm_offset level s) (p : Path4 level s top va last) where
    in_reach :
        (f : ℕ)
        → level f ≢ 0
        → (table hhdm_offset f < 2 ^ 64) × ((table hhdm_offset f == 0) ≡ false)
    in_reach f some_level =
        let (_, _, inside) = tree.reserved f some_level in
        (omega (arith, inside, tree.reach), ground (arith, mapped))

    pub walk-Path4 : walk hhdm_offset (table hhdm_offset top) va s ≡ ok (table hhdm_offset last, s)
    unfolding walk
    walk-Path4 =
        let (l3, n3) = in_reach p.third (omega (arith, p.third_level)) in
        let (l2, n2) = in_reach p.second (omega (arith, p.second_level)) in
        let (l1, n1) = in_reach last (omega (arith, p.last_level)) in
        rw
          (
            get_next_level-present hhdm_offset s top (level_index 39 va) p.third p.first_step l3,
            ◌>>=◌,
            n3,
            get_next_level-present hhdm_offset s p.third (level_index 30 va) p.second p.second_step
                l2,
            ◌>>=◌,
            n2,
            get_next_level-present hhdm_offset s p.second (level_index 21 va) last p.last_step l1,
            ◌>>=◌,
            n1,
          )
          refl

  pub Leads-kept :
      {s t : Vmm} {f i g : ℕ}
      → Leads hhdm_offset s f i g
      → entry hhdm_offset t f i ≡ entry hhdm_offset s f i
      → Leads hhdm_offset t f i g
  Leads-kept l same = record { present = rw same l.present; names = rw same l.names }

  -- The state after a walk that made the missing tables.
  pub record Walked (s : Vmm) (top va pml1 : ℕ) (t : Vmm) : Type 0 where
    pub level : ℕ → ℕ
    pub tree : IsTree hhdm_offset level t
    pub last : ℕ
    pub address : pml1 ≡ table hhdm_offset last
    pub path : Path4 level t top va last
    pub lock : t.vmm_lock ≡ s.vmm_lock

  -- At most two frames are free.
  abbrev pub IsScarce : Vmm → Type 0
  IsScarce s =
      (a : ℕ) × (b : ℕ) × ((g : ℕ)
        → 1 ≤ g
        → g < s.pmm.limit
        → g ≢ a
        → g ≢ b
        → used s.pmm.bitmap g ≡ true)

  -- A call that halts, or goes on with what follows it.
  ends-bind :
      {X : Type 0} {Y : Type 0} {P : ℕ × Vmm → Type 0} {Q : ℕ × Vmm → Type 0}
      {r : Outcome (ℕ × Vmm)} {k : ℕ × Vmm → Outcome (ℕ × Vmm)}
      → ((r ≡ halt) × X) ⊎ Returns r P
      → (X → Y)
      → ((x : ℕ × Vmm) → P x → ((k x ≡ halt) × Y) ⊎ Returns (k x) Q)
      → (((r >>= k) ≡ halt) × Y) ⊎ Returns (r >>= k) Q
  ends-bind (inl (stop, why)) because next = inl (rw stop refl, because why)
  ends-bind (inr (x, run, p)) because next = rw run (next x p)

  module _ (mapped : hhdm_offset ≢ 0) (level : ℕ → ℕ) (s : Vmm) (top va : ℕ)
      (tree : IsTree hhdm_offset level s) (root_level : level top ≡ 4) where
    index-lt : (shift : ℕ) → 0 < 2 ^ shift → level_index shift va < 512
    index-lt shift pos = level_index-lt shift va pos

    -- Three steps down make the tables of the address.
    assemble :
        {p3 p2 p1 : ℕ} {s3 s2 s1 : Vmm}
        → (d3 : Descended hhdm_offset level s top (level_index 39 va) p3 s3)
        → (d2 : Descended hhdm_offset d3.level' s3 d3.child (level_index 30 va) p2 s2)
        → (d1 : Descended hhdm_offset d2.level' s2 d2.child (level_index 21 va) p1 s1)
        → Walked s top va p1 s1
    assemble {s2 = s2} d3 d2 d1 =
        let top3 = d3.grown top (omega (arith, root_level)) in
        let top2 = d2.grown top (omega (arith, root_level, top3)) in
        let top1 = d1.grown top (omega (arith, root_level, top3, top2)) in
        let child2 = d2.grown d3.child (omega (arith, d3.below, root_level)) in
        let child1 = d1.grown d3.child (omega (arith, d3.below, root_level, child2)) in
        let child1' = d1.grown d2.child (omega (arith, d2.below, d3.below, root_level)) in
        let i39 = index-lt 39 (omega arith) in
        let i30 = index-lt 30 (omega arith) in
        let step3 : Leads hhdm_offset s2 top (level_index 39 va) d3.child = Leads-kept d3.leads (
          d2.kept top (level_index 39 va) (omega (arith, root_level, top3)) i39 d3.leads.present) in
        record {
          level = d1.level';
          tree = d1.tree;
          last = d1.child;
          address = d1.address;
          path = record {
            third = d3.child;
            second = d2.child;
            top_level = omega (arith, root_level, top3, top2, top1);
            third_level = omega (arith, d3.below, root_level, child2, child1);
            second_level = omega (arith, d2.below, d3.below, root_level, child1');
            last_level = omega (arith, d1.below, d2.below, d3.below, root_level);
            first_step = Leads-kept step3 (
                d1.kept top (level_index 39 va) (omega (arith, root_level, top3, top2)) i39
                  step3.present);
            second_step = Leads-kept d2.leads (
                d1.kept d3.child (level_index 30 va) (omega (arith, d3.below, root_level, child2))
                  i30 d2.leads.present);
            last_step = d1.leads;
          };
          lock = d1.lock ∙ d2.lock ∙ d3.lock;
        }

    walk-IsScarce :
        ((walk hhdm_offset (table hhdm_offset top) va s ≡ halt) × IsScarce s)
        ⊎ Returns
            (walk hhdm_offset (table hhdm_offset top) va s)
            (λ (pml1, t). Walked s top va pml1 t)
    unfolding walk
    walk-IsScarce =
        ends-bind
          (get_next_level-Descended hhdm_offset mapped level s tree top (level_index 39 va)
            (omega (arith, root_level)) (index-lt 39 (omega arith)))
          (λ (full, absent). (0, 0, λ g above inside a b. full g above inside))
          λ (pml3, s3) d3.
            let n3 : (pml3 == 0) ≡ false = ground (arith, d3.address, mapped) in
            let l3 : d3.level' d3.child ≡ 3 = omega (arith, d3.below, root_level) in
            rw (n3, ◌>>=◌, d3.address)
              (ends-bind
                (get_next_level-Descended hhdm_offset mapped d3.level' s3 d3.tree d3.child
                  (level_index 30 va) (omega (arith, l3)) (index-lt 30 (omega arith)))
                (λ (full, absent). (
                  d3.taken,
                  0,
                  λ g above inside a b.
                      sym (d3.frames g a) ∙ full g above (omega (arith, d3.limit)),
                ))
                λ (pml2, s2) d2.
                  let n2 : (pml2 == 0) ≡ false = ground (arith, d2.address, mapped) in
                  rw (n2, ◌>>=◌, d2.address)
                    (ends-bind
                      (get_next_level-Descended hhdm_offset mapped d2.level' s2 d2.tree d2.child
                        (level_index 21 va) (omega (arith, d2.below, l3))
                        (index-lt 21 (omega arith)))
                      (λ (full, absent). (
                        d3.taken,
                        d2.taken,
                        λ g above inside a b.
                            sym (d3.frames g a)
                            ∙ sym (d2.frames g b)
                            ∙ full g above (omega (arith, d3.limit, d2.limit)),
                      ))
                      λ (pml1, s1) d1.
                        let n1 : (pml1 == 0) ≡ false = ground (arith, d1.address, mapped) in
                        rw n1 (inr ((pml1, s1), refl, assemble d3 d2 d1))))

    -- The walk halts only where a table is missing and at most two frames are free.
    pub walk-Walked :
        ((walk hhdm_offset (table hhdm_offset top) va s ≡ halt)
          × IsScarce s
          × ((last : ℕ) → ¬ Path4 level s top va last))
        ⊎ Returns
            (walk hhdm_offset (table hhdm_offset top) va s)
            (λ (pml1, t). Walked s top va pml1 t)
    walk-Walked = elim walk-IsScarce [
      | inr done ↦ inr done
      | inl (stop, scarce) ↦
          inl (stop, scarce, λ last path. let run = walk-Path4 mapped tree path in cc)
    ]
