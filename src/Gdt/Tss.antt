-- ===== src/Gdt/Tss.antt =====
-- What a core reads of the descriptors that `gdt_load_tss` of memory/gdt/gdt.c writes.
use flan.Base.{
  ℕ, ◌+◌, ◌*◌, ◌^◌, ◌<◌, ◌≡◌, ◌≢◌, refl, sym, ◌∙◌, Returns, arith, get_or, set, length, length-set,
  get_or-set_self, get_or-set_ne,
}
use flan.Lock.Spin.{acquire-free, release-acquired}
use flan.Gdt.{GdtEntry, Gdt, segment, tss_low, tss_high, gdt_load_tss}

-- The base address in a system descriptor of 16 bytes, as the processor puts it together.
pub descriptor_base : GdtEntry → GdtEntry → ℕ
descriptor_base low high =
    low.baselow16
    + low.basemid8 * 2 ^ 16
    + low.basehigh8 * 2 ^ 24
    + high.limit * 2 ^ 32
    + high.baselow16 * 2 ^ 48

abbrev pub null_segment : GdtEntry
null_segment = segment 0 0 0

-- After `gdt_load_tss` of a 64-bit address, descriptors 9 and 10 together have that address as
-- their base, with limit 104 and the type of an available task state segment, and the other
-- descriptors are as before.
pub gdt_load_tss-base :
    (tss : ℕ) (g : Gdt) (i : ℕ)
    → tss < 2 ^ 64
    → length g.entries ≡ 11
    → g.gdt_lock ≡ 0
    → i ≢ 9
    → i ≢ 10
    → Returns (gdt_load_tss tss g) λ g'.
      let low : GdtEntry = get_or g'.entries 9 null_segment in
      (descriptor_base low (get_or g'.entries 10 null_segment) ≡ tss)
      × (low.limit ≡ 104)
      × (low.access ≡ 0x89)
      × (get_or g'.entries i null_segment ≡ get_or g.entries i null_segment)
      × (length g'.entries ≡ 11)
      × (g'.gdt_lock ≡ 0)
unfolding gdt_load_tss descriptor_base
gdt_load_tss-base tss g i low size free other other' =
    let es = set g.entries 9 (tss_low tss) in
    let n = length-set g.entries 9 (tss_low tss) in
    let ninth : get_or (set es 10 (tss_high tss)) 9 null_segment ≡ tss_low tss =
      get_or-set_ne es 10 9 (tss_high tss) null_segment (omega arith)
      ∙ get_or-set_self g.entries 9 (tss_low tss) null_segment (omega (arith, size)) in
    let tenth = get_or-set_self es 10 (tss_high tss) null_segment (omega (arith, n, size)) in
    let rest =
      get_or-set_ne es 10 i (tss_high tss) null_segment (λ e. other' (sym e))
      ∙ get_or-set_ne g.entries 9 i (tss_low tss) null_segment (λ e. other (sym e)) in
    rw (free, acquire-free, release-acquired)
      (
        _,
        refl,
        rw (ninth, tenth)
            (omega arith, refl, refl, rest, length-set es 10 (tss_high tss) ∙ n ∙ size, refl),
      )
