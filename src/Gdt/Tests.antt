-- ===== src/Gdt/Tests.antt =====
-- memory/gdt/gdt.c at the descriptors that `gdt_init` makes.
use flan.Base.{◌≡◌, refl, [], arith, Returns, get_or, length}
use flan.Gdt.{GdtEntry, Gdt, gdt_init, gdt_load, gdt_load_tss}
use flan.Gdt.Tss.{descriptor_base, null_segment, gdt_load_tss-base}

fresh : Gdt
unfolding gdt_init gdt_load
fresh = gdt_init 0x1000 (record { gdtr_limit = 0; gdtr_base = 0; entries = []; gdt_lock = 0 })

fresh-length : length fresh.entries ≡ 11
unfolding fresh
fresh-length = refl

fresh-lock : fresh.gdt_lock ≡ 0
unfolding fresh
fresh-lock = refl

gdt_load_tss-base_example : Returns (gdt_load_tss 0xffff800012345678 fresh) λ g'.
    let low : GdtEntry = get_or g'.entries 9 null_segment in
    (descriptor_base low (get_or g'.entries 10 null_segment) ≡ 0xffff800012345678)
    × (low.limit ≡ 104)
    × (low.access ≡ 0x89)
    × (get_or g'.entries 5 null_segment ≡ get_or fresh.entries 5 null_segment)
    × (length g'.entries ≡ 11)
    × (g'.gdt_lock ≡ 0)
gdt_load_tss-base_example =
    gdt_load_tss-base 0xffff800012345678 fresh 5 (omega arith) fresh-length fresh-lock (omega arith)
      (omega arith)
