-- ===== src/Gdt.antt =====
-- memory/gdt/gdt.c: the segment descriptors, and the one of a core's task state segment.
pub mod Tss
mod Tests
use flan.Base.{ℕ, ◌*◌, ◌-◌, ◌/◌, ◌^◌, List, [], ◌∷◌, Outcome, ok, ◌>>=◌, set}
use flan.Base.Words.{u8, u16}
use flan.Lock.{Spinlock, spinlock_acquire, spinlock_release}

-- `gdt_entry_t`
pub record GdtEntry : Type 0 where
  pub limit : ℕ
  pub baselow16 : ℕ
  pub basemid8 : ℕ
  pub access : ℕ
  pub granularity : ℕ
  pub basehigh8 : ℕ

-- `gdtr`, the array `gdt`, whose address is an argument below, and the lock of `gdt_load_tss`.
pub record Gdt : Type 0 where
  pub gdtr_limit : ℕ
  pub gdtr_base : ℕ
  pub entries : List GdtEntry
  pub gdt_lock : Spinlock

abbrev pub segment : ℕ → ℕ → ℕ → GdtEntry
segment limit access granularity = record {
  limit = limit;
  baselow16 = 0;
  basemid8 = 0;
  access = access;
  granularity = granularity;
  basehigh8 = 0;
}

-- The load itself, `load_gdt`, is assembly.
unfoldable pub gdt_load : ℕ → Gdt → Gdt
gdt_load address g = record g { gdtr_limit = 11 * 8 - 1; gdtr_base = address }

unfoldable pub gdt_init : ℕ → Gdt → Gdt
unfolding gdt_load
gdt_init address g = gdt_load address (record g {
  entries =
      segment 0 0 0
      ∷ segment 0xffff 0x9a 0
      ∷ segment 0xffff 0x92 0
      ∷ segment 0xffff 0x9a 0xcf
      ∷ segment 0xffff 0x92 0xcf
      ∷ segment 0 0x9a 0x20
      ∷ segment 0 0x92 0
      ∷ segment 0 0xf2 0
      ∷ segment 0 0xfa 0x20
      ∷ segment 104 0x89 0
      ∷ segment 0 0 0
      ∷ [];
})

abbrev pub tss_low : ℕ → GdtEntry
tss_low tss = record {
  limit = 104;
  baselow16 = u16 tss;
  basemid8 = u8 (tss / 2 ^ 16);
  access = 0x89;
  granularity = 0;
  basehigh8 = u8 (tss / 2 ^ 24);
}

abbrev pub tss_high : ℕ → GdtEntry
tss_high tss = record {
  limit = u16 (tss / 2 ^ 32);
  baselow16 = u16 (tss / 2 ^ 48);
  basemid8 = 0;
  access = 0;
  granularity = 0;
  basehigh8 = 0;
}

-- `ltr` is left out.
unfoldable pub gdt_load_tss : ℕ → Gdt → Outcome Gdt
gdt_load_tss tss g = do
  lock ← spinlock_acquire g.gdt_lock
  ok (record g {
    entries = set (set g.entries 9 (tss_low tss)) 10 (tss_high tss);
    gdt_lock = spinlock_release lock;
  })
