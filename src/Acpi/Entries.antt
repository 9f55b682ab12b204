-- ===== src/Acpi/Entries.antt =====
-- What acpi/tables/madt.c collects from a table.
use flan.Base.{
  ℕ, zero, suc, ◌+◌, ◌-◌, ◌^◌, ◌≤◌, ◌<◌, ◌≡◌, ◌≢◌, refl, sym, true, false, List, [], ◌∷◌, ◌++◌,
  Returns, arith, ◌==◌, ltb, if◌then◌else◌,
}
use mathlib.Core.List.{append_assoc, append-nil}
use flan.Base.Words.{add64, sub64}
use flan.Mem.{Memory}
use flan.Acpi.{Madt, madt_size, table_length, item, push_entry, madt_from, madt_init}

-- The entries' addresses from one address to another, each as long as its second byte says.
pub data Laid (m : Memory) (end : ℕ) : ℕ → List ℕ → Type 0 where
  nothing : Laid m end end []
  entry :
      (a : ℕ) (es : List ℕ)
      → 2 ≤ m (a + 1)
      → a + m (a + 1) ≤ end
      → Laid m end (a + m (a + 1)) es
      → Laid m end a (a ∷ es)

-- The items of the entries with one id, in the order of the table.
abbrev pub with_id : ℕ → ℕ → Memory → List ℕ → List (List ℕ)
with_id id size m [] = []
with_id id size m (a ∷ es) =
    if m a == id then item size a m ∷ with_id id size m es else with_id id size m es

abbrev pub Collected : Memory → List ℕ → Madt → Madt → Type 0
Collected m es s t =
    (t.madt_lapics ≡ s.madt_lapics ++ with_id 0 8 m es)
    × (t.madt_ioapics ≡ s.madt_ioapics ++ with_id 1 12 m es)
    × (t.madt_isos ≡ s.madt_isos ++ with_id 2 10 m es)

push_entry-Collected :
    (a : ℕ) (es : List ℕ) (m : Memory) (s t : Madt)
    → Collected m es (push_entry a m s) t
    → Collected m (a ∷ es) s t
unfolding push_entry
push_entry-Collected a es m s t c = ground (
  arith,
  append_assoc s.madt_lapics (item 8 a m ∷ []) (with_id 0 8 m es),
  append_assoc s.madt_ioapics (item 12 a m ∷ []) (with_id 1 12 m es),
  append_assoc s.madt_isos (item 10 a m ∷ []) (with_id 2 10 m es),
  c,
)

madt_from-Collected :
    (m : Memory) (madt size : ℕ) (fuel offset : ℕ) (a : ℕ) (es : List ℕ) (s : Madt)
    → table_length madt m ≡ madt_size + size
    → size < 2 ^ 32
    → offset ≤ size
    → size - offset < fuel
    → a ≡ madt + madt_size + offset
    → Laid m (madt + madt_size + size) a es
    → Returns (madt_from fuel madt offset m s) (Collected m es s)
unfolding madt_from
madt_from-Collected m madt size zero offset a es s len small inside enough at laid =
    absurd (omega arith)
madt_from-Collected m madt size (suc fuel) offset _ [] s len small inside enough at nothing =
    let e : ltb (sub64 (sub64 (table_length madt m) madt_size) offset) 2 ≡ true =
      rw len (ground arith) in
    rw (e, madt_from)
      (
        _,
        refl,
        (
          sym (append-nil s.madt_lapics),
          sym (append-nil s.madt_ioapics),
          sym (append-nil s.madt_isos),
        ),
      )
madt_from-Collected m madt size (suc fuel) offset _ (_ ∷ _) s len small inside enough at
      (entry a es two room laid) =
    let e : ltb (sub64 (sub64 (table_length madt m) madt_size) offset) 2 ≡ false =
      rw len (ground arith) in
    let whole : (if ltb (m (a + 1)) 2 then 2 else m (a + 1)) ≡ m (a + 1) = ground arith in
    let on : add64 offset (m (a + 1)) ≡ offset + m (a + 1) = omega arith in
    let (t, same, c) =
      madt_from-Collected m madt size fuel (offset + m (a + 1)) (a + m (a + 1)) es
        (push_entry a m s) len small (omega arith) (omega arith) (omega arith) laid in
    rw (e, madt_from, ← at, whole, on) (t, same, push_entry-Collected a es m s t c)

-- Where the bytes of the MADT behind its header are entries that end with the table, each as long
-- as its second byte says and of at least two bytes, `madt_init` returns after at most as many
-- rounds as the table has bytes behind its header, and one. The vectors then hold the items of the
-- entries with id 0, 1 and 2, all of them and in the order of the table.
pub madt_init-Collected :
    (m : Memory) (madt size fuel : ℕ) (es : List ℕ)
    → madt ≢ 0
    → table_length madt m ≡ madt_size + size
    → size < 2 ^ 32
    → size < fuel
    → Laid m (madt + madt_size + size) (madt + madt_size) es
    → Returns (madt_init fuel madt m) λ t.
      (t.madt_lapics ≡ with_id 0 8 m es)
      × (t.madt_ioapics ≡ with_id 1 12 m es)
      × (t.madt_isos ≡ with_id 2 10 m es)
unfolding madt_init
madt_init-Collected m madt size fuel es found len small enough laid =
    let e : (madt == 0) ≡ false = ground arith in
    rw (e, madt_init)
      (madt_from-Collected m madt size fuel 0 (madt + madt_size) es
        (record { madt_lapics = []; madt_ioapics = []; madt_isos = [] }) len small (omega arith)
        (omega arith) (omega arith) laid)
