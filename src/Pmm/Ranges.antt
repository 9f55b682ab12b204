-- ===== src/Pmm/Ranges.antt =====
-- Runs of frames: what the loops over single bits in memory/pmm.c do to a whole run.
use mathlib.Core.Path.{◌∙◌}
use flan.Base.{
  ℕ, zero, suc, ◌+◌, ◌-◌, ◌*◌, ◌^◌, ◌≤◌, ◌<◌, ◌≡◌, refl, Bool, true, false, ◌&&◌, List, Returns,
  Returns-bind, Returns_mono, arith, leb, ltb, if◌then◌else◌, length,
}
use flan.Base.Words.{sub64}
use flan.Pmm.{clear_from, claim_from}
use flan.Pmm.Bitmap.{used, IsBytes, Reads, bit_clear-Reads, bit_set-Reads}

-- The frames from `lo` up to and without `hi` read `b`, the others as before.
abbrev pub fill : (ℕ → Bool) → ℕ → ℕ → Bool → ℕ → Bool
fill view lo hi b f = if leb lo f && ltb f hi then b else view f

-- A first write of one frame, and then more writes.
Reads-after :
    {m m' m'' : List ℕ} {one rest all : ℕ → Bool}
    → Reads m one m'
    → Reads m' rest m''
    → ((f : ℕ) → rest f ≡ all f)
    → Reads m all m''
Reads-after a b h = record { size = b.size ∙ a.size; bytes = b.bytes; reads = λ f. b.reads f ∙ h f }

-- The loop of `pmm_free` clears a run and does not leave the bitmap.
pub clear_from-Reads :
    (n i : ℕ) (m : List ℕ)
    → IsBytes m
    → i + n ≤ 8 * length m
    → Returns (clear_from n i m) (Reads m (fill (used m) i (i + n) false))
unfolding clear_from
clear_from-Reads zero i m bytes fits =
    (m, refl, record { size = refl; bytes = bytes; reads = λ f. ground arith })
clear_from-Reads (suc n) i m bytes fits =
    Returns-bind (bit_clear-Reads m bytes i (omega arith)) λ m' one.
      Returns_mono (clear_from-Reads n (i + 1) m' one.bytes (omega (arith, one.size)))
        λ m'' all. Reads-after one all (λ f. ground (arith, one.reads f))

-- The inner loop of `pmm_malloc` marks the run that ends at `frame - i`.
pub claim_from-Reads :
    (n i frame : ℕ) (m : List ℕ)
    → IsBytes m
    → i + n ≤ frame + 1
    → frame < 2 ^ 63
    → frame < 8 * length m
    → Returns
        (claim_from n i frame m)
        (Reads m (fill (used m) (frame + 1 - (i + n)) (frame + 1 - i) true))
unfolding claim_from
claim_from-Reads zero i frame m bytes low small fits =
    (m, refl, record { size = refl; bytes = bytes; reads = λ f. ground arith })
claim_from-Reads (suc n) i frame m bytes low small fits =
    let at : sub64 frame i ≡ frame - i = omega arith in
    rw at (
      Returns-bind (bit_set-Reads m bytes (frame - i) (omega arith)) λ m' one.
        Returns_mono
          (claim_from-Reads n (i + 1) frame m' one.bytes (omega arith) small
            (omega (arith, one.size)))
          λ m'' all. Reads-after one all (λ f. ground (arith, one.reads f)))
