-- ===== src/Kheap/Release.antt =====
-- What `coalesce_dll` of memory/kheap.c merges.
use flan.Base.{ℕ, ◌+◌, ◌*◌, ◌^◌, ◌<◌, ◌≡◌, refl, false, [], ◌∷◌, arith, ◌==◌}
use flan.Kheap.{header_size, block_end, coalesce_from, coalesce}

coalesce_from-apart :
    (size : ℕ → ℕ) (prev block : ℕ)
    → (block_end size prev == block) ≡ false
    → coalesce_from size prev (block ∷ []) ≡ (block ∷ [], size)
unfolding coalesce_from
coalesce_from-apart size prev block apart = rw (apart, coalesce_from) refl

-- `coalesce_dll` does not merge two neighbours: a block that begins where the one before it ends
-- stays in the list, since the code adds the size 32 times.
pub coalesce-adjacent :
    (size : ℕ → ℕ) (block : ℕ)
    → block + 32 * (size block + header_size) < 2 ^ 64
    → coalesce (block ∷ (block + header_size + size block) ∷ []) size
      ≡ (block ∷ (block + header_size + size block) ∷ [], size)
unfolding coalesce
coalesce-adjacent size block small =
    let apart : (block_end size block == block + header_size + size block) ≡ false = ground arith in
    rw (coalesce_from-apart size block (block + header_size + size block) apart) refl
