-- ===== src/Kheap/Fit.antt =====
-- `kheap_alloc` of memory/kheap.c where a free block is large enough.
use flan.Base.{ℕ, ◌+◌, ◌-◌, ◌≤◌, ◌≡◌, ◌⊎◌, some, List, [], ◌∷◌, All}
use flan.Kheap.{Kheap, header_size, set_size, first_fit}

-- The blocks at `b` and `c`, with their headers, do not overlap.
abbrev pub Apart : (ℕ → ℕ) → ℕ → ℕ → Type 0
Apart size b c = (b + header_size + size b ≤ c) ⊎ (c + header_size + size c ≤ b)

abbrev pub Pairwise : (ℕ → ℕ) → List ℕ → Type 0
Pairwise size [] = Unit
Pairwise size (b ∷ blocks) = All (Apart size b) blocks × Pairwise size blocks

-- The lock is free and no two free blocks overlap.
pub record IsHeap (h : Kheap) : Type 0 where
  pub free : h.kheap_lock ≡ 0
  pub pairwise : Pairwise h.size h.free_list

-- The heap after a block was taken: the block holds `n` bytes and is apart from the free ones.
pub record Taken (block n : ℕ) (h : Kheap) : Type 0 where
  pub pairwise : Pairwise h.size h.free_list
  pub fits : n ≤ h.size block
  pub alone : All (Apart h.size block) h.free_list

module _ (h : Kheap) (n block : ℕ) (heap : IsHeap h)
    (found : first_fit h.size n h.free_list ≡ some block) where
  split_size : ℕ → ℕ
  split_size =
      set_size (set_size h.size (block + header_size + n) (h.size block - n - header_size)) block n
