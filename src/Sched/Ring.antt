-- ===== src/Sched/Ring.antt =====
-- The threads of proc/sched.c as a ring with links in both directions.
use flan.Base.{ℕ, ◌≡◌, ◌≢◌, List, [], ◌∷◌, All}
use flan.Sched.{Threads}

-- From `a` the links lead through `xs` and then to `z`, and back.
abbrev pub Linked : Threads → ℕ → List ℕ → ℕ → Type 0
Linked s a [] z = ((s a).next ≡ z) × ((s z).prev ≡ a)
Linked s a (x ∷ xs) z = ((s a).next ≡ x) × ((s x).prev ≡ a) × Linked s x xs z

abbrev pub last : ℕ → List ℕ → ℕ
last a [] = a
last a (x ∷ xs) = last x xs

abbrev pub Distinct : ℕ → List ℕ → Type 0
Distinct a [] = Unit
Distinct a (x ∷ xs) = All (λ y. y ≢ a) (x ∷ xs) × Distinct x xs

-- `a`, and then `xs` in this order.
pub record IsRing (s : Threads) (a : ℕ) (xs : List ℕ) : Type 0 where
  pub links : Linked s a xs a
  pub distinct : Distinct a xs
  pub some_start : a ≢ 0
  pub some_others : All (λ y. y ≢ 0) xs

pub All-last : (P : ℕ → Type 0) (a : ℕ) (xs : List ℕ) → P a → All P xs → P (last a xs)
All-last P a [] p ps = p
All-last P a (x ∷ xs) p (q, ps) = All-last P x xs q ps
