-- ===== src/Spawn/Words.antt =====
-- A run of 64-bit words in memory, as the stack of proc/sched.c is built up from them downwards.
use flan.Base.{
  ℕ, suc, ◌+◌, ◌-◌, ◌*◌, ◌^◌, ◌≤◌, ◌<◌, ◌≡◌, ◌⊎◌, inl, inr, ◌∙◌, List, [], ◌∷◌, ◌++◌, arith, length,
}
use flan.Base.Words.{sub64}
use flan.Mem.{Memory}
use flan.Mem.Word.{
  load64, store64, load64-store64, load64-store64_apart, load64-same, store64_outside,
}
use flan.Spawn.{push, push_pair}

-- The words `ws` stand from the address `a` on.
abbrev pub Words : ℕ → List ℕ → Memory → Type 0
Words a [] m = Unit
Words a (w ∷ ws) m = (load64 a m ≡ w) × Words (a + 8) ws m

-- Only bytes from `lo` up to `hi` differ.
abbrev pub Within : ℕ → ℕ → Memory → Memory → Type 0
Within lo hi m m' = (b : ℕ) → (b < lo) ⊎ (hi ≤ b) → m' b ≡ m b

pub Within-trans :
    {lo hi : ℕ} {m m' m'' : Memory} → Within lo hi m m' → Within lo hi m' m'' → Within lo hi m m''
Within-trans first second b out = second b out ∙ first b out

pub Within-mono :
    {lo hi lo' hi' : ℕ} {m m' : Memory}
    → lo' ≤ lo
    → hi ≤ hi'
    → Within lo hi m m'
    → Within lo' hi' m m'
Within-mono low high w b (inl below) = w b (inl (omega arith))
Within-mono low high w b (inr above) = w b (inr (omega arith))

pub Words-keep :
    (ws : List ℕ) (a : ℕ) {m m' : Memory}
    → ((b : ℕ) → a ≤ b → m' b ≡ m b)
    → Words a ws m
    → Words a ws m'
Words-keep [] a same held = held
Words-keep (w ∷ ws) a {m} {m'} same (here, later) = (
  load64-same a m m' (λ b p q. same b p) ∙ here,
  Words-keep ws (a + 8) (λ b p. same b (omega arith)) later,
)

pub Words-append :
    (us ws : List ℕ) (a : ℕ) (m : Memory)
    → Words a us m
    → Words (a + 8 * length us) ws m
    → Words a (us ++ ws) m
Words-append [] ws a m first second = let e : a ≡ a + 8 * 0 = omega arith in rw e second
Words-append (u ∷ us) ws a m first second =
    let e : a + 8 + 8 * length us ≡ a + 8 * suc (length us) = omega arith in
    (first.0, Words-append us ws (a + 8) m first.1 (rw e second))

-- The stack pointer and the memory after the words `ws` were put below `top`, where `old` was the
-- memory and `lo` is the lowest address of the stack.
pub record Grown (lo top : ℕ) (old : Memory) (ws : List ℕ) (stack : ℕ × Memory) : Type 0 where
  pub at_word : stack.0 ≡ top - 8 * length ws
  pub held : Words stack.0 ws stack.1
  pub within : Within lo top old stack.1

module _ {lo top : ℕ} {old : Memory} (high : top < 2 ^ 64) where
  pub push-Grown :
      (v : ℕ) (ws : List ℕ) (stack : ℕ × Memory)
      → v < 2 ^ 64
      → lo + 8 * (length ws + 1) ≤ top
      → Grown lo top old ws stack
      → Grown lo top old (v ∷ ws) (push v stack)
  push-Grown v ws (a, m) small low g =
      let at : sub64 a 8 ≡ a - 8 = omega (arith, g.at_word) in
      let next : a - 8 + 8 ≡ a = omega (arith, g.at_word) in
      record {
        at_word = omega (arith, g.at_word, at);
        held = (
          rw at (load64-store64 (a - 8) v m small),
          rw (at, next)
              (Words-keep ws a (λ b p. store64_outside (a - 8) v m b (inr (omega arith))) g.held),
        );
        within = λ b out.
            rw at (store64_outside (a - 8) v m b (ground (arith, out, g.at_word)) ∙ g.within b out);
      }

  pub push_pair-Grown :
      (tag v : ℕ) (ws : List ℕ) (stack : ℕ × Memory)
      → tag < 2 ^ 64
      → v < 2 ^ 64
      → lo + 8 * (length ws + 2) ≤ top
      → Grown lo top old ws stack
      → Grown lo top old (tag ∷ v ∷ ws) (push_pair tag v stack)
  push_pair-Grown tag v ws (a, m) small small' low g =
      let at : sub64 a 16 ≡ a - 16 = omega (arith, g.at_word) in
      let next : a - 16 + 8 + 8 ≡ a = omega (arith, g.at_word) in
      let m' = store64 (a - 16) tag m in
      let above : (b : ℕ) → a ≤ b → store64 (a - 16 + 8) v m' b ≡ m b = λ b p.
        store64_outside (a - 16 + 8) v m' b (inr (omega arith))
        ∙ store64_outside (a - 16) tag m b (inr (omega arith)) in
      record {
        at_word = omega (arith, g.at_word, at);
        held = rw at (
          load64-store64_apart (a - 16) (a - 16 + 8) v m' (inl (omega arith))
              ∙ load64-store64 (a - 16) tag m small,
          (load64-store64 (a - 16 + 8) v m' small', rw next (Words-keep ws a above g.held)),
        );
        within = λ b out. rw at (
            store64_outside (a - 16 + 8) v m' b (ground (arith, out, g.at_word))
            ∙ store64_outside (a - 16) tag m b (ground (arith, out, g.at_word))
            ∙ g.within b out);
      }
