-- ===== src/Spawn/Strings.antt =====
-- The loops of `sched_user_thread` in proc/sched.c over a program's arguments and environment.
use flan.Base.{
  ℕ, suc, ◌+◌, ◌-◌, ◌*◌, ◌^◌, ◌≤◌, ◌<◌, ◌≡◌, ◌≢◌, ◌⊎◌, inl, inr, ◌∙◌, refl, sym, ap, List, [], ◌∷◌,
  ◌++◌, ok, Returns, Returns-bind, Returns_mono, All, arith, length, length-append, ◌>>=◌,
  Bool-cases, ==_iff, ◌==◌,
}
use flan.Base.Words.{sub64, add64}
use flan.Mem.{Memory}
use flan.Mem.Copy.{memcpy-copied, copied, copied-inside, copied-outside}
use flan.Mem.Word.{store64, load64-store64, load64-same, store64_outside}
use flan.Str.{strlen}
use flan.Str.Chars.{IsString, strlen_iff}
use flan.Spawn.{copy_strings, write_pointers, push_strings}
use flan.Spawn.Words.{
  Words, Within, Within-trans, Within-mono, Words-keep, Words-append, Grown, push-Grown,
}

-- A string's address with its length; the strings' room, and their places below `top`.
abbrev pub Text : Type 0
Text = ℕ × ℕ

abbrev pub room : List Text → ℕ
room [] = 0
room (t ∷ ts) = t.1 + 1 + room ts

abbrev pub places : ℕ → List Text → List ℕ
places top [] = []
places top (t ∷ ts) = (top - (t.1 + 1)) ∷ places (top - (t.1 + 1)) ts

abbrev pub addresses : List Text → List ℕ
addresses [] = []
addresses (t ∷ ts) = t.0 ∷ addresses ts

-- Each string of `old` stands below `top`, with its zero byte, at its place in `m`.
abbrev pub Stand : ℕ → List Text → Memory → Memory → Type 0
Stand top [] old m = Unit
Stand top (t ∷ ts) old m =
    ((j : ℕ) → j ≤ t.1 → m (top - (t.1 + 1) + j) ≡ old (t.0 + j)) × Stand (top - (t.1 + 1)) ts old m

pub length-addresses : (ts : List Text) → length (addresses ts) ≡ length ts
length-addresses [] = refl
length-addresses (t ∷ ts) = ap suc (length-addresses ts)

-- The strings of `old` are outside of the stack from `lo` to `hi`, which alone differs in `m`.
module _ (old : Memory) (lo hi : ℕ) (some_low : 0 < lo) (high : hi < 2 ^ 64) where
  pub record Outside (t : Text) : Type 0 where
    pub some : t.0 ≢ 0
    pub is_string : IsString old t.0 t.1
    pub apart : (t.0 + t.1 < lo) ⊎ (hi ≤ t.0)

  Outside-at : (t : Text) (j : ℕ) → Outside t → j ≤ t.1 → (t.0 + j < lo) ⊎ (hi ≤ t.0 + j)
  Outside-at t j o low = ground (arith, o.apart)

  strlen-Outside : (t : Text) (m : Memory) → Outside t → Within lo hi old m → strlen t.0 m ≡ ok t.1
  strlen-Outside t m o w = (strlen_iff m t.0 t.1).1 (record {
    short = o.is_string.short;
    end = w (t.0 + t.1) (Outside-at t t.1 o (omega arith)) ∙ o.is_string.end;
    nonzero = λ i h. rw (w (t.0 + i) (Outside-at t i o (omega arith))) (o.is_string.nonzero i h);
  })

  -- What `memcpy` leaves of a string's bytes, with the cleared byte behind them.
  copied_text :
      (t : Text) (top : ℕ) (m m1 : Memory)
      → Outside t
      → Within lo hi old m
      → lo + (t.1 + 1) ≤ top
      → top ≤ hi
      → ((b : ℕ) → lo ≤ b → b < top → m b ≡ 0)
      → ((b : ℕ) → m1 b ≡ copied m (top - (t.1 + 1)) t.0 t.1 b)
      → (j : ℕ) → j ≤ t.1
      → m1 (top - (t.1 + 1) + j) ≡ old (t.0 + j)
  copied_text t top m m1 o w low below clear same j h =
      let dest : ℕ = top - (t.1 + 1) in
      elim (Bool-cases (j == t.1)) [
        | inl last ↦
            let e : j ≡ t.1 = (==_iff j t.1).0 last in
            same (dest + j)
            ∙ copied-outside m dest t.0 t.1 (dest + j) (inr (omega arith))
            ∙ clear (dest + j) (omega arith) (omega arith)
            ∙ sym o.is_string.end
            ∙ ap (λ (i : ℕ). old (t.0 + i)) (sym e)
        | inr other ↦
            same (dest + j)
            ∙ copied-inside m dest t.0 t.1 j (ground arith)
            ∙ w (t.0 + j) (Outside-at t j o h)
      ]

  pub copy_strings-Stand :
      (ts : List Text) (top : ℕ) (m : Memory)
      → All Outside ts
      → Within lo hi old m
      → lo + room ts ≤ top
      → top ≤ hi
      → ((b : ℕ) → lo ≤ b → b < top → m b ≡ 0)
      → Returns
          (copy_strings (addresses ts) top m)
          λ (stack, m'). (stack ≡ top - room ts) × Within stack top m m' × Stand top ts old m'
  unfolding copy_strings
  copy_strings-Stand [] top m all w low below clear =
      ((top, m), refl, (omega arith, (λ b out. refl), tt))
  copy_strings-Stand (t ∷ ts) top m (o, all) w low below clear =
      let dest : ℕ = top - (t.1 + 1) in
      let at : sub64 (sub64 top t.1) 1 ≡ dest = omega arith in
      rw (strlen-Outside t m o w, ◌>>=◌, at)
        (Returns-bind (memcpy-copied dest t.0 t.1 m (omega arith) o.some (ground (arith, o.apart)))
          λ m1 same.
            let w1 : Within dest top m m1 =
              λ b out. same b ∙ copied-outside m dest t.0 t.1 b (ground (arith, out)) in
            let clear1 : (b : ℕ) → lo ≤ b → b < dest → m1 b ≡ 0 =
              λ b p q. w1 b (inl q) ∙ clear b p (omega arith) in
            Returns_mono
              (copy_strings-Stand ts dest m1 all
                (Within-trans w (Within-mono (omega arith) below w1)) (omega arith) (omega arith)
                clear1)
              λ (stack, m') (e, w2, stand). (
                omega arith,
                Within-trans (Within-mono (omega arith) (omega arith) w1)
                    (Within-mono (omega arith) (omega arith) w2),
                (
                  (λ j h.
                      w2 (dest + j) (inr (omega arith))
                      ∙ copied_text t top m m1 o w (omega arith) below clear same j h),
                  stand,
                ),
              ))

  pub write_pointers-Words :
      (ts : List Text) (rsp stack : ℕ) (m : Memory)
      → All Outside ts
      → Within lo hi old m
      → lo ≤ stack
      → stack + 8 * length ts ≤ hi
      → room ts ≤ rsp
      → rsp < 2 ^ 64
      → Returns (write_pointers (addresses ts) rsp stack m) λ (rsp', m').
        (rsp' ≡ rsp - room ts)
        × Within stack (stack + 8 * length ts) m m'
        × Words stack (places rsp ts) m'
  unfolding write_pointers
  write_pointers-Words [] rsp stack m all w low below fits small =
      ((rsp, m), refl, (omega arith, (λ b out. refl), tt))
  write_pointers-Words (t ∷ ts) rsp stack m (o, all) w low below fits small =
      let place : ℕ = rsp - (t.1 + 1) in
      let short : t.1 + 1 < 2 ^ 64 = omega arith in
      let at : sub64 rsp (add64 t.1 1) ≡ place = omega arith in
      let m1 = store64 stack place m in
      let w1 : Within stack (stack + 8) m m1 = λ b out. store64_outside stack place m b out in
      rw (strlen-Outside t m o w, ◌>>=◌, at)
        (Returns_mono
          (write_pointers-Words ts place (stack + 8) m1 all
            (Within-trans w (Within-mono low (omega arith) w1)) (omega arith) (omega arith)
            (omega arith) (omega arith))
          λ (rsp', m') (e, w2, words). (
            omega arith,
            Within-trans (Within-mono (omega arith) (omega arith) w1)
                (Within-mono (omega arith) (omega arith) w2),
            (
              load64-same stack m1 m' (λ b p q. w2 b (inl (omega arith)))
                  ∙ load64-store64 stack place m (omega arith),
              words,
            ),
          ))

  pub length-places : (ts : List Text) (rsp : ℕ) → length (places rsp ts) ≡ length ts
  length-places [] rsp = refl
  length-places (t ∷ ts) rsp = ap suc (length-places ts (rsp - (t.1 + 1)))

  -- A null pointer, and below it the addresses of the strings.
  pub push_strings-Grown :
      {top : ℕ} {m0 : Memory}
      → (ts : List Text) (rsp : ℕ) (ws : List ℕ) (stack : ℕ × Memory) → All Outside ts
      → Within lo hi old m0
      → top ≤ hi
      → lo + 8 * (length ts + 1 + length ws) ≤ top
      → room ts ≤ rsp
      → rsp < 2 ^ 64
      → Grown lo top m0 ws stack
      → Returns (push_strings (addresses ts) rsp stack) λ (rsp', a', m').
        (rsp' ≡ rsp - room ts) × Grown lo top m0 (places rsp ts ++ 0 ∷ ws) (a', m')
  unfolding push_strings
  push_strings-Grown {top} {m0} ts rsp ws (a, m) all w below low fits small g =
      let start : ℕ = a - 8 - 8 * length ts in
      let at : sub64 a 8 ≡ a - 8 = omega (arith, g.at_word) in
      let at' : sub64 (a - 8) (8 * length ts) ≡ start = omega (arith, g.at_word) in
      let m1 = store64 (a - 8) 0 m in
      let g1 : Grown lo top m0 (0 ∷ ws) (a - 8, m1) =
        rw at at (push-Grown (omega arith) 0 ws (a, m) (omega arith) (omega arith) g) in
      let end : start + 8 * length ts ≡ a - 8 = omega (arith, g.at_word) in
      rw (length-addresses, at, at')
        (Returns-bind
          (write_pointers-Words ts rsp start m1 all
            (Within-trans w (Within-mono (omega arith) below g1.within)) (omega (arith, g.at_word))
            (omega (arith, g.at_word)) fits small)
          λ (rsp', m') (e, w2, words). (
            (rsp', start, m'),
            refl,
            (
              e,
              record {
                at_word = omega (
                  arith,
                  g.at_word,
                  length-append (places rsp ts) (0 ∷ ws),
                  length-places ts rsp,
                );
                held = Words-append (places rsp ts) (0 ∷ ws) start m' words (
                    rw (length-places, end)
                      (Words-keep (0 ∷ ws) (a - 8) (λ b p. w2 b (inr (omega arith))) g1.held));
                within =
                    Within-trans g1.within
                      (Within-mono (omega (arith, g.at_word)) (omega (arith, g.at_word)) w2);
              },
            ),
          ))
