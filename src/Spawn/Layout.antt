-- ===== src/Spawn/Layout.antt =====
-- The whole stack that `sched_user_thread` of proc/sched.c prepares for a program.
use flan.Base.{
  ℕ, ◌+◌, ◌-◌, ◌*◌, ◌/◌, ◌%◌, ◌^◌, ◌≤◌, ◌<◌, ◌≡◌, inl, inr, ◌∙◌, refl, ap, List, [], ◌∷◌, ◌++◌, ok,
  Returns, Returns-bind, Returns_mono, All, arith, length, length-append, ◌>>=◌, Bool-cases, ◌==◌,
  if◌then◌else◌,
}
use native.Mathlib.Nat.{mod-eq_of_lt}
use flan.Base.Words.{sub64, align_down}
use flan.Base.Bits.{bit_and-mask}
use flan.Mem.{Memory}
use flan.Spawn.{
  Auxval, tag_phdr, tag_phent, tag_phnum, tag_entry, push, push_auxiliary, push_strings,
  first_stack,
}
use flan.Spawn.Words.{Words, Within, Within-trans, Within-mono, Grown, push-Grown, push_pair-Grown}
use flan.Spawn.Strings.{
  Text, room, places, addresses, Stand, Outside, length-addresses, length-places,
  copy_strings-Stand, push_strings-Grown,
}

-- `align_down` to 16 is the next multiple of 16 below.
align_down_lem : (a : ℕ) → a < 2 ^ 64 → align_down a 16 ≡ a / 16 * 16
unfolding align_down
align_down_lem a small =
    let low : a / 16 < 2 ^ 60 = omega arith in
    bit_and-mask 4 60 a ∙ ap (λ (t : ℕ). t * 16) (mod-eq_of_lt low)

pub record Small (aux : Auxval) : Type 0 where
  pub entry : aux.at_entry < 2 ^ 64
  pub phdr : aux.at_phdr < 2 ^ 64
  pub phent : aux.at_phent < 2 ^ 64
  pub phnum : aux.at_phnum < 2 ^ 64

-- The entries of the auxiliary vector, and all words of the stack.
abbrev pub entries : Auxval → List ℕ
entries aux =
    tag_phnum ∷ aux.at_phnum ∷ tag_phent ∷ aux.at_phent ∷ tag_phdr ∷ aux.at_phdr ∷ tag_entry
    ∷ aux.at_entry ∷ 0 ∷ 0 ∷ []

abbrev pub words : ℕ → List Text → List Text → Auxval → List ℕ
words rsp argv envp aux =
    length argv ∷ places (rsp - room envp) argv ++ (0 ∷ (places rsp envp ++ (0 ∷ entries aux)))

module _ {lo top : ℕ} {old : Memory} (high : top < 2 ^ 64) where
  push_auxiliary-Grown :
      (aux : Auxval) (stack : ℕ × Memory)
      → Small aux
      → lo + 80 ≤ top
      → Grown lo top old [] stack
      → Grown lo top old (entries aux) (push_auxiliary aux stack)
  unfolding push_auxiliary
  push_auxiliary-Grown aux stack small low g =
      push_pair-Grown high tag_phnum aux.at_phnum _ _ (omega arith) small.phnum (omega arith) (
        push_pair-Grown high tag_phent aux.at_phent _ _ (omega arith) small.phent (omega arith) (
          push_pair-Grown high tag_phdr aux.at_phdr _ _ (omega arith) small.phdr (omega arith) (
            push_pair-Grown high tag_entry aux.at_entry _ _ (omega arith) small.entry (omega arith)
              (push-Grown high 0 _ _ (omega arith) (omega arith)
                (push-Grown high 0 _ _ (omega arith) (omega arith) g)))))

Stand-keep :
    (ts : List Text) (top : ℕ) (old : Memory) {m m' : Memory}
    → room ts ≤ top
    → ((b : ℕ) → top - room ts ≤ b → m' b ≡ m b)
    → Stand top ts old m
    → Stand top ts old m'
Stand-keep [] top old fits same stand = tt
Stand-keep (t ∷ ts) top old fits same (here, later) = (
  λ j h. same (top - (t.1 + 1) + j) (omega arith) ∙ here j h,
  Stand-keep ts (top - (t.1 + 1)) old (omega arith) (λ b p. same b (omega arith)) later,
)

-- The stack pointer after the padding, which makes the words an even number.
aligned : ℕ → ℕ → ℕ
aligned stack n = if (n + 1) % 2 == 1 then sub64 (align_down stack 16) 8 else align_down stack 16

aligned-bounds :
    (stack n : ℕ)
    → 24 ≤ stack
    → stack < 2 ^ 64
    → (aligned stack n ≤ stack)
      × (stack ≤ aligned stack n + 23)
      × ((aligned stack n + 8 * (n + 13)) % 16 ≡ 0)
unfolding aligned
aligned-bounds stack n some small =
    let at = align_down_lem stack small in
    let at' : sub64 (stack / 16 * 16) 8 ≡ stack / 16 * 16 - 8 = omega arith in
    elim (Bool-cases ((n + 1) % 2 == 1)) [
      | inl odd ↦ rw (odd, at, at') (ground arith, ground arith, ground arith)
      | inr even ↦ rw (even, at) (ground arith, ground arith, ground arith)
    ]

module _ (lo top : ℕ) (old : Memory) (some_low : 0 < lo) (high : top < 2 ^ 64)
    (argv envp : List Text) (aux : Auxval) where
  length-words : (rsp : ℕ) → length (words rsp argv envp aux) ≡ length argv + length envp + 13
  length-words rsp = omega (
    arith,
    length-append (places (rsp - room envp) argv) (0 ∷ (places rsp envp ++ 0 ∷ entries aux)),
    length-append (places rsp envp) (0 ∷ entries aux),
    length-places old lo top some_low high argv (rsp - room envp),
    length-places old lo top some_low high envp rsp,
  )

  -- The pointers and numbers that stand below the strings.
  stack_words :
      (rsp stack : ℕ) (m : Memory)
      → All (Outside old lo top some_low high) envp
      → All (Outside old lo top some_low high) argv
      → Small aux
      → Within lo top old m
      → stack ≤ top
      → lo + 8 * (length argv + length envp + 13) ≤ stack
      → room envp + room argv ≤ rsp
      → rsp < 2 ^ 64
      → Returns
          (do
            (rsp1, stack5, m5) ← push_strings (addresses envp) rsp (push_auxiliary aux (stack, m))
            (rsp2, stack6, m6) ← push_strings (addresses argv) rsp1 (stack5, m5)
            ok (push (length argv) (stack6, m6)))
          (Grown lo stack m (words rsp argv envp aux))
  stack_words rsp stack m outside1 outside2 small w below low fits fits' =
      let start : Grown lo stack m [] (stack, m) = record {
        at_word = omega arith;
        held = tt;
        within = λ b out. refl;
      } in
      let high' : stack < 2 ^ 64 = omega arith in
      Returns-bind
        (push_strings-Grown old lo top some_low high envp rsp (entries aux)
          (push_auxiliary aux (stack, m)) outside1 w below (omega arith) (omega arith) fits'
          (push_auxiliary-Grown high' aux (stack, m) small (omega arith) start))
        λ (rsp1, stack5, m5) (e, g).
          let count = length-append (places rsp envp) (0 ∷ entries aux) in
          let count' = length-places old lo top some_low high envp rsp in
          Returns-bind
            (push_strings-Grown old lo top some_low high argv rsp1
              (places rsp envp ++ 0 ∷ entries aux) (stack5, m5) outside2 w below
              (omega (arith, count, count')) (omega (arith, e)) (omega (arith, e)) g)
            λ (rsp2, stack6, m6) (e', g').
              let count2 =
                length-append (places rsp1 argv) (0 ∷ (places rsp envp ++ 0 ∷ entries aux)) in
              let count2' = length-places old lo top some_low high argv rsp1 in
              (
                push (length argv) (stack6, m6),
                refl,
                rw (← e) (
                    push-Grown high' (length argv) _ (stack6, m6) (omega arith)
                      (omega (arith, count, count', count2, count2')) g'),
              )

  -- A program's first stack. Let the strings of the arguments and of the environment stand outside
  -- of the stack's memory from `lo` to `top`, not at `NULL`; let that memory be cleared and have room for the
  -- strings, for 13 words and one for each string, and for 24 bytes more; let the program's addresses `rsp`
  -- hold the strings below them, and let all numbers be below 2 ^ 64. Then the stack is made: its
  -- pointer is a multiple of 16, only bytes from `lo` to `top` change, each string stands with its
  -- zero byte at its place below `top`, the environment first, and from the pointer on there are the number of
  -- arguments, their places as the program sees them below `rsp`, a null pointer, the places of the environment, a
  -- null pointer, and the entries of the auxiliary vector, of which the last is zero.
  pub first_stack_lem :
      (rsp : ℕ)
      → All (Outside old lo top some_low high) envp
      → All (Outside old lo top some_low high) argv
      → Small aux
      → ((b : ℕ) → lo ≤ b → b < top → old b ≡ 0)
      → lo + room envp + room argv + 8 * (length argv + length envp + 13) + 24 ≤ top
      → room envp + room argv ≤ rsp
      → rsp < 2 ^ 64
      → Returns (first_stack top rsp (addresses argv) (addresses envp) aux old) λ (stack, m).
        (lo ≤ stack)
        × (stack % 16 ≡ 0)
        × Within lo top old m
        × Stand top envp old m
        × Stand (top - room envp) argv old m
        × Words stack (words rsp argv envp aux) m
  unfolding first_stack aligned
  first_stack_lem rsp outside1 outside2 small clear low fits fits' =
      Returns-bind
        (copy_strings-Stand old lo top some_low high envp top old outside1 (λ b out. refl)
          (omega arith) (omega arith) clear)
        λ (stack1, m1) (e1, w1, stand1).
          Returns-bind
            (copy_strings-Stand old lo top some_low high argv stack1 m1 outside2
              (Within-mono (omega arith) (omega arith) w1) (omega arith) (omega arith)
              (λ b p q. w1 b (inl q) ∙ clear b p (omega arith)))
            λ (stack2, m2) (e2, w2, stand2).
              let n : ℕ = length argv + length envp in
              let stack4 : ℕ = aligned stack2 n in
              let (below, near, even) = aligned-bounds stack2 n (omega arith) (omega arith) in
              let written =
                stack_words rsp stack4 m2 outside1 outside2 small
                  (Within-trans (Within-mono (omega arith) (omega arith) w1)
                    (Within-mono (omega arith) (omega arith) w2))
                  (omega arith) (omega arith) fits fits' in
              rw (length-addresses argv, length-addresses envp)
                (Returns_mono written λ (stack, m) g.
                  let size = length-words rsp in
                  let end : stack ≡ stack4 - 8 * (n + 13) = omega (arith, g.at_word, size) in
                  let above : (b : ℕ) → stack2 ≤ b → m b ≡ m2 b =
                    λ b p. g.within b (inr (omega arith)) in
                  (
                    omega arith,
                    omega arith,
                    Within-trans (Within-mono (omega arith) (omega arith) w1) (
                        Within-trans (Within-mono (omega arith) (omega arith) w2)
                          (Within-mono (omega arith) (omega arith) g.within)),
                    Stand-keep envp top old (omega arith)
                        (λ b p. above b (omega arith) ∙ w2 b (inr (omega arith))) stand1,
                    rw (← e1) (
                        Stand-keep argv stack1 old (omega arith) (λ b p. above b (omega arith))
                          stand2),
                    g.held,
                  ))
