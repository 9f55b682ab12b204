-- ===== src/Lock/Exclusion.antt =====
-- Any number of cores that use one spinlock, interleaved in any order.
use flan.Base.{ℕ, ◌≡◌, ◌⊎◌, inl, Bool, true, false, arith, ◌==◌, if◌then◌else◌}
use flan.Lock.{Spinlock, lock_init, spinlock_test_and_acq, spinlock_release}

-- The lock word, and the cores between a successful `spinlock_test_and_acq` and their
-- `spinlock_release`.
pub record Cores : Type 0 where
  pub word : Spinlock
  pub inside : ℕ → Bool

abbrev pub mark : (ℕ → Bool) → ℕ → Bool → ℕ → Bool
mark f c b d = if c == d then b else f d

-- An attempt by core `c`, and a release by a core that is inside.
pub data Step (s : Cores) (t : Cores) : Type 0 where
  attempt :
      (c : ℕ)
      → s.inside c ≡ false
      → t ≡ record {
        word = (spinlock_test_and_acq s.word).1;
        inside = mark s.inside c (spinlock_test_and_acq s.word).0;
      }
      → Step s t
  leave :
      (c : ℕ)
      → s.inside c ≡ true
      → t ≡ record { word = spinlock_release s.word; inside = mark s.inside c false }
      → Step s t

pub data Reach : Cores → Type 0 where
  start : (s : Cores) → s.word ≡ lock_init → ((c : ℕ) → s.inside c ≡ false) → Reach s
  next : {s t : Cores} → Reach s → Step s t → Reach t

-- The word is 1 exactly while one core is inside.
record IsExclusive (s : Cores) : Type 0 where
  free_or_taken : (s.word ≡ 0) ⊎ (s.word ≡ 1)
  free : s.word ≡ 0 → (c : ℕ) → s.inside c ≡ false
  one : (c d : ℕ) → s.inside c ≡ true → s.inside d ≡ true → c ≡ d

Step-IsExclusive : {s t : Cores} → Step s t → IsExclusive s → IsExclusive t
unfolding spinlock_test_and_acq spinlock_release
Step-IsExclusive {s} (attempt c out e) v = rw e (record {
  free_or_taken = ground arith;
  free = λ w d. absurd (ground arith);
  one = λ d f p q.
      ground (arith, v.one d f, λ (w : s.word ≡ 0). v.free w d, λ (w : s.word ≡ 0). v.free w f);
})
Step-IsExclusive (leave c was e) v = rw e (record {
  free_or_taken = ground arith;
  free = λ w d. ground (arith, v.one c d);
  one = λ d f p q. ground (arith, v.one d f);
})

Reach-IsExclusive : {s : Cores} → Reach s → IsExclusive s
Reach-IsExclusive (start s w o) = record {
  free_or_taken = inl w;
  free = λ _. o;
  one = λ c d p q. ground (arith, o c);
}
Reach-IsExclusive (next r st) = Step-IsExclusive st (Reach-IsExclusive r)

-- Whatever the interleaving, two cores are never between acquire and release at once.
pub mutual_exclusion :
    {s : Cores} (c d : ℕ) → Reach s → s.inside c ≡ true → s.inside d ≡ true → c ≡ d
mutual_exclusion c d r = (Reach-IsExclusive r).one c d
