-- ===== src/Str/Token.antt =====
-- `strtok` of lib/str.c in memory, against the tokens of a string as a value.
use flan.Base.{
  ℕ, zero, suc, ◌+◌, ◌-◌, ◌^◌, ◌≤◌, ◌<◌, ◌≡◌, ◌≢◌, refl, ◌∙◌, true, false, Option, none, some, [],
  ◌∷◌, ok, ◌>>=◌, Returns, arith, ◌==◌, if◌then◌else◌, length, ==_self, Bool-cases, inl, inr,
}
use flan.Mem.{Memory, store}
use flan.Str.{strchr, strchr_from, strtok, strtok_from}
use flan.Str.Names.{Name, cut}

-- The bytes of a string, and the zero byte behind them, from an address on.
abbrev pub Spells : Memory → ℕ → Name → Type 0
Spells m p [] = m p ≡ 0
Spells m p (c ∷ w) = (m p ≡ c) × (c ≢ 0) × Spells m (p + 1) w

-- The string "/".
pub record IsSlash (m : Memory) (delim : ℕ) : Type 0 where
  pub first : m delim ≡ b'/'
  pub end : m (delim + 1) ≡ 0
  pub some_delim : delim ≢ 0
  pub inside : delim + 1 < 2 ^ 64

strchr_from-slash :
    (m : Memory) (delim c k : ℕ)
    → IsSlash m delim
    → c ≢ 0
    → strchr_from (suc (suc k)) delim c m ≡ ok (if c == b'/' then delim else 0)
unfolding strchr_from
strchr_from-slash m delim c k h some_c = ground (arith, h.first, h.end)

strchr-slash :
    (m : Memory) (delim c : ℕ)
    → IsSlash m delim
    → c ≢ 0
    → strchr delim c m ≡ ok (if c == b'/' then delim else 0)
unfolding strchr
strchr-slash m delim c h some_c =
    let e : 2 ^ 64 - delim ≡ suc (suc (2 ^ 64 - delim - 2)) = omega (arith, h.inside) in
    rw e (strchr_from-slash m delim c (2 ^ 64 - delim - 2) h some_c)

Spells-same :
    (m m' : Memory) (p : ℕ) (w : Name)
    → Spells m p w
    → ((a : ℕ) → p ≤ a → m' a ≡ m a)
    → Spells m' p w
Spells-same m m' p [] h same = rw (same p (omega arith)) h
Spells-same m m' p (c ∷ w) h same = (
  rw (same p (omega arith)) h.0,
  h.1,
  Spells-same m m' (p + 1) w h.2 (λ a q. same a (omega arith)),
)

-- What `strtok` leaves for the next call.
abbrev pub Rest : Memory → Memory → ℕ → ℕ → Name → Option Name → Type 0
Rest m m' s p t none = (s ≡ 0) × ((a : ℕ) → m' a ≡ m a)
Rest m m' s p t (some r) =
    (s ≡ p + length t + 1) × Spells m' s r × ((a : ℕ) → a ≢ p + length t → m' a ≡ m a)

Rest-below :
    (m m' : Memory) (s p : ℕ) (t : Name) (o : Option Name) → Rest m m' s (p + 1) t o → m' p ≡ m p
Rest-below m m' s p t none r = r.1 p
Rest-below m m' s p t (some w) r = r.2 p (omega arith)

Rest-cons :
    (m m' : Memory) (s p c : ℕ) (t : Name) (o : Option Name)
    → Rest m m' s (p + 1) t o
    → Rest m m' s p (c ∷ t) o
Rest-cons m m' s p c t none r = r
Rest-cons m m' s p c t (some w) r = (omega (arith, r.0), r.1, λ a q. r.2 a (omega (arith, q)))

strtok_from-cut :
    (m : Memory) (delim token : ℕ) (left p : ℕ) (w : Name)
    → IsSlash m delim
    → Spells m p w
    → length w < left
    → Returns (strtok_from left delim token p m) λ (token', s, m').
      (token' ≡ token) × Spells m' p (cut w).0 × Rest m m' s p (cut w).0 (cut w).1
unfolding strtok_from cut
strtok_from-cut m delim token zero p w h sp room = absurd (omega arith)
strtok_from-cut m delim token (suc left) p [] h sp room =
    let e : (m p == 0) ≡ true = ground arith in
    rw (e, strtok_from) (_, refl, (refl, sp, (refl, λ a. refl)))
strtok_from-cut m delim token (suc left) p (c ∷ w) h sp room =
    let e : (m p == 0) ≡ false = ground (arith, sp.0, sp.1) in
    let at = strchr-slash m delim c h sp.1 in
    elim (Bool-cases (c == b'/')) [
      | inl slash ↦
          let found : (delim == 0) ≡ false = ground (arith, h.some_delim) in
          let start : p + 0 ≡ p = omega arith in
          rw (e, strtok_from, sp.0, at, ◌>>=◌, slash, found, start)
            (
              _,
              refl,
              (
                refl,
                rw (==_self p) refl,
                (
                  refl,
                  Spells-same m (store m p 0) (p + 1) w sp.2 (λ a q. ground arith),
                  λ a q. ground arith,
                ),
              ),
            )
      | inr other ↦
          let (r, run, (token_same, spelled, rest)) =
            strtok_from-cut m delim token left (p + 1) w h sp.2 (omega arith) in
          rw (e, strtok_from, sp.0, at, ◌>>=◌, other)
            (
              r,
              run,
              (
                token_same,
                (Rest-below m r.2 r.1 p (cut w).0 (cut w).1 rest ∙ sp.0, sp.1, spelled),
                Rest-cons m r.2 r.1 p c (cut w).0 (cut w).1 rest,
              ),
            )
    ]

-- A call of `strtok` with the delimiter "/", on a new string or on the rest of the last one,
-- returns the start of the string. The token there is what comes before the first slash, and may
-- be empty; the next call begins behind the slash, which is now a zero byte, and answers `NULL`
-- where there was none. No other byte has changed.
pub strtok-cut :
    (m : Memory) (str delim s p : ℕ) (w : Name)
    → (if str == 0 then s else str) ≡ p
    → p ≢ 0
    → p + length w < 2 ^ 64
    → IsSlash m delim
    → Spells m p w
    → Returns
        (strtok str delim s m)
        λ (token, s', m'). (token ≡ p) × Spells m' p (cut w).0 × Rest m m' s' p (cut w).0 (cut w).1
unfolding strtok
strtok-cut m str delim s p w start some_p inside h sp =
    let e : (p == 0) ≡ false = ground arith in
    rw (start, e) (strtok_from-cut m delim p (2 ^ 64 - p) p w h sp (omega arith))
