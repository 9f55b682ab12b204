-- ===== src/Base/Results.antt =====
-- What a call of kernel code comes to.
use mathlib.Core.Path.{◌≡◌, refl, ap, sym, ◌∙◌, subst}

-- `halt`: a failed `assert`, which stops the core in `hlt` for ever. `fault`: an access that C
-- leaves undefined, such as one through a null pointer or outside of an object.
pub data Outcome {ℓ} (A : Type ℓ) : Type ℓ where
  ok : A → Outcome A
  halt : Outcome A
  fault : Outcome A

infixl 5 ◌>>=◌ ◌>>◌
abbrev pub ◌>>=◌ {ℓ κ} : {A : Type ℓ} {B : Type κ} → Outcome A → (A → Outcome B) → Outcome B
ok a >>= f = f a
halt >>= f = halt
fault >>= f = fault

abbrev pub ◌>>◌ {ℓ} : {B : Type ℓ} → Outcome (Unit {0}) → Outcome B → Outcome B
m >> k = m >>= λ _. k

-- The call returns, with a result that satisfies `P`.
abbrev pub Returns {ℓ κ} : {A : Type ℓ} → Outcome A → (A → Type κ) → Type (ℓ ⊔ κ)
Returns {A} r P = (a : A) × (r ≡ ok a) × P a

-- A call that returns goes on with what follows it.
pub Returns-bind {ℓ κ μ ν} :
    {A : Type ℓ} {B : Type κ} {P : A → Type μ} {Q : B → Type ν} {r : Outcome A} {f : A → Outcome B}
    → Returns r P
    → ((a : A) → P a → Returns (f a) Q)
    → Returns (r >>= f) Q
Returns-bind (a, e, p) next = rw e (next a p)

pub Returns_mono {ℓ κ ν} :
    {A : Type ℓ} {P : A → Type κ} {Q : A → Type ν} {r : Outcome A}
    → Returns r P
    → ((a : A) → P a → Q a)
    → Returns r Q
Returns_mono (a, e, p) weaken = (a, e, weaken a p)

ok_or {ℓ} : {A : Type ℓ} → A → Outcome A → A
ok_or d (ok a) = a
ok_or d halt = d
ok_or d fault = d

pub ok-injective {ℓ} : {A : Type ℓ} {a b : A} → ok a ≡ ok b → a ≡ b
unfolding ok_or
ok-injective {a} e = ap (ok_or a) e

-- What is known of the result, at the result.
pub Returns-at {ℓ κ} :
    {A : Type ℓ} {P : A → Type κ} {r : Outcome A} {a : A} → Returns r P → r ≡ ok a → P a
Returns-at {P} (b, e, p) h = subst P (ok-injective (sym e ∙ h)) p

-- Calls that go on in the same way at each result.
pub bind-ext {ℓ κ} :
    {A : Type ℓ} {B : Type κ} (r : Outcome A) {f g : A → Outcome B}
    → ((a : A) → f a ≡ g a)
    → (r >>= f) ≡ (r >>= g)
bind-ext (ok a) same = same a
bind-ext halt same = refl
bind-ext fault same = refl
