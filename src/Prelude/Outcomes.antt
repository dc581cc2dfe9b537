-- ===== src/Prelude/Outcomes.antt =====
-- What a C function that may panic, dereference NULL or loop on fuel comes to.
use mathlib.Core.Path.{◌≡◌, refl, ap}
use mathlib.Core.Bool.{Bool, true, false}
use phytium_sdk.Prelude.Tests.{if◌then◌else◌}
use mathlib.Core.Logic.{◌≢◌}
use mathlib.Core.Option.{Option, none, some}

-- `panics` is `panic()` or a fault, `out_of_fuel` a loop that was given too few rounds.
pub data Outcome {ℓ} (A : Type ℓ) : Type ℓ where
  returns : A → Outcome A
  panics : Outcome A
  out_of_fuel : Outcome A

infixl 5 ◌>>=◌
abbrev pub ◌>>=◌ {ℓ κ} : {A : Type ℓ} {B : Type κ} → Outcome A → (A → Outcome B) → Outcome B
returns a >>= f = f a
panics >>= f = panics
out_of_fuel >>= f = out_of_fuel

abbrev pub or_panic {ℓ} : {A : Type ℓ} → Option A → Outcome A
or_panic none = panics
or_panic (some a) = returns a

pub bind-ends {ℓ κ} :
    {A : Type ℓ} {B : Type κ} (m : Outcome A) (f : A → Outcome B)
    → m ≢ out_of_fuel
    → ((a : A) → f a ≢ out_of_fuel)
    → (m >>= f) ≢ out_of_fuel
bind-ends (returns a) f h k = k a
bind-ends panics f h k = λ e. cc
bind-ends out_of_fuel f h k = λ e. h refl

-- Inversion of a call that returned.
pub bind-eq-returns {ℓ κ} :
    {A : Type ℓ} {B : Type κ} (m : Outcome A) (f : A → Outcome B) {b : B}
    → (m >>= f) ≡ returns b
    → (a : A) × (m ≡ returns a) × (f a ≡ returns b)
bind-eq-returns (returns a) f h = (a, refl, h)
bind-eq-returns panics f h = cc
bind-eq-returns out_of_fuel f h = cc

-- The call returns.
abbrev pub Safe {ℓ} : {A : Type ℓ} → Outcome A → Type 0
Safe (returns a) = Unit {0}
Safe panics = ⊥
Safe out_of_fuel = ⊥

pub bind-Safe {ℓ κ} :
    {A : Type ℓ} {B : Type κ} (m : Outcome A) (f : A → Outcome B)
    → Safe m
    → ((a : A) → m ≡ returns a → Safe (f a))
    → Safe (m >>= f)
bind-Safe (returns a) f h k = k a refl
bind-Safe panics f h k = absurd h
bind-Safe out_of_fuel f h k = absurd h

pub Safe-returns {ℓ} : {A : Type ℓ} (o : Outcome A) → Safe o → (a : A) × (o ≡ returns a)
Safe-returns (returns a) h = (a, refl)
Safe-returns panics h = absurd h
Safe-returns out_of_fuel h = absurd h

-- the result of a call that returns
abbrev pub result_of {ℓ} : {A : Type ℓ} → A → Outcome A → A
result_of d (returns a) = a
result_of d panics = d
result_of d out_of_fuel = d

pub returns-injective {ℓ} : {A : Type ℓ} {a b : A} → returns a ≡ returns b → a ≡ b
returns-injective e = cc

-- A call that returned is followed by the rest.
pub bind-returns {ℓ κ} :
    {A : Type ℓ} {B : Type κ} (m : Outcome A) (f : A → Outcome B) {a : A}
    → m ≡ returns a
    → (m >>= f) ≡ f a
bind-returns m f e = ap (λ x. x >>= f) e

-- A call that returns, or no call at all.
pub if-returns {ℓ} :
    {A : Type ℓ} (b : Bool) (m : Outcome A) (x : A)
    → Safe m
    → (a : A) × ((if b then m else returns x) ≡ returns a)
if-returns true m x h = Safe-returns m h
if-returns false m x h = (x, refl)
