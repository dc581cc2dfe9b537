-- ===== src/Xmac/If/Held.antt =====
-- The mbufs that the slots of a ring hold.
use phytium_sdk.Prelude.{
  ℕ, zero, suc, ◌<◌, ltb, ◌≡◌, refl, List, [], ◌∷◌, ◌++◌, Option, none, some, if◌then◌else◌, arith,
}

module _ {ℓ} {A : Type ℓ} where
  abbrev pub cons_some : Option A → List A → List A
  cons_some none xs = xs
  cons_some (some x) xs = x ∷ xs

  -- what the slots below `n` hold, the highest first
  unfoldable pub held : (ℕ → Option A) → ℕ → List A
  held slots zero = []
  held slots (suc n) = cons_some (slots n) (held slots n)

  pub cons_some-append :
      (o : Option A) (xs ys : List A) → cons_some o (xs ++ ys) ≡ cons_some o xs ++ ys
  cons_some-append none xs ys = refl
  cons_some-append (some x) xs ys = refl

pub none_below :
    {A : Type 0} (p n : ℕ) (o : Option A) → p < n → (if ltb p n then none else o) ≡ none
none_below p n o below = ground arith
