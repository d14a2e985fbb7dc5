-- ===== src/Common/Actions.antt =====
-- Actions that change a state of type `W` and may fail: `Result` after the state is passed along.
-- What a failed action did to the state stays done.
use reprodb.Common.Results.{Result, ok, err}

abbrev pub Action {ω ε ℓ} : Type ω → Type ε → Type ℓ → Type (ω ⊔ ε ⊔ ℓ)
Action W E A = W → Result E A × W

module _ {ω ε ℓ κ} {W : Type ω} {E : Type ε} {A : Type ℓ} {B : Type κ} where
  abbrev continue : Result E A × W → (A → Action W E B) → Result E B × W
  continue (ok a, w) f = f a w
  continue (err e, w) f = (err e, w)

  infixl 5 ◌>>=◌
  abbrev pub ◌>>=◌ : Action W E A → (A → Action W E B) → Action W E B
  (m >>= f) w = continue (m w) f

infixl 5 ◌>>◌
abbrev pub ◌>>◌ {ω ε ℓ} :
    {W : Type ω} {E : Type ε} {B : Type ℓ} → Action W E (Unit {0}) → Action W E B → Action W E B
m >> k = m >>= λ _. k

-- A result that leaves the state alone.
abbrev pub lift {ω ε ℓ} : {W : Type ω} {E : Type ε} {A : Type ℓ} → Result E A → Action W E A
lift r w = (r, w)
