-- ===== src/Common/Results.antt =====
-- `Result<A, E>`, the `?` operator as bind, and actions that change a state and may fail.
use mathlib.Core.Path.{◌≡◌, refl}
use mathlib.Core.Logic.{◌↔◌}
use mathlib.Core.Bool.{Bool, true, false}
use mathlib.Core.Option.{Option, none, some}

pub data Result {ε ℓ} (E : Type ε) (A : Type ℓ) : Type (ε ⊔ ℓ) where
  ok : A → Result E A
  err : E → Result E A

-- `if !b { return Err(e) }`.
abbrev pub guard {ε} : {E : Type ε} → Bool → E → Result E (Unit {0})
guard false failure = err failure
guard true failure = ok tt

-- `map_err`, which `?` also applies through `From`.
abbrev pub map_err {ε φ ℓ} :
    {E : Type ε} {F : Type φ} {A : Type ℓ} → (E → F) → Result E A → Result F A
map_err f (ok a) = ok a
map_err f (err e) = err (f e)

-- `ok_or`.
abbrev pub ok_or {ε ℓ} : {E : Type ε} {A : Type ℓ} → E → Option A → Result E A
ok_or e (some a) = ok a
ok_or e none = err e

-- `.ok()`.
abbrev pub to_option {ε ℓ} : {E : Type ε} {A : Type ℓ} → Result E A → Option A
to_option (ok a) = some a
to_option (err e) = none

abbrev pub is_ok {ε ℓ} : {E : Type ε} {A : Type ℓ} → Result E A → Bool
is_ok (ok a) = true
is_ok (err e) = false

-- `?`.
infixl 5 ◌>>=◌
abbrev pub ◌>>=◌ {ε ℓ κ} :
    {E : Type ε} {A : Type ℓ} {B : Type κ} → Result E A → (A → Result E B) → Result E B
err failure >>= next = err failure
ok value >>= next = next value

-- `?;`.
infixl 5 ◌>>◌
abbrev pub ◌>>◌ {ε ℓ} : {E : Type ε} {B : Type ℓ} → Result E (Unit {0}) → Result E B → Result E B
first >> rest = first >>= λ done. rest

-- A check behind another passes exactly if both do.
pub >>-guard_iff {ε} :
    {E : Type ε} (m : Result E (Unit {0})) (b : Bool) (e : E)
    → ((m >> guard b e) ≡ ok tt) ↔ ((m ≡ ok tt) × (b ≡ true))
>>-guard_iff (ok tt) true e = (λ h. (refl, refl), λ h. refl)
>>-guard_iff (ok tt) false e = (λ h. cc, λ h. cc)
>>-guard_iff (err f) b e = (λ h. cc, λ h. cc)

pub guard-ok {ε} : {E : Type ε} (b : Bool) (e : E) {u : Unit {0}} → guard b e ≡ ok u → b ≡ true
guard-ok true e h = refl
guard-ok false e h = cc

pub ok_or-eq-ok {ε ℓ} :
    {E : Type ε} {A : Type ℓ} (e : E) (o : Option A) {a : A} → ok_or e o ≡ ok a → o ≡ some a
ok_or-eq-ok e (some b) h = cc
ok_or-eq-ok e none h = cc

pub map_err-eq-ok {ε φ ℓ} :
    {E : Type ε} {F : Type φ} {A : Type ℓ} (f : E → F) (m : Result E A) {a : A}
    → map_err f m ≡ ok a
    → m ≡ ok a
map_err-eq-ok f (ok b) h = cc
map_err-eq-ok f (err e) h = cc

-- The same by continuation, which keeps the parts as variables.
pub >>=-elim {ε ℓ κ ι} :
    {E : Type ε} {A : Type ℓ} {B : Type κ} {C : Type ι} (m : Result E A) (f : A → Result E B)
    {b : B}
    → (m >>= f) ≡ ok b
    → ((a : A) → m ≡ ok a → f a ≡ ok b → C)
    → C
>>=-elim (ok a) f h k = k a refl h
>>=-elim (err e) f h k = absurd (cc)

pub guard-elim {ε ℓ ι} :
    {E : Type ε} {B : Type ℓ} {C : Type ι} (b : Bool) (e : E) (m : Result E B) {a : B}
    → (guard b e >> m) ≡ ok a
    → (b ≡ true → m ≡ ok a → C)
    → C
guard-elim true e m h k = k refl h
guard-elim false e m h k = absurd (cc)
