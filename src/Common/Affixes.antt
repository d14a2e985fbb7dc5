-- ===== src/Common/Affixes.antt =====
-- Rust's `strip_suffix`, `ends_with` and `split_once` for a pattern that is a text.
use reprodb.Common.Tests.{if◌then◌else◌}
use reprodb.Common.Lists.{length, drop, All}
use reprodb.Common.Text.{Text, text_eq, starts_with}
use Prim.Native.Nat.{ℕ}
use mathlib.Core.Path.{◌≡◌, refl}
use mathlib.Core.Logic.{◌≢◌}
use mathlib.Core.Bool.{Bool, true, false}
use mathlib.Core.Option.{Option, none, some}
use mathlib.Core.List.{[], ◌∷◌, ◌++◌}
use native.Mathlib.Omega.{arith}

abbrev pub cons_to : ℕ → Option Text → Option Text
cons_to c none = none
cons_to c (some s) = some (c ∷ s)

-- `strip_suffix(p)`.
unfoldable pub strip_suffix : Text → Text → Option Text
strip_suffix [] p = if text_eq [] p then some [] else none
strip_suffix (c ∷ s) p = if text_eq (c ∷ s) p then some [] else cons_to c (strip_suffix s p)

-- `ends_with(p)`.
unfoldable pub ends_with : Text → Text → Bool
unfolding strip_suffix
ends_with s p = elim (strip_suffix s p) [ none ↦ false | some stem ↦ true ]

abbrev cons_left : ℕ → Option (Text × Text) → Option (Text × Text)
cons_left c none = none
cons_left c (some (a, b)) = some (c ∷ a, b)

-- `split_once(p)`: the parts round the first place where `p` stands.
unfoldable pub split_once_text : Text → Text → Option (Text × Text)
split_once_text p [] = if starts_with [] p then some ([], drop (length p) []) else none
split_once_text p (c ∷ s) =
    if starts_with (c ∷ s) p
    then some ([], drop (length p) (c ∷ s))
    else cons_left c (split_once_text p s)

-- The character does not stand in the text.
abbrev pub Lacks : ℕ → Text → Type 0
Lacks c = All (λ d. d ≢ c)

-- A text without the first character of a suffix does not end in it.
pub strip_suffix-Lacks : (s p : Text) (c : ℕ) → Lacks c s → strip_suffix s (c ∷ p) ≡ none
unfolding strip_suffix text_eq
strip_suffix-Lacks [] p c h = refl
strip_suffix-Lacks (d ∷ s) p c (n, h) = ground (arith, strip_suffix-Lacks s p c h)

pub split_once_text-Lacks : (s p : Text) (c : ℕ) → Lacks c s → split_once_text (c ∷ p) s ≡ none
unfolding split_once_text starts_with
split_once_text-Lacks [] p c h = refl
split_once_text-Lacks (d ∷ s) p c (n, h) = ground (arith, split_once_text-Lacks s p c h)

-- A text that holds the character somewhere lacks it nowhere.
pub Lacks-append : (s t : Text) (c : ℕ) → Lacks c (s ++ c ∷ t) → ⊥
Lacks-append [] t c (n, h) = n refl
Lacks-append (d ∷ s) t c (n, h) = Lacks-append s t c h
