-- ===== src/Common/Utf8.antt =====
-- The UTF-8 bytes of Rust's `str` determine it.
use Prim.Native.Nat.{ℕ}
use mathlib.Core.Path.{◌≡◌, refl, sym}
use mathlib.Core.List.{List, [], ◌∷◌, ◌++◌}
use native.Mathlib.Omega.{arith}
use reprodb.Common.Text.{Text, utf8, bytes}

utf8-injective : (c d : ℕ) (us vs : List ℕ) → utf8 c ++ us ≡ utf8 d ++ vs → (c ≡ d) × (us ≡ vs)
unfolding utf8
utf8-injective c d us vs h = ground (arith, h)

utf8-not_nil : (c : ℕ) (us : List ℕ) → utf8 c ++ us ≡ [] → ⊥
unfolding utf8
utf8-not_nil c us h = ground (arith, h)

pub bytes-injective : (s t : Text) → bytes s ≡ bytes t → s ≡ t
unfolding bytes
bytes-injective [] [] h = refl
bytes-injective [] (d ∷ t) h = absurd (utf8-not_nil d (bytes t) (sym h))
bytes-injective (c ∷ s) [] h = absurd (utf8-not_nil c (bytes s) h)
bytes-injective (c ∷ s) (d ∷ t) h =
    let both = utf8-injective c d (bytes s) (bytes t) h in cc (both.0, bytes-injective s t both.1)
