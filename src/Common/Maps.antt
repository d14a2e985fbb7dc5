-- ===== src/Common/Maps.antt =====
-- `BTreeMap`: an association list in the order of its keys.
use mathlib.Core.Path.{◌≡◌, refl}
use mathlib.Core.Logic.{◌↔◌, inl, inr}
use mathlib.Core.Bool.{Bool, true, false}
use mathlib.Core.Option.{Option, none, some}
use mathlib.Core.List.{List, [], ◌∷◌}
use native.Mathlib.Omega.{arith}
use reprodb.Common.Tests.{if◌then◌else◌, Bool-cases}
use reprodb.Common.Lists.{All}

-- The key's `Eq` and `Ord`.
pub record Ord {ℓ} (K : Type ℓ) : Type ℓ where
  pub eqb : K → K → Bool
  pub before : K → K → Bool
  pub eqb_iff : (a b : K) → (eqb a b ≡ true) ↔ (a ≡ b)

module _ {ℓ κ} {K : Type ℓ} {V : Type κ} ⦃o : Ord K⦄ where
  unfoldable pub get : K → List (K × V) → Option V
  get k [] = none
  get k ((j, v) ∷ m) = if o.eqb j k then some v else get k m

  unfoldable pub contains_key : K → List (K × V) → Bool
  contains_key k [] = false
  contains_key k ((j, v) ∷ m) = if o.eqb j k then true else contains_key k m

  unfoldable pub replace : K → V → List (K × V) → List (K × V)
  replace k v [] = []
  replace k v ((j, w) ∷ m) = if o.eqb j k then (k, v) ∷ m else (j, w) ∷ replace k v m

  unfoldable pub place : K → V → List (K × V) → List (K × V)
  place k v [] = (k, v) ∷ []
  place k v ((j, w) ∷ m) = if o.before k j then (k, v) ∷ (j, w) ∷ m else (j, w) ∷ place k v m

  -- `insert`, and the write through `get_mut` where the key is there: the value at a key that is
  -- there is replaced, a new key comes before the first larger one.
  unfoldable pub insert : K → V → List (K × V) → List (K × V)
  unfolding replace place
  insert k v m = if contains_key k m then replace k v m else place k v m

  unfoldable pub remove : K → List (K × V) → List (K × V)
  remove k [] = []
  remove k ((j, w) ∷ m) = if o.eqb j k then remove k m else (j, w) ∷ remove k m

  get-replace :
      (k j : K) (v : V) (m : List (K × V))
      → contains_key k m ≡ true
      → get j (replace k v m) ≡ (if o.eqb k j then some v else get j m)
  unfolding get replace contains_key
  get-replace k j v [] h = cc
  get-replace k j v ((i, w) ∷ m) h =
      ground (arith, o.eqb_iff i k, o.eqb_iff i j, o.eqb_iff k j, get-replace k j v m)

  get-place :
      (k j : K) (v : V) (m : List (K × V))
      → contains_key k m ≡ false
      → get j (place k v m) ≡ (if o.eqb k j then some v else get j m)
  unfolding get place contains_key
  get-place k j v [] h = refl
  get-place k j v ((i, w) ∷ m) h =
      ground (arith, o.eqb_iff i k, o.eqb_iff i j, o.eqb_iff k j, get-place k j v m)

  pub get-insert :
      (k j : K) (v : V) (m : List (K × V))
      → get j (insert k v m) ≡ (if o.eqb k j then some v else get j m)
  unfolding insert
  get-insert k j v m = elim (Bool-cases (contains_key k m)) [
    | inl e ↦ rw e (get-replace k j v m e)
    | inr e ↦ rw e (get-place k j v m e)
  ]

  pub get-remove :
      (k j : K) (m : List (K × V)) → get j (remove k m) ≡ (if o.eqb k j then none else get j m)
  unfolding get remove
  get-remove k j [] = ground arith
  get-remove k j ((i, w) ∷ m) =
      ground (arith, o.eqb_iff i k, o.eqb_iff i j, o.eqb_iff k j, get-remove k j m)

  pub contains_key-get :
      (k : K) (m : List (K × V))
      → contains_key k m ≡ elim (get k m) [ some v ↦ true | none ↦ false ]
  unfolding get contains_key
  contains_key-get k [] = refl
  contains_key-get k ((j, v) ∷ m) = ground (arith, contains_key-get k m)

  -- No key stands twice.
  abbrev pub Unique : List (K × V) → Type 0
  Unique [] = Unit
  Unique ((k, v) ∷ m) = (contains_key k m ≡ false) × Unique m

  contains_key-replace :
      (k j : K) (v : V) (m : List (K × V)) → contains_key j (replace k v m) ≡ contains_key j m
  unfolding contains_key replace
  contains_key-replace k j v [] = refl
  contains_key-replace k j v ((i, w) ∷ m) =
      ground (arith, o.eqb_iff i k, o.eqb_iff i j, o.eqb_iff k j, contains_key-replace k j v m)

  contains_key-place :
      (k j : K) (v : V) (m : List (K × V))
      → contains_key j (place k v m) ≡ (if o.eqb k j then true else contains_key j m)
  unfolding contains_key place
  contains_key-place k j v [] = refl
  contains_key-place k j v ((i, w) ∷ m) = ground (arith, contains_key-place k j v m)

  replace-Unique : (k : K) (v : V) (m : List (K × V)) → Unique m → Unique (replace k v m)
  unfolding replace
  replace-Unique k v [] u = tt
  replace-Unique k v ((j, w) ∷ m) (u, us) =
      ground (arith, o.eqb_iff j k, contains_key-replace k j v m, replace-Unique k v m us)

  place-Unique :
      (k : K) (v : V) (m : List (K × V))
      → contains_key k m ≡ false
      → Unique m
      → Unique (place k v m)
  unfolding place contains_key
  place-Unique k v [] h u = (refl, tt)
  place-Unique k v ((j, w) ∷ m) h (u, us) =
      ground (arith, o.eqb_iff j k, o.eqb_iff k j, contains_key-place k j v m, place-Unique k v m)

  pub insert-Unique : (k : K) (v : V) (m : List (K × V)) → Unique m → Unique (insert k v m)
  unfolding insert
  insert-Unique k v m u = elim (Bool-cases (contains_key k m)) [
    | inl e ↦ rw e (replace-Unique k v m u)
    | inr e ↦ rw e (place-Unique k v m e u)
  ]

  replace-All {ι} :
      (P : K × V → Type ι) (k : K) (v : V) (m : List (K × V))
      → P (k, v)
      → All P m
      → All P (replace k v m)
  unfolding replace
  replace-All P k v [] p h = tt
  replace-All P k v ((j, w) ∷ m) p (q, h) = ground (arith, replace-All P k v m p h)

  place-All {ι} :
      (P : K × V → Type ι) (k : K) (v : V) (m : List (K × V))
      → P (k, v)
      → All P m
      → All P (place k v m)
  unfolding place
  place-All P k v [] p h = (p, tt)
  place-All P k v ((j, w) ∷ m) p (q, h) = ground (arith, place-All P k v m p h)

  -- What holds of every entry, and of the new one, holds of every entry after an `insert`.
  pub insert-All {ι} :
      (P : K × V → Type ι) (k : K) (v : V) (m : List (K × V))
      → P (k, v)
      → All P m
      → All P (insert k v m)
  unfolding insert
  insert-All P k v m p h = elim (Bool-cases (contains_key k m)) [
    | inl e ↦ rw e (replace-All P k v m p h)
    | inr e ↦ rw e (place-All P k v m p h)
  ]

module _ {ℓ κ} {K : Type ℓ} {V : Type κ} ⦃o : Ord K⦄ where
  get-skip :
      (m p : List (K × V)) (j : K) (w : V)
      → contains_key j m ≡ false
      → All (λ entry. get entry.0 p ≡ some entry.1) m
      → All (λ entry. get entry.0 ((j, w) ∷ p) ≡ some entry.1) m
  unfolding get contains_key
  get-skip [] p j w h a = tt
  get-skip ((k, v) ∷ m) p j w h (e, a) =
      (ground (arith, o.eqb_iff j k, o.eqb_iff k j), get-skip m p j w (ground arith) a)

  -- Where no key stands twice, every entry is found under its key.
  pub Unique-get : (m : List (K × V)) → Unique m → All (λ entry. get entry.0 m ≡ some entry.1) m
  unfolding get contains_key
  Unique-get [] u = tt
  Unique-get ((k, v) ∷ m) (n, u) =
      (ground (arith, o.eqb_iff k k), get-skip m m k v n (Unique-get m u))
