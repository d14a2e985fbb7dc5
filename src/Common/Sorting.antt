-- ===== src/Common/Sorting.antt =====
-- The standard library's stable `sort_by`: `before x y` says that `x` compares less than `y`.
use mathlib.Core.Path.{◌≡◌, refl}
use mathlib.Core.Bool.{Bool, true, false}
use mathlib.Core.Logic.{inl, inr}
use mathlib.Core.List.{List, [], ◌∷◌, ◌++◌, Perm}
use mathlib.Core.List.Perm
use native.Mathlib.Omega.{arith}
use Prim.Native.Nat.{ℕ, zero, suc}
use reprodb.Common.Tests.{if◌then◌else◌, Bool-cases, leb}
use reprodb.Common.Lists.{All, keep, take, drop, length}

module _ {ℓ} {A : Type ℓ} (before : A → A → Bool) where
  place : A → List A → List A
  place x [] = x ∷ []
  place x (y ∷ ys) = if before y x then y ∷ place x ys else x ∷ y ∷ ys

  unfoldable pub sort_by : List A → List A
  unfolding place
  sort_by [] = []
  sort_by (x ∷ xs) = place x (sort_by xs)

  -- No element compares less than one that stands before it.
  abbrev pub Sorted : List A → Type 0
  Sorted [] = Unit
  Sorted (x ∷ xs) = All (λ y. before y x ≡ false) xs × Sorted xs

  place-Perm : (x : A) (xs : List A) → Perm (place x xs) (x ∷ xs)
  unfolding place
  place-Perm x [] = Perm.refl (x ∷ [])
  place-Perm x (y ∷ ys) = elim (Bool-cases (before y x)) [
    | inl e ↦ rw e (Perm.trans (Perm.cons y (place-Perm x ys)) (Perm.swap x y ys))
    | inr e ↦ rw e (Perm.refl (x ∷ y ∷ ys))
  ]

  pub sort_by-Perm : (xs : List A) → Perm (sort_by xs) xs
  unfolding sort_by
  sort_by-Perm [] = Perm.refl []
  sort_by-Perm (x ∷ xs) = Perm.trans (place-Perm x (sort_by xs)) (Perm.cons x (sort_by-Perm xs))

  length-place : (x : A) (xs : List A) → length (place x xs) ≡ suc (length xs)
  unfolding place
  length-place x [] = refl
  length-place x (y ∷ ys) = ground (arith, length-place x ys)

  pub length-sort_by : (xs : List A) → length (sort_by xs) ≡ length xs
  unfolding sort_by
  length-sort_by [] = refl
  length-sort_by (x ∷ xs) = omega (arith, length-place x (sort_by xs), length-sort_by xs)

module _ {ℓ κ} {A : Type ℓ} (before : A → A → Bool) (P : A → Type κ) where
  All-place : (x : A) (xs : List A) → P x → All P xs → All P (place before x xs)
  unfolding place
  All-place x [] px h = (px, tt)
  All-place x (y ∷ ys) px (py, h) = ground (arith, All-place x ys px h)

  pub All-sort_by : (xs : List A) → All P xs → All P (sort_by before xs)
  unfolding sort_by
  All-sort_by [] h = tt
  All-sort_by (x ∷ xs) (px, h) = All-place x (sort_by before xs) px (All-sort_by xs h)

  All-unplace : (x : A) (xs : List A) → All P (place before x xs) → P x × All P xs
  unfolding place
  All-unplace x [] (px, h) = (px, tt)
  All-unplace x (y ∷ ys) h = elim (Bool-cases (before y x)) [
    | inl e ↦ behind (All-unplace x ys) (rw e at h)
    | inr e ↦ rw e at h
  ]
    where
      behind :
          (All P (place before x ys) → P x × All P ys)
          → P y × All P (place before x ys)
          → P x × All P (y ∷ ys)
      behind rest (py, k) = ((rest k).0, (py, (rest k).1))

  -- Sorting drops no element.
  pub All-unsort : (xs : List A) → All P (sort_by before xs) → All P xs
  unfolding sort_by
  All-unsort [] h = tt
  All-unsort (x ∷ xs) h = (
    (All-unplace x (sort_by before xs) h).0,
    All-unsort xs (All-unplace x (sort_by before xs) h).1,
  )

module _ {ℓ κ} {A : Type ℓ} (P : A → Type κ) where
  pub All-drop : (n : ℕ) (xs : List A) → All P xs → All P (drop n xs)
  All-drop zero xs h = h
  All-drop (suc n) [] h = h
  All-drop (suc n) (x ∷ xs) (px, h) = All-drop n xs h

  pub All-mono {ι} : {Q : A → Type ι} (xs : List A) → ((x : A) → P x → Q x) → All P xs → All Q xs
  All-mono [] f h = tt
  All-mono (x ∷ xs) f (px, h) = (f x px, All-mono xs f h)

module _ {ℓ} {A : Type ℓ} (before : A → A → Bool)
    (asymmetric : (x y : A) → before x y ≡ true → before y x ≡ false)
    (transitive : (x y z : A) → before y x ≡ false → before z y ≡ false → before z x ≡ false) where
  place-Sorted : (x : A) (xs : List A) → Sorted before xs → Sorted before (place before x xs)
  unfolding place
  place-Sorted x [] s = (tt, tt)
  place-Sorted x (y ∷ ys) (least, s) = elim (Bool-cases (before y x)) [
    | inl e ↦ rw e (
      All-place before (λ z. before z y ≡ false) x ys (asymmetric y x e) least,
      place-Sorted x ys s,
    )
    | inr e ↦ rw e ((e, All-mono _ ys (λ z h. transitive x y z e h) least), (least, s))
  ]

  pub sort_by-Sorted : (xs : List A) → Sorted before (sort_by before xs)
  unfolding sort_by
  sort_by-Sorted [] = tt
  sort_by-Sorted (x ∷ xs) = place-Sorted x (sort_by before xs) (sort_by-Sorted xs)

-- In a sorted list nothing behind position `n` compares less than what stands before it.
pub take-drop-Sorted {ℓ} :
    {A : Type ℓ} (before : A → A → Bool) (n : ℕ) (xs : List A)
    → Sorted before xs
    → All (λ x. All (λ y. before y x ≡ false) (drop n xs)) (take n xs)
take-drop-Sorted before zero xs s = tt
take-drop-Sorted before (suc n) [] s = tt
take-drop-Sorted before (suc n) (x ∷ xs) (least, s) =
    (All-drop _ n xs least, take-drop-Sorted before n xs s)

module _ {ℓ} {A : Type ℓ} (p : A → Bool) where
  pub keep-All : (xs : List A) → All (λ x. p x ≡ true) xs → keep p xs ≡ xs
  keep-All [] h = refl
  keep-All (x ∷ xs) (e, h) = rw (e, keep-All xs h)

  pub keep-none : (xs : List A) → All (λ x. p x ≡ false) xs → keep p xs ≡ []
  keep-none [] h = refl
  keep-none (x ∷ xs) (e, h) = rw (e, keep-none xs h)

  pub keep-append : (xs ys : List A) → keep p (xs ++ ys) ≡ keep p xs ++ keep p ys
  keep-append [] ys = refl
  keep-append (x ∷ xs) ys = elim (Bool-cases (p x)) [
    | inl e ↦ rw (e, keep-append xs ys)
    | inr e ↦ rw (e, keep-append xs ys)
  ]

module _ {ℓ} {A : Type ℓ} where
  pub take-drop : (n : ℕ) (xs : List A) → take n xs ++ drop n xs ≡ xs
  take-drop zero xs = refl
  take-drop (suc n) [] = refl
  take-drop (suc n) (x ∷ xs) = rw (take-drop n xs)

  pub length-take :
      (n : ℕ) (xs : List A) → length (take n xs) ≡ (if leb n (length xs) then n else length xs)
  length-take zero xs = ground arith
  length-take (suc n) [] = ground arith
  length-take (suc n) (x ∷ xs) = ground (arith, length-take n xs)
