-- ===== src/Domain/Names/Shape.antt =====
-- What the validators of names accept, stated over characters.
use reprodb.Common.{
  ℕ, ◌≤◌, ◌≡◌, ◌≢◌, refl, ◌↔◌, Bool, true, false, List, [], ◌∷◌, arith, ltb, length, all, any, All,
  ok, inl, inr, ◌⊎◌, ap, not, &&-true, >>-guard_iff,
}
use reprodb.Common.Text.{
  Text, bytes, bytes-ascii, bytes-ascii_chars, is_ascii_alphanumeric, eq_ignore_ascii_case,
  to_ascii_lowercase, text_eq_iff,
}
use reprodb.Domain.Names.{
  validate_simple_identifier, validate_profile_name, validate_database_name,
  validate_container_name, ValueKind, ValueObjectError, database_byte, profile_byte, container_byte,
  well_formed, blocked,
}

-- `value` has one to `max` characters, starts with a letter or digit, and holds allowed ones only.
pub record IsIdentifier (max : ℕ) (allowed : ℕ → Bool) (value : Text) : Type 0 where
  pub short : length value ≤ max
  pub shape : well_formed allowed value ≡ true

all_mono :
    (p q : ℕ → Bool) (xs : List ℕ)
    → ((b : ℕ) → p b ≡ true → q b ≡ true)
    → all p xs ≡ true
    → all q xs ≡ true
all_mono p q [] h a = refl
all_mono p q (x ∷ xs) h a = ground (arith, h x, all_mono p q xs h)

module _ (allowed : ℕ → Bool) (ascii : (b : ℕ) → allowed b ≡ true → ltb b 0x80 ≡ true) where
  well_formed-ascii : (s : Text) → well_formed allowed s ≡ true → all (λ b. ltb b 0x80) s ≡ true
  well_formed-ascii [] h = cc
  well_formed-ascii (b ∷ s) h = ground (arith, all_mono allowed (λ b. ltb b 0x80) s ascii)

  -- The validator of identifiers accepts exactly the identifiers.
  simple-IsIdentifier_iff :
      (value : Text) (kind : ValueKind) (max : ℕ)
      → (validate_simple_identifier value kind max allowed ≡ ok tt) ↔ IsIdentifier max allowed value
  unfolding validate_simple_identifier
  simple-IsIdentifier_iff value kind max = (there, back)
    where
      there :
          validate_simple_identifier value kind max allowed ≡ ok tt → IsIdentifier max allowed value
      there h =
          let shape : well_formed allowed (bytes value) ≡ true = ground arith in
          let same = bytes-ascii value (well_formed-ascii (bytes value) shape) in
          record { short = ground arith; shape = rw same at shape }

      back :
          IsIdentifier max allowed value → validate_simple_identifier value kind max allowed ≡ ok tt
      back i =
          let same = bytes-ascii_chars value (well_formed-ascii value i.shape) in
          ground (arith, same, i.shape, i.short)

abbrev IsComponentByte : ℕ → Type 0
IsComponentByte c = (c ≢ b'/') × (c ≢ b'.') × (c ≢ 0)

all-All :
    (p : ℕ → Bool) (P : ℕ → Type 0) (xs : List ℕ)
    → ((c : ℕ) → p c ≡ true → P c)
    → all p xs ≡ true
    → All P xs
all-All p P [] h a = tt
all-All p P (x ∷ xs) h a =
    let (hx, hxs) = &&-true (p x) (all p xs) a in (h x hx, all-All p P xs h hxs)

component :
    (allowed : ℕ → Bool)
    → ((c : ℕ) → allowed c ≡ true → IsComponentByte c)
    → (s : Text) → well_formed allowed s ≡ true
    → All IsComponentByte s
component allowed safe [] h = tt
component allowed safe (c ∷ s) h =
    let (first, rest) = &&-true (is_ascii_alphanumeric c) (all allowed s) h in
    (ground arith, all-All allowed IsComponentByte s safe rest)

not-true : {b : Bool} → not b ≡ true → b ≡ false
not-true {b = true} h = cc
not-true {b = false} h = refl

-- No name that is equal, letter case aside, to one of the blocked schemas.
abbrev pub NotReserved : Text → Type 0
NotReserved value = All (λ name. to_ascii_lowercase value ≢ to_ascii_lowercase name) blocked

-- A profile name is accepted exactly if it is an identifier of letters, digits, `_` and `-` with
-- at most 64 characters.
pub validate_profile_name_iff :
    (value : Text) → (validate_profile_name value ≡ ok tt) ↔ IsIdentifier 64 profile_byte value
unfolding validate_profile_name
validate_profile_name_iff value =
    simple-IsIdentifier_iff profile_byte (λ b h. ground arith) value _ 64

pub validate_container_name_iff :
    (value : Text) → (validate_container_name value ≡ ok tt) ↔ IsIdentifier 128 container_byte value
unfolding validate_container_name
validate_container_name_iff value =
    simple-IsIdentifier_iff container_byte (λ b h. ground arith) value _ 128

unblocked :
    (value : Text) (names : List Text)
    → (any (eq_ignore_ascii_case value) names ≡ false)
      ↔ All (λ name. to_ascii_lowercase value ≢ to_ascii_lowercase name) names
unfolding eq_ignore_ascii_case
unblocked value [] = (λ h. tt, λ h. refl)
unblocked value (name ∷ names) =
    let ih = unblocked value names in
    let same = text_eq_iff (to_ascii_lowercase value) (to_ascii_lowercase name) in
    (
      λ h. (λ e. ground (arith, same.1 e), ih.0 (ground arith)),
      λ h. ground (arith, same.0, h.0, ih.1 h.1),
    )

-- A database name is accepted exactly if it is an identifier of letters, digits and `_` with at
-- most 64 characters, and equals no system schema, letter case aside.
pub validate_database_name_iff :
    (value : Text)
    → (validate_database_name value ≡ ok tt)
      ↔ (IsIdentifier 64 database_byte value × NotReserved value)
unfolding validate_database_name
validate_database_name_iff value =
    let (to, from) =
      simple-IsIdentifier_iff database_byte (λ b h. ground arith) value ValueKind.database_name
        64 in
    let (clear, unclear) = unblocked value blocked in
    let (both, joined) =
      >>-guard_iff (validate_simple_identifier value ValueKind.database_name 64 database_byte)
        (not (any (eq_ignore_ascii_case value) blocked))
        (ValueObjectError.reserved ValueKind.database_name) in
    (
      λ h. (to (both h).0, clear (not-true (both h).1)),
      λ h. joined (from h.0, ap not (unclear h.1)),
    )

-- No accepted profile or database name holds a path separator, a dot or a NUL, so that a name is one
-- component of a cache path.
pub names_are_components :
    (value : Text)
    → (validate_profile_name value ≡ ok tt) ⊎ (validate_database_name value ≡ ok tt)
    → All (λ c. (c ≢ b'/') × (c ≢ b'.') × (c ≢ 0)) value
names_are_components value (inl h) =
    component profile_byte (λ c p. ground arith) value ((validate_profile_name_iff value).0 h).shape
names_are_components value (inr h) =
    component database_byte (λ c p. ground arith) value
      ((validate_database_name_iff value).0 h).0.shape
