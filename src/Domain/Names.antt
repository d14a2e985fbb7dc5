-- ===== src/Domain/Names.antt =====
-- domain/value_objects.rs: the names that are validated when they are parsed. A validated name is
-- its text; `TryFrom` and `FromStr` are the function that runs the validator and returns the text.
pub mod Shape
use reprodb.Common.{
  ℕ, ◌≡◌, refl, Bool, true, false, not, ◌&&◌, ◌||◌, Option, none, some, List, [], ◌∷◌, ltb, leb,
  ◌==◌, if◌then◌else◌, length, all, any, Result, ok, err, ◌>>=◌, ◌>>◌, guard,
}
use reprodb.Common.Text.{
  Text, codes, bytes, is_ascii_digit, is_ascii_alphanumeric, eq_ignore_ascii_case,
}

pub data ValueKind : Type 0 where
  profile_name database_name container_name container_id : ValueKind
  credential_key mysql_version mysql_server_uuid sha256_digest : ValueKind

pub data ValueObjectError : Type 0 where
  empty : ValueKind → ValueObjectError
  too_long : ValueKind → ℕ → ValueObjectError
  -- The source's `expected` is fixed by the kind, and is left out.
  invalid_format : ValueKind → ValueObjectError
  reserved : ValueKind → ValueObjectError

-- `is_empty()` of a text or of a list.
abbrev pub is_empty {ℓ} : {A : Type ℓ} → List A → Bool
is_empty [] = true
is_empty (x ∷ xs) = false

unfoldable pub validate_length : Text → ValueKind → ℕ → Result ValueObjectError (Unit {0})
validate_length value kind max =
    if is_empty value
    then err (empty kind)
    else if ltb max (length value)
    then err (too_long kind max)
    else ok tt

-- `bytes.next()` is tested to be alphanumeric, and `bytes.all(allowed)` reads those behind it.
abbrev well_formed : (ℕ → Bool) → List ℕ → Bool
well_formed allowed [] = false
well_formed allowed (b ∷ rest) = is_ascii_alphanumeric b && all allowed rest

unfoldable pub validate_simple_identifier :
    Text → ValueKind → ℕ → (ℕ → Bool) → Result ValueObjectError (Unit {0})
unfolding validate_length
validate_simple_identifier value kind max allowed = do
  validate_length value kind max
  guard (well_formed allowed (bytes value)) (invalid_format kind)

abbrev pub profile_byte : ℕ → Bool
profile_byte byte = is_ascii_alphanumeric byte || byte == b'_' || byte == b'-'

abbrev pub database_byte : ℕ → Bool
database_byte byte = is_ascii_alphanumeric byte || byte == b'_'

abbrev pub container_byte : ℕ → Bool
container_byte byte = is_ascii_alphanumeric byte || byte == b'_' || byte == b'.' || byte == b'-'

unfoldable pub validate_profile_name : Text → Result ValueObjectError (Unit {0})
unfolding validate_simple_identifier
validate_profile_name value = validate_simple_identifier value profile_name 64 profile_byte

-- The system schemas that are no restore destination.
abbrev pub blocked : List Text
blocked = codes "mysql" ∷ codes "information_schema" ∷ codes "performance_schema" ∷ codes "sys" ∷ []

unfoldable pub validate_database_name : Text → Result ValueObjectError (Unit {0})
unfolding validate_simple_identifier
validate_database_name value = do
  validate_simple_identifier value database_name 64 database_byte
  guard (not (any (eq_ignore_ascii_case value) blocked)) (reserved database_name)

unfoldable pub validate_container_name : Text → Result ValueObjectError (Unit {0})
unfolding validate_simple_identifier
validate_container_name value = validate_simple_identifier value container_name 128 container_byte

abbrev pub is_lowercase_hex : ℕ → Bool
is_lowercase_hex byte = is_ascii_digit byte || leb b'a' byte && leb byte b'f'

unfoldable pub validate_container_id : Text → Result ValueObjectError (Unit {0})
unfolding validate_length
validate_container_id value = do
  validate_length value container_id 64
  guard (length (bytes value) == 64 && all is_lowercase_hex (bytes value))
      (invalid_format container_id)

abbrev pub ProfileName : Type 0
ProfileName = Text

abbrev pub DatabaseName : Type 0
DatabaseName = Text

abbrev pub ContainerName : Type 0
ContainerName = Text

abbrev pub ContainerId : Type 0
ContainerId = Text

-- `try_from`, `parse` and `deserialize` of the validated names.
abbrev pub try_from :
    (Text → Result ValueObjectError (Unit {0})) → Text → Result ValueObjectError Text
try_from validator value = do validator value; ok value
