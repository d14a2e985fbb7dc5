-- ===== src/Domain/CredentialKey.antt =====
-- domain/value_objects.rs: the opaque keys of stored credentials, `source:<uuid>` or `target:<uuid>`.
pub mod RoundTrip
use reprodb.Common.{
  ℕ, Bool, true, false, ◌&&◌, Option, none, some, ◌++◌, ◌∷◌, if◌then◌else◌, ◌==◌, Result, ok, err,
  ◌>>=◌, ◌>>◌, guard, ok_or,
}
use reprodb.Common.Text.{Text, codes, text_eq, split_once}
use reprodb.Domain.Names.{ValueObjectError, invalid_format, credential_key}
use reprodb.Domain.Uuid.{UuidText}

pub data CredentialScope : Type 0 where
  source target : CredentialScope

unfoldable pub scope_text : CredentialScope → Text
scope_text source = codes "source"
scope_text target = codes "target"

pub record CredentialKey : Type 0 where
  pub scope : CredentialScope
  pub id : ℕ

unfoldable pub scope_eq : CredentialScope → CredentialScope → Bool
scope_eq source source = true
scope_eq target target = true
scope_eq _ _ = false

-- The derived `PartialEq`.
unfoldable pub key_eq : CredentialKey → CredentialKey → Bool
unfolding scope_eq
key_eq a b = scope_eq a.scope b.scope && a.id == b.id

abbrev invalid : ValueObjectError
invalid = invalid_format credential_key

unfoldable pub parse_scope : Text → Result ValueObjectError CredentialScope
parse_scope text =
    if text_eq text (codes "source")
    then ok source
    else if text_eq text (codes "target")
    then ok target
    else err invalid

module _ (uuid : UuidText) where
  open uuid use {parse_str, hyphenated}

  -- `Display`.
  unfoldable pub display : CredentialKey → Text
  unfolding scope_text
  display key = scope_text key.scope ++ b':' ∷ hyphenated key.id

  unfoldable pub from_str : Text → Result ValueObjectError CredentialKey
  unfolding parse_scope
  from_str value = do
    parts ← ok_or invalid (split_once b':' value)
    scope ← parse_scope parts.0
    parsed_id ← ok_or invalid (parse_str parts.1)
    guard (text_eq (hyphenated parsed_id) parts.1) invalid
    ok (record { scope = scope; id = parsed_id })
