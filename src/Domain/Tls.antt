-- ===== src/Domain/Tls.antt =====
-- domain/value_objects.rs: the TLS modes of MySQL and the files that they use.
use reprodb.Common.{Bool, true, false, Option, none, some, ◌&&◌}
use reprodb.Common.Text.{Text, codes}

pub data MysqlTlsMode : Type 0 where
  disabled preferred required verify_ca verify_identity : MysqlTlsMode

unfoldable pub option_value : MysqlTlsMode → Text
option_value disabled = codes "DISABLED"
option_value preferred = codes "PREFERRED"
option_value required = codes "REQUIRED"
option_value verify_ca = codes "VERIFY_CA"
option_value verify_identity = codes "VERIFY_IDENTITY"

unfoldable pub verifies_certificate_authority : MysqlTlsMode → Bool
verifies_certificate_authority verify_ca = true
verifies_certificate_authority verify_identity = true
verifies_certificate_authority _ = false

unfoldable pub requires_encrypted_transport : MysqlTlsMode → Bool
requires_encrypted_transport required = true
requires_encrypted_transport verify_ca = true
requires_encrypted_transport verify_identity = true
requires_encrypted_transport _ = false

abbrev pub is_disabled : MysqlTlsMode → Bool
is_disabled disabled = true
is_disabled _ = false

abbrev pub is_verify_identity : MysqlTlsMode → Bool
is_verify_identity verify_identity = true
is_verify_identity _ = false

-- A path is the text that the configuration holds.
pub record MysqlTlsMaterialPaths : Type 0 where
  pub ca : Option Text
  pub cert : Option Text
  pub key : Option Text

abbrev pub is_some {ℓ} : {A : Type ℓ} → Option A → Bool
is_some (some a) = true
is_some none = false

abbrev pub is_none {ℓ} : {A : Type ℓ} → Option A → Bool
is_none (some a) = false
is_none none = true

unfoldable pub is_empty : MysqlTlsMaterialPaths → Bool
is_empty m = is_none m.ca && is_none m.cert && is_none m.key
