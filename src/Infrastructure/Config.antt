-- ===== src/Infrastructure/Config.antt =====
-- infrastructure/config.rs: the configuration and its validation.
pub mod Repository
pub mod Fingerprint
pub mod Validation
use reprodb.Common.{
  ℕ, Bool, true, false, not, ◌&&◌, ◌||◌, Option, none, some, List, [], ◌∷◌, ◌++◌, map, ltb, leb,
  ◌==◌, if◌then◌else◌, all, any, length, Result, ok, err, ◌>>=◌, ◌>>◌, guard,
}
use reprodb.Common.Text.{
  Text, codes, bytes, text_eq, trim, split, is_control, is_ascii_digit, is_ascii_alphanumeric,
  text_ord,
}
use reprodb.Common.Maps.{get, contains_key}
use reprodb.Domain.Names.{ProfileName, ContainerName, ContainerId}
use reprodb.Domain.Names
use reprodb.Domain.Tls.{
  MysqlTlsMode, MysqlTlsMaterialPaths, verifies_certificate_authority, is_disabled,
  is_verify_identity, is_some, is_none,
}
use reprodb.Domain.Tls
use reprodb.Domain.CredentialKey.{CredentialKey, CredentialScope, source, target, scope_eq}
use reprodb.Infrastructure.ClientCatalog.{
  ClientCatalogError, ApprovedMysqlClient, unsupported_series, unapproved_image,
}
use reprodb.Infrastructure.ClientCatalog

-- The field that an `InvalidField` names; its reason follows from the field and the test.
pub data Field : Type 0 where
  local_target_docker_context local_target_username local_target_credential_key : Field
  local_targets_key local_targets_default local_targets_docker_context : Field
  client_runtime_docker_context : Field
  profile_host profile_port profile_username profile_credential_key : Field
  profile_mysql_series profile_series_client profile_tls_material_ca profile_tls_material : Field
  profile_push_destination profile_tls_mode profile_client_image profile_client_digest : Field

pub data ConfigError : Type 0 where
  home_directory_unavailable invalid_home_override : ConfigError
  io : ConfigError
  invalid_toml config_too_large : ConfigError
  unsupported_schema_version : ℕ → ConfigError
  active_profile_not_found : ConfigError
  invalid_field : Field → ConfigError
  write_locked serialization : ConfigError

pub data LocalTargetTrust : Type 0 where
  reprodb_managed user_confirmed : LocalTargetTrust

pub record LocalTargetConfig : Type 0 where
  pub docker_context : Text
  pub container_name : ContainerName
  pub container_id : ContainerId
  pub username : Text
  pub credential_key : CredentialKey
  pub trust : LocalTargetTrust

-- `mysql_family` has one value and `client` one field; `image` is `client.image`.
pub record SourceProfileConfig : Type 0 where
  pub host : Text
  pub port : ℕ
  pub username : Text
  pub credential_key : CredentialKey
  pub mysql_series : Text
  pub production : Bool
  pub push_destination : Bool
  pub tls_mode : MysqlTlsMode
  pub tls_material : MysqlTlsMaterialPaths
  pub image : Text

-- `docker_context` is `client_runtime.docker_context`, the only datum of the client runtime.
pub record AppConfig : Type 0 where
  pub schema_version : ℕ
  pub active_profile : Option ProfileName
  pub docker_context : Option Text
  pub local_target : Option LocalTargetConfig
  pub local_targets : List (ContainerName × LocalTargetConfig)
  pub profiles : List (ProfileName × SourceProfileConfig)

abbrev pub current_schema_version : ℕ
current_schema_version = 2

abbrev pub default_config : AppConfig
default_config = record {
  schema_version = current_schema_version;
  active_profile = none;
  docker_context = none;
  local_target = none;
  local_targets = [];
  profiles = [];
}

unfoldable pub validate_credential_scope :
    Field → CredentialKey → CredentialScope → Result ConfigError (Unit {0})
unfolding scope_eq
validate_credential_scope field key expected =
    if scope_eq key.scope expected then ok tt else err (invalid_field field)

unfoldable pub validate_plain_text : Field → Text → ℕ → Result ConfigError (Unit {0})
validate_plain_text field value max_chars =
    if Names.is_empty value || not (text_eq (trim value) value)
    then err (invalid_field field)
    else if ltb max_chars (length value)
    then err (invalid_field field)
    else if any is_control value
    then err (invalid_field field)
    else ok tt

abbrev pub context_byte : ℕ → Bool
context_byte byte = is_ascii_alphanumeric byte || byte == b'_' || byte == b'.' || byte == b'-'

unfoldable pub validate_docker_context : Field → Text → Result ConfigError (Unit {0})
validate_docker_context field value =
    guard
      (not (Names.is_empty value)
        && leb (length (bytes value)) 128
        && all context_byte (bytes value))
      (invalid_field field)

abbrev pub is_number : Text → Bool
is_number value = not (Names.is_empty value) && all is_ascii_digit (bytes value)

-- Exactly two components, each a number.
abbrev pub is_series : List Text → Bool
is_series (major ∷ minor ∷ []) = is_number major && is_number minor
is_series _ = false

unfoldable pub validate_mysql_series : Text → Result ConfigError (Unit {0})
unfolding validate_plain_text
validate_mysql_series series = do
  validate_plain_text profile_mysql_series series 16
  guard (is_series (split b'.' series)) (invalid_field profile_mysql_series)

-- `Path::is_absolute` on Unix; the empty path is not absolute.
abbrev pub is_absolute : Text → Bool
is_absolute [] = false
is_absolute (c ∷ s) = c == b'/'

-- `[ca, cert, key].into_iter().flatten()`.
abbrev pub flatten : List (Option Text) → List Text
flatten [] = []
flatten (none ∷ rest) = flatten rest
flatten (some path ∷ rest) = path ∷ flatten rest

unfoldable pub validate_tls_material :
    MysqlTlsMode → MysqlTlsMaterialPaths → Result ConfigError (Unit {0})
unfolding verifies_certificate_authority Tls.is_empty
validate_tls_material mode material =
    if verifies_certificate_authority mode && is_none material.ca
    then err (invalid_field profile_tls_material_ca)
    else if not (is_some material.cert) && is_some material.key
        || is_some material.cert && not (is_some material.key)
    then err (invalid_field profile_tls_material)
    else if is_disabled mode && not (Tls.is_empty material)
    then err (invalid_field profile_tls_material)
    else if not (all is_absolute (flatten (material.ca ∷ material.cert ∷ material.key ∷ [])))
    then err (invalid_field profile_tls_material)
    else ok tt

-- The `match` on `ClientCatalog::validate`.
abbrev catalog_field : ClientCatalogError → Field
catalog_field unsupported_series = profile_series_client
catalog_field unapproved_image = profile_client_digest

abbrev catalog_result :
    Result ClientCatalogError ApprovedMysqlClient → Result ConfigError (Unit {0})
catalog_result (ok client) = ok tt
catalog_result (err e) = err (invalid_field (catalog_field e))

abbrev catalog_check : Text → Text → Result ConfigError (Unit {0})
catalog_check series image = catalog_result (ClientCatalog.validate series image)

unfoldable pub validate_profile : SourceProfileConfig → Result ConfigError (Unit {0})
validate_profile profile = do
  validate_plain_text profile_host profile.host 255
  guard (not (profile.port == 0)) (invalid_field profile_port)
  validate_plain_text profile_username profile.username 32
  validate_credential_scope profile_credential_key profile.credential_key source
  validate_mysql_series profile.mysql_series
  validate_tls_material profile.tls_mode profile.tls_material
  guard (not (profile.production && profile.push_destination))
      (invalid_field profile_push_destination)
  guard (not (profile.production && not (is_verify_identity profile.tls_mode)))
      (invalid_field profile_tls_mode)
  validate_plain_text profile_client_image profile.image 512
  catalog_check profile.mysql_series profile.image

unfoldable pub validate_target : LocalTargetConfig → Result ConfigError (Unit {0})
validate_target configured = do
  validate_docker_context local_target_docker_context configured.docker_context
  validate_plain_text local_target_username configured.username 32
  validate_credential_scope local_target_credential_key configured.credential_key target

-- `runtime_context != &target.docker_context`, where the runtime has a context.
abbrev pub other_context : Option Text → Text → Bool
other_context none context = false
other_context (some runtime_context) context = not (text_eq runtime_context context)

abbrev is_default : Option LocalTargetConfig → ContainerName → Bool
is_default none name = false
is_default (some active) name = text_eq active.container_name name

unfoldable pub validate_local_target :
    AppConfig → Option LocalTargetConfig → Result ConfigError (Unit {0})
validate_local_target config none = ok tt
validate_local_target config (some configured) = do
  validate_target configured
  guard (not (other_context config.docker_context configured.docker_context))
      (invalid_field local_target_docker_context)

-- The loop over `local_targets`.
unfoldable pub validate_local_targets :
    AppConfig → List (ContainerName × LocalTargetConfig) → Result ConfigError (Unit {0})
validate_local_targets config [] = ok tt
validate_local_targets config ((name, configured) ∷ rest) = do
  validate_target configured
  guard (text_eq name configured.container_name) (invalid_field local_targets_key)
  guard (not (is_default config.local_target name)) (invalid_field local_targets_default)
  guard (not (other_context config.docker_context configured.docker_context))
      (invalid_field local_targets_docker_context)
  validate_local_targets config rest

unfoldable pub validate_profiles :
    List (ProfileName × SourceProfileConfig) → Result ConfigError (Unit {0})
validate_profiles [] = ok tt
validate_profiles ((name, profile) ∷ rest) = do validate_profile profile; validate_profiles rest

abbrev active_is_missing : AppConfig → Option ProfileName → Bool
active_is_missing config none = false
active_is_missing config (some name) = not (contains_key name config.profiles)

abbrev validate_runtime : Option Text → Result ConfigError (Unit {0})
validate_runtime none = ok tt
validate_runtime (some context) = validate_docker_context client_runtime_docker_context context

unfoldable pub validate : AppConfig → Result ConfigError (Unit {0})
unfolding validate_local_target validate_local_targets validate_profiles
validate config = do
  guard (config.schema_version == current_schema_version)
      (unsupported_schema_version config.schema_version)
  guard (not (active_is_missing config config.active_profile)) active_profile_not_found
  validate_local_target config config.local_target
  validate_local_targets config config.local_targets
  validate_runtime config.docker_context
  validate_profiles config.profiles

-- The default target first, then the others in the order of their names.
unfoldable pub configured_local_targets : AppConfig → List (LocalTargetConfig × Bool)
configured_local_targets config =
    elim config.local_target [ none ↦ [] | some configured ↦ (configured, true) ∷ [] ]
    ++ map (λ (entry : ContainerName × LocalTargetConfig). (entry.1, false)) config.local_targets

unfoldable pub local_target_named : AppConfig → ContainerName → Option LocalTargetConfig
local_target_named config name = elim config.local_target [
  | none ↦ get name config.local_targets
  | some configured ↦
      if text_eq configured.container_name name
      then some configured
      else get name config.local_targets
]
