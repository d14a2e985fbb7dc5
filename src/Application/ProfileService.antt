-- ===== src/Application/ProfileService.antt =====
-- application/profile_service.rs: the source profiles, from the menu's input to the file and the
-- credential store.
pub mod Changes
use reprodb.Common.{
  ℕ, Bool, true, false, not, ◌&&◌, ◌||◌, Option, none, some, List, [], ◌∷◌, map, ◌==◌, ltb, length,
  any, all, if◌then◌else◌, Result, ok, err, ◌>>=◌, ◌>>◌, guard, map_err, ok_or,
}
use reprodb.Common.Text.{Text, text_eq, text_ord, trim, is_whitespace, is_control}
use reprodb.Common.Maps
use reprodb.Common.Maps.{insert, contains_key}
use reprodb.Domain.Names.{ProfileName, is_empty}
use reprodb.Domain.Tls
use reprodb.Domain.Tls.{
  MysqlTlsMode, MysqlTlsMaterialPaths, verifies_certificate_authority, requires_encrypted_transport,
  is_disabled, is_verify_identity, is_some, is_none,
}
use reprodb.Domain.Version.{MysqlVersion, series_text}
use reprodb.Domain.CredentialKey.{CredentialKey}
use reprodb.Infrastructure.ClientCatalog.{ApprovedMysqlClient}
use reprodb.Infrastructure.Config.{
  AppConfig, ConfigError, SourceProfileConfig, is_absolute, flatten, other_context,
}
use reprodb.Infrastructure.Config.Repository
use reprodb.Infrastructure.Config.Repository.{load}
use reprodb.Infrastructure.Credentials.{CredentialError, SecretString, not_found}
use reprodb.Application.CredentialTransaction
use reprodb.Application.CredentialTransaction.{
  World, Faults, CredentialProvisionError, persist_config_with_credential, delete, save,
}

pub record NewProfileInput : Type 0 where
  pub name : ProfileName
  pub host : Text
  pub port : ℕ
  pub username : Text
  pub password : SecretString
  pub tls_mode : MysqlTlsMode
  pub tls_material : MysqlTlsMaterialPaths
  pub production : Bool

pub record VerifiedSource : Type 0 where
  pub docker_context : Text
  pub server_version : MysqlVersion
  pub vendor : Text
  pub tls_cipher : Option Text
  pub client : ApprovedMysqlClient

pub data SourceVerificationError : Type 0 where
  docker_unavailable client_unavailable network_unavailable : SourceVerificationError
  authentication_failed invalid_metadata : SourceVerificationError
  tls_required_but_not_negotiated : SourceVerificationError
  unsupported_server_series : ℕ → ℕ → SourceVerificationError

pub record ProfileSummary : Type 0 where
  pub name : ProfileName
  pub active : Bool
  pub host : Text
  pub port : ℕ
  pub mysql_series : Text
  pub tls_mode : MysqlTlsMode
  pub production : Bool
  pub push_destination : Bool

-- The field that an `InvalidField` names.
pub data InputField : Type 0 where
  host username port password tls_ca tls_pair tls_material tls_mode docker_context : InputField

pub data ProfileServiceError : Type 0 where
  config_error : ConfigError → ProfileServiceError
  profile_not_found already_exists production_push_destination : ProfileServiceError
  invalid_input : InputField → ProfileServiceError
  verification_error : SourceVerificationError → ProfileServiceError
  provision_error : CredentialProvisionError → ProfileServiceError
  credential_cleanup : CredentialKey → CredentialError → ProfileServiceError

pub record ProfileRemoval : Type 0 where
  pub was_active : Bool
  pub credential_was_missing : Bool

-- `config.active_profile.as_ref() == Some(name)`.
abbrev pub is_active : Option ProfileName → ProfileName → Bool
is_active none name = false
is_active (some active) name = text_eq active name

abbrev summary : Option ProfileName → ProfileName × SourceProfileConfig → ProfileSummary
summary active_profile (name, profile) = record {
  name = name;
  active = is_active active_profile name;
  host = profile.host;
  port = profile.port;
  mysql_series = profile.mysql_series;
  tls_mode = profile.tls_mode;
  production = profile.production;
  push_destination = profile.push_destination;
}

unfoldable pub list : World → Result ProfileServiceError (List ProfileSummary)
list w = do
  config ← map_err config_error (load w.file)
  ok (map (summary config.active_profile) config.profiles)

unfoldable pub ensure_name_available : ProfileName → World → Result ProfileServiceError (Unit {0})
ensure_name_available name w = do
  config ← map_err config_error (load w.file)
  guard (not (contains_key name config.profiles)) already_exists

abbrev invalid_whitespace : Bool → Text → Bool
invalid_whitespace true value = not (text_eq (trim value) value)
invalid_whitespace false value = any is_whitespace value

unfoldable pub validate_input_text :
    InputField → Text → ℕ → Bool → Result ProfileServiceError (Unit {0})
validate_input_text field value max_chars allow_internal_whitespace =
    guard
      (not (
        is_empty value
        || ltb max_chars (length value)
        || any is_control value
        || invalid_whitespace allow_internal_whitespace value))
      (invalid_input field)

unfoldable pub validate_tls_material : NewProfileInput → Result ProfileServiceError (Unit {0})
validate_tls_material input = do
  guard (not (verifies_certificate_authority input.tls_mode && is_none input.tls_material.ca))
      (invalid_input tls_ca)
  guard
      (not (
        is_some input.tls_material.cert && is_none input.tls_material.key
        || is_none input.tls_material.cert && is_some input.tls_material.key))
      (invalid_input tls_pair)
  guard (not (is_disabled input.tls_mode && not (Tls.is_empty input.tls_material)))
      (invalid_input InputField.tls_material)
  guard
      (all is_absolute
        (flatten (input.tls_material.ca ∷ input.tls_material.cert ∷ input.tls_material.key ∷ [])))
      (invalid_input InputField.tls_material)

abbrev is_nul : ℕ → Bool
is_nul c = c == 0

unfoldable pub validate_new_profile : NewProfileInput → Result ProfileServiceError (Unit {0})
unfolding validate_input_text validate_tls_material
validate_new_profile input = do
  validate_input_text InputField.host input.host 255 false
  validate_input_text InputField.username input.username 32 true
  guard (not (input.port == 0)) (invalid_input InputField.port)
  guard (not (is_empty input.password || any is_nul input.password))
      (invalid_input InputField.password)
  validate_tls_material input
  guard (not (input.production && not (is_verify_identity input.tls_mode)))
      (invalid_input InputField.tls_mode)

abbrev pub new_profile : NewProfileInput → VerifiedSource → CredentialKey → SourceProfileConfig
new_profile input verified key = record {
  host = input.host;
  port = input.port;
  username = input.username;
  credential_key = key;
  mysql_series = series_text verified.server_version;
  production = input.production;
  push_destination = false;
  tls_mode = input.tls_mode;
  tls_material = input.tls_material;
  image = verified.client.image;
}

abbrev pub added_to : NewProfileInput → VerifiedSource → CredentialKey → AppConfig → AppConfig
added_to input verified key config = record config {
  docker_context = some verified.docker_context;
  profiles = insert input.name (new_profile input verified key) config.profiles;
  active_profile = some input.name;
}

-- The configuration that `add` provisions; `verify` asks the source's server.
unfoldable pub with_profile_added :
    (NewProfileInput → Result SourceVerificationError VerifiedSource)
    → NewProfileInput
    → CredentialKey
    → AppConfig
    → Result ProfileServiceError (VerifiedSource × AppConfig)
unfolding validate_new_profile
with_profile_added verify input key config = do
  guard (not (contains_key input.name config.profiles)) already_exists
  validate_new_profile input
  verified ← map_err verification_error (verify input)
  guard (not (requires_encrypted_transport input.tls_mode && is_none verified.tls_cipher))
      (verification_error tls_required_but_not_negotiated)
  guard (text_eq (series_text verified.server_version) verified.client.series)
      (verification_error invalid_metadata)
  guard (not (other_context config.docker_context verified.docker_context))
      (invalid_input InputField.docker_context)
  ok (verified, added_to input verified key config)

abbrev pub provision :
    Faults
    → NewProfileInput
    → CredentialKey
    → Result ProfileServiceError (VerifiedSource × AppConfig)
    → World
    → Result ProfileServiceError (Unit {0}) × World
provision faults input key (err e) w = (err e, w)
provision faults input key (ok (verified, config)) w = (
  map_err provision_error (persist_config_with_credential faults key input.password config w).0,
  (persist_config_with_credential faults key input.password config w).1,
)

-- The summary `ProfileCreated`, a copy of the input and of what was verified, is left out; the key is
-- the one that `CredentialKey::new` draws.
unfoldable pub add :
    (NewProfileInput → Result SourceVerificationError VerifiedSource)
    → Faults
    → CredentialKey
    → NewProfileInput
    → World
    → Result ProfileServiceError (Unit {0}) × World
unfolding with_profile_added
add verify faults key input w =
    provision faults input key
      (map_err config_error (load w.file) >>= with_profile_added verify input key) w

abbrev pub save_changed :
    Faults
    → Result ProfileServiceError AppConfig
    → World
    → Result ProfileServiceError (Unit {0}) × World
save_changed faults (err e) w = (err e, w)
save_changed faults (ok config) w =
    (map_err config_error (save faults.save config w).0, (save faults.save config w).1)

unfoldable pub with_active : ProfileName → AppConfig → Result ProfileServiceError AppConfig
with_active name config = do
  guard (contains_key name config.profiles) profile_not_found
  ok (record config { active_profile = some name })

unfoldable pub activate :
    Faults → ProfileName → World → Result ProfileServiceError (Unit {0}) × World
unfolding with_active
activate faults name w =
    save_changed faults (map_err config_error (load w.file) >>= with_active name) w

unfoldable pub with_push_destination :
    ProfileName → Bool → AppConfig → Result ProfileServiceError AppConfig
with_push_destination name allowed config = do
  profile ← ok_or profile_not_found (Maps.get name config.profiles)
  guard (not (allowed && profile.production)) production_push_destination
  ok (record config {
    profiles = insert name (record profile { push_destination = allowed }) config.profiles;
  })

unfoldable pub set_push_destination :
    Faults → ProfileName → Bool → World → Result ProfileServiceError (Unit {0}) × World
unfolding with_push_destination
set_push_destination faults name allowed w =
    save_changed faults (map_err config_error (load w.file) >>= with_push_destination name allowed)
      w

abbrev pub removed_from : ProfileName → AppConfig → AppConfig
removed_from name config = record config {
  profiles = Maps.remove name config.profiles;
  active_profile = if is_active config.active_profile name then none else config.active_profile;
}

-- The configuration that `remove` saves, with the profile that is gone.
unfoldable pub without_profile :
    ProfileName → AppConfig → Result ProfileServiceError (SourceProfileConfig × AppConfig)
without_profile name config = do
  profile ← ok_or profile_not_found (Maps.get name config.profiles)
  ok (profile, removed_from name config)

abbrev cleaned_up :
    Bool
    → CredentialKey
    → Result CredentialError (Unit {0})
    → Result ProfileServiceError ProfileRemoval
cleaned_up was_active key (ok u) =
    ok (record { was_active = was_active; credential_was_missing = false })
cleaned_up was_active key (err not_found) =
    ok (record { was_active = was_active; credential_was_missing = true })
cleaned_up was_active key (err e) = err (credential_cleanup key e)

abbrev clean_up :
    Faults
    → Bool
    → CredentialKey
    → Result ConfigError (Unit {0}) × World
    → Result ProfileServiceError ProfileRemoval × World
clean_up faults was_active key (err e, w) = (err (config_error e), w)
clean_up faults was_active key (ok u, w) =
    (cleaned_up was_active key (delete faults.delete key w).0, (delete faults.delete key w).1)

abbrev pub remove_loaded :
    Faults
    → ProfileName
    → Result ProfileServiceError AppConfig
    → World
    → Result ProfileServiceError ProfileRemoval × World
remove_loaded faults name (err e) w = (err e, w)
remove_loaded faults name (ok config) w = elim (without_profile name config) [
  | err e ↦ (err e, w)
  | ok (profile, changed) ↦
      clean_up faults (is_active config.active_profile name) profile.credential_key
        (save faults.save changed w)
]

unfoldable pub remove :
    Faults → ProfileName → World → Result ProfileServiceError ProfileRemoval × World
unfolding without_profile
remove faults name w = remove_loaded faults name (map_err config_error (load w.file)) w
