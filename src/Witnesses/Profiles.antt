-- ===== src/Witnesses/Profiles.antt =====
-- The profile service on the samples.
use reprodb.Common.{◌≡◌, refl, true, false, ok, some, [], ◌∷◌, Result}
use reprodb.Common.Maps
use reprodb.Common.Maps.{get, contains_key, insert, replace, place}
use reprodb.Common.Text.{
  codes, text_eq, text_before, text_ord, utf8, bytes, trim, trim_start, trim_end, split, is_control,
  is_whitespace,
}
use reprodb.Domain.CredentialKey.{scope_eq, key_eq}
use reprodb.Domain.Tls
use reprodb.Domain.Tls.{MysqlTlsMode, verifies_certificate_authority}
use reprodb.Infrastructure.ClientCatalog
use reprodb.Infrastructure.ClientCatalog.{mysql_8_0_46, mysql_8_4_4, resolve}
use reprodb.Infrastructure.Config.{
  default_config, validate, validate_local_target, validate_local_targets, validate_profiles,
  validate_profile, validate_plain_text, validate_credential_scope, validate_mysql_series,
  validate_tls_material, validate_target, validate_docker_context,
}
use reprodb.Infrastructure.Config.Repository
use reprodb.Infrastructure.Config.Repository.{written, load, stored}
use reprodb.Application.CredentialTransaction
use reprodb.Application.CredentialTransaction.{
  World, persist_config_with_credential, require_missing, set_or_fail, save_or_roll_back,
  reference_count, key_ord, delete,
}
use reprodb.Application.ProfileService
use reprodb.Application.ProfileService.{
  NewProfileInput, VerifiedSource, SourceVerificationError, ProfileRemoval, added_to, remove,
  without_profile, removed_from, activate, with_active, set_push_destination, with_push_destination,
}
use reprodb.Application.ProfileService.Changes.{
  IsRemoved, IsSaved, pushing, remove-IsRemoved, set_push_destination-IsSaved,
}
use reprodb.Witnesses.Samples.{
  toml, configured, sandbox, sandbox_key, secret, no_material, version_8_4,
}
use reprodb.Witnesses.Services.{no_faults, provisioned, configured-loads}

abbrev input : NewProfileInput
input = record {
  name = codes "shop";
  host = codes "db";
  port = 3306;
  username = codes "w";
  password = secret;
  tls_mode = MysqlTlsMode.required;
  tls_material = no_material;
  production = false;
}

abbrev answer : VerifiedSource
answer = record {
  docker_context = codes "local";
  server_version = version_8_4;
  vendor = codes "MySQL";
  tls_cipher = some (codes "AES");
  client = mysql_8_4_4;
}

abbrev answers : NewProfileInput → Result SourceVerificationError VerifiedSource
answers asked = ok answer

abbrev added : World
added = record {
  file = stored (added_to input answer sandbox_key default_config);
  credentials = (sandbox_key, secret) ∷ [];
}

found : get (codes "sandbox") configured.profiles ≡ some sandbox
unfolding get text_eq
found = refl

abbrev removed : World
removed = record { file = stored (removed_from (codes "sandbox") configured); credentials = [] }

abbrev removal : ProfileRemoval
removal = record { was_active = true; credential_was_missing = false }

removes : remove no_faults (codes "sandbox") provisioned ≡ (ok removal, removed)
unfolding remove without_profile persist_config_with_credential require_missing set_or_fail
    save_or_roll_back reference_count CredentialTransaction.get CredentialTransaction.set delete
    CredentialTransaction.save key_ord key_eq insert place replace Maps.remove Repository.save
    written load validate validate_local_target validate_local_targets validate_profiles
    validate_profile validate_plain_text validate_credential_scope validate_mysql_series
    validate_tls_material validate_target validate_docker_context text_eq bytes trim trim_start
    trim_end split is_control is_whitespace get contains_key scope_eq Tls.is_empty
    verifies_certificate_authority ClientCatalog.validate resolve mysql_8_0_46 mysql_8_4_4
    text_before utf8
removes = refl

removed_case : IsRemoved toml (codes "sandbox") configured sandbox removed
removed_case =
    remove-IsRemoved no_faults (codes "sandbox") provisioned removed removal configured sandbox
      configured-loads found refl removes

abbrev refusing : World
refusing = record provisioned { file = stored (pushing (codes "sandbox") sandbox false configured) }

refuses : set_push_destination no_faults (codes "sandbox") false provisioned ≡ (ok tt, refusing)
unfolding set_push_destination with_push_destination persist_config_with_credential require_missing
    set_or_fail save_or_roll_back reference_count CredentialTransaction.get
    CredentialTransaction.set delete CredentialTransaction.save key_ord key_eq insert place replace
    Maps.remove Repository.save written load validate validate_local_target validate_local_targets
    validate_profiles validate_profile validate_plain_text validate_credential_scope
    validate_mysql_series validate_tls_material validate_target validate_docker_context text_eq
    bytes trim trim_start trim_end split is_control is_whitespace get contains_key scope_eq
    Tls.is_empty verifies_certificate_authority ClientCatalog.validate resolve mysql_8_0_46
    mysql_8_4_4 text_before utf8
refuses = refl

push_case :
    IsSaved toml (pushing (codes "sandbox") sandbox false configured) provisioned refusing
    × (sandbox.production ≡ true → false ≡ false)
push_case =
    set_push_destination-IsSaved no_faults (codes "sandbox") false provisioned refusing configured
      sandbox configured-loads found refuses

activates : activate no_faults (codes "sandbox") provisioned ≡ (ok tt, provisioned)
unfolding activate with_active persist_config_with_credential require_missing set_or_fail
    save_or_roll_back reference_count CredentialTransaction.get CredentialTransaction.set delete
    CredentialTransaction.save key_ord key_eq insert place replace Maps.remove Repository.save
    written load validate validate_local_target validate_local_targets validate_profiles
    validate_profile validate_plain_text validate_credential_scope validate_mysql_series
    validate_tls_material validate_target validate_docker_context text_eq bytes trim trim_start
    trim_end split is_control is_whitespace get contains_key scope_eq Tls.is_empty
    verifies_certificate_authority ClientCatalog.validate resolve mysql_8_0_46 mysql_8_4_4
    text_before utf8
activates = refl
