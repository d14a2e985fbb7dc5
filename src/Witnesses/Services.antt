-- ===== src/Witnesses/Services.antt =====
-- The gates, the restore engine and the credentials on the samples.
use reprodb.Common.{◌≡◌, refl, true, false, ok, err, none, some, [], ◌∷◌}
use reprodb.Infrastructure.Config.{
  validate, validate_local_target, validate_local_targets, validate_profiles, validate_profile,
  validate_plain_text, validate_credential_scope, validate_mysql_series, validate_tls_material,
  validate_target, validate_docker_context,
}
use reprodb.Infrastructure.Config.Repository.{written, load, save, stored}
use reprodb.Common.Text.{
  codes, text_eq, bytes, trim, trim_start, trim_end, split, is_control, is_whitespace,
  to_ascii_lowercase, starts_with, contains,
}
use reprodb.Common.Maps.{get, contains_key}
use reprodb.Common.Decimal.{decimal}
use reprodb.Domain.Version.{series_text}
use reprodb.Domain.CredentialKey.{scope_eq}
use reprodb.Domain.Tls
use reprodb.Domain.Tls.{verifies_certificate_authority, requires_encrypted_transport}
use reprodb.Infrastructure.ClientCatalog
use reprodb.Infrastructure.ClientCatalog.{mysql_8_0_46, mysql_8_4_4, resolve}
use reprodb.Common.{◌↔◌, All}
use reprodb.Common.Maps
use reprodb.Common.Maps.{insert, replace, place, remove}
use reprodb.Common.Sorting.{Sorted}
use reprodb.Common.Text.{text_before, utf8, text_ord}
use reprodb.Domain.CredentialKey.{key_eq}
use reprodb.Domain.Version.{same_series}
use reprodb.Infrastructure.Config.{io, local_target_named}
use reprodb.Infrastructure.Config.Repository.{absent, before_persist, after_persist}
use reprodb.Application.Compatibility.{versions_are_restore_compatible}
use reprodb.Application.RemoteTargetGate.{
  verify, verify_loaded, protected_endpoint, protects, endpoint_host, protected_server,
  named_accepts_push, authorize, eligible_choices, allowed_first, allow_push, with_push_allowed,
}
use reprodb.Application.RemoteTargetGate.Verified.{IsVerified, verify-IsVerified}
use reprodb.Application.RemoteTargetGate.Authorized.{IsAuthorized, authorized, authorize_iff}
use reprodb.Application.RemoteTargetGate.Offered.{
  IsOffered, eligible_choices-IsOffered, IsConsent, allow_push-IsConsent,
}
use reprodb.Application.LocalTargetGate
use reprodb.Application.LocalTargetGate.{verify_named, selected}
use reprodb.Application.LocalTargetGate.Verified
use reprodb.Application.LocalTargetGate.Verified.{verify_named-IsVerified}
use reprodb.Application.RestoreEngine
use reprodb.Application.RestoreEngine.{
  Answers, restore, new_state, original, imported, ready, import_failed,
}
use reprodb.Application.RestoreEngine.Safety.{
  IsSafe, IsRestored, completed, restore-IsSafe, restore-IsRestored, IsPossible, restore_iff,
}
use reprodb.Application.CredentialTransaction
use reprodb.Application.CredentialTransaction.{
  Faults, works, persist_config_with_credential, require_missing, set_or_fail, save_or_roll_back,
  reference_count, key_ord, config_error,
}
use reprodb.Application.CredentialTransaction.Atomicity.{
  IsProvisioned, IsUnchanged, persist-IsProvisioned, persist-IsUnchanged, late_failure,
}
use reprodb.Witnesses.Samples.{
  toml, saves, configured, remote, remote_outside, local, local_outside, local_shop, metadata,
  sandbox_key, secret,
}

pub configured-loads : load (stored configured) ≡ ok configured
unfolding load validate validate_local_target validate_local_targets validate_profiles
    validate_profile validate_plain_text validate_credential_scope validate_mysql_series
    validate_tls_material validate_target validate_docker_context text_eq bytes trim trim_start
    trim_end split is_control is_whitespace get contains_key scope_eq Tls.is_empty
    verifies_certificate_authority ClientCatalog.validate resolve mysql_8_0_46 mysql_8_4_4
    text_before utf8
configured-loads = refl

remote-verifies : verify remote_outside (codes "sandbox") false (stored configured) ≡ ok remote
unfolding verify load validate validate_local_target validate_local_targets validate_profiles
    validate_profile validate_plain_text validate_credential_scope validate_mysql_series
    validate_tls_material validate_target validate_docker_context text_eq bytes trim trim_start
    trim_end split is_control is_whitespace get contains_key scope_eq Tls.is_empty
    verifies_certificate_authority ClientCatalog.validate resolve mysql_8_0_46 mysql_8_4_4
    text_before utf8 verify_loaded protected_endpoint protects endpoint_host protected_server
    named_accepts_push decimal contains starts_with to_ascii_lowercase requires_encrypted_transport
    series_text
remote-verifies = refl

remote_example : IsVerified remote_outside (codes "sandbox") false (stored configured) remote
remote_example =
    verify-IsVerified remote_outside (codes "sandbox") false (stored configured) remote
      remote-verifies

local-verifies : verify_named local_outside (some (codes "mysql")) (stored configured) ≡ ok local
unfolding verify_named load validate validate_local_target validate_local_targets validate_profiles
    validate_profile validate_plain_text validate_credential_scope validate_mysql_series
    validate_tls_material validate_target validate_docker_context text_eq bytes trim trim_start
    trim_end split is_control is_whitespace get contains_key scope_eq Tls.is_empty
    verifies_certificate_authority ClientCatalog.validate resolve mysql_8_0_46 mysql_8_4_4
    text_before utf8 LocalTargetGate.verify_loaded selected local_target_named decimal contains
    starts_with to_ascii_lowercase series_text
local-verifies = refl

local_example : Verified.IsVerified local_outside (some (codes "mysql")) (stored configured) local
local_example =
    verify_named-IsVerified local_outside (some (codes "mysql")) (stored configured) local
      local-verifies

authorize_example :
    (authorize remote (codes "copy") metadata true false
      ≡ ok (authorized remote (codes "copy") metadata))
    ↔ IsAuthorized remote (codes "copy") metadata true false
authorize_example = authorize_iff remote (codes "copy") metadata true false

configured-Unique : Maps.Unique configured.profiles
unfolding contains_key
configured-Unique = (refl, tt)

IsOffered-example :
    All (IsOffered configured) (eligible_choices configured)
    × Sorted allowed_first (eligible_choices configured)
IsOffered-example = eligible_choices-IsOffered configured configured-Unique

allowed-saved : allow_push saves (codes "sandbox") (stored configured) ≡ (ok tt, stored configured)
unfolding allow_push with_push_allowed insert replace save written load validate
    validate_local_target validate_local_targets validate_profiles validate_profile
    validate_plain_text validate_credential_scope validate_mysql_series validate_tls_material
    validate_target validate_docker_context text_eq bytes trim trim_start trim_end split is_control
    is_whitespace get contains_key scope_eq Tls.is_empty verifies_certificate_authority
    ClientCatalog.validate resolve mysql_8_0_46 mysql_8_4_4 text_before utf8
allowed-saved = refl

allow_push_example : IsConsent toml (codes "sandbox") (stored configured) (stored configured)
allow_push_example =
    allow_push-IsConsent saves (codes "sandbox") (stored configured) (stored configured)
      allowed-saved

abbrev start : RestoreEngine.World
start = record { saved = none; contents = original }

abbrev answers : Answers
answers = record {
  lock = ok tt;
  save_incomplete = RestoreEngine.no_fault;
  recreate_database = ok tt;
  import = ok 100;
  save_ready = RestoreEngine.no_fault;
}

abbrev finish : RestoreEngine.World
finish = record { saved = some (new_state local_shop 7 ready); contents = imported 100 }

-- The import fails, and the state file says so.
abbrev broken_import : Answers
broken_import = record answers { import = err import_failed }

IsSafe-example :
    IsSafe local_shop metadata start (restore broken_import local_shop metadata start).1
IsSafe-example = restore-IsSafe broken_import local_shop metadata start

restored : restore answers local_shop metadata start ≡ (ok (completed local_shop metadata), finish)
unfolding restore RestoreEngine.save RestoreEngine.recreate_database RestoreEngine.import text_eq
    versions_are_restore_compatible same_series mysql_8_4_4
restored = refl

restored_example : IsRestored local_shop metadata (completed local_shop metadata) finish
restored_example =
    restore-IsRestored answers local_shop metadata start finish (completed local_shop metadata)
      restored

restore_example :
    ((restore answers local_shop metadata start).0 ≡ ok (completed local_shop metadata)) ↔ (
      IsPossible answers local_shop metadata
      × (completed local_shop metadata ≡ completed local_shop metadata))
restore_example = restore_iff answers local_shop metadata start (completed local_shop metadata)

abbrev pub empty_store : CredentialTransaction.World
empty_store = record { file = absent; credentials = [] }

abbrev pub no_faults : Faults
no_faults = record { get = none; set = works; save = saves; delete = works }

abbrev pub provisioned : CredentialTransaction.World
provisioned = record { file = stored configured; credentials = (sandbox_key, secret) ∷ [] }

provisions :
    persist_config_with_credential no_faults sandbox_key secret configured empty_store
    ≡ (ok tt, provisioned)
unfolding persist_config_with_credential require_missing set_or_fail save_or_roll_back
    reference_count CredentialTransaction.get CredentialTransaction.set CredentialTransaction.delete
    CredentialTransaction.save key_ord key_eq insert place save written load validate
    validate_local_target validate_local_targets validate_profiles validate_profile
    validate_plain_text validate_credential_scope validate_mysql_series validate_tls_material
    validate_target validate_docker_context text_eq bytes trim trim_start trim_end split is_control
    is_whitespace get contains_key scope_eq Tls.is_empty verifies_certificate_authority
    ClientCatalog.validate resolve mysql_8_0_46 mysql_8_4_4 text_before utf8
provisions = refl

provisioned_example : IsProvisioned toml sandbox_key secret configured empty_store provisioned
provisioned_example =
    persist-IsProvisioned no_faults sandbox_key secret configured empty_store provisioned provisions

-- The save fails before the rename.
abbrev early : Faults
early = record no_faults { save = record saves { fault = before_persist io } }

rolls_back :
    persist_config_with_credential early sandbox_key secret configured empty_store
    ≡ (err (config_error io), empty_store)
unfolding persist_config_with_credential require_missing set_or_fail save_or_roll_back
    reference_count CredentialTransaction.get CredentialTransaction.set CredentialTransaction.delete
    CredentialTransaction.save key_ord key_eq insert place remove save written load validate
    validate_local_target validate_local_targets validate_profiles validate_profile
    validate_plain_text validate_credential_scope validate_mysql_series validate_tls_material
    validate_target validate_docker_context text_eq bytes trim trim_start trim_end split is_control
    is_whitespace get contains_key scope_eq Tls.is_empty verifies_certificate_authority
    ClientCatalog.validate resolve mysql_8_0_46 mysql_8_4_4 text_before utf8
rolls_back = refl

IsUnchanged-example : IsUnchanged empty_store empty_store
IsUnchanged-example =
    persist-IsUnchanged early sandbox_key secret configured empty_store empty_store
      (config_error io) refl refl rolls_back

-- The save fails behind the rename.
abbrev late : Faults
late = record no_faults { save = record saves { fault = after_persist io } }

pub configured-validates : validate configured ≡ ok tt
unfolding validate validate_local_target validate_local_targets validate_profiles validate_profile
    validate_plain_text validate_credential_scope validate_mysql_series validate_tls_material
    validate_target validate_docker_context text_eq bytes trim trim_start trim_end split is_control
    is_whitespace get contains_key scope_eq Tls.is_empty verifies_certificate_authority
    ClientCatalog.validate resolve mysql_8_0_46 mysql_8_4_4 text_before utf8
configured-validates = refl

referenced : reference_count sandbox_key configured ≡ 1
unfolding reference_count key_eq scope_eq
referenced = refl

absent_credential : Maps.get sandbox_key empty_store.credentials ≡ none
unfolding get
absent_credential = refl

late_failure_example :
    (load (persist_config_with_credential late sandbox_key secret configured empty_store).1.file
      ≡ ok configured)
    × (Maps.get sandbox_key
          (persist_config_with_credential late sandbox_key secret configured
            empty_store).1.credentials
        ≡ none)
late_failure_example =
    late_failure late sandbox_key secret configured empty_store io configured-validates referenced
      absent_credential refl refl refl refl
