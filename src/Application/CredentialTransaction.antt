-- ===== src/Application/CredentialTransaction.antt =====
-- application/credential_transaction.rs: a credential and the configuration that refers to it are
-- stored together, or neither is.
pub mod Atomicity
use reprodb.Common.{
  ℕ, ◌+◌, Bool, true, false, not, ◌==◌, Option, none, some, List, [], ◌∷◌, map, keep, length, ltb,
  if◌then◌else◌, Result, ok, err, guard, map_err,
}
use reprodb.Common.Maps
use reprodb.Common.Maps.{Ord, insert, remove}
use reprodb.Common.Actions.{Action, ◌>>=◌, ◌>>◌, lift}
use reprodb.Domain.Names.{ContainerName, ProfileName}
use reprodb.Domain.CredentialKey.{CredentialKey, key_eq}
use reprodb.Domain.CredentialKey.RoundTrip.{key_eq_iff}
use reprodb.Infrastructure.Config.{
  AppConfig, ConfigError, LocalTargetConfig, SourceProfileConfig, validate,
}
use reprodb.Infrastructure.Config.Repository
use reprodb.Infrastructure.Config.Repository.{ConfigFile, Saving}
use reprodb.Infrastructure.Credentials.{
  CredentialError, CredentialOperation, SecretString, not_found, store_unavailable,
  operation_failed, background_task_failed,
}

pub data CredentialProvisionError : Type 0 where
  credential_error : CredentialError → CredentialProvisionError
  invalid_credential_reference credential_already_exists : CredentialProvisionError
  config_error : ConfigError → CredentialProvisionError
  config_and_rollback : CredentialKey → ConfigError → CredentialError → CredentialProvisionError

-- The credential store, as the map that its trait stands for, and the configuration file.
pub record World : Type 0 where
  pub file : ConfigFile
  pub credentials : List (CredentialKey × SecretString)

-- Whether a change of the credential store fails, and on which side of its effect.
pub data StoreFault : Type 0 where
  works : StoreFault
  fails_before fails_after : CredentialError → StoreFault

-- How reading the store fails, other than by `NotFound`.
pub data ReadFault : Type 0 where
  unavailable failed task_failed : ReadFault

pub record Faults : Type 0 where
  pub get : Option ReadFault
  pub set : StoreFault
  pub save : Saving
  pub delete : StoreFault

-- Keys are compared by `key_eq`; their order is not observed.
instance unfoldable pub key_ord : Ord CredentialKey
unfolding key_eq
key_ord = record { eqb = key_eq; before = λ a b. ltb a.id b.id; eqb_iff = key_eq_iff }

abbrev stored_value : Option SecretString → Result CredentialError SecretString
stored_value none = err not_found
stored_value (some value) = ok value

abbrev read_error : ReadFault → CredentialError
read_error unavailable = store_unavailable CredentialOperation.get
read_error failed = operation_failed CredentialOperation.get
read_error task_failed = background_task_failed CredentialOperation.get

unfoldable pub get : Option ReadFault → CredentialKey → Action World CredentialError SecretString
get none key w = (stored_value (Maps.get key w.credentials), w)
get (some e) key w = (err (read_error e), w)

unfoldable pub set :
    StoreFault → CredentialKey → SecretString → Action World CredentialError (Unit {0})
set works key value w = (ok tt, record w { credentials = insert key value w.credentials })
set (fails_before e) key value w = (err e, w)
set (fails_after e) key value w = (err e, record w { credentials = insert key value w.credentials })

abbrev deleted :
    CredentialKey → Option SecretString → World → Result CredentialError (Unit {0}) × World
deleted key none w = (err not_found, w)
deleted key (some value) w = (ok tt, record w { credentials = remove key w.credentials })

unfoldable pub delete : StoreFault → CredentialKey → Action World CredentialError (Unit {0})
delete works key w = deleted key (Maps.get key w.credentials) w
delete (fails_before e) key w = (err e, w)
delete (fails_after e) key w = (err e, record w { credentials = remove key w.credentials })

unfoldable pub save : Saving → AppConfig → Action World ConfigError (Unit {0})
save saving config w = (
  (Repository.save saving config w.file).0,
  record w { file = (Repository.save saving config w.file).1 },
)

-- The three counts: the default target, the other targets, the profiles.
abbrev target_count : CredentialKey → Option LocalTargetConfig → ℕ
target_count key none = 0
target_count key (some configured) = if key_eq configured.credential_key key then 1 else 0

unfoldable pub reference_count : CredentialKey → AppConfig → ℕ
reference_count key config =
    target_count key config.local_target
    + length (
        keep (λ (entry : ContainerName × LocalTargetConfig). key_eq entry.1.credential_key key)
          config.local_targets)
    + length (
        keep (λ (entry : ProfileName × SourceProfileConfig). key_eq entry.1.credential_key key)
          config.profiles)

abbrev Provision : Type 0 → Type 0
Provision A = Action World CredentialProvisionError A

-- The `match` on `store.get`.
abbrev missing : Result CredentialError SecretString → Result CredentialProvisionError (Unit {0})
missing (ok value) = err credential_already_exists
missing (err not_found) = ok tt
missing (err e) = err (credential_error e)

unfoldable pub require_missing : Option ReadFault → CredentialKey → Provision (Unit {0})
unfolding get
require_missing fault key w = (missing (get fault key w).0, w)

abbrev provision_result :
    Result CredentialError (Unit {0}) → Result CredentialProvisionError (Unit {0})
provision_result (ok u) = ok tt
provision_result (err e) = err (credential_error e)

unfoldable pub set_or_fail : StoreFault → CredentialKey → SecretString → Provision (Unit {0})
unfolding set
set_or_fail fault key value w =
    (provision_result (set fault key value w).0, (set fault key value w).1)

-- The `match` on the rollback's `store.delete`.
abbrev rolled_back :
    CredentialKey → ConfigError → Result CredentialError (Unit {0}) → CredentialProvisionError
rolled_back key e (ok u) = config_error e
rolled_back key e (err f) = config_and_rollback key e f

abbrev roll_back :
    StoreFault
    → CredentialKey
    → World
    → Result ConfigError (Unit {0})
    → Result CredentialProvisionError (Unit {0}) × World
roll_back fault key w (ok u) = (ok tt, w)
roll_back fault key w (err e) =
    (err (rolled_back key e (delete fault key w).0), (delete fault key w).1)

unfoldable pub save_or_roll_back : Faults → CredentialKey → AppConfig → Provision (Unit {0})
unfolding delete save
save_or_roll_back faults key config w =
    roll_back faults.delete key (save faults.save config w).1 (save faults.save config w).0

-- `map_err(|source| CredentialProvisionError::Config { source })`.
abbrev validated : Result ConfigError (Unit {0}) → Result CredentialProvisionError (Unit {0})
validated (ok u) = ok tt
validated (err e) = err (config_error e)

unfoldable pub persist_config_with_credential :
    Faults → CredentialKey → SecretString → AppConfig → Provision (Unit {0})
unfolding require_missing set_or_fail save_or_roll_back reference_count
persist_config_with_credential faults key value config = do
  lift (validated (validate config))
  lift (guard (reference_count key config == 1) invalid_credential_reference)
  require_missing faults.get key
  set_or_fail faults.set key value
  save_or_roll_back faults key config
