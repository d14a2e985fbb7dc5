-- ===== src/Application/CredentialTransaction/Atomicity.antt =====
-- What storing a credential with its configuration leaves behind.
use reprodb.Common.{
  ◌≡◌, Bool, true, false, ◌&&◌, none, some, List, ok, err, is_ok, arith, if◌then◌else◌,
}
use reprodb.Common.Maps
use reprodb.Common.Maps.{insert, remove, get-insert, get-remove}
use reprodb.Domain.CredentialKey.{CredentialKey, key_eq}
use reprodb.Domain.CredentialKey.RoundTrip.{key_eq_iff}
use reprodb.Infrastructure.Config.{AppConfig, ConfigError, validate}
use reprodb.Infrastructure.Config.Repository
use reprodb.Infrastructure.Config.Repository.{
  ConfigFile, SaveFault, Saving, Toml, load, after_persist, no_fault, before_persist, reloaded,
  load-written,
}
use reprodb.Infrastructure.Credentials.{SecretString}
use reprodb.Application.CredentialTransaction.{
  persist_config_with_credential, World, Faults, StoreFault, works, fails_after,
  CredentialProvisionError, get, set, delete, save, key_ord, require_missing, set_or_fail,
  save_or_roll_back, reference_count, config_and_rollback,
}

-- The new credential, and the file that refers to it once.
pub record IsProvisioned (toml : Toml) (key : CredentialKey) (value : SecretString)
    (config : AppConfig) (before after : World) : Type 0 where
  pub loads : load after.file ≡ reloaded toml config
  pub references : reference_count key config ≡ 1
  pub missing : Maps.get key before.credentials ≡ none
  pub credential : Maps.get key after.credentials ≡ some value
  pub others :
      (other : CredentialKey)
      → key_eq key other ≡ false
      → Maps.get other after.credentials ≡ Maps.get other before.credentials

get-credentials :
    (key other : CredentialKey) (value : SecretString) (m : List (CredentialKey × SecretString))
    → Maps.get other (insert key value m)
      ≡ (if key_eq key other then some value else Maps.get other m)
unfolding key_ord
get-credentials key other value m = get-insert key other value m

pub get-credentials_removed :
    (key other : CredentialKey) (m : List (CredentialKey × SecretString))
    → Maps.get other (remove key m) ≡ (if key_eq key other then none else Maps.get other m)
unfolding key_ord
get-credentials_removed key other m = get-remove key other m

-- A provisioning that succeeds leaves a file that loads to the configuration, or is refused as too
-- large if its text is of more than 1 MiB; the configuration refers to the key once; the credential, which was not there before, is stored, and every other is as before.
pub persist-IsProvisioned :
    (faults : Faults) (key : CredentialKey) (value : SecretString) (config : AppConfig)
    (before after : World)
    → persist_config_with_credential faults key value config before ≡ (ok tt, after)
    → IsProvisioned faults.save.toml key value config before after
unfolding persist_config_with_credential require_missing set_or_fail save_or_roll_back get set
    delete save Repository.save
persist-IsProvisioned faults key value config before after h = record {
  loads = ground (arith, load-written faults.save.toml config);
  references = ground arith;
  missing = ground arith;
  credential = ground (arith, key_eq_iff key key, get-credentials key key value before.credentials);
  others = λ other n. ground (arith, get-credentials key other value before.credentials);
}

-- A `set` that fails wrote nothing, and so did a `save`: no sync behind the rename fails.
abbrev pub set_is_clean : StoreFault → Bool
set_is_clean (fails_after e) = false
set_is_clean _ = true

abbrev pub save_is_clean : SaveFault → Bool
save_is_clean (after_persist e) = false
save_is_clean _ = true

abbrev pub is_clean : Faults → Bool
is_clean faults = set_is_clean faults.set && save_is_clean faults.save.fault

-- `ConfigAndRollback` names the credential that could not be deleted.
abbrev pub names_orphan : CredentialProvisionError → Bool
names_orphan (config_and_rollback key e f) = true
names_orphan _ = false

-- What an error that does not name an orphaned credential leaves: the file and every credential.
pub record IsUnchanged (before after : World) : Type 0 where
  pub file : after.file ≡ before.file
  pub credentials :
      (key : CredentialKey) → Maps.get key after.credentials ≡ Maps.get key before.credentials

save-file :
    (saving : Saving) (config : AppConfig) (file : ConfigFile)
    → save_is_clean saving.fault ≡ true
    → is_ok (Repository.save saving config file).0 ≡ false
    → (Repository.save saving config file).1 ≡ file
unfolding Repository.save
save-file saving config file clean h = ground arith

persist-file :
    (faults : Faults) (key : CredentialKey) (value : SecretString) (config : AppConfig)
    (before after : World) (e : CredentialProvisionError)
    → is_clean faults ≡ true
    → persist_config_with_credential faults key value config before ≡ (err e, after)
    → after.file ≡ before.file
unfolding persist_config_with_credential require_missing set_or_fail save_or_roll_back get set
    delete save
persist-file faults key value config before after e clean h =
    ground (arith, save-file faults.save config before.file)

-- Where no write fails behind its effect, a provisioning that fails with any error but the one that
-- names an orphaned credential leaves the file and every credential as they were.
pub persist-IsUnchanged :
    (faults : Faults) (key : CredentialKey) (value : SecretString) (config : AppConfig)
    (before after : World) (e : CredentialProvisionError)
    → is_clean faults ≡ true
    → names_orphan e ≡ false
    → persist_config_with_credential faults key value config before ≡ (err e, after)
    → IsUnchanged before after
unfolding persist_config_with_credential require_missing set_or_fail save_or_roll_back get set
    delete save Repository.save
persist-IsUnchanged faults key value config before after e clean named h = record {
  file = persist-file faults key value config before after e clean h;
  credentials = λ other. ground (
    arith,
    key_eq_iff key other,
    get-credentials key other value before.credentials,
    get-credentials key key value before.credentials,
    key_eq_iff key key,
    get-credentials_removed key other (insert key value before.credentials),
  );
}

-- Where the configuration validates and refers to the key once, the key is not in the store, the save
-- fails behind the rename of the file and every other call works, the file on disk loads to the new
-- configuration, or is refused as too large if its text is of more than 1 MiB, and the store has no credential of the key.
pub late_failure :
    (faults : Faults) (key : CredentialKey) (value : SecretString) (config : AppConfig)
    (before : World) (e : ConfigError)
    → validate config ≡ ok tt
    → reference_count key config ≡ 1
    → Maps.get key before.credentials ≡ none
    → faults.get ≡ none
    → faults.set ≡ works
    → faults.delete ≡ works
    → faults.save.fault ≡ after_persist e
    → (load (persist_config_with_credential faults key value config before).1.file
        ≡ reloaded faults.save.toml config)
      × (Maps.get key (persist_config_with_credential faults key value config before).1.credentials
          ≡ none)
unfolding persist_config_with_credential require_missing set_or_fail save_or_roll_back get set
    delete save Repository.save
late_failure faults key value config before e v r m g s d f = (
  ground (arith, load-written faults.save.toml config v),
  ground (
    arith,
    key_eq_iff key key,
    get-credentials key key value before.credentials,
    get-credentials_removed key key (insert key value before.credentials),
  ),
)
