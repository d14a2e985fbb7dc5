-- ===== src/Infrastructure/Config/Repository.antt =====
-- infrastructure/config.rs: `ConfigRepository`, which loads and replaces the configuration file.
use reprodb.Common.{
  ℕ, ◌*◌, ◌≡◌, ◌⊎◌, refl, inl, inr, leb, if◌then◌else◌, arith, Result, ok, err, ◌>>◌, Bool-cases,
}
use reprodb.Infrastructure.Config.{
  AppConfig, ConfigError, default_config, validate, io, config_too_large, invalid_toml,
  unsupported_schema_version,
}

-- The file as `load` finds it: not there, one that cannot be opened or read, one of more than
-- `MAX_CONFIG_BYTES`, no TOML of the configuration's shape, one of a later schema, or a document of the
-- current schema that decodes to a configuration.
pub data ConfigFile : Type 0 where
  absent unreadable oversized malformed : ConfigFile
  later : ℕ → ConfigFile
  stored : AppConfig → ConfigFile

unfoldable pub load : ConfigFile → Result ConfigError AppConfig
load absent = ok default_config
load unreadable = err io
load oversized = err config_too_large
load malformed = err invalid_toml
load (later version) = err (unsupported_schema_version version)
load (stored config) = do validate config; ok config

-- Where the file system fails during a `save`, if it does: up to the rename by `persist`, or in the
-- syncs behind it.
pub data SaveFault : Type 0 where
  no_fault : SaveFault
  before_persist after_persist : ConfigError → SaveFault

-- The `toml` crate: the bytes of the text that `to_string_pretty` renders, and what that text decodes
-- to, which is the configuration that was rendered.
pub record Toml : Type 0 where
  pub size : AppConfig → ℕ
  pub reread : AppConfig → AppConfig
  pub reread_same : (config : AppConfig) → reread config ≡ config

pub record Saving : Type 0 where
  pub toml : Toml
  pub fault : SaveFault

-- `MAX_CONFIG_BYTES`.
abbrev pub max_config_bytes : ℕ
max_config_bytes = 1024 * 1024

-- The file behind a rename: `save` does not look at the size that `load` checks.
unfoldable pub written : Toml → AppConfig → ConfigFile
written toml config =
    if leb (toml.size config) max_config_bytes then stored (toml.reread config) else oversized

abbrev replace_file :
    Toml → SaveFault → AppConfig → ConfigFile → Result ConfigError (Unit {0}) × ConfigFile
replace_file toml no_fault config file = (ok tt, written toml config)
replace_file toml (before_persist e) config file = (err e, file)
replace_file toml (after_persist e) config file = (err e, written toml config)

abbrev save_validated :
    Result ConfigError (Unit {0})
    → Saving
    → AppConfig
    → ConfigFile
    → Result ConfigError (Unit {0}) × ConfigFile
save_validated (err e) saving config file = (err e, file)
save_validated (ok u) saving config file = replace_file saving.toml saving.fault config file

unfoldable pub save : Saving → AppConfig → ConfigFile → Result ConfigError (Unit {0}) × ConfigFile
save saving config file = save_validated (validate config) saving config file

-- What the next `load` answers: the configuration, or `ConfigTooLarge` where its text is too long.
abbrev pub reloaded : Toml → AppConfig → Result ConfigError AppConfig
reloaded toml config =
    if leb (toml.size config) max_config_bytes then ok config else err config_too_large

pub load-written :
    (toml : Toml) (config : AppConfig)
    → validate config ≡ ok tt
    → load (written toml config) ≡ reloaded toml config
unfolding load written
load-written toml config v = elim (Bool-cases (leb (toml.size config) max_config_bytes)) [
  | inl e ↦ rw (e, toml.reread_same config, v) refl
  | inr e ↦ rw e refl
]

-- After a `save` that succeeds, the next `load` returns the configuration if its text is of at most
-- 1 MiB, and is refused with `ConfigTooLarge` otherwise.
pub save-load :
    (saving : Saving) (config : AppConfig) (file after : ConfigFile)
    → save saving config file ≡ (ok tt, after)
    → load after ≡ reloaded saving.toml config
unfolding save
save-load saving config file after h = ground (arith, load-written saving.toml config)

-- Whatever fails in a `save`, the file is afterwards the old one, or the next `load` returns the new
-- configuration, or refuses it with `ConfigTooLarge` if its text is of more than 1 MiB.
pub save-atomic :
    (saving : Saving) (config : AppConfig) (file : ConfigFile)
    → ((save saving config file).1 ≡ file)
      ⊎ (load (save saving config file).1 ≡ reloaded saving.toml config)
unfolding save
save-atomic saving config file = ground (arith, load-written saving.toml config)
