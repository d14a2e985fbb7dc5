-- ===== src/Witnesses/Configuration.antt =====
-- The catalog and the configuration on the samples.
use reprodb.Common.{err, ◌≡◌, ◌⊎◌, refl, ok, some}
use reprodb.Common.Text.{codes, text_eq, text_ord}
use reprodb.Common.Maps.{get}
use reprodb.Infrastructure.ClientCatalog
use reprodb.Infrastructure.ClientCatalog.{
  mysql_8_0_46, mysql_8_4_4, resolve, IsApproved, validate-IsApproved,
}
use reprodb.Infrastructure.Config.{
  config_too_large, SourceProfileConfig, default_config, validate, validate_local_target,
  validate_local_targets, validate_profiles, io,
}
use reprodb.Infrastructure.Config.Repository.{
  written, Saving, load, save, stored, absent, after_persist,
}
use reprodb.Infrastructure.Config.Repository.{save-load, save-atomic}
use reprodb.Infrastructure.Config.Validation.{IsProfile, validate-get, validate-active}
use reprodb.Witnesses.Services.{configured-validates}
use reprodb.Witnesses.Samples.{saves, too_long, configured, sandbox}

approved : ClientCatalog.validate (codes "8.4") mysql_8_4_4.image ≡ ok mysql_8_4_4
unfolding ClientCatalog.validate resolve mysql_8_0_46 mysql_8_4_4 text_eq
approved = refl

approved_example :
    IsApproved mysql_8_4_4
    × (mysql_8_4_4.series ≡ codes "8.4")
    × (mysql_8_4_4.image ≡ mysql_8_4_4.image)
approved_example = validate-IsApproved (codes "8.4") mysql_8_4_4.image mysql_8_4_4 approved

found : get (codes "sandbox") configured.profiles ≡ some sandbox
unfolding get text_eq
found = refl

profile_example : IsProfile sandbox
profile_example = validate-get configured (codes "sandbox") sandbox configured-validates found

active_example : (p : SourceProfileConfig) × (get (codes "sandbox") configured.profiles ≡ some p)
active_example = validate-active configured (codes "sandbox") configured-validates refl

default-saves : save saves default_config absent ≡ (ok tt, stored default_config)
unfolding save written validate validate_local_target validate_local_targets validate_profiles
default-saves = refl

load_example : load (stored default_config) ≡ ok default_config
load_example = save-load saves default_config absent (stored default_config) default-saves

abbrev fails_late : Saving
fails_late = record saves { fault = after_persist io }

-- A `save` that succeeds may write a text that the next `load` refuses.
large : load (save too_long default_config absent).1 ≡ err config_too_large
unfolding save written load validate validate_local_target validate_local_targets validate_profiles
large = refl

atomic_example :
    ((save fails_late default_config absent).1 ≡ absent)
    ⊎ (load (save fails_late default_config absent).1 ≡ ok default_config)
atomic_example = save-atomic fails_late default_config absent
