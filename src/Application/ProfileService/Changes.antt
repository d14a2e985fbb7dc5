-- ===== src/Application/ProfileService/Changes.antt =====
-- What the changes of the profiles leave in the file and in the credential store.
use reprodb.Common.{◌≡◌, Bool, true, false, none, some, List, arith, Result, ok, if◌then◌else◌}
use reprodb.Common.Text.{text_eq, text_ord, text_eq_iff}
use reprodb.Common.Maps
use reprodb.Common.Maps.{insert, contains_key, get-remove}
use reprodb.Domain.Names.{ProfileName}
use reprodb.Domain.Tls.{requires_encrypted_transport, is_none}
use reprodb.Domain.CredentialKey.{CredentialKey}
use reprodb.Domain.CredentialKey.RoundTrip.{key_eq_iff}
use reprodb.Infrastructure.Config.{AppConfig, SourceProfileConfig, other_context}
use reprodb.Infrastructure.Config.Repository
use reprodb.Infrastructure.Config.Repository.{Toml, load, reloaded, load-written}
use reprodb.Application.CredentialTransaction.{World, Faults, works, delete, save, key_ord}
use reprodb.Application.CredentialTransaction.Atomicity.{get-credentials_removed, IsProvisioned}
use reprodb.Application.ProfileService.{
  remove, without_profile, removed_from, is_active, ProfileRemoval, ProfileServiceError,
  NewProfileInput, VerifiedSource, SourceVerificationError, new_profile, added_to,
  validate_new_profile, set_push_destination, with_push_destination, activate, with_active,
}

-- The profile and its credential are gone, and the other profiles are as before.
pub record IsRemoved (toml : Toml) (name : ProfileName) (config : AppConfig)
    (profile : SourceProfileConfig) (after : World) : Type 0 where
  pub loads : load after.file ≡ reloaded toml (removed_from name config)
  pub gone : Maps.get name (removed_from name config).profiles ≡ none
  pub others :
      (other : ProfileName)
      → text_eq name other ≡ false
      → Maps.get other (removed_from name config).profiles ≡ Maps.get other config.profiles
  pub inactive : is_active (removed_from name config).active_profile name ≡ false
  pub credential : Maps.get profile.credential_key after.credentials ≡ none

name-removed :
    (name other : ProfileName) (m : List (ProfileName × SourceProfileConfig))
    → Maps.get other (Maps.remove name m) ≡ (if text_eq name other then none else Maps.get other m)
name-removed name other m = get-remove name other m

-- Where the file loads and has the profile, a `remove` that succeeds, where deleting from the store
-- works, writes the configuration without the profile, which is not the active one any more, with every
-- other profile as before, and the store has no credential of the profile's key. The next `load`
-- returns that configuration, or refuses it as too large if its text is of more than 1 MiB.
pub remove-IsRemoved :
    (faults : Faults) (name : ProfileName) (before after : World) (removal : ProfileRemoval)
    (config : AppConfig) (profile : SourceProfileConfig)
    → load before.file ≡ ok config
    → Maps.get name config.profiles ≡ some profile
    → faults.delete ≡ works
    → remove faults name before ≡ (ok removal, after)
    → IsRemoved faults.save.toml name config profile after
unfolding remove without_profile delete save Repository.save
remove-IsRemoved faults name before after removal config profile l g d h = record {
  loads = ground (arith, load-written faults.save.toml (removed_from name config));
  gone = ground (arith, name-removed name name config.profiles, text_eq_iff name name);
  others = λ other n. ground (arith, name-removed name other config.profiles);
  inactive = ground arith;
  credential = ground (
    arith,
    key_eq_iff profile.credential_key profile.credential_key,
    get-credentials_removed profile.credential_key profile.credential_key before.credentials,
  );
}

-- What an added profile rests on: the name was free, the input is valid, its server was verified over
-- the transport that was asked for, and the Docker context is the one that was configured before.
pub record IsAdded (verify : NewProfileInput → Result SourceVerificationError VerifiedSource)
    (toml : Toml) (input : NewProfileInput) (key : CredentialKey) (config : AppConfig)
    (before after : World) (verified : VerifiedSource) : Type 0 where
  pub fresh : contains_key input.name config.profiles ≡ false
  pub valid : validate_new_profile input ≡ ok tt
  pub answered : verify input ≡ ok verified
  pub encrypted :
      requires_encrypted_transport input.tls_mode ≡ true → is_none verified.tls_cipher ≡ false
  pub context : other_context config.docker_context verified.docker_context ≡ false
  pub found :
      Maps.get input.name (added_to input verified key config).profiles
      ≡ some (new_profile input verified key)
  pub provisioned :
      IsProvisioned toml key input.password (added_to input verified key config) before after

abbrev planned :
    VerifiedSource × AppConfig → Result ProfileServiceError (VerifiedSource × AppConfig)
planned q = ok q

-- A change of the file alone, with what the next `load` answers.
pub record IsSaved (toml : Toml) (config : AppConfig) (before after : World) : Type 0 where
  pub loads : load after.file ≡ reloaded toml config
  pub credentials : after.credentials ≡ before.credentials

abbrev pub pushing : ProfileName → SourceProfileConfig → Bool → AppConfig → AppConfig
pushing name profile allowed config = record config {
  profiles = insert name (record profile { push_destination = allowed }) config.profiles;
}

-- Where the file loads and has the profile, a `set_push_destination` that succeeds writes the
-- configuration with the flag of that profile set and nothing else changed, which the next `load`
-- returns, or refuses as too large if its text is of more than 1 MiB; the store is as before, and no
-- pushes were allowed into a production profile.
pub set_push_destination-IsSaved :
    (faults : Faults) (name : ProfileName) (allowed : Bool) (before after : World)
    (config : AppConfig) (profile : SourceProfileConfig)
    → load before.file ≡ ok config
    → Maps.get name config.profiles ≡ some profile
    → set_push_destination faults name allowed before ≡ (ok tt, after)
    → IsSaved faults.save.toml (pushing name profile allowed config) before after
      × (profile.production ≡ true → allowed ≡ false)
unfolding set_push_destination with_push_destination save Repository.save
set_push_destination-IsSaved faults name allowed before after config profile l g h = (
  record {
    loads = ground (arith, load-written faults.save.toml (pushing name profile allowed config));
    credentials = ground arith;
  },
  λ e. ground arith,
)

-- Where the file loads, an `activate` that succeeds writes the configuration with an existing profile
-- as the active one and nothing else changed, which the next `load` returns, or refuses as too large if
-- its text is of more than 1 MiB; the store is as before.
pub activate-IsSaved :
    (faults : Faults) (name : ProfileName) (before after : World) (config : AppConfig)
    → load before.file ≡ ok config
    → activate faults name before ≡ (ok tt, after)
    → IsSaved faults.save.toml (record config { active_profile = some name }) before after
      × (contains_key name config.profiles ≡ true)
unfolding activate with_active save Repository.save
activate-IsSaved faults name before after config l h = (
  record {
    loads =
        ground
          (arith, load-written faults.save.toml (record config { active_profile = some name }));
    credentials = ground arith;
  },
  ground arith,
)
