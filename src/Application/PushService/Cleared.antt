-- ===== src/Application/PushService/Cleared.antt =====
-- What a push has established before it changes anything.
use reprodb.Common.{◌≡◌, ◌⊎◌, Bool, true, false, Option, none, some, List, ok}
use reprodb.Domain.Names.{ProfileName, DatabaseName}
use reprodb.Domain.Tls.{is_some}
use reprodb.Domain.Prune.{DumpId}
use reprodb.Domain.Artifact.{DumpArtifactMetadata}
use reprodb.Infrastructure.CacheTree.{Libraries, CacheTree}
use reprodb.Infrastructure.RestoreArtifact.{ValidatedRestoreArtifact, validate_by_id}
use reprodb.Infrastructure.RestoreArtifact.Intact.{IsValidated}
use reprodb.Infrastructure.Config.Repository.{ConfigFile}
use reprodb.Application.Compatibility.{is_same_major_downgrade}
use reprodb.Application.RemoteTargetGate.{
  RemoteProfileChoice, GuardedRemoteTarget, AuthorizedRemoteTarget, eligible_profiles,
  source_accepts_push, allow_push,
}
use reprodb.Application.RemoteTargetGate.Verified.{IsVerified}
use reprodb.Application.RemoteTargetGate.Authorized.{IsAuthorized}
use reprodb.Application.RestoreService.{RestoreDumpChoice, dump_choices}
use reprodb.Application.PushService.{Outside, World, Confirmed, PushDumpChoice, obtained}

-- The user's consent to push to a profile: none is asked for, or the user was asked about this very
-- profile, which does not accept pushes, and allowed it.
abbrev pub HasConsent : Outside → ProfileName → Option RemoteProfileChoice → Type 0
HasConsent outside profile needs =
    (needs ≡ none)
    ⊎ ((choice : RemoteProfileChoice) × (needs ≡ some choice)
        × (choice.profile ≡ profile)
        × (choice.accepts_push ≡ false)
        × (outside.selector.allow_push choice ≡ ok true))

-- The user picked the profile among those that are offered, it may receive the push, and the
-- destination is the one that was verified for it.
pub record IsDestination (outside : Outside) (file : ConfigFile)
    (needs : Option RemoteProfileChoice) (guarded : GuardedRemoteTarget) : Type 0 where
  pub profile : ProfileName
  pub profiles : List RemoteProfileChoice
  pub offered : eligible_profiles file ≡ ok profiles
  pub picked : outside.selector.profile profiles ≡ ok profile
  pub consented : HasConsent outside profile needs
  pub verified : IsVerified outside.gate profile (is_some needs) file guarded

module _ (lib : Libraries) (outside : Outside) (tree : CacheTree) (file : ConfigFile)
    (database : DatabaseName) where
  -- The dump is the one that the user chose, or the one that was made because they asked for it.
  pub record IsSelected (dump_id : DumpId) (artifact : ValidatedRestoreArtifact) : Type 0 where
    pub choices : List RestoreDumpChoice
    pub choice : PushDumpChoice
    pub cache : CacheTree
    pub listed : dump_choices lib tree database ≡ ok choices
    pub chosen : outside.selector.dump database choices ≡ ok choice
    pub held : obtained outside database tree choice ≡ ok (dump_id, cache)
    pub read : validate_by_id lib cache database dump_id ≡ ok artifact

  -- What the service has established when the user has confirmed.
  pub record IsCleared (c : Confirmed) : Type 0 where
    pub source_accepts : Bool
    pub dump_id : DumpId
    pub artifact : ValidatedRestoreArtifact
    pub to : IsDestination outside file c.needs_consent c.target.target
    pub selected : IsSelected dump_id artifact
    pub validated : IsValidated lib database dump_id artifact
    pub metadata : c.metadata ≡ artifact.metadata
    pub named : outside.selector.database c.metadata.database ≡ ok c.target.database
    pub downgrade :
        is_same_major_downgrade c.metadata.source_version c.target.target.server_version ≡ true
        → outside.selector.accept_downgrade c.metadata.source_version c.target.target.server_version
          ≡ ok true
    pub authorized :
        IsAuthorized c.target.target c.target.database c.metadata source_accepts
          (is_same_major_downgrade c.metadata.source_version c.target.target.server_version)
    pub accepts : source_accepts_push c.metadata file ≡ ok source_accepts
    pub plan :
        outside.selector.confirm (record {
          source_profile = c.metadata.profile;
          source_database = c.metadata.database;
          dump_id = c.metadata.dump_id;
          source_version = c.metadata.source_version;
          destination_profile = c.target.target.profile;
          destination_host = c.target.target.host;
          destination_port = c.target.target.port;
          destination_user = c.target.target.username;
          database = c.target.database;
          destination_version = c.target.target.server_version;
          downgrade =
              is_same_major_downgrade c.metadata.source_version c.target.target.server_version;
        })
        ≡ ok true

  module _ (needs : Option RemoteProfileChoice) (guarded : GuardedRemoteTarget) (dump_id : DumpId)
      (artifact : ValidatedRestoreArtifact) where
    abbrev metadata : DumpArtifactMetadata
    metadata = artifact.metadata

    abbrev is_downgrade : Bool
    is_downgrade = is_same_major_downgrade metadata.source_version guarded.server_version

    -- The plan for a database on the destination.
    abbrev confirmed_for : AuthorizedRemoteTarget → Confirmed
    confirmed_for target = record { needs_consent = needs; metadata = metadata; target = target }

module _ (outside : Outside) (c : Confirmed) where
  -- The consent is saved, and the lock is held.
  abbrev pub Acquired : Option RemoteProfileChoice → World → Type 0
  Acquired needs w =
      (outside.lock ≡ ok tt)
      × ((needs ≡ none) ⊎ ((allow_push outside.save c.target.target.profile w.file).0 ≡ ok tt))
