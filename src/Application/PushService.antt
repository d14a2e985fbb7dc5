-- ===== src/Application/PushService.antt =====
-- application/push_service.rs: a stored or new dump is imported into the destination that the user
-- confirmed. The progress that is reported is left out.
pub mod Cleared
use reprodb.Common.{
  ℕ, Bool, true, false, not, ◌&&◌, ◌==◌, Option, none, some, List, [], ◌∷◌, find, if◌then◌else◌,
  Result, ok, err, ◌>>=◌, ◌>>◌, guard, map_err,
}
use reprodb.Common.Text.{Text, text_eq}
use reprodb.Domain.Names.{ProfileName, DatabaseName, is_empty}
use reprodb.Domain.Tls.{is_some}
use reprodb.Domain.Version.{MysqlVersion}
use reprodb.Domain.Prune.{DumpId}
use reprodb.Domain.Artifact.{DumpArtifactMetadata}
use reprodb.Infrastructure.CacheTree.{Libraries, CacheTree}
use reprodb.Infrastructure.OperationLock.{OperationLockError}
use reprodb.Infrastructure.RestoreArtifact.{
  RestoreArtifactError, ValidatedRestoreArtifact, validate_by_id,
}
use reprodb.Infrastructure.Config.Repository.{ConfigFile, Saving}
use reprodb.Application.Compatibility.{is_same_major_downgrade}
use reprodb.Application.RemoteTargetGate
use reprodb.Application.RemoteTargetGate.{
  RemoteProfileChoice, RemoteTargetGateError, GuardedRemoteTarget, AuthorizedRemoteTarget,
  eligible_profiles, verify, source_accepts_push, authorize, allow_push,
}
use reprodb.Application.RestoreService.{RestoreDumpChoice, RestoreServiceError, dump_choices}

pub data PushDumpChoice : Type 0 where
  existing : DumpId → PushDumpChoice
  fresh : PushDumpChoice

pub record PushPlan : Type 0 where
  pub source_profile : ProfileName
  pub source_database : DatabaseName
  pub dump_id : DumpId
  pub source_version : MysqlVersion
  pub destination_profile : ProfileName
  pub destination_host : Text
  pub destination_port : ℕ
  pub destination_user : Text
  pub database : DatabaseName
  pub destination_version : MysqlVersion
  pub downgrade : Bool

pub data PushSelectionError : Type 0 where
  unavailable unknown_dump : PushSelectionError

-- `PushSelector`: every choice of the user.
pub record PushSelector : Type 0 where
  pub profile : List RemoteProfileChoice → Result PushSelectionError ProfileName
  pub allow_push : RemoteProfileChoice → Result PushSelectionError Bool
  pub accept_downgrade : MysqlVersion → MysqlVersion → Result PushSelectionError Bool
  pub dump : DatabaseName → List RestoreDumpChoice → Result PushSelectionError PushDumpChoice
  pub database : DatabaseName → Result PushSelectionError DatabaseName
  pub confirm : PushPlan → Result PushSelectionError Bool

-- Without the causes.
pub data DumpServiceError : Type 0 where
  dump_failed : DumpServiceError

pub data RemoteImportError : Type 0 where
  client stream ensure_failed import_failed : RemoteImportError

pub data PushServiceError : Type 0 where
  no_eligible_profile : PushServiceError
  selection_error : PushSelectionError → PushServiceError
  target_error : RemoteTargetGateError → PushServiceError
  dump_choices_error : RestoreServiceError → PushServiceError
  dump_error : DumpServiceError → PushServiceError
  artifact_error : RestoreArtifactError → PushServiceError
  lock_error : OperationLockError → PushServiceError
  import_error : RemoteImportError → PushServiceError
  imported_size_mismatch : PushServiceError

pub record PushReady : Type 0 where
  pub plan : PushPlan
  pub imported_bytes : ℕ

pub data PushOutcome : Type 0 where
  ready : PushReady → PushOutcome
  cancelled : PushOutcome

-- The destination's database: as it was, created if it was missing, hit by a statement that failed, or
-- fed so many bytes of SQL.
pub data Remote : Type 0 where
  original ensured disturbed : Remote
  imported : ℕ → Remote

pub record World : Type 0 where
  pub file : ConfigFile
  pub remote : Remote

-- What the service asks outside: the user, the gate's outside, a new dump with the cache that it
-- leaves, the save of the configuration, the lock, and the two statements of the executor.
pub record Outside : Type 0 where
  pub selector : PushSelector
  pub gate : RemoteTargetGate.Outside
  pub create : DatabaseName → Result DumpServiceError (DumpId × CacheTree)
  pub save : Saving
  pub lock : Result OperationLockError (Unit {0})
  pub ensure_database : Result RemoteImportError (Unit {0})
  pub import : Result RemoteImportError ℕ

-- An early return: an error or `Cancelled`.
pub data Stop : Type 0 where
  failed : PushServiceError → Stop
  is_cancelled : Stop

abbrev pub asked : {A : Type 0} → Result PushSelectionError A → Result Stop A
asked = map_err (λ e. failed (selection_error e))

abbrev pub gated : {A : Type 0} → Result RemoteTargetGateError A → Result Stop A
gated = map_err (λ e. failed (target_error e))

-- The choice of a profile that was never allowed to receive pushes.
abbrev pub is_unconsented : ProfileName → RemoteProfileChoice → Bool
is_unconsented profile choice = text_eq choice.profile profile && not choice.accepts_push

abbrev pub consent : PushSelector → Option RemoteProfileChoice → Result Stop (Unit {0})
consent selector none = ok tt
consent selector (some choice) = do
  allowed ← asked (selector.allow_push choice)
  guard allowed is_cancelled

-- The dump to push, and the cache in which it is.
abbrev pub obtained :
    Outside → DatabaseName → CacheTree → PushDumpChoice → Result Stop (DumpId × CacheTree)
obtained outside database tree (existing dump_id) = ok (dump_id, tree)
obtained outside database tree fresh =
    map_err (λ e. failed (dump_error e)) (outside.create database)

abbrev pub downgrade_accepted :
    PushSelector → DumpArtifactMetadata → GuardedRemoteTarget → Bool → Result Stop Bool
downgrade_accepted selector metadata guarded false = ok false
downgrade_accepted selector metadata guarded true =
    asked (selector.accept_downgrade metadata.source_version guarded.server_version)

abbrev pub plan_of : DumpArtifactMetadata → AuthorizedRemoteTarget → PushPlan
plan_of metadata target = record {
  source_profile = metadata.profile;
  source_database = metadata.database;
  dump_id = metadata.dump_id;
  source_version = metadata.source_version;
  destination_profile = target.target.profile;
  destination_host = target.target.host;
  destination_port = target.target.port;
  destination_user = target.target.username;
  database = target.database;
  destination_version = target.target.server_version;
  downgrade = target.downgrade;
}

-- What is known once the user has confirmed.
pub record Confirmed : Type 0 where
  pub needs_consent : Option RemoteProfileChoice
  pub metadata : DumpArtifactMetadata
  pub target : AuthorizedRemoteTarget

-- The destination: chosen by the user, and verified before any dump is made.
unfoldable pub destination :
    Outside → ConfigFile → Result Stop (Option RemoteProfileChoice × GuardedRemoteTarget)
unfolding eligible_profiles verify
destination outside file = do
  profiles ← gated (eligible_profiles file)
  guard (not (is_empty profiles)) (failed no_eligible_profile)
  profile ← asked (outside.selector.profile profiles)
  consent outside.selector (find (is_unconsented profile) profiles)
  guarded ←
      gated (verify outside.gate profile (is_some (find (is_unconsented profile) profiles)) file)
  ok (find (is_unconsented profile) profiles, guarded)

-- The part of `push` behind the validation of the dump, up to the user's confirmation.
unfoldable pub chosen_target :
    Outside
    → ConfigFile
    → Option RemoteProfileChoice
    → GuardedRemoteTarget
    → DumpArtifactMetadata
    → Result Stop Confirmed
unfolding source_accepts_push is_same_major_downgrade authorize
chosen_target outside file needs_consent guarded metadata = do
  target_database ← asked (outside.selector.database metadata.database)
  accepts ← gated (source_accepts_push metadata file)
  allow_downgrade ←
      downgrade_accepted outside.selector metadata guarded
        (is_same_major_downgrade metadata.source_version guarded.server_version)
  guard
      (not (
        is_same_major_downgrade metadata.source_version guarded.server_version
        && not allow_downgrade))
      is_cancelled
  target ← gated (authorize guarded target_database metadata accepts allow_downgrade)
  answer ← asked (outside.selector.confirm (plan_of metadata target))
  guard answer is_cancelled
  ok (record { needs_consent = needs_consent; metadata = metadata; target = target })

unfoldable pub confirmed :
    Libraries → Outside → CacheTree → ConfigFile → DatabaseName → Result Stop Confirmed
unfolding destination dump_choices validate_by_id chosen_target
confirmed lib outside tree file database = do
  found ← destination outside file
  choices ← map_err (λ e. failed (dump_choices_error e)) (dump_choices lib tree database)
  choice ← asked (outside.selector.dump database choices)
  dump ← obtained outside database tree choice
  artifact ← map_err (λ e. failed (artifact_error e)) (validate_by_id lib dump.1 database dump.0)
  chosen_target outside file found.0 found.1 artifact.metadata

abbrev Step : Type 0
Step = Result PushServiceError PushOutcome × World

abbrev pub finished : Confirmed → ℕ → Result PushServiceError PushOutcome
finished c bytes =
    if bytes == c.metadata.uncompressed_bytes
    then ok (ready (record { plan = plan_of c.metadata c.target; imported_bytes = bytes }))
    else err imported_size_mismatch

abbrev pub import_on : Confirmed → Result RemoteImportError ℕ → World → Step
import_on c (err e) w = (err (import_error e), record w { remote = disturbed })
import_on c (ok bytes) w = (finished c bytes, record w { remote = imported bytes })

abbrev pub ensure_on : Outside → Confirmed → Result RemoteImportError (Unit {0}) → World → Step
ensure_on outside c (err e) w = (err (import_error e), record w { remote = disturbed })
ensure_on outside c (ok u) w = import_on c outside.import (record w { remote = ensured })

abbrev pub lock_on : Outside → Confirmed → Result OperationLockError (Unit {0}) → World → Step
lock_on outside c (err e) w = (err (lock_error e), w)
lock_on outside c (ok u) w = ensure_on outside c outside.ensure_database w

abbrev pub saved_on : Outside → Confirmed → Result RemoteTargetGateError (Unit {0}) → World → Step
saved_on outside c (err e) w = (err (target_error e), w)
saved_on outside c (ok u) w = lock_on outside c outside.lock w

-- What the service changes once the user has confirmed.
abbrev pub consented_on : Outside → Confirmed → Option RemoteProfileChoice → World → Step
consented_on outside c none w = lock_on outside c outside.lock w
consented_on outside c (some choice) w =
    saved_on outside c (allow_push outside.save c.target.target.profile w.file).0
      (record w { file = (allow_push outside.save c.target.target.profile w.file).1 })

abbrev pub push_on : Outside → Result Stop Confirmed → World → Step
push_on outside (err (failed e)) w = (err e, w)
push_on outside (err is_cancelled) w = (ok cancelled, w)
push_on outside (ok c) w = consented_on outside c c.needs_consent w

unfoldable pub push : Libraries → Outside → CacheTree → DatabaseName → World → Step
unfolding confirmed allow_push
push lib outside tree database w = push_on outside (confirmed lib outside tree w.file database) w
