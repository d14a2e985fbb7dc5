-- ===== src/Application/RestoreService.antt =====
-- application/restore_service.rs: a stored dump is validated, the local target is verified, and the
-- dump is restored into it.
pub mod Restored
use reprodb.Common.{
  ℕ, Bool, true, false, not, ◌||◌, ◌==◌, Option, none, some, List, [], ◌∷◌, ltb, if◌then◌else◌,
  Result, ok, err, ◌>>=◌, map_err,
}
use reprodb.Common.Text.{text_eq}
use reprodb.Common.Sorting.{sort_by}
use reprodb.Domain.Names.{ProfileName, DatabaseName, ContainerName}
use reprodb.Domain.Version.{MysqlVersion}
use reprodb.Domain.Prune.{DumpId}
use reprodb.Domain.Artifact.{DumpArtifactMetadata}
use reprodb.Infrastructure.CacheTree.{Libraries, FileState, CacheTree, parse_metadata, contents}
use reprodb.Infrastructure.Server.{ArtifactStoreError}
use reprodb.Infrastructure.Directory.{collect}
use reprodb.Infrastructure.ArtifactStore.{LocatedDumpArtifact, find_complete_by_database}
use reprodb.Infrastructure.RestoreArtifact.{
  RestoreArtifactError, ValidatedRestoreArtifact, validate_by_id,
}
use reprodb.Infrastructure.Config.Repository.{ConfigFile}
use reprodb.Application.LocalTargetGate
use reprodb.Application.LocalTargetGate.{
  LocalTargetGateError, AuthorizedLocalTarget, verify_named, authorize_database,
}
use reprodb.Application.RestoreEngine
use reprodb.Application.RestoreEngine.{RestoreEngineError, RestoreCompleted, Answers, World}

pub record RestorePlan : Type 0 where
  pub profile : ProfileName
  pub source_database : DatabaseName
  pub database : DatabaseName
  pub dump_id : DumpId
  pub source_version : MysqlVersion
  pub client_version : MysqlVersion
  pub container : ContainerName

pub record RestoreRequest : Type 0 where
  pub database : DatabaseName
  pub dump_id : Option DumpId
  pub target_container : Option ContainerName
  pub target_database : Option DatabaseName

pub record RestoreDumpChoice : Type 0 where
  pub profile : ProfileName
  pub dump_id : DumpId
  pub completed_at_unix_seconds : ℕ
  pub compressed_bytes : ℕ
  pub source_version : MysqlVersion

pub data RestoreSelectionError : Type 0 where
  no_candidates unavailable : RestoreSelectionError

pub data RestoreServiceError : Type 0 where
  artifact_error : RestoreArtifactError → RestoreServiceError
  target_error : LocalTargetGateError → RestoreServiceError
  engine_error : RestoreEngineError → RestoreServiceError
  selection_error : RestoreSelectionError → RestoreServiceError
  store_error : ArtifactStoreError → RestoreServiceError

pub record RestoreReady : Type 0 where
  pub plan : RestorePlan
  pub imported_bytes : ℕ

-- `NoRestoreDumpSelector`.
abbrev pub no_restore_dump_selector :
    DatabaseName → List RestoreDumpChoice → Result RestoreSelectionError DumpId
no_restore_dump_selector database choices = err unavailable

-- `read_to_string` and `serde_json::from_str`, whose failures pass over the dump.
abbrev read_choice : Libraries → FileState → Option DumpArtifactMetadata
read_choice lib (contents bytes) = parse_metadata lib bytes
read_choice lib state = none

module _ (lib : Libraries) where
  unfoldable pub dump_choice :
      DatabaseName → LocatedDumpArtifact → Result RestoreServiceError (List RestoreDumpChoice)
  dump_choice database found = elim (read_choice lib found.artifact.files.metadata) [
    | none ↦ ok []
    | some metadata ↦
        if not (metadata.dump_id == found.artifact.dump_id)
          || not (text_eq metadata.database database)
        then ok []
        else ok (
            record {
              profile = found.profile;
              dump_id = found.artifact.dump_id;
              completed_at_unix_seconds = metadata.completed_at_unix_seconds;
              compressed_bytes = metadata.compressed_bytes;
              source_version = metadata.source_version;
            }
            ∷ [])
  ]

  -- The newest first, then the larger ID.
  abbrev pub choice_before : RestoreDumpChoice → RestoreDumpChoice → Bool
  choice_before left right =
      if left.completed_at_unix_seconds == right.completed_at_unix_seconds
      then ltb right.dump_id left.dump_id
      else ltb right.completed_at_unix_seconds left.completed_at_unix_seconds

  unfoldable pub dump_choices :
      CacheTree → DatabaseName → Result RestoreServiceError (List RestoreDumpChoice)
  unfolding find_complete_by_database collect dump_choice
  dump_choices tree database = do
    artifacts ← map_err store_error (find_complete_by_database lib tree database)
    choices ← collect (dump_choice database) artifacts
    ok (sort_by choice_before choices)

-- What the service asks outside: the user, and what the gate asks.
pub record Outside : Type 0 where
  pub select : DatabaseName → List RestoreDumpChoice → Result RestoreSelectionError DumpId
  pub gate : LocalTargetGate.Outside

-- What is known before the engine starts.
pub record Prepared : Type 0 where
  pub target : AuthorizedLocalTarget
  pub metadata : DumpArtifactMetadata
  pub plan : RestorePlan

abbrev pub plan_of : AuthorizedLocalTarget → DumpArtifactMetadata → RestorePlan
plan_of target metadata = record {
  profile = metadata.profile;
  source_database = metadata.database;
  database = target.database;
  dump_id = metadata.dump_id;
  source_version = metadata.source_version;
  client_version = metadata.client_version;
  container = target.target.container_name;
}

-- `unwrap_or_else`.
abbrev pub or_source : Option DatabaseName → DatabaseName → DatabaseName
or_source none source = source
or_source (some database) source = database

abbrev pub chosen :
    Libraries
    → CacheTree
    → Outside
    → DatabaseName
    → Option DumpId
    → Result RestoreServiceError DumpId
chosen lib tree outside database (some dump_id) = ok dump_id
chosen lib tree outside database none = do
  choices ← dump_choices lib tree database
  map_err selection_error (outside.select database choices)

unfoldable pub prepare :
    Libraries
    → CacheTree
    → ConfigFile
    → Outside
    → RestoreRequest
    → Result RestoreServiceError Prepared
unfolding dump_choices validate_by_id verify_named authorize_database
prepare lib tree file outside request = do
  dump_id ← chosen lib tree outside request.database request.dump_id
  artifact ← map_err artifact_error (validate_by_id lib tree request.database dump_id)
  guarded ← map_err target_error (verify_named outside.gate request.target_container file)
  target ←
      map_err target_error
        (authorize_database guarded (or_source request.target_database artifact.metadata.database))
  ok (record {
    target = target;
    metadata = artifact.metadata;
    plan = plan_of target artifact.metadata;
  })

abbrev pub ready_of :
    RestorePlan
    → Result RestoreEngineError RestoreCompleted
    → Result RestoreServiceError RestoreReady
ready_of plan (err e) = err (engine_error e)
ready_of plan (ok completed) =
    ok (record { plan = plan; imported_bytes = completed.imported_bytes })

abbrev pub restore_prepared :
    Answers
    → Result RestoreServiceError Prepared
    → World
    → Result RestoreServiceError RestoreReady × World
restore_prepared answers (err e) w = (err e, w)
restore_prepared answers (ok p) w = (
  ready_of p.plan (RestoreEngine.restore answers p.target p.metadata w).0,
  (RestoreEngine.restore answers p.target p.metadata w).1,
)

unfoldable pub restore_to :
    Libraries
    → CacheTree
    → ConfigFile
    → Outside
    → Answers
    → RestoreRequest
    → World
    → Result RestoreServiceError RestoreReady × World
unfolding prepare RestoreEngine.restore
restore_to lib tree file outside answers request w =
    restore_prepared answers (prepare lib tree file outside request) w

unfoldable pub restore :
    Libraries
    → CacheTree
    → ConfigFile
    → LocalTargetGate.Outside
    → Answers
    → DatabaseName
    → DumpId
    → World
    → Result RestoreServiceError RestoreReady × World
unfolding restore_to
restore lib tree file gate answers database dump_id =
    restore_to lib tree file (record { select = no_restore_dump_selector; gate = gate }) answers
      (record {
        database = database;
        dump_id = some dump_id;
        target_container = none;
        target_database = none;
      })
