-- ===== src/Application/RestoreEngine.antt =====
-- application/restore_engine.rs and infrastructure/restore_state.rs: a dump is imported into an
-- authorized local database, and the state file says how far the import went.
pub mod Safety
use reprodb.Common.{ℕ, Bool, true, false, not, ◌==◌, Option, none, some, Result, ok, err, guard}
use reprodb.Common.Actions.{Action, ◌>>=◌, ◌>>◌, lift}
use reprodb.Common.Text.{Text, text_eq}
use reprodb.Domain.Names.{DatabaseName, ContainerName, ContainerId}
use reprodb.Domain.Prune.{DumpId}
use reprodb.Domain.Artifact.{DumpArtifactMetadata}
use reprodb.Infrastructure.OperationLock.{OperationLockError}
use reprodb.Application.LocalTargetGate.{AuthorizedLocalTarget}
use reprodb.Application.Compatibility.{versions_are_restore_compatible}

pub data RestoreStatus : Type 0 where
  incomplete ready : RestoreStatus

-- Without the format's version and the time.
pub record RestoreState : Type 0 where
  pub docker_context : Text
  pub container_id : ContainerId
  pub container_name : ContainerName
  pub database : DatabaseName
  pub dump_id : DumpId
  pub status : RestoreStatus

-- The causes that the errors wrap are left out.
pub data RestoreStateError : Type 0 where
  create_directory restrict_directory create_temporary_file restrict_file : RestoreStateError
  serialize write persist sync_directory clock : RestoreStateError

pub data RestoreExecutorError : Type 0 where
  option_file interrupted start wait missing_stdin missing_stderr : RestoreExecutorError
  read_stderr stderr_task decoder_task open_artifact decode_artifact : RestoreExecutorError
  artifact_too_large mysql_stopped_early write_stdin close_stdin : RestoreExecutorError
  artifact_changed_during_import recreate_failed import_failed : RestoreExecutorError

pub data RestoreEngineError : Type 0 where
  source_target_collision version_mismatch : RestoreEngineError
  lock : OperationLockError → RestoreEngineError
  state : RestoreStateError → RestoreEngineError
  execution : RestoreExecutorError → RestoreEngineError
  imported_size_mismatch : RestoreEngineError

-- Where `save` fails, if it does: before `persist` has replaced the file, or in the sync behind it.
pub data SaveFault : Type 0 where
  no_fault : SaveFault
  before_persist after_persist : RestoreStateError → SaveFault

-- The target database: as it was, dropped and created anew, hit by a statement that failed, or
-- filled with so many bytes of SQL.
pub data Contents : Type 0 where
  original recreated disturbed : Contents
  imported : ℕ → Contents

pub record World : Type 0 where
  pub saved : Option RestoreState
  pub contents : Contents

-- What the lock, the state files and the executor answer; a run asks each at most once.
pub record Answers : Type 0 where
  pub lock : Result OperationLockError (Unit {0})
  pub save_incomplete : SaveFault
  pub recreate_database : Result RestoreExecutorError (Unit {0})
  pub import : Result RestoreExecutorError ℕ
  pub save_ready : SaveFault

pub record RestoreCompleted : Type 0 where
  pub database : DatabaseName
  pub dump_id : DumpId
  pub imported_bytes : ℕ

unfoldable pub new_state : AuthorizedLocalTarget → DumpId → RestoreStatus → RestoreState
new_state target dump_id status = record {
  docker_context = target.target.docker_context;
  container_id = target.target.container_id;
  container_name = target.target.container_name;
  database = target.database;
  dump_id = dump_id;
  status = status;
}

abbrev Engine : Type 0 → Type 0
Engine A = Action World RestoreEngineError A

unfoldable pub save : SaveFault → AuthorizedLocalTarget → DumpId → RestoreStatus → Engine (Unit {0})
save no_fault target dump_id status w =
    (ok tt, record w { saved = some (new_state target dump_id status) })
save (before_persist e) target dump_id status w = (err (state e), w)
save (after_persist e) target dump_id status w =
    (err (state e), record w { saved = some (new_state target dump_id status) })

-- The executor's `DROP DATABASE` and `CREATE DATABASE`.
unfoldable pub recreate_database : Result RestoreExecutorError (Unit {0}) → Engine (Unit {0})
recreate_database (ok u) w = (ok tt, record w { contents = recreated })
recreate_database (err e) w = (err (execution e), record w { contents = disturbed })

unfoldable pub import : Result RestoreExecutorError ℕ → Engine ℕ
import (ok n) w = (ok n, record w { contents = imported n })
import (err e) w = (err (execution e), record w { contents = disturbed })

abbrev try_acquire : Result OperationLockError (Unit {0}) → Engine (Unit {0})
try_acquire (ok u) w = (ok tt, w)
try_acquire (err e) w = (err (lock e), w)

unfoldable pub restore :
    Answers → AuthorizedLocalTarget → DumpArtifactMetadata → Engine RestoreCompleted
unfolding versions_are_restore_compatible save recreate_database import
restore answers target metadata = do
  lift (
      guard (not (text_eq target.target.server_uuid metadata.source_server_uuid))
        source_target_collision)
  lift (
      guard
        (versions_are_restore_compatible metadata.source_version metadata.client_version
          target.target.server_version target.target.client.version)
        version_mismatch)
  try_acquire answers.lock
  save answers.save_incomplete target metadata.dump_id incomplete
  recreate_database answers.recreate_database
  bytes ← import answers.import
  lift (guard (bytes == metadata.uncompressed_bytes) imported_size_mismatch)
  save answers.save_ready target metadata.dump_id ready
  lift (
      ok
        (record { database = target.database; dump_id = metadata.dump_id; imported_bytes = bytes }))
