-- ===== src/Application/RestoreEngine/Safety.antt =====
-- What a restore leaves behind, on every answer of the lock, the state files and the executor. The
-- state behind a call that fails is also the one that a crash during that call leaves.
use reprodb.Common.{◌≡◌, ◌↔◌, ◌∙◌, ap, sym, ◌⊎◌, true, false, some, ok, err, arith, ==-refl}
use reprodb.Common.Text.{text_eq, text_eq_iff}
use reprodb.Domain.Artifact.{DumpArtifactMetadata}
use reprodb.Application.LocalTargetGate.{AuthorizedLocalTarget}
use reprodb.Application.Compatibility.{versions_are_restore_compatible}
use reprodb.Application.RestoreEngine.{
  restore, save, recreate_database, import, new_state, Answers, World, RestoreCompleted, incomplete,
  ready, imported, no_fault, source_target_collision,
}

-- The database is untouched, or marked incomplete, or marked ready and filled with the whole dump.
abbrev pub IsSafe : AuthorizedLocalTarget → DumpArtifactMetadata → World → World → Type 0
IsSafe target metadata before after =
    (after.contents ≡ before.contents)
    ⊎ (after.saved ≡ some (new_state target metadata.dump_id incomplete))
    ⊎ ((after.saved ≡ some (new_state target metadata.dump_id ready))
        × (after.contents ≡ imported metadata.uncompressed_bytes))

-- Whatever the lock, the state files and the executor answer, a restore leaves the database as it
-- was, or the state file says that it is incomplete, or it says ready and the whole dump was imported.
pub restore-IsSafe :
    (answers : Answers) (target : AuthorizedLocalTarget) (metadata : DumpArtifactMetadata)
    (w : World)
    → IsSafe target metadata w (restore answers target metadata w).1
unfolding restore save recreate_database import
restore-IsSafe answers target metadata w = ground arith

-- What a restore that succeeds did.
pub record IsRestored (target : AuthorizedLocalTarget) (metadata : DumpArtifactMetadata)
    (done : RestoreCompleted) (after : World) : Type 0 where
  pub other_server : text_eq target.target.server_uuid metadata.source_server_uuid ≡ false
  pub compatible :
      versions_are_restore_compatible metadata.source_version metadata.client_version
        target.target.server_version target.target.client.version
      ≡ true
  pub bytes : done.imported_bytes ≡ metadata.uncompressed_bytes
  pub contents : after.contents ≡ imported metadata.uncompressed_bytes
  pub saved : after.saved ≡ some (new_state target metadata.dump_id ready)

-- A restore that succeeds went into another server than the dump's, of compatible versions, imported
-- exactly the bytes of the metadata, and left the state file ready for that dump.
pub restore-IsRestored :
    (answers : Answers) (target : AuthorizedLocalTarget) (metadata : DumpArtifactMetadata)
    (w after : World) (done : RestoreCompleted)
    → restore answers target metadata w ≡ (ok done, after)
    → IsRestored target metadata done after
unfolding restore save recreate_database import
restore-IsRestored answers target metadata w after done h = record {
  other_server = ground arith;
  compatible = ground arith;
  bytes = ground arith;
  contents = ground arith;
  saved = ground arith;
}

abbrev pub completed : AuthorizedLocalTarget → DumpArtifactMetadata → RestoreCompleted
completed target metadata = record {
  database = target.database;
  dump_id = metadata.dump_id;
  imported_bytes = metadata.uncompressed_bytes;
}

-- All that a restore asks for: another server of compatible versions, answers that do not fail, and an
-- import that reads exactly the bytes of the metadata.
pub record IsPossible (answers : Answers) (target : AuthorizedLocalTarget)
    (metadata : DumpArtifactMetadata) : Type 0 where
  pub other_server : text_eq target.target.server_uuid metadata.source_server_uuid ≡ false
  pub compatible :
      versions_are_restore_compatible metadata.source_version metadata.client_version
        target.target.server_version target.target.client.version
      ≡ true
  pub lock : answers.lock ≡ ok tt
  pub save_incomplete : answers.save_incomplete ≡ no_fault
  pub recreate_database : answers.recreate_database ≡ ok tt
  pub import : answers.import ≡ ok metadata.uncompressed_bytes
  pub save_ready : answers.save_ready ≡ no_fault

restore-IsPossible :
    (answers : Answers) (target : AuthorizedLocalTarget) (metadata : DumpArtifactMetadata)
    (w : World) (done : RestoreCompleted)
    → (restore answers target metadata w).0 ≡ ok done
    → IsPossible answers target metadata × (done ≡ completed target metadata)
unfolding restore save recreate_database import
restore-IsPossible answers target metadata w done h = (
  record {
    other_server = ground (arith, h);
    compatible = ground (arith, h);
    lock = ground (arith, h);
    save_incomplete = ground (arith, h);
    recreate_database = ground (arith, h);
    import = ground (arith, h);
    save_ready = ground (arith, h);
  },
  ground (arith, h),
)

restore-completes :
    (answers : Answers) (target : AuthorizedLocalTarget) (metadata : DumpArtifactMetadata)
    (w : World)
    → IsPossible answers target metadata
    → (restore answers target metadata w).0 ≡ ok (completed target metadata)
unfolding restore save recreate_database import
restore-completes answers target metadata w p = rw (
  p.other_server,
  p.compatible,
  p.lock,
  p.save_incomplete,
  p.recreate_database,
  p.import,
  ==-refl metadata.uncompressed_bytes,
  p.save_ready,
)

-- A restore succeeds exactly if the target is another server of compatible versions, no call fails and
-- the import reads exactly the bytes of the metadata; it then reports the database, the dump and those
-- bytes.
pub restore_iff :
    (answers : Answers) (target : AuthorizedLocalTarget) (metadata : DumpArtifactMetadata)
    (w : World) (done : RestoreCompleted)
    → ((restore answers target metadata w).0 ≡ ok done)
      ↔ (IsPossible answers target metadata × (done ≡ completed target metadata))
restore_iff answers target metadata w done = (
  restore-IsPossible answers target metadata w done,
  λ p. restore-completes answers target metadata w p.0 ∙ ap (λ d. ok d) (sym p.1),
)

-- A dump of the target's own server is refused, and nothing changes.
pub restore-refuses :
    (answers : Answers) (target : AuthorizedLocalTarget) (metadata : DumpArtifactMetadata)
    (w : World)
    → target.target.server_uuid ≡ metadata.source_server_uuid
    → restore answers target metadata w ≡ (err source_target_collision, w)
unfolding restore
restore-refuses answers target metadata w h =
    rw ((text_eq_iff target.target.server_uuid metadata.source_server_uuid).1 h)
