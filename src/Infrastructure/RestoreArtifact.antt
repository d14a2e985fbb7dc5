-- ===== src/Infrastructure/RestoreArtifact.antt =====
-- infrastructure/restore_artifact.rs: the validation of a dump before it is restored or pushed.
pub mod Intact
use reprodb.Common.{
  ℕ, ◌*◌, Bool, true, false, not, ◌&&◌, ◌||◌, Option, none, some, List, [], ◌∷◌, length, ltb, ◌==◌,
  max_u64, find, if◌then◌else◌, Result, ok, err, ◌>>=◌, ◌>>◌, guard, map_err, ok_or,
}
use reprodb.Common.Text.{text_eq}
use reprodb.Domain.Names.{ProfileName, DatabaseName}
use reprodb.Domain.Prune.{DumpId}
use reprodb.Domain.Artifact.{DumpArtifactMetadata}
use reprodb.Infrastructure.CacheTree.{
  Libraries, Decoded, FileState, CacheTree, parse_metadata, has_bad_size, absent, uninspectable,
  unreadable, contents,
}
use reprodb.Infrastructure.Server.{ArtifactStoreError}
use reprodb.Infrastructure.ArtifactLock.{ArtifactLeaseError, try_acquire_lease}
use reprodb.Infrastructure.ArtifactStore.{
  PublishedDumpArtifact, LocatedDumpArtifact, find_complete_by_id, list_complete,
}

-- Without the causes.
pub data RestoreArtifactError : Type 0 where
  store_error : ArtifactStoreError → RestoreArtifactError
  lease_error : ArtifactLeaseError → RestoreArtifactError
  not_found duplicate_id read_metadata_error invalid_metadata : RestoreArtifactError
  identity_mismatch database_mismatch read_artifact compressed_size_mismatch : RestoreArtifactError
  artifact_checksum_mismatch invalid_zstd uncompressed_size_mismatch : RestoreArtifactError
  sql_checksum_mismatch : RestoreArtifactError

-- The lease that is held is not kept in the model.
pub record ValidatedRestoreArtifact : Type 0 where
  pub artifact : PublishedDumpArtifact
  pub metadata : DumpArtifactMetadata

unfoldable pub read_metadata :
    Libraries → FileState → Result RestoreArtifactError DumpArtifactMetadata
read_metadata lib absent = err read_metadata_error
read_metadata lib uninspectable = err read_metadata_error
read_metadata lib (unreadable size) = err read_metadata_error
read_metadata lib (contents bytes) =
    if has_bad_size bytes
    then err invalid_metadata
    else ok_or invalid_metadata (parse_metadata lib bytes)

-- `dump_path().metadata()?.len()`.
unfoldable pub dump_size : FileState → Result RestoreArtifactError ℕ
dump_size absent = err read_artifact
dump_size uninspectable = err read_artifact
dump_size (unreadable size) = ok size
dump_size (contents bytes) = ok (length bytes)

abbrev pub read_dump : FileState → Result RestoreArtifactError (List ℕ)
read_dump (contents bytes) = ok bytes
read_dump state = err read_artifact

-- Where the decoder reads the whole stream, the two counters and the two digests are compared; a
-- counter that exceeds 64 bits is an error.
unfoldable pub validate_zstd_and_checksums :
    Libraries → FileState → DumpArtifactMetadata → Result RestoreArtifactError (Unit {0})
validate_zstd_and_checksums lib dump metadata = do
  bytes ← read_dump dump
  decoded ← ok_or invalid_zstd (lib.decode bytes)
  guard (not (ltb max_u64 (length decoded.consumed))) invalid_zstd
  guard (not (ltb max_u64 (length decoded.sql))) uncompressed_size_mismatch
  guard
      (length decoded.consumed == metadata.compressed_bytes
        && text_eq (lib.sha256 decoded.consumed) metadata.artifact_sha256)
      artifact_checksum_mismatch
  guard (length decoded.sql == metadata.uncompressed_bytes) uncompressed_size_mismatch
  guard (text_eq (lib.sha256 decoded.sql) metadata.sql_sha256) sql_checksum_mismatch

unfoldable pub validate_artifact :
    Libraries
    → ProfileName
    → DatabaseName
    → DumpId
    → PublishedDumpArtifact
    → Result RestoreArtifactError ValidatedRestoreArtifact
unfolding try_acquire_lease read_metadata dump_size validate_zstd_and_checksums
validate_artifact lib profile database dump_id artifact = do
  map_err lease_error (try_acquire_lease artifact.files)
  metadata ← read_metadata lib artifact.files.metadata
  guard
      (metadata.dump_id == dump_id
        && text_eq metadata.profile profile
        && text_eq metadata.database database)
      identity_mismatch
  actual_size ← dump_size artifact.files.dump
  guard (actual_size == metadata.compressed_bytes) compressed_size_mismatch
  validate_zstd_and_checksums lib artifact.files.dump metadata
  ok (record { artifact = artifact; metadata = metadata })

-- The only candidate.
abbrev pub only : List LocatedDumpArtifact → Result RestoreArtifactError LocatedDumpArtifact
only [] = err not_found
only (found ∷ []) = ok found
only (found ∷ another ∷ rest) = err duplicate_id

module _ (lib : Libraries) (tree : CacheTree) where
  unfoldable pub validate_by_id :
      DatabaseName → DumpId → Result RestoreArtifactError ValidatedRestoreArtifact
  unfolding find_complete_by_id validate_artifact
  validate_by_id requested dump_id = do
    candidates ← map_err store_error (find_complete_by_id lib tree dump_id)
    found ← only candidates
    validated ← validate_artifact lib found.profile found.database dump_id found.artifact
    guard (text_eq validated.metadata.database requested) database_mismatch
    ok validated

  unfoldable pub validate :
      ProfileName → DatabaseName → DumpId → Result RestoreArtifactError ValidatedRestoreArtifact
  unfolding list_complete validate_artifact
  validate profile database dump_id = do
    artifacts ← map_err store_error (list_complete lib tree profile database)
    artifact ← ok_or not_found (find (λ a. a.dump_id == dump_id) artifacts)
    validate_artifact lib profile database dump_id artifact
