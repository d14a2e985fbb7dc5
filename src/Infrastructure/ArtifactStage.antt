-- ===== src/Infrastructure/ArtifactStage.antt =====
-- infrastructure/artifact_store.rs: a dump is staged in a directory of its own, and published by a
-- rename.
pub mod Atomic
use reprodb.Common.{
  ℕ, Bool, true, false, not, ◌||◌, ◌==◌, List, [], ◌∷◌, ◌++◌, length, if◌then◌else◌, Result, ok,
  err, some,
}
use reprodb.Common.Text.{Text, text_eq}
use reprodb.Domain.Names.{ProfileName, DatabaseName}
use reprodb.Domain.Uuid.{UuidText}
use reprodb.Domain.Digest.{Sha256Digest}
use reprodb.Domain.Prune.{DumpId}
use reprodb.Domain.Artifact.{DumpArtifactMetadata}
use reprodb.Infrastructure.CacheTree.{
  Artifact, FileState, Node, part_suffix, absent, uninspectable, unreadable, contents, unlocked, at,
  deletes,
}
use reprodb.Infrastructure.Server.{
  ArtifactStoreError, io, metadata_identity_mismatch, metadata_content_mismatch,
  compressed_size_mismatch,
}
use reprodb.Infrastructure.ArtifactStore.{PublishedDumpArtifact}

-- `CompressionMetrics`, without the time.
pub record CompressionMetrics : Type 0 where
  pub input_bytes : ℕ
  pub compressed_bytes : ℕ
  pub input_sha256 : Sha256Digest
  pub compressed_sha256 : Sha256Digest

-- The stage behind `begin` and `create_dump_writer`, with what the executor wrote to the dump's file.
pub record StagedDumpArtifact : Type 0 where
  pub dump_id : DumpId
  pub profile : ProfileName
  pub database : DatabaseName
  pub dump : FileState

-- Where `publish` fails, if it does: in opening or syncing the dump, in writing or syncing the
-- metadata, in the sync of the stage or the rename, or in the sync behind it.
pub data PublishFault : Type 0 where
  no_fault sync_dump rename sync_parent : PublishFault
  write_metadata : ArtifactStoreError → PublishFault

abbrev pub is_sync_dump : PublishFault → Bool
is_sync_dump sync_dump = true
is_sync_dump fault = false

-- How the files answer; `is_removed` says whether the `drop` of the stage removes it.
pub record StageFiles : Type 0 where
  pub fault : PublishFault
  pub is_removed : Bool
  pub modified : ℕ

-- The result of a call, and what it leaves of the stage in the database's directory.
abbrev pub Published : Type 0
Published = Result ArtifactStoreError PublishedDumpArtifact × List (Node Artifact)

unfoldable pub has_other_identity : StagedDumpArtifact → DumpArtifactMetadata → Bool
has_other_identity stage metadata =
    not (metadata.dump_id == stage.dump_id)
    || not (text_eq metadata.profile stage.profile)
    || not (text_eq metadata.database stage.database)

unfoldable pub has_other_content : DumpArtifactMetadata → CompressionMetrics → Bool
has_other_content metadata compression =
    not (metadata.uncompressed_bytes == compression.input_bytes)
    || not (metadata.compressed_bytes == compression.compressed_bytes)
    || not (text_eq metadata.sql_sha256 compression.input_sha256)
    || not (text_eq metadata.artifact_sha256 compression.compressed_sha256)

module _ (uuid : UuidText) (to_json : DumpArtifactMetadata → List ℕ) where
  abbrev pub stage_files : StageFiles → FileState → FileState → Artifact
  stage_files files dump metadata = record {
    dump = dump;
    metadata = metadata;
    lock = unlocked;
    modified = at files.modified;
    deletion = deletes;
    tag = 0;
  }

  -- `drop` of a stage that is not published; its failure is not reported.
  abbrev pub dropped : StageFiles → StagedDumpArtifact → FileState → List (Node Artifact)
  dropped files stage metadata =
      if files.is_removed
      then []
      else record {
        name = some (uuid.hyphenated stage.dump_id ++ part_suffix);
        is_dir = true;
        content = stage_files files stage.dump metadata;
      }
        ∷ []

  abbrev pub published_files : StageFiles → StagedDumpArtifact → DumpArtifactMetadata → Artifact
  published_files files stage metadata = stage_files files stage.dump (contents (to_json metadata))

  abbrev pub published_node : StageFiles → StagedDumpArtifact → DumpArtifactMetadata → Node Artifact
  published_node files stage metadata = record {
    name = some (uuid.hyphenated stage.dump_id);
    is_dir = true;
    content = published_files files stage metadata;
  }

  -- The metadata, the rename and the syncs, once the dump's size is right.
  abbrev pub renamed :
      PublishFault → StageFiles → StagedDumpArtifact → DumpArtifactMetadata → Published
  renamed sync_dump files stage metadata = (err io, dropped files stage absent)
  renamed (write_metadata e) files stage metadata = (err e, dropped files stage absent)
  renamed rename files stage metadata = (err io, dropped files stage (contents (to_json metadata)))
  renamed sync_parent files stage metadata = (err io, published_node files stage metadata ∷ [])
  renamed no_fault files stage metadata = (
    ok (record { dump_id = stage.dump_id; files = published_files files stage metadata }),
    published_node files stage metadata ∷ [],
  )

  -- The size of the staged dump, once it is opened and synced.
  abbrev pub sized : FileState → StageFiles → StagedDumpArtifact → DumpArtifactMetadata → Published
  sized absent files stage metadata = (err io, dropped files stage absent)
  sized uninspectable files stage metadata = (err io, dropped files stage absent)
  sized (unreadable size) files stage metadata = (err io, dropped files stage absent)
  sized (contents bytes) files stage metadata =
      if is_sync_dump files.fault
      then (err io, dropped files stage absent)
      else if not (length bytes == metadata.compressed_bytes)
      then (err compressed_size_mismatch, dropped files stage absent)
      else renamed files.fault files stage metadata

  unfoldable pub publish :
      StageFiles → StagedDumpArtifact → DumpArtifactMetadata → CompressionMetrics → Published
  unfolding has_other_identity has_other_content
  publish files stage metadata compression =
      if has_other_identity stage metadata
      then (err metadata_identity_mismatch, dropped files stage absent)
      else if has_other_content metadata compression
      then (err metadata_content_mismatch, dropped files stage absent)
      else sized stage.dump files stage metadata
