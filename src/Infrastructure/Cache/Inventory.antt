-- ===== src/Infrastructure/Cache/Inventory.antt =====
-- infrastructure/cache.rs: `inspect_all`, the inventory of the cache.
pub mod Ready
use reprodb.Common.{
  ℕ, Bool, true, false, not, ◌||◌, Option, none, some, List, [], ◌∷◌, ltb, leb, ◌==◌,
  saturating_add, if◌then◌else◌, Result, ok, err, ◌>>=◌, map_err,
}
use reprodb.Common.Text.{Text, text_eq, text_before, text_ord}
use reprodb.Common.Maps.{get}
use reprodb.Common.Sorting.{sort_by}
use reprodb.Domain.Names.{ProfileName, DatabaseName}
use reprodb.Domain.Digest.{Sha256Digest}
use reprodb.Domain.Prune.{DumpId}
use reprodb.Domain.Artifact.{DumpArtifactMetadata}
use reprodb.Infrastructure.CacheTree.{Libraries, CacheTree}
use reprodb.Infrastructure.ArtifactLock.{
  ArtifactLeaseError, lease_not_found, lease_busy, lease_io, try_acquire_lease,
}
use reprodb.Infrastructure.Directory.{collect}
use reprodb.Infrastructure.ArtifactStore.{LocatedDumpArtifact, list_all_candidates}
use reprodb.Infrastructure.CacheHit.{
  CacheError, store, cache_io, CacheMissReason, not_found, read_metadata, file_size, hash_file,
}

pub record CacheInventoryRequest : Type 0 where
  pub source_fingerprints : List (ProfileName × Sha256Digest)
  pub policy_version : ℕ
  pub now_unix_seconds : ℕ
  pub ttl_seconds : ℕ
  pub retention_seconds : ℕ

pub data CacheEntryStatus : Type 0 where
  ready stale prunable profile_missing entry_source_changed entry_policy_changed : CacheEntryStatus
  entry_clock_in_future entry_corrupt_metadata entry_identity_changed missing_file :
      CacheEntryStatus
  entry_size_mismatch entry_checksum_mismatch entry_in_use : CacheEntryStatus

pub record CacheInventoryEntry : Type 0 where
  pub profile : ProfileName
  pub database : DatabaseName
  pub dump_id : DumpId
  pub completed_at_unix_seconds : Option ℕ
  pub expires_at_unix_seconds : Option ℕ
  pub compressed_bytes : Option ℕ
  pub status : CacheEntryStatus

-- An entry without metadata.
abbrev unread_entry : LocatedDumpArtifact → Option ℕ → CacheEntryStatus → CacheInventoryEntry
unread_entry found size status = record {
  profile = found.profile;
  database = found.database;
  dump_id = found.artifact.dump_id;
  completed_at_unix_seconds = none;
  expires_at_unix_seconds = none;
  compressed_bytes = size;
  status = status;
}

abbrev pub unread_status : CacheMissReason → CacheEntryStatus
unread_status not_found = missing_file
unread_status reason = entry_corrupt_metadata

-- The status of an intact dump of this policy, by the fingerprint of its profile.
unfoldable pub aged_status :
    CacheInventoryRequest → DumpArtifactMetadata → Option Sha256Digest → CacheEntryStatus
aged_status request metadata none = profile_missing
aged_status request metadata (some fingerprint) =
    if not (text_eq metadata.source_fingerprint fingerprint)
    then entry_source_changed
    else if ltb request.now_unix_seconds metadata.completed_at_unix_seconds
    then entry_clock_in_future
    else if leb (saturating_add metadata.completed_at_unix_seconds request.retention_seconds)
        request.now_unix_seconds
    then prunable
    else if leb (saturating_add metadata.completed_at_unix_seconds request.ttl_seconds)
        request.now_unix_seconds
    then stale
    else ready

-- `hash_file(...)? != Some(artifact_sha256)` and the tests behind it.
abbrev pub hashed_status :
    CacheInventoryRequest
    → LocatedDumpArtifact
    → DumpArtifactMetadata
    → Option Sha256Digest
    → CacheEntryStatus
hashed_status request found metadata none = entry_checksum_mismatch
hashed_status request found metadata (some actual) =
    if not (text_eq actual metadata.artifact_sha256)
    then entry_checksum_mismatch
    else if not (metadata.policy_version == request.policy_version)
    then entry_policy_changed
    else aged_status request metadata (get found.profile request.source_fingerprints)

unfoldable pub status_of :
    Libraries
    → CacheInventoryRequest
    → LocatedDumpArtifact
    → DumpArtifactMetadata
    → Option ℕ
    → Result CacheError CacheEntryStatus
unfolding get hash_file aged_status
status_of lib request found metadata actual_size =
    if not (metadata.dump_id == found.artifact.dump_id)
      || not (text_eq metadata.profile found.profile)
      || not (text_eq metadata.database found.database)
    then ok entry_identity_changed
    else elim actual_size [
      | none ↦ ok missing_file
      | some size ↦ if not (size == metadata.compressed_bytes) then ok entry_size_mismatch else (do
        digest ← hash_file lib found.artifact.files.dump
        ok (hashed_status request found metadata digest))
    ]

-- What is read of the metadata.
abbrev pub inspect_read :
    Libraries
    → CacheInventoryRequest
    → LocatedDumpArtifact
    → Result CacheMissReason DumpArtifactMetadata
    → Result CacheError CacheInventoryEntry
inspect_read lib request found (err reason) = do
  size ← file_size found.artifact.files.dump
  ok (unread_entry found size (unread_status reason))
inspect_read lib request found (ok metadata) = do
  actual_size ← file_size found.artifact.files.dump
  status ← status_of lib request found metadata actual_size
  ok (record {
    profile = found.profile;
    database = found.database;
    dump_id = found.artifact.dump_id;
    completed_at_unix_seconds = some metadata.completed_at_unix_seconds;
    expires_at_unix_seconds =
        some (saturating_add metadata.completed_at_unix_seconds request.ttl_seconds);
    compressed_bytes = actual_size;
    status = status;
  })

abbrev pub inspect_leased :
    Libraries
    → CacheInventoryRequest
    → LocatedDumpArtifact
    → Result ArtifactLeaseError (Unit {0})
    → Result CacheError CacheInventoryEntry
inspect_leased lib request found (err lease_not_found) = ok (unread_entry found none missing_file)
inspect_leased lib request found (err lease_busy) = ok (unread_entry found none entry_in_use)
inspect_leased lib request found (err lease_io) = err cache_io
inspect_leased lib request found (ok u) = do
  read ← read_metadata lib found.artifact.files.metadata
  inspect_read lib request found read

unfoldable pub inspect :
    Libraries → CacheInventoryRequest → LocatedDumpArtifact → Result CacheError CacheInventoryEntry
unfolding try_acquire_lease read_metadata file_size status_of
inspect lib request found =
    inspect_leased lib request found (try_acquire_lease found.artifact.files)

-- `Option<u64>` compares `None` below every time.
abbrev option_before : Option ℕ → Option ℕ → Bool
option_before left none = false
option_before none (some right) = true
option_before (some left) (some right) = ltb left right

module _ (lib : Libraries) where
  -- The order of the inventory: the newest first, then by names.
  abbrev listed_before : CacheInventoryEntry → CacheInventoryEntry → Bool
  listed_before left right =
      if option_before right.completed_at_unix_seconds left.completed_at_unix_seconds
      then true
      else if option_before left.completed_at_unix_seconds right.completed_at_unix_seconds
      then false
      else if text_before left.profile right.profile
      then true
      else if text_before right.profile left.profile
      then false
      else if text_before left.database right.database
      then true
      else if text_before right.database left.database
      then false
      else text_before (lib.uuid.hyphenated left.dump_id) (lib.uuid.hyphenated right.dump_id)

  abbrev inspect_one :
      CacheInventoryRequest → LocatedDumpArtifact → Result CacheError (List CacheInventoryEntry)
  inspect_one request found = do entry ← inspect lib request found; ok (entry ∷ [])

  unfoldable pub inspect_all :
      CacheTree → CacheInventoryRequest → Result CacheError (List CacheInventoryEntry)
  unfolding list_all_candidates collect inspect
  inspect_all tree request = do
    artifacts ← map_err store (list_all_candidates lib tree)
    entries ← collect (inspect_one request) artifacts
    ok (sort_by listed_before entries)
