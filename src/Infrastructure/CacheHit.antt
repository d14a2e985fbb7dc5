-- ===== src/Infrastructure/CacheHit.antt =====
-- infrastructure/cache.rs, `validate_candidate`: whether one artifact is a hit of a lookup.
use reprodb.Common.{
  ℕ, ◌-◌, ◌*◌, Bool, not, ◌||◌, Option, none, some, length, ltb, leb, ◌==◌, saturating_add,
  if◌then◌else◌, Result, ok, err, ◌>>=◌,
}
use reprodb.Common.Text.{text_eq}
use reprodb.Domain.Names.{ProfileName, DatabaseName}
use reprodb.Domain.Digest.{Sha256Digest}
use reprodb.Domain.Artifact.{DumpArtifactMetadata}
use reprodb.Infrastructure.CacheTree.{
  Libraries, FileState, parse_metadata, has_bad_size, absent, uninspectable, unreadable, contents,
}
use reprodb.Infrastructure.Server.{ArtifactStoreError}
use reprodb.Infrastructure.ArtifactStore.{PublishedDumpArtifact}

abbrev pub pull_freshness_ttl_seconds : ℕ
pull_freshness_ttl_seconds = 60 * 60

-- `CacheLookup` and `CacheDatabaseLookup`.
pub record CacheLookup : Type 0 where
  pub profile : ProfileName
  pub database : DatabaseName
  pub source_fingerprint : Sha256Digest
  pub policy_version : ℕ
  pub now_unix_seconds : ℕ
  pub ttl_seconds : ℕ
  pub fresh : Bool

pub record ValidatedCacheHit : Type 0 where
  pub artifact : PublishedDumpArtifact
  pub metadata : DumpArtifactMetadata
  pub age_seconds : ℕ

pub data CacheMissReason : Type 0 where
  fresh_requested not_found corrupt_metadata identity_changed source_changed policy_changed :
      CacheMissReason
  clock_in_future expired size_mismatch checksum_mismatch in_use : CacheMissReason

pub data CacheLookupResult : Type 0 where
  hit : ValidatedCacheHit → CacheLookupResult
  miss : CacheMissReason → CacheLookupResult

-- Without the causes.
pub data CacheError : Type 0 where
  store : ArtifactStoreError → CacheError
  cache_io : CacheError

unfoldable pub read_metadata :
    Libraries → FileState → Result CacheError (Result CacheMissReason DumpArtifactMetadata)
read_metadata lib absent = ok (err not_found)
read_metadata lib uninspectable = err cache_io
read_metadata lib (unreadable size) = err cache_io
read_metadata lib (contents bytes) =
    if has_bad_size bytes then ok (err corrupt_metadata) else elim (parse_metadata lib bytes) [
      | none ↦ ok (err corrupt_metadata)
      | some metadata ↦ ok (ok metadata)
    ]

unfoldable pub file_size : FileState → Result CacheError (Option ℕ)
file_size absent = ok none
file_size uninspectable = err cache_io
file_size (unreadable size) = ok (some size)
file_size (contents bytes) = ok (some (length bytes))

unfoldable pub hash_file : Libraries → FileState → Result CacheError (Option Sha256Digest)
hash_file lib absent = ok none
hash_file lib uninspectable = err cache_io
hash_file lib (unreadable size) = err cache_io
hash_file lib (contents bytes) = ok (some (lib.sha256 bytes))

-- What the dump's bytes must be: the checks of `validate_candidate` that read them.
unfoldable pub validate_dump :
    Libraries → DumpArtifactMetadata → FileState → Result CacheError (Option CacheMissReason)
unfolding file_size hash_file
validate_dump lib metadata dump = do
  size ← file_size dump
  elim size [
    | none ↦ ok (some not_found)
    | some actual_size ↦
        if not (actual_size == metadata.compressed_bytes) then ok (some size_mismatch) else (do
          checksum ← hash_file lib dump
          ok (elim checksum [
            | none ↦ some not_found
            | some actual ↦
                if text_eq actual metadata.artifact_sha256 then none else some checksum_mismatch
          ]))
  ]

-- The checks of `validate_candidate` on the metadata; the source compares the database twice.
unfoldable pub reject_metadata :
    CacheLookup → PublishedDumpArtifact → DumpArtifactMetadata → Option CacheMissReason
reject_metadata request artifact metadata =
    if not (metadata.dump_id == artifact.dump_id)
      || not (text_eq metadata.profile request.profile)
      || not (text_eq metadata.database request.database)
    then some identity_changed
    else if not (text_eq metadata.source_fingerprint request.source_fingerprint)
    then some source_changed
    else if not (metadata.policy_version == request.policy_version)
    then some policy_changed
    else if ltb request.now_unix_seconds metadata.completed_at_unix_seconds
    then some clock_in_future
    else if leb (saturating_add metadata.completed_at_unix_seconds request.ttl_seconds)
        request.now_unix_seconds
    then some expired
    else none

abbrev pub hit_of : CacheLookup → PublishedDumpArtifact → DumpArtifactMetadata → ValidatedCacheHit
hit_of request artifact metadata = record {
  artifact = artifact;
  metadata = metadata;
  age_seconds = request.now_unix_seconds - metadata.completed_at_unix_seconds;
}

abbrev pub hit_unless :
    ValidatedCacheHit → Option CacheMissReason → Result CacheMissReason ValidatedCacheHit
hit_unless found none = ok found
hit_unless found (some reason) = err reason

abbrev pub validate_accepted :
    Libraries
    → ValidatedCacheHit
    → Option CacheMissReason
    → Result CacheError (Result CacheMissReason ValidatedCacheHit)
validate_accepted lib found (some reason) = ok (err reason)
validate_accepted lib found none = do
  rejection ← validate_dump lib found.metadata found.artifact.files.dump
  ok (hit_unless found rejection)

unfoldable pub validate_candidate :
    Libraries
    → CacheLookup
    → PublishedDumpArtifact
    → DumpArtifactMetadata
    → Result CacheError (Result CacheMissReason ValidatedCacheHit)
unfolding reject_metadata validate_dump
validate_candidate lib request artifact metadata =
    validate_accepted lib (hit_of request artifact metadata)
      (reject_metadata request artifact metadata)
