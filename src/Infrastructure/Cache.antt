-- ===== src/Infrastructure/Cache.antt =====
-- infrastructure/cache.rs: the lookup of a dump that `pull` can reuse. A lease that is held is not kept
-- in the model: `try_acquire_lease` says whether it was granted.
pub mod Validation
pub mod Gathering
pub mod Lookup
pub mod Inventory
use reprodb.Common.{
  ℕ, ◌-◌, ◌*◌, Bool, true, false, not, ◌||◌, Option, none, some, List, [], ◌∷◌, ◌++◌, length, ltb,
  leb, ◌==◌, saturating_add, if◌then◌else◌, Result, ok, err, ◌>>=◌, map_err,
}
use reprodb.Common.Text.{text_eq}
use reprodb.Common.Sorting.{sort_by}
use reprodb.Domain.Names.{ProfileName, DatabaseName}
use reprodb.Domain.Digest.{Sha256Digest}
use reprodb.Domain.Artifact.{DumpArtifactMetadata}
use reprodb.Infrastructure.CacheTree.{
  Libraries, Artifact, FileState, CacheTree, parse_metadata, has_bad_size, absent, uninspectable,
  unreadable, contents,
}
use reprodb.Infrastructure.Server.{ArtifactStoreError}
use reprodb.Infrastructure.ArtifactLock.{
  ArtifactLeaseError, lease_not_found, lease_busy, lease_io, try_acquire_lease,
}
use reprodb.Infrastructure.ArtifactStore.{
  PublishedDumpArtifact, LocatedDumpArtifact, list_complete, list_complete_for_profile,
}
use reprodb.Infrastructure.CacheHit.{
  pull_freshness_ttl_seconds, CacheLookup, ValidatedCacheHit, CacheMissReason, CacheLookupResult,
  CacheError, read_metadata, file_size, hash_file, validate_dump, reject_metadata, hit_of,
  hit_unless, validate_accepted, validate_candidate, fresh_requested, not_found, corrupt_metadata,
  identity_changed, source_changed, policy_changed, clock_in_future, expired, size_mismatch,
  checksum_mismatch, in_use, hit, miss, store, cache_io,
}

pub record CacheCandidate : Type 0 where
  pub artifact : PublishedDumpArtifact
  pub metadata : DumpArtifactMetadata

-- The two variables of the loop that reads the metadata.
pub record Gathered : Type 0 where
  pub candidates : List CacheCandidate
  pub unreadable_metadata : Option CacheMissReason

-- `get_or_insert`.
abbrev pub get_or_insert : Option CacheMissReason → CacheMissReason → Option CacheMissReason
get_or_insert none reason = some reason
get_or_insert (some first) reason = some first

abbrev pub noted : CacheMissReason → Gathered → Gathered
noted reason gathered = record gathered {
  unreadable_metadata = get_or_insert gathered.unreadable_metadata reason;
}

-- What one artifact adds: nothing, a reason, or a candidate.
pub data Added : Type 0 where
  skipped : Added
  rejected : CacheMissReason → Added
  accepted : CacheCandidate → Added

abbrev pub add : Added → Gathered → Gathered
add skipped gathered = gathered
add (rejected reason) gathered = noted reason gathered
add (accepted candidate) gathered = record gathered {
  candidates = gathered.candidates ++ (candidate ∷ []);
}

abbrev pub always_accepted : PublishedDumpArtifact → DumpArtifactMetadata → Added
always_accepted artifact metadata = accepted (record { artifact = artifact; metadata = metadata })

-- The tests of `lookup_by_database` on what it read.
unfoldable pub accept_located : CacheLookup → LocatedDumpArtifact → DumpArtifactMetadata → Added
accept_located request found metadata =
    if not (text_eq found.profile request.profile) || not (text_eq found.database metadata.database)
    then rejected identity_changed
    else if not (text_eq metadata.database request.database)
    then skipped
    else always_accepted found.artifact metadata

-- The body of the loop that takes the leases and reads the metadata.
abbrev read_leased :
    {A : Type 0}
    → (A → DumpArtifactMetadata → Added)
    → A
    → Result CacheError (Result CacheMissReason DumpArtifactMetadata)
    → Result CacheError Added
read_leased accept item (err e) = err e
read_leased accept item (ok (err reason)) = ok (rejected reason)
read_leased accept item (ok (ok metadata)) = ok (accept item metadata)

abbrev examine_leased :
    {A : Type 0}
    → Libraries
    → (A → DumpArtifactMetadata → Added)
    → A
    → Artifact
    → Result ArtifactLeaseError (Unit {0})
    → Result CacheError Added
examine_leased lib accept item files (err lease_not_found) = ok (rejected not_found)
examine_leased lib accept item files (err lease_busy) = ok (rejected in_use)
examine_leased lib accept item files (err lease_io) = err cache_io
examine_leased lib accept item files (ok u) =
    read_leased accept item (read_metadata lib files.metadata)

unfoldable pub examine :
    {A : Type 0}
    → Libraries
    → (A → PublishedDumpArtifact)
    → (A → DumpArtifactMetadata → Added)
    → A
    → Result CacheError Added
unfolding try_acquire_lease read_metadata
examine lib artifact_of accept item =
    examine_leased lib accept item (artifact_of item).files
      (try_acquire_lease (artifact_of item).files)

module _ {A : Type 0} (lib : Libraries) (artifact_of : A → PublishedDumpArtifact)
    (accept : A → DumpArtifactMetadata → Added) where
  unfoldable pub gather : Gathered → List A → Result CacheError Gathered
  unfolding examine
  gather gathered [] = ok gathered
  gather gathered (item ∷ items) = do
    added ← examine lib artifact_of accept item
    gather (add added gathered) items

-- `Reverse(completed_at_unix_seconds)`.
abbrev pub newer : CacheCandidate → CacheCandidate → Bool
newer a b = ltb b.metadata.completed_at_unix_seconds a.metadata.completed_at_unix_seconds

-- `newest_invalid.or(unreadable_metadata).unwrap_or(CacheMissReason::NotFound)`.
abbrev pub miss_reason : Option CacheMissReason → Option CacheMissReason → CacheMissReason
miss_reason (some reason) unread = reason
miss_reason none (some reason) = reason
miss_reason none none = not_found

abbrev pub choose_on :
    Result CacheMissReason ValidatedCacheHit
    → (CacheMissReason → Result CacheError CacheLookupResult)
    → Result CacheError CacheLookupResult
choose_on (ok found) next = ok (hit found)
choose_on (err reason) next = next reason

-- The loop over the candidates, with `newest_invalid`.
unfoldable pub choose :
    Libraries
    → CacheLookup
    → Option CacheMissReason
    → Option CacheMissReason
    → List CacheCandidate
    → Result CacheError CacheLookupResult
unfolding validate_candidate
choose lib request unread newest_invalid [] = ok (miss (miss_reason newest_invalid unread))
choose lib request unread newest_invalid (candidate ∷ candidates) = do
  validated ← validate_candidate lib request candidate.artifact candidate.metadata
  choose_on validated
      λ reason. choose lib request unread (get_or_insert newest_invalid reason) candidates

abbrev nothing_gathered : Gathered
nothing_gathered = record { candidates = []; unreadable_metadata = none }

-- What both lookups do with the artifacts that the store lists.
unfoldable pub look_up_among :
    {A : Type 0}
    → Libraries
    → CacheLookup
    → (A → PublishedDumpArtifact)
    → (A → DumpArtifactMetadata → Added)
    → List A
    → Result CacheError CacheLookupResult
unfolding gather choose
look_up_among lib request artifact_of accept [] = ok (miss not_found)
look_up_among lib request artifact_of accept (item ∷ items) = do
  gathered ← gather lib artifact_of accept nothing_gathered (item ∷ items)
  choose lib request gathered.unreadable_metadata none (sort_by newer gathered.candidates)

abbrev pub itself : PublishedDumpArtifact → PublishedDumpArtifact
itself artifact = artifact

abbrev pub artifact_of : LocatedDumpArtifact → PublishedDumpArtifact
artifact_of found = found.artifact

unfoldable pub lookup : Libraries → CacheTree → CacheLookup → Result CacheError CacheLookupResult
unfolding list_complete look_up_among
lookup lib tree request = if request.fresh then ok (miss fresh_requested) else (do
  artifacts ← map_err store (list_complete lib tree request.profile request.database)
  look_up_among lib request itself always_accepted artifacts)

-- The database of the directory is that of the metadata and of the request.
unfoldable pub lookup_by_database :
    Libraries → CacheTree → CacheLookup → Result CacheError CacheLookupResult
unfolding list_complete_for_profile look_up_among accept_located
lookup_by_database lib tree request = if request.fresh then ok (miss fresh_requested) else (do
  artifacts ← map_err store (list_complete_for_profile lib tree request.profile)
  look_up_among lib request artifact_of (accept_located request) artifacts)
