-- ===== src/Infrastructure/Cache/Inventory/Ready.antt =====
-- The inventory and the lookup agree on what can be reused.
use reprodb.Common.{
  ℕ, ◌≡◌, ◌<◌, ◌↔◌, refl, ap, ◌∙◌, true, false, Option, none, some, arith, length, saturating_add,
  Result, ok, err, >>=-elim,
}
use reprodb.Common.Text.{text_eq, text_eq_iff, text_ord}
use reprodb.Common.Maps.{get}
use reprodb.Domain.Digest.{Sha256Digest}
use reprodb.Domain.Artifact.{DumpArtifactMetadata}
use reprodb.Infrastructure.CacheTree.{
  Libraries, FileState, absent, uninspectable, unreadable, contents,
}
use reprodb.Infrastructure.ArtifactLock.{
  ArtifactLeaseError, lease_not_found, lease_busy, lease_io, try_acquire_lease,
}
use reprodb.Infrastructure.ArtifactStore.{LocatedDumpArtifact}
use reprodb.Infrastructure.CacheHit.{
  CacheLookup, CacheMissReason, read_metadata, file_size, hash_file,
}
use reprodb.Infrastructure.Cache.Validation.{HasDump, Answers, IsReadable}
use reprodb.Infrastructure.Cache.Inventory.{
  CacheInventoryRequest, CacheInventoryEntry, ready, unread_status, aged_status, hashed_status,
  status_of, inspect_read, inspect_leased, inspect,
}

-- The lookup of a listed dump, for the source with this fingerprint.
abbrev pub lookup_of : CacheInventoryRequest → LocatedDumpArtifact → Sha256Digest → CacheLookup
lookup_of request found fingerprint = record {
  profile = found.profile;
  database = found.database;
  source_fingerprint = fingerprint;
  policy_version = request.policy_version;
  now_unix_seconds = request.now_unix_seconds;
  ttl_seconds = request.ttl_seconds;
  fresh = false;
}

module _ (lib : Libraries) (request : CacheInventoryRequest) (found : LocatedDumpArtifact) where
  -- The dump meets every condition of a hit for the current fingerprint of its profile, and is within
  -- the retention.
  pub record IsReusable (metadata : DumpArtifactMetadata) : Type 0 where
    pub fingerprint : Sha256Digest
    pub current : get found.profile request.source_fingerprints ≡ some fingerprint
    pub same_id : metadata.dump_id ≡ found.artifact.dump_id
    pub answers : Answers (lookup_of request found fingerprint) metadata
    pub dump : HasDump lib metadata found.artifact.files.dump
    pub retained :
        request.now_unix_seconds
        < saturating_add metadata.completed_at_unix_seconds request.retention_seconds

  module _ (metadata : DumpArtifactMetadata) where
    record IsAged : Type 0 where
      fingerprint : Sha256Digest
      current : get found.profile request.source_fingerprints ≡ some fingerprint
      status : aged_status request metadata (some fingerprint) ≡ ready

    -- An intact dump of the right identity, whose age is still to be judged.
    record IsIntact : Type 0 where
      same_id : metadata.dump_id ≡ found.artifact.dump_id
      same_profile : text_eq metadata.profile found.profile ≡ true
      same_database : text_eq metadata.database found.database ≡ true
      dump : HasDump lib metadata found.artifact.files.dump
      same_policy : metadata.policy_version ≡ request.policy_version
      aged : IsAged

    IsIntact-IsReusable : IsIntact → IsReusable metadata
    unfolding aged_status
    IsIntact-IsReusable i = record {
      fingerprint = i.aged.fingerprint;
      current = i.aged.current;
      same_id = i.same_id;
      answers = record {
        same_profile = (text_eq_iff metadata.profile found.profile).0 i.same_profile;
        same_database = (text_eq_iff metadata.database found.database).0 i.same_database;
        same_source =
            (text_eq_iff metadata.source_fingerprint i.aged.fingerprint).0
              (ground (arith, i.aged.status));
        same_policy = i.same_policy;
        completed = ground (arith, i.aged.status);
        recent = ground (arith, i.aged.status);
      };
      dump = i.dump;
      retained = ground (arith, i.aged.status);
    }

    aged_status-IsAged :
        (known : Option Sha256Digest)
        → get found.profile request.source_fingerprints ≡ known
        → aged_status request metadata known ≡ ready
        → IsAged
    unfolding aged_status
    aged_status-IsAged none e h = absurd (cc)
    aged_status-IsAged (some fingerprint) e h = record {
      fingerprint = fingerprint;
      current = e;
      status = h;
    }

    status_of-IsIntact :
        (dump : FileState) (size : Option ℕ)
        → found.artifact.files.dump ≡ dump
        → file_size dump ≡ ok size
        → status_of lib request found metadata size ≡ ok ready
        → IsIntact
    unfolding status_of hash_file file_size
    status_of-IsIntact absent size d s h = absurd (ground (arith, h, s))
    status_of-IsIntact uninspectable size d s h = absurd (cc)
    status_of-IsIntact (unreadable n) size d s h = absurd (ground (arith, h, s, d))
    status_of-IsIntact (contents bytes) size d s h = record {
      same_id = ground (arith, h);
      same_profile = ground (arith, h);
      same_database = ground (arith, h);
      dump = record {
        bytes = bytes;
        stored = d;
        size = ground (arith, h, s);
        digest =
            (text_eq_iff (lib.sha256 bytes) metadata.artifact_sha256).0 (ground (arith, hashed));
      };
      same_policy = ground (arith, hashed);
      aged =
          aged_status-IsAged (get found.profile request.source_fingerprints) refl
            (ground (arith, hashed));
    }
      where
        hashed : hashed_status request found metadata (some (lib.sha256 bytes)) ≡ ready
        hashed = ground (arith, h, s, d)

  -- The metadata that are read, and the dump that meets every condition.
  abbrev pub Reusable : Type 0
  Reusable =
      (metadata : DumpArtifactMetadata) × IsReadable lib
        (record { artifact = found.artifact; metadata = metadata })
      × IsReusable metadata

  unread_status-not_ready : (reason : CacheMissReason) → unread_status reason ≡ ready → ⊥
  unread_status-not_ready reason h = ground (arith, h)

  inspect_read-Reusable :
      (read : Result CacheMissReason DumpArtifactMetadata) (entry : CacheInventoryEntry)
      → read_metadata lib found.artifact.files.metadata ≡ ok read
      → try_acquire_lease found.artifact.files ≡ ok tt
      → inspect_read lib request found read ≡ ok entry
      → entry.status ≡ ready
      → Reusable
  inspect_read-Reusable (err reason) entry r l h e =
      >>=-elim (file_size found.artifact.files.dump) _ h
        λ size s w. absurd (unread_status-not_ready reason (cc))
  inspect_read-Reusable (ok metadata) entry r l h e =
      >>=-elim (file_size found.artifact.files.dump) _ h λ size s w.
        >>=-elim (status_of lib request found metadata size) _ w λ status v u. (
          metadata,
          record { leased = l; read = r },
          IsIntact-IsReusable metadata
              (status_of-IsIntact metadata found.artifact.files.dump size refl s (v ∙ ap ok (cc))),
        )

  inspect-Reusable :
      (entry : CacheInventoryEntry)
      → inspect lib request found ≡ ok entry
      → entry.status ≡ ready
      → Reusable
  unfolding inspect
  inspect-Reusable entry h e = leased (try_acquire_lease found.artifact.files) refl h
    where
      leased :
          (r : Result ArtifactLeaseError (Unit {0}))
          → try_acquire_lease found.artifact.files ≡ r
          → inspect_leased lib request found r ≡ ok entry
          → Reusable
      leased (err lease_not_found) l w = absurd (cc)
      leased (err lease_busy) l w = absurd (cc)
      leased (err lease_io) l w = absurd (cc)
      leased (ok u) l w =
          >>=-elim (read_metadata lib found.artifact.files.metadata) _ w
            λ read r v. inspect_read-Reusable read entry r l v e

  status_of-ready :
      (metadata : DumpArtifactMetadata) (r : IsReusable metadata)
      → status_of lib request found metadata (some (length r.dump.bytes)) ≡ ok ready
  unfolding status_of aged_status hash_file
  status_of-ready metadata r =
      rw (r.dump.stored, r.current)
        (ground (
          arith,
          r.same_id,
          r.dump.size,
          r.answers.same_policy,
          r.answers.completed,
          r.answers.recent,
          r.retained,
          (text_eq_iff metadata.profile found.profile).1 r.answers.same_profile,
          (text_eq_iff metadata.database found.database).1 r.answers.same_database,
          (text_eq_iff metadata.source_fingerprint r.fingerprint).1 r.answers.same_source,
          (text_eq_iff (lib.sha256 r.dump.bytes) metadata.artifact_sha256).1 r.dump.digest,
        ))

  file_size-HasDump :
      (metadata : DumpArtifactMetadata) (dump : HasDump lib metadata found.artifact.files.dump)
      (size : Option ℕ)
      → file_size found.artifact.files.dump ≡ ok size
      → size ≡ some (length dump.bytes)
  unfolding file_size
  file_size-HasDump metadata dump size s = ground (arith, rw dump.stored at s)

  Reusable-inspect :
      (entry : CacheInventoryEntry)
      → inspect lib request found ≡ ok entry
      → Reusable
      → entry.status ≡ ready
  unfolding inspect
  Reusable-inspect entry h (metadata, readable, r) =
      >>=-elim (file_size found.artifact.files.dump) _ (rw (readable.leased, readable.read) at h)
        λ size s w. >>=-elim (status_of lib request found metadata size) _ w λ status v u.
          cc (u, v, status_of-ready metadata r, file_size-HasDump metadata r.dump size s)

  -- Where the inspection of a listed dump yields an entry, it is ready exactly if the dump can be read
  -- and meets every condition of a hit of the lookup for the current fingerprint of its profile, and
  -- is within the retention.
  pub inspect-ready_iff :
      (entry : CacheInventoryEntry)
      → inspect lib request found ≡ ok entry
      → (entry.status ≡ ready) ↔ Reusable
  inspect-ready_iff entry h = (inspect-Reusable entry h, Reusable-inspect entry h)
