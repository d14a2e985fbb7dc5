-- ===== src/Infrastructure/Cache/Validation.antt =====
-- `validate_candidate`: what a candidate that passes it satisfies.
use mathlib.Core.Path.{subst}
use reprodb.Common.{
  ℕ, ◌+◌, saturating_add, ◌≤◌, ◌<◌, ◌≡◌, refl, sym, inl, inr, Option, none, some, List, arith,
  length, ok, >>=-elim, ◌==◌, Bool-cases,
}
use reprodb.Common.Text.{text_eq_iff}
use reprodb.Domain.Artifact.{DumpArtifactMetadata}
use reprodb.Infrastructure.CacheTree.{
  Libraries, FileState, absent, uninspectable, unreadable, contents,
}
use reprodb.Infrastructure.ArtifactLock.{try_acquire_lease}
use reprodb.Infrastructure.ArtifactStore.{PublishedDumpArtifact}
use reprodb.Infrastructure.CacheHit.{
  CacheLookup, ValidatedCacheHit, CacheMissReason, read_metadata, file_size, hash_file,
  validate_dump, reject_metadata, validate_candidate, hit_of, hit_unless, validate_accepted,
}
use reprodb.Infrastructure.Cache.{CacheCandidate}

-- The bytes of a dump agree with its metadata.
pub record HasDump (lib : Libraries) (metadata : DumpArtifactMetadata) (dump : FileState)
    : Type 0 where
  pub bytes : List ℕ
  pub stored : dump ≡ contents bytes
  pub size : length bytes ≡ metadata.compressed_bytes
  pub digest : lib.sha256 bytes ≡ metadata.artifact_sha256

-- The metadata are those that the request asks for, and recent.
pub record Answers (request : CacheLookup) (metadata : DumpArtifactMetadata) : Type 0 where
  pub same_profile : metadata.profile ≡ request.profile
  pub same_database : metadata.database ≡ request.database
  pub same_source : metadata.source_fingerprint ≡ request.source_fingerprint
  pub same_policy : metadata.policy_version ≡ request.policy_version
  pub completed : metadata.completed_at_unix_seconds ≤ request.now_unix_seconds
  pub recent :
      request.now_unix_seconds
      < saturating_add metadata.completed_at_unix_seconds request.ttl_seconds

-- A reader may open the artifact, and finds these metadata in it.
pub record IsReadable (lib : Libraries) (c : CacheCandidate) : Type 0 where
  pub leased : try_acquire_lease c.artifact.files ≡ ok tt
  pub read : read_metadata lib c.artifact.files.metadata ≡ ok (ok c.metadata)

pub record IsHit (lib : Libraries) (request : CacheLookup) (h : ValidatedCacheHit) : Type 0 where
  pub readable : IsReadable lib (record { artifact = h.artifact; metadata = h.metadata })
  pub same_id : h.metadata.dump_id ≡ h.artifact.dump_id
  pub answers : Answers request h.metadata
  pub dump : HasDump lib h.metadata h.artifact.files.dump
  pub age : h.age_seconds + h.metadata.completed_at_unix_seconds ≡ request.now_unix_seconds

validate_dump-HasDump :
    (lib : Libraries) (metadata : DumpArtifactMetadata) (dump : FileState)
    → validate_dump lib metadata dump ≡ ok none
    → HasDump lib metadata dump
unfolding validate_dump file_size hash_file
validate_dump-HasDump lib metadata absent h = absurd (cc)
validate_dump-HasDump lib metadata uninspectable h = absurd (cc)
validate_dump-HasDump lib metadata (unreadable size) h =
    elim (Bool-cases (size == metadata.compressed_bytes)) [
      | inl e ↦ absurd (ground arith)
      | inr e ↦ absurd (ground arith)
    ]
validate_dump-HasDump lib metadata (contents bytes) h = record {
  bytes = bytes;
  stored = refl;
  size = ground arith;
  digest = (text_eq_iff (lib.sha256 bytes) metadata.artifact_sha256).0 (ground arith);
}

module _ (request : CacheLookup) (artifact : PublishedDumpArtifact)
    (metadata : DumpArtifactMetadata) where
  reject_metadata-same_id :
      reject_metadata request artifact metadata ≡ none → metadata.dump_id ≡ artifact.dump_id
  unfolding reject_metadata
  reject_metadata-same_id h = ground arith

  reject_metadata-Answers :
      reject_metadata request artifact metadata ≡ none → Answers request metadata
  unfolding reject_metadata
  reject_metadata-Answers h = record {
    same_profile = (text_eq_iff metadata.profile request.profile).0 (ground arith);
    same_database = (text_eq_iff metadata.database request.database).0 (ground arith);
    same_source =
        (text_eq_iff metadata.source_fingerprint request.source_fingerprint).0 (ground arith);
    same_policy = ground arith;
    completed = ground arith;
    recent = ground arith;
  }

  reject_metadata-none :
      metadata.dump_id ≡ artifact.dump_id
      → Answers request metadata
      → reject_metadata request artifact metadata ≡ none
  unfolding reject_metadata
  reject_metadata-none same_id answers = ground (
    arith,
    same_id,
    (text_eq_iff metadata.profile request.profile).1 answers.same_profile,
    (text_eq_iff metadata.database request.database).1 answers.same_database,
    (text_eq_iff metadata.source_fingerprint request.source_fingerprint).1 answers.same_source,
    answers.same_policy,
    answers.completed,
    answers.recent,
  )

validate_dump-none :
    (lib : Libraries) (metadata : DumpArtifactMetadata) (dump : FileState)
    → HasDump lib metadata dump
    → validate_dump lib metadata dump ≡ ok none
unfolding validate_dump file_size hash_file
validate_dump-none lib metadata dump h =
    rw h.stored (
      ground
        (arith, h.size, (text_eq_iff (lib.sha256 h.bytes) metadata.artifact_sha256).1 h.digest))

-- What a validated candidate has passed.
module _ (lib : Libraries) (request : CacheLookup) (artifact : PublishedDumpArtifact)
    (metadata : DumpArtifactMetadata) where
  pub record IsValidated (h : ValidatedCacheHit) : Type 0 where
    pub itself_is : h ≡ hit_of request artifact metadata
    pub passes : reject_metadata request artifact metadata ≡ none
    pub has_dump : HasDump lib metadata artifact.files.dump

  validate_accepted-IsValidated :
      (rejection : Option CacheMissReason) (h : ValidatedCacheHit)
      → reject_metadata request artifact metadata ≡ rejection
      → validate_accepted lib (hit_of request artifact metadata) rejection ≡ ok (ok h)
      → IsValidated h
  validate_accepted-IsValidated (some reason) h e v = absurd (cc)
  validate_accepted-IsValidated none h e v =
      >>=-elim (validate_dump lib metadata artifact.files.dump) _ v
        λ rejection d w. unrejected rejection d (cc)
    where
      unrejected :
          (rejection : Option CacheMissReason)
          → validate_dump lib metadata artifact.files.dump ≡ ok rejection
          → hit_unless (hit_of request artifact metadata) rejection ≡ ok h
          → IsValidated h
      unrejected none d w = record {
        itself_is = cc;
        passes = e;
        has_dump = validate_dump-HasDump lib metadata artifact.files.dump d;
      }
      unrejected (some reason) d w = absurd (cc)

  pub validate_candidate-IsValidated :
      (h : ValidatedCacheHit)
      → validate_candidate lib request artifact metadata ≡ ok (ok h)
      → IsValidated h
  unfolding validate_candidate
  validate_candidate-IsValidated h v =
      validate_accepted-IsValidated (reject_metadata request artifact metadata) h refl v

  pub validate_candidate-IsHit :
      (h : ValidatedCacheHit)
      → IsReadable lib (record { artifact = artifact; metadata = metadata })
      → validate_candidate lib request artifact metadata ≡ ok (ok h)
      → IsHit lib request h
  validate_candidate-IsHit h readable v = subst (IsHit lib request) (sym valid.itself_is) (record {
    readable = readable;
    same_id = reject_metadata-same_id request artifact metadata valid.passes;
    answers = answers;
    dump = valid.has_dump;
    age = omega (arith, answers.completed);
  })
    where
      valid : IsValidated h
      valid = validate_candidate-IsValidated h v

      answers : Answers request metadata
      answers = reject_metadata-Answers request artifact metadata valid.passes

-- A candidate that is what the request asks for, with an intact dump, is a hit.
pub validate_candidate_complete :
    (lib : Libraries) (request : CacheLookup) (artifact : PublishedDumpArtifact)
    (metadata : DumpArtifactMetadata)
    → metadata.dump_id ≡ artifact.dump_id
    → Answers request metadata
    → HasDump lib metadata artifact.files.dump
    → validate_candidate lib request artifact metadata ≡ ok (ok (hit_of request artifact metadata))
unfolding validate_candidate
validate_candidate_complete lib request artifact metadata same_id answers dump =
    rw
      (
        reject_metadata-none request artifact metadata same_id answers,
        validate_dump-none lib metadata artifact.files.dump dump,
      )
      refl
