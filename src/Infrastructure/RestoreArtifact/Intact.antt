-- ===== src/Infrastructure/RestoreArtifact/Intact.antt =====
-- A dump that the validation passes is intact, compressed and decoded.
use mathlib.Core.Path.{subst}
use reprodb.Common.{
  ℕ, ◌≡◌, refl, true, ◌&&◌, some, List, arith, length, ◌==◌, ok, >>=-elim, guard-elim, ok_or,
  ok_or-eq-ok, map_err, map_err-eq-ok,
}
use reprodb.Common.Text.{text_eq, text_eq_iff}
use reprodb.Domain.Names.{ProfileName, DatabaseName}
use reprodb.Domain.Prune.{DumpId}
use reprodb.Domain.Artifact.{DumpArtifactMetadata}
use reprodb.Infrastructure.CacheTree.{
  Libraries, Decoded, FileState, CacheTree, absent, uninspectable, unreadable, contents,
}
use reprodb.Infrastructure.ArtifactLock.{try_acquire_lease}
use reprodb.Infrastructure.ArtifactStore.{PublishedDumpArtifact, find_complete_by_id}
use reprodb.Infrastructure.RestoreArtifact.{
  invalid_zstd, ValidatedRestoreArtifact, read_metadata, dump_size, validate_zstd_and_checksums,
  validate_artifact, only, validate_by_id, store_error, lease_error, compressed_size_mismatch,
  identity_mismatch, database_mismatch,
}

-- The file decodes to the SQL text that the metadata describe, and is itself the one they describe.
pub record IsIntact (lib : Libraries) (metadata : DumpArtifactMetadata) (dump : FileState)
    : Type 0 where
  pub bytes : List ℕ
  pub decoded : Decoded
  pub stored : dump ≡ contents bytes
  pub decodes : lib.decode bytes ≡ some decoded
  pub compressed_size : length decoded.consumed ≡ metadata.compressed_bytes
  pub compressed_digest : lib.sha256 decoded.consumed ≡ metadata.artifact_sha256
  pub sql_size : length decoded.sql ≡ metadata.uncompressed_bytes
  pub sql_digest : lib.sha256 decoded.sql ≡ metadata.sql_sha256

pub record IsValidated (lib : Libraries) (requested : DatabaseName) (dump_id : DumpId)
    (v : ValidatedRestoreArtifact) : Type 0 where
  pub same_id : v.metadata.dump_id ≡ dump_id
  pub same_database : v.metadata.database ≡ requested
  pub leased : try_acquire_lease v.artifact.files ≡ ok tt
  pub read : read_metadata lib v.artifact.files.metadata ≡ ok v.metadata
  pub dump : IsIntact lib v.metadata v.artifact.files.dump

validate_zstd_and_checksums-IsIntact :
    (lib : Libraries) (dump : FileState) (metadata : DumpArtifactMetadata)
    → validate_zstd_and_checksums lib dump metadata ≡ ok tt
    → IsIntact lib metadata dump
unfolding validate_zstd_and_checksums
validate_zstd_and_checksums-IsIntact lib absent metadata h = absurd (cc)
validate_zstd_and_checksums-IsIntact lib uninspectable metadata h = absurd (cc)
validate_zstd_and_checksums-IsIntact lib (unreadable size) metadata h = absurd (cc)
validate_zstd_and_checksums-IsIntact lib (contents bytes) metadata h =
    >>=-elim (ok_or invalid_zstd (lib.decode bytes)) _ h λ decoded e w. record {
      bytes = bytes;
      decoded = decoded;
      stored = refl;
      decodes = ok_or-eq-ok invalid_zstd (lib.decode bytes) e;
      compressed_size = ground (arith, w);
      compressed_digest =
          (text_eq_iff (lib.sha256 decoded.consumed) metadata.artifact_sha256).0
            (ground (arith, w));
      sql_size = ground (arith, w);
      sql_digest = (text_eq_iff (lib.sha256 decoded.sql) metadata.sql_sha256).0 (ground (arith, w));
    }

-- What `validate_artifact` returns.
record IsArtifact (lib : Libraries) (dump_id : DumpId) (artifact : PublishedDumpArtifact)
    (v : ValidatedRestoreArtifact) : Type 0 where
  same_artifact : v.artifact ≡ artifact
  same_id : v.metadata.dump_id ≡ dump_id
  leased : try_acquire_lease artifact.files ≡ ok tt
  read : read_metadata lib artifact.files.metadata ≡ ok v.metadata
  dump : IsIntact lib v.metadata artifact.files.dump

validate_artifact-IsArtifact :
    (lib : Libraries) (profile : ProfileName) (database : DatabaseName) (dump_id : DumpId)
    (artifact : PublishedDumpArtifact) (v : ValidatedRestoreArtifact)
    → validate_artifact lib profile database dump_id artifact ≡ ok v
    → IsArtifact lib dump_id artifact v
unfolding validate_artifact
validate_artifact-IsArtifact lib profile database dump_id artifact v h =
    >>=-elim (map_err lease_error (try_acquire_lease artifact.files)) _ h λ u l h₁.
      >>=-elim (read_metadata lib artifact.files.metadata) _ h₁ λ metadata r h₂.
        guard-elim
          (metadata.dump_id == dump_id
            && text_eq metadata.profile profile
            && text_eq metadata.database database)
          identity_mismatch _ h₂
          λ same h₃. >>=-elim (dump_size artifact.files.dump) _ h₃ λ size s h₄.
            guard-elim (size == metadata.compressed_bytes) compressed_size_mismatch _ h₄ λ sized h₅.
              >>=-elim (validate_zstd_and_checksums lib artifact.files.dump metadata) _ h₅
                λ u₁ z h₆.
                  subst (IsArtifact lib dump_id artifact)
                    {x = record { artifact = artifact; metadata = metadata }} {y = v} (cc)
                    (record {
                      same_artifact = refl;
                      same_id = ground (arith, same);
                      leased = map_err-eq-ok lease_error (try_acquire_lease artifact.files) l;
                      read = r;
                      dump =
                          validate_zstd_and_checksums-IsIntact lib artifact.files.dump metadata z;
                    })

-- A dump that `validate_by_id` returns has the ID and the database that were asked for and may be
-- read; its file has the size and the digest of its metadata and decodes to SQL of the size and the
-- digest of its metadata.
pub validate_by_id-IsValidated :
    (lib : Libraries) (tree : CacheTree) (requested : DatabaseName) (dump_id : DumpId)
    (v : ValidatedRestoreArtifact)
    → validate_by_id lib tree requested dump_id ≡ ok v
    → IsValidated lib requested dump_id v
unfolding validate_by_id
validate_by_id-IsValidated lib tree requested dump_id v h =
    >>=-elim (map_err store_error (find_complete_by_id lib tree dump_id)) _ h λ candidates c h₁.
      >>=-elim (only candidates) _ h₁ λ found f h₂.
        >>=-elim (validate_artifact lib found.profile found.database dump_id found.artifact) _ h₂
          λ validated a h₃.
            guard-elim (text_eq validated.metadata.database requested) database_mismatch _ h₃
              λ same h₄. subst (IsValidated lib requested dump_id) {x = validated} {y = v} (cc) (
                validated_of validated
                  (validate_artifact-IsArtifact lib found.profile found.database dump_id
                    found.artifact validated a)
                  same)
  where
    validated_of :
        {artifact : PublishedDumpArtifact} (w : ValidatedRestoreArtifact)
        → IsArtifact lib dump_id artifact w
        → text_eq w.metadata.database requested ≡ true
        → IsValidated lib requested dump_id w
    validated_of w i same = record {
      same_id = i.same_id;
      same_database = (text_eq_iff w.metadata.database requested).0 same;
      leased = rw i.same_artifact i.leased;
      read = rw i.same_artifact i.read;
      dump = rw i.same_artifact i.dump;
    }
