-- ===== src/Infrastructure/ArtifactStage/Atomic.antt =====
-- A publication adds a whole dump or none.
use reprodb.Common.{
  ℕ, ◌≡◌, ◌⊎◌, refl, inl, inr, false, ◌==◌, Option, List, [], ◌∷◌, ◌++◌, length, arith, Bool-cases,
}
use reprodb.Common.Text.{Text, codes, text_eq_iff}
use reprodb.Common.Affixes.{Lacks-append}
use reprodb.Domain.Uuid.{UuidText}
use reprodb.Domain.Prune.{DumpId}
use reprodb.Domain.Artifact.{DumpArtifactMetadata}
use reprodb.Infrastructure.CacheTree.{
  Artifact, FileState, Node, part_suffix, absent, uninspectable, unreadable, contents,
}
use reprodb.Infrastructure.CacheCleanup.{is_dump_id}
use reprodb.Infrastructure.CacheCleanup.Complete.{Stored, flat_map, complete_entry}
use reprodb.Infrastructure.CacheCleanup.Sweep.{is_dump_id-Lacks}
use reprodb.Infrastructure.ArtifactStage.{
  CompressionMetrics, StagedDumpArtifact, PublishFault, no_fault, sync_dump, rename, sync_parent,
  write_metadata, is_sync_dump, StageFiles, has_other_identity, has_other_content, dropped,
  published_node, renamed, sized, publish,
}

module _ (uuid : UuidText) (to_json : DumpArtifactMetadata → List ℕ)
    (profile database : Option Text) (files : StageFiles) (stage : StagedDumpArtifact) where
  abbrev pub complete : List (Node Artifact) → List Stored
  complete = flat_map (complete_entry uuid profile database)

  part_name-not_dump_id :
      (id : DumpId) → is_dump_id uuid (uuid.hyphenated id ++ part_suffix) ≡ false
  part_name-not_dump_id id =
      elim (Bool-cases (is_dump_id uuid (uuid.hyphenated id ++ part_suffix))) [
        | inl e ↦ absurd (
            Lacks-append (uuid.hyphenated id) (codes "part") b'.'
              (is_dump_id-Lacks uuid (uuid.hyphenated id ++ part_suffix) e))
        | inr e ↦ e
      ]

  pub dropped_none :
      (metadata : FileState) → complete (dropped uuid to_json files stage metadata) ≡ []
  unfolding flat_map complete_entry
  dropped_none metadata = ground (arith, part_name-not_dump_id stage.dump_id)

  -- The one entry that is left is the published dump, whole and with its metadata beside it.
  pub record IsWhole (metadata : DumpArtifactMetadata) (left : List (Node Artifact)) : Type 0 where
    pub bytes : List ℕ
    pub is_left : left ≡ published_node uuid to_json files stage metadata ∷ []
    pub stored : stage.dump ≡ contents bytes
    pub size : length bytes ≡ metadata.compressed_bytes
    pub same_id : metadata.dump_id ≡ stage.dump_id
    pub same_profile : metadata.profile ≡ stage.profile
    pub same_database : metadata.database ≡ stage.database

  module _ (metadata : DumpArtifactMetadata)
      (same : has_other_identity stage metadata ≡ false) where
    abbrev Atomic : List (Node Artifact) → Type 0
    Atomic left = (complete left ≡ []) ⊎ IsWhole metadata left

    whole :
        (bytes : List ℕ)
        → stage.dump ≡ contents bytes
        → length bytes ≡ metadata.compressed_bytes
        → IsWhole metadata (published_node uuid to_json files stage metadata ∷ [])
    unfolding has_other_identity
    whole bytes stored size = record {
      bytes = bytes;
      is_left = refl;
      stored = stored;
      size = size;
      same_id = ground (arith, same);
      same_profile = (text_eq_iff metadata.profile stage.profile).0 (ground (arith, same));
      same_database = (text_eq_iff metadata.database stage.database).0 (ground (arith, same));
    }

    renamed-IsWhole :
        (bytes : List ℕ) (fault : PublishFault)
        → stage.dump ≡ contents bytes
        → length bytes ≡ metadata.compressed_bytes
        → Atomic (renamed uuid to_json fault files stage metadata).1
    renamed-IsWhole bytes no_fault stored size = inr (whole bytes stored size)
    renamed-IsWhole bytes sync_parent stored size = inr (whole bytes stored size)
    renamed-IsWhole bytes sync_dump stored size = inl (dropped_none absent)
    renamed-IsWhole bytes rename stored size = inl (dropped_none (contents (to_json metadata)))
    renamed-IsWhole bytes (write_metadata e) stored size = inl (dropped_none absent)

    sized-IsWhole :
        (dump : FileState)
        → stage.dump ≡ dump
        → Atomic (sized uuid to_json dump files stage metadata).1
    sized-IsWhole absent stored = inl (dropped_none absent)
    sized-IsWhole uninspectable stored = inl (dropped_none absent)
    sized-IsWhole (unreadable size) stored = inl (dropped_none absent)
    sized-IsWhole (contents bytes) stored = elim (Bool-cases (is_sync_dump files.fault)) [
      | inl e ↦ rw e (inl (dropped_none absent))
      | inr e ↦ elim (Bool-cases (length bytes == metadata.compressed_bytes)) [
        | inl size ↦ rw (e, size) (renamed-IsWhole bytes files.fault stored (ground (arith, size)))
        | inr size ↦ rw (e, size) (inl (dropped_none absent))
      ]
    ]

  -- A publication, whether it succeeds or fails, leaves no complete dump, or exactly the dump that it
  -- published: of the size, the ID, the profile and the database of its metadata.
  pub publish-IsWhole :
      (metadata : DumpArtifactMetadata) (compression : CompressionMetrics)
      → (complete (publish uuid to_json files stage metadata compression).1 ≡ [])
        ⊎ IsWhole metadata (publish uuid to_json files stage metadata compression).1
  unfolding publish
  publish-IsWhole metadata compression = elim (Bool-cases (has_other_identity stage metadata)) [
    | inl e ↦ rw e (inl (dropped_none absent))
    | inr e ↦ elim (Bool-cases (has_other_content metadata compression)) [
      | inl c ↦ rw (e, c) (inl (dropped_none absent))
      | inr c ↦ rw (e, c) (sized-IsWhole metadata e stage.dump refl)
    ]
  ]
