-- ===== src/Domain/Artifact/Metadata.antt =====
-- Metadata that is created or read back is well formed, and reading back changes nothing.
use reprodb.Common.{◌≤◌, ◌≡◌, ◌↔◌, ok, arith}
use reprodb.Domain.Dump.{encoding_try_new}
use reprodb.Domain.Prune.{DumpId}
use reprodb.Domain.Artifact.{
  DumpArtifactMetadata, DumpArtifactContext, DumpArtifactCompletion, try_new, from_wire,
}

pub record IsMetadata (m : DumpArtifactMetadata) : Type 0 where
  pub policy : 1 ≤ m.policy_version
  pub order : m.created_at_unix_seconds ≤ m.completed_at_unix_seconds
  pub filled : 1 ≤ m.compressed_bytes

pub try_new-IsMetadata :
    (id : DumpId) (context : DumpArtifactContext) (completion : DumpArtifactCompletion)
    (m : DumpArtifactMetadata)
    → try_new id context completion ≡ ok m
    → IsMetadata m
unfolding try_new
try_new-IsMetadata id context completion m h = ground arith

-- Stored metadata is accepted exactly if its encoding is one that the preflight accepts, its policy
-- version and size are positive and it did not complete before it was created; it is then returned
-- unchanged.
pub from_wire_iff :
    (wire m : DumpArtifactMetadata)
    → (from_wire wire ≡ ok m) ↔ (
        (wire ≡ m)
        × IsMetadata wire
        × (encoding_try_new wire.database_charset wire.database_collation
            ≡ ok (record { charset = wire.database_charset; collation = wire.database_collation })))
unfolding from_wire
from_wire_iff wire m = (λ h. (ground arith, ground arith, ground arith), λ h. ground arith)
