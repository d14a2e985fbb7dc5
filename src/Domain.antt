-- ===== src/Domain.antt =====
-- The value objects and the pure decisions of src/domain.
pub mod Names
pub mod Tls
pub mod Digest
pub mod Uuid
pub mod CredentialKey
pub mod Version
pub mod Dump
pub mod Prune
pub mod Artifact
