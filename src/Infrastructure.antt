-- ===== src/Infrastructure.antt =====
-- src/infrastructure: the files, the catalog and the servers that the services use.
pub mod ClientCatalog
pub mod Config
pub mod Credentials
pub mod Server
pub mod CacheTree
pub mod ArtifactLock
pub mod Directory
pub mod ArtifactStore
pub mod CacheCleanup
pub mod CachePrune
pub mod CacheHit
pub mod Cache
pub mod RestoreArtifact
pub mod Framing
pub mod OperationLock
pub mod ArtifactStage
