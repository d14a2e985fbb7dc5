-- ===== src/Infrastructure/ArtifactLock.antt =====
-- infrastructure/artifact_store.rs: the shared and the exclusive lock of one artifact.
use reprodb.Common.{Result, ok, err}
use reprodb.Infrastructure.CacheTree.{Artifact, gone, broken, unlocked, leased, locked}

pub data ArtifactLeaseError : Type 0 where
  lease_not_found lease_busy lease_io : ArtifactLeaseError

-- A shared lock: it is refused only while a writer holds the exclusive one.
unfoldable pub try_acquire_lease : Artifact → Result ArtifactLeaseError (Unit {0})
try_acquire_lease files = elim files.lock [
  | gone ↦ err lease_not_found
  | broken ↦ err lease_io
  | unlocked ↦ ok tt
  | leased ↦ ok tt
  | locked ↦ err lease_busy
]

-- What `try_acquire_exclusive_artifact_lock` finds: the lock, another holder, no directory, an error.
pub data ExclusiveLock : Type 0 where
  acquired held vanished lock_fails : ExclusiveLock

unfoldable pub try_acquire_exclusive_artifact_lock : Artifact → ExclusiveLock
try_acquire_exclusive_artifact_lock files = elim files.lock [
  | gone ↦ vanished
  | broken ↦ lock_fails
  | unlocked ↦ acquired
  | leased ↦ held
  | locked ↦ held
]
