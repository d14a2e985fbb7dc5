-- ===== src/Infrastructure/OperationLock.antt =====
-- infrastructure/operation_lock.rs: the locks that keep two local operations apart.
pub mod Distinct
use reprodb.Common.{
  ℕ, Bool, true, false, List, [], ◌∷◌, ◌++◌, any, keep, not, ◌&&◌, if◌then◌else◌, Result, ok, err,
}
use reprodb.Common.Text.{bytes, Text, codes, text_eq}
use reprodb.Domain.Names.{ProfileName, DatabaseName}
use reprodb.Domain.Digest.{Sha256Digest}
use reprodb.Infrastructure.Framing.{hash_field, hash_fields}

pub data OperationLockScope : Type 0 where
  source target remote : OperationLockScope

unfoldable pub directory : OperationLockScope → Text
directory source = codes "source"
directory target = codes "target"
directory remote = codes "remote"

pub record OperationLockKey : Type 0 where
  pub scope : OperationLockScope
  pub digest : Sha256Digest

-- Without the causes.
pub data OperationLockError : Type 0 where
  busy : OperationLockScope → OperationLockError
  io : OperationLockError

-- What `OperationLockKey::new` hashes.
unfoldable pub key_input : OperationLockScope → List (List ℕ) → List ℕ
unfolding directory hash_field hash_fields
key_input scope fields =
    codes "reprodb-operation-lock-v1" ++ hash_field (directory scope) (hash_fields fields)

-- The fields in their bytes, `as_bytes()`.
abbrev pub name_fields : ProfileName → DatabaseName → List (List ℕ)
name_fields profile database = bytes profile ∷ bytes database ∷ []

abbrev pub target_fields : Text → Text → DatabaseName → List (List ℕ)
target_fields docker_context container_id database =
    bytes docker_context ∷ bytes container_id ∷ bytes database ∷ []

module _ (sha256 : List ℕ → Sha256Digest) where
  unfoldable pub new : OperationLockScope → List (List ℕ) → OperationLockKey
  unfolding key_input
  new scope fields = record { scope = scope; digest = sha256 (key_input scope fields) }

  abbrev pub source_key : ProfileName → DatabaseName → OperationLockKey
  source_key profile database = new source (name_fields profile database)

  abbrev pub remote_key : ProfileName → DatabaseName → OperationLockKey
  remote_key profile database = new remote (name_fields profile database)

  abbrev pub target_key : Text → Text → DatabaseName → OperationLockKey
  target_key docker_context container_id database =
      new target (target_fields docker_context container_id database)

-- The lock file's path, `locks/<scope>/<digest>.lock`, is that of another key.
unfoldable pub same_key : OperationLockKey → OperationLockKey → Bool
unfolding directory
same_key a b = text_eq (directory a.scope) (directory b.scope) && text_eq a.digest b.digest

-- How the files answer: the directories and the lock file are there and private, and `try_lock` works.
pub data LockFile : Type 0 where
  opens open_fails lock_fails : LockFile

-- The locks that are held now, by any process.
abbrev pub Held : Type 0
Held = List OperationLockKey

unfoldable pub try_acquire :
    LockFile → OperationLockKey → Held → Result OperationLockError (Unit {0}) × Held
unfolding same_key
try_acquire open_fails key held = (err io, held)
try_acquire lock_fails key held = (err io, held)
try_acquire opens key held =
    if any (same_key key) held then (err (busy key.scope), held) else (ok tt, key ∷ held)

-- The guard's `drop`.
unfoldable pub release : OperationLockKey → Held → Held
unfolding same_key
release key held = keep (λ other. not (same_key key other)) held
