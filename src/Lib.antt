-- ===== src/Lib.antt =====
-- reprodb: what the program decides before it dumps, restores, pushes or prunes a MySQL database.
--
-- reprodb dumps databases of configured source profiles into a local cache, restores a dump into a
-- local container and may push one into a remote server. The commands (src/cli) call services
-- (src/application) that load the configuration, ask the credential store, Docker and the servers, and
-- then act. The gates stand between the two: a destructive action takes a target that only a gate
-- returns. The development models the decisions, the state that they read and write, and the order of
-- the effects.
--
-- Domain, src/domain:
--   Names, Tls, Digest, CredentialKey, Version: value_objects.rs. A validated name is its text; each
--     parser is `from_str` or a `validate_...` function, each `Display` is `display` or `format`.
--   Dump: dump.rs, `Mysql8DumpPolicy::evaluate` is `evaluate`.
--   Prune: prune.rs, `select_for_prune`. The loops over a `BTreeMap` are recursions on an association
--     list in the order of the keys (Common/Maps).
--   Artifact: artifact.rs, `DumpArtifactMetadata::try_new` and its deserialization, `from_wire`.
-- Infrastructure, src/infrastructure:
--   ClientCatalog: mysql/client_catalog.rs.
--   Config: config.rs, `AppConfig::validate` and what it calls; Config/Repository is `load` and `save`
--     on the file as data, with the places where the file system may fail as an argument.
--     Config/Fingerprint is `source_profile_fingerprint`.
--   CacheTree: the directory `profiles/<profile>/<database>/<dump>` as data, with how each file, lock,
--     rename and removal answers. Directory: how the loops read directories.
--   ArtifactStore: what artifact_store.rs lists of it; ArtifactLock: its locks; ArtifactStage: its
--     publication of a dump.
--   CacheHit: cache.rs, `validate_candidate`; Cache: `lookup` and `lookup_by_database`; Cache/Inventory
--     is `inspect_all`.
--   CacheCleanup: cache_cleanup.rs, `sweep`; CachePrune: `plan_prune` and `execute_prune`. Both return
--     the directory that they leave, on every path.
--   RestoreArtifact: restore_artifact.rs, `validate_by_id` and `validate`.
--   Framing, OperationLock: operation_lock.rs, the input of a key's digest and the locks that are held.
--   Credentials, Server: the errors and answers of credentials/store.rs, mysql/docker_client.rs and
--     artifact_store.rs.
-- Application, src/application:
--   RemoteTargetGate: remote_target_gate.rs; LocalTargetGate: local_target_gate.rs. What they ask
--     outside is a record of functions, `Outside`.
--   RestoreEngine: restore_engine.rs with infrastructure/restore_state.rs; the lock, the state files and
--     the executor answer by a record, `Answers`, and the state holds the saved status and what happened
--     to the database.
--   CredentialTransaction: credential_transaction.rs, with the credential store as a map and faults.
--   RestoreService: restore_service.rs; PullService: pull_service.rs; PushService: push_service.rs, whose
--     early returns are a type, `Stop`. They call the cache, the gates and the engine as the source does;
--     a new dump is an answer, with the cache directory that it leaves. DumpService: dump_service.rs.
--   CacheService: cache_service.rs.
--   ProfileService: profile_service.rs, over the same state; the verifier of a source is an argument.
--   Compatibility: the version tests that the gate and the engine share.
--
-- Numbers are unbounded; the operations that a machine width limits say so (Common/Words): `checked_add`
-- on `u64` in Prune, `saturating_add` and a sum that wraps around in Dump, `u16` components in Version. A text is the list of its
-- Unicode scalar values, and `bytes` is its UTF-8. Every function is by structural recursion, so no fuel
-- is used. A call that fails is modelled with its effect done or not done, and what a failed call
-- leaves is also what a crash during that call leaves.
--
-- Parameters are what the source takes from elsewhere: the text of a UUID (Domain/Uuid, which
-- assumes that a printed UUID is read back and holds no full stop), JSON, SHA-256 and the
-- Zstandard decoder (`Libraries` in Infrastructure/CacheTree, without assumptions), the credential
-- store, the probe and the attestor of servers, and the user's answers. TOML is a parameter,
-- `Toml` in Infrastructure/Config/Repository: the size of a rendered text, and what it decodes to,
-- which is assumed to be what was rendered. The configuration file is what its text decodes to,
-- and one of more than 1 MiB is a case of its own, which `save` can write and `load` refuses. A
-- lease or a lock that is taken is an answer, and is held until the operation ends. Not modelled:
-- the option files, the setup and doctor services and the migration of old configurations, which
-- are parts of their own; and the command line, the docker processes and the network, which are
-- input and output.
pub mod Common
pub mod Domain
pub mod Infrastructure
pub mod Application
pub mod Witnesses
