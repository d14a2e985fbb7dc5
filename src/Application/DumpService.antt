-- ===== src/Application/DumpService.antt =====
-- application/dump_service.rs: a dump of the active profile is made and published. The progress, the
-- status and the elapsed time that are reported are left out.
pub mod Kept
use reprodb.Common.{
  ℕ, Bool, true, false, not, ◌&&◌, Option, none, some, List, [], ◌∷◌, Result, ok, err, ◌>>=◌, ◌>>◌,
  guard, map_err, ok_or,
}
use reprodb.Common.Text.{Text, text_ord}
use reprodb.Common.Maps.{get}
use reprodb.Domain.Names.{ProfileName, DatabaseName}
use reprodb.Domain.Tls.{requires_encrypted_transport, is_none}
use reprodb.Domain.Version.{MysqlVersion}
use reprodb.Domain.CredentialKey.{CredentialKey}
use reprodb.Domain.Prune.{DumpId}
use reprodb.Domain.Dump.{DumpPreflight, ApprovedDumpPlan, DumpPolicyNotice}
use reprodb.Domain.Artifact.{DumpArtifactMetadata, DumpMetadataError, try_new}
use reprodb.Infrastructure.CacheTree.{Libraries, CacheTree, Node, Artifact, FileState, absent}
use reprodb.Infrastructure.Server.{ArtifactStoreError, MysqlServerInfo}
use reprodb.Infrastructure.ArtifactStore.{PublishedDumpArtifact}
use reprodb.Infrastructure.ArtifactStage.{
  CompressionMetrics, StagedDumpArtifact, StageFiles, dropped, publish,
}
use reprodb.Infrastructure.CacheCleanup.{
  CacheCleanupError, CacheSweepReport, Swept, defaults_at, sweep,
}
use reprodb.Infrastructure.ClientCatalog
use reprodb.Infrastructure.ClientCatalog.{ApprovedMysqlClient, ClientCatalogError}
use reprodb.Infrastructure.Config.{AppConfig, ConfigError, SourceProfileConfig}
use reprodb.Infrastructure.Config.Fingerprint.{source_profile_fingerprint}
use reprodb.Infrastructure.Config.Repository.{ConfigFile, load}
use reprodb.Infrastructure.Credentials.{CredentialError, SecretString}
use reprodb.Infrastructure.OperationLock.{OperationLockError}

-- Without the causes.
pub data DumpServiceError : Type 0 where
  config_error : ConfigError → DumpServiceError
  no_active_profile docker_context_missing : DumpServiceError
  client_catalog_error : ClientCatalogError → DumpServiceError
  credential_error : CredentialError → DumpServiceError
  lock_error : OperationLockError → DumpServiceError
  preflight_error tls_required_but_not_negotiated execute_error : DumpServiceError
  artifact_error : ArtifactStoreError → DumpServiceError
  metadata_error : DumpMetadataError → DumpServiceError
  cleanup_error : CacheCleanupError → DumpServiceError
  clock_error : DumpServiceError

-- `ApprovedMysqlDump`.
pub record ApprovedMysqlDump : Type 0 where
  pub preflight : DumpPreflight
  pub plan : ApprovedDumpPlan
  pub server : MysqlServerInfo

pub record DumpSource : Type 0 where
  pub profile_name : ProfileName
  pub docker_context : Text
  pub profile : SourceProfileConfig
  pub password : SecretString
  pub client : ApprovedMysqlClient

-- `begin` and `create_dump_writer`: the stage, or an error, behind which the stage may be left as if
-- its `drop` had failed.
pub data Begun : Type 0 where
  began : DumpId → Begun
  not_begun : ArtifactStoreError → DumpId → Begun

-- What the service asks outside, in the order of the source; an execution that fails leaves a part of
-- the dump's file.
pub record Outside : Type 0 where
  pub cleanup_now : Option ℕ
  pub credentials : CredentialKey → Result CredentialError SecretString
  pub lock : Result OperationLockError (Unit {0})
  pub assess : DumpSource → DatabaseName → Option ApprovedMysqlDump
  pub created_at : Option ℕ
  pub begin : Begun
  pub execute : DumpSource → ApprovedDumpPlan → Option CompressionMetrics
  pub dump : FileState
  pub completed_at : Option ℕ
  pub files : StageFiles

-- The dump that was made, without its path and its notices.
pub record DumpCreated : Type 0 where
  pub dump_id : DumpId
  pub profile : ProfileName
  pub database : DatabaseName
  pub source_version : MysqlVersion
  pub client_version : MysqlVersion
  pub uncompressed_bytes : ℕ
  pub compressed_bytes : ℕ

pub record Assessed : Type 0 where
  pub source : DumpSource
  pub approved : ApprovedMysqlDump
  pub created_at_unix_seconds : ℕ

-- The part behind the sweep, up to the stage.
unfoldable pub assess : Outside → ConfigFile → DatabaseName → Result DumpServiceError Assessed
unfolding load get requires_encrypted_transport
assess outside file database = do
  config ← map_err config_error (load file)
  name ← ok_or no_active_profile config.active_profile
  profile ← ok_or no_active_profile (get name config.profiles)
  docker_context ← ok_or docker_context_missing config.docker_context
  client ← map_err client_catalog_error (ClientCatalog.validate profile.mysql_series profile.image)
  password ← map_err credential_error (outside.credentials profile.credential_key)
  map_err lock_error outside.lock
  approved ← ok_or preflight_error (
      outside.assess
        (record {
          profile_name = name;
          docker_context = docker_context;
          profile = profile;
          password = password;
          client = client;
        })
        database)
  guard (not (requires_encrypted_transport profile.tls_mode && is_none approved.server.tls_cipher))
      tls_required_but_not_negotiated
  created_at ← ok_or clock_error outside.created_at
  ok (record {
    source = record {
      profile_name = name;
      docker_context = docker_context;
      profile = profile;
      password = password;
      client = client;
    };
    approved = approved;
    created_at_unix_seconds = created_at;
  })

-- What is left: the cache behind the sweep, and what the stage adds to the database's directory.
pub record Left : Type 0 where
  pub tree : CacheTree
  pub added : List (Node Artifact)

module _ (lib : Libraries) (to_json : DumpArtifactMetadata → List ℕ) (outside : Outside)
    (database : DatabaseName) where
  abbrev pub stage_of : DumpId → Assessed → FileState → StagedDumpArtifact
  stage_of dump_id a dump = record {
    dump_id = dump_id;
    profile = a.source.profile_name;
    database = database;
    dump = dump;
  }

  unfoldable pub metadata_of :
      DumpId → Assessed → CompressionMetrics → ℕ → Result DumpMetadataError DumpArtifactMetadata
  unfolding source_profile_fingerprint try_new
  metadata_of dump_id a metrics completed_at =
      try_new dump_id
        (record {
          database = database;
          profile = a.source.profile_name;
          source_fingerprint =
              source_profile_fingerprint lib.sha256 a.source.profile_name a.source.profile;
          source_server_uuid = a.approved.server.server_uuid;
          source_version = a.approved.server.version;
          client_version = a.source.client.version;
          database_encoding = a.approved.preflight.encoding;
          policy_version = a.approved.plan.policy_version;
        })
        (record {
          created_at_unix_seconds = a.created_at_unix_seconds;
          completed_at_unix_seconds = completed_at;
          uncompressed_bytes = metrics.input_bytes;
          compressed_bytes = metrics.compressed_bytes;
          sql_sha256 = metrics.input_sha256;
          artifact_sha256 = metrics.compressed_sha256;
        })

  abbrev created_of :
      Assessed
      → CompressionMetrics
      → Result ArtifactStoreError PublishedDumpArtifact
      → Result DumpServiceError DumpCreated
  created_of a metrics (err e) = err (artifact_error e)
  created_of a metrics (ok published) = ok (record {
    dump_id = published.dump_id;
    profile = a.source.profile_name;
    database = database;
    source_version = a.approved.server.version;
    client_version = a.source.client.version;
    uncompressed_bytes = metrics.input_bytes;
    compressed_bytes = metrics.compressed_bytes;
  })

  abbrev Made : Type 0
  Made = Result DumpServiceError DumpCreated × List (Node Artifact)

  -- A stage that is dropped.
  abbrev pub abandoned : DumpServiceError → StagedDumpArtifact → Made
  abandoned e stage = (err e, dropped lib.uuid to_json outside.files stage absent)

  abbrev pub publish_on :
      DumpId → Assessed → CompressionMetrics → Result DumpMetadataError DumpArtifactMetadata → Made
  publish_on dump_id a metrics (err e) =
      abandoned (metadata_error e) (stage_of dump_id a outside.dump)
  publish_on dump_id a metrics (ok metadata) = (
    created_of a metrics
        (publish lib.uuid to_json outside.files (stage_of dump_id a outside.dump) metadata
          metrics).0,
    (publish lib.uuid to_json outside.files (stage_of dump_id a outside.dump) metadata metrics).1,
  )

  abbrev pub completed_on : DumpId → Assessed → CompressionMetrics → Option ℕ → Made
  completed_on dump_id a metrics none = abandoned clock_error (stage_of dump_id a outside.dump)
  completed_on dump_id a metrics (some completed_at) =
      publish_on dump_id a metrics (metadata_of dump_id a metrics completed_at)

  abbrev pub executed_on : DumpId → Assessed → Option CompressionMetrics → Made
  executed_on dump_id a none = abandoned execute_error (stage_of dump_id a outside.dump)
  executed_on dump_id a (some metrics) = completed_on dump_id a metrics outside.completed_at

  abbrev pub begun_on : Assessed → Begun → Made
  begun_on a (not_begun e dump_id) = abandoned (artifact_error e) (stage_of dump_id a absent)
  begun_on a (began dump_id) = executed_on dump_id a (outside.execute a.source a.approved.plan)

  abbrev pub assessed_on :
      CacheTree → Result DumpServiceError Assessed → Result DumpServiceError DumpCreated × Left
  assessed_on tree (err e) = (err e, record { tree = tree; added = [] })
  assessed_on tree (ok a) =
      ((begun_on a outside.begin).0, record { tree = tree; added = (begun_on a outside.begin).1 })

  abbrev pub swept_on : ConfigFile → Swept CacheTree → Result DumpServiceError DumpCreated × Left
  swept_on file (err e, tree) = (err (cleanup_error e), record { tree = tree; added = [] })
  swept_on file (ok report, tree) = assessed_on tree (assess outside file database)

  abbrev pub create_at :
      CacheTree → ConfigFile → Option ℕ → Result DumpServiceError DumpCreated × Left
  create_at tree file none = (err clock_error, record { tree = tree; added = [] })
  create_at tree file (some now) = swept_on file (sweep lib.uuid (defaults_at now) tree)

  unfoldable pub create : CacheTree → ConfigFile → Result DumpServiceError DumpCreated × Left
  unfolding sweep assess metadata_of publish
  create tree file = create_at tree file outside.cleanup_now
