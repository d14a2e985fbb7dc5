-- ===== src/Infrastructure/Server.antt =====
-- infrastructure/mysql/docker_client.rs and infrastructure/artifact_store.rs: what a probe of a
-- server and a scan of the cache return. The causes that the errors wrap are left out.
use reprodb.Common.{Option}
use reprodb.Common.Text.{Text}
use reprodb.Domain.Artifact.{MysqlServerUuid}
use reprodb.Domain.Version.{MysqlVersion}

pub record MysqlServerInfo : Type 0 where
  pub version : MysqlVersion
  pub vendor : Text
  pub server_uuid : MysqlServerUuid
  pub tls_cipher : Option Text

pub data DockerClientError : Type 0 where
  catalog process option_file invalid_docker_context docker_unavailable : DockerClientError
  image_pull_failed image_unavailable image_inspect_failed : DockerClientError
  invalid_image_metadata image_digest_mismatch version_probe_failed : DockerClientError
  incompatible_client_version option_file_path_not_absolute : DockerClientError
  source_network_unavailable authentication_failed tls_validation_failed : DockerClientError
  connection_probe_failed query_failed invalid_server_metadata : DockerClientError

pub data ArtifactStoreError : Type 0 where
  io serialize_metadata metadata_identity_mismatch : ArtifactStoreError
  metadata_content_mismatch compressed_size_mismatch artifact_busy : ArtifactStoreError
