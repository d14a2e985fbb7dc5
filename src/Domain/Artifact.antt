-- ===== src/Domain/Artifact.antt =====
-- domain/artifact.rs: the metadata that is stored beside a complete dump.
pub mod Metadata
use reprodb.Common.{
  ℕ, Bool, true, false, not, ltb, ◌==◌, Option, none, some, Result, ok, err, ◌>>=◌, ◌>>◌, guard,
  map_err, ok_or, if◌then◌else◌,
}
use reprodb.Common.Text.{Text, text_eq}
use reprodb.Domain.Names.{DatabaseName, ProfileName}
use reprodb.Domain.Digest.{Sha256Digest}
use reprodb.Domain.Uuid.{UuidText}
use reprodb.Domain.Version.{MysqlVersion}
use reprodb.Domain.Dump.{DatabaseEncoding, DumpPreflightMetadataError, encoding_try_new}
use reprodb.Domain.Prune.{DumpId}

pub data DumpArtifactFormat : Type 0 where
  mysql_sql_zstd_v1 : DumpArtifactFormat

-- A server's UUID is the text that `validate_mysql_server_uuid` accepted.
abbrev pub MysqlServerUuid : Type 0
MysqlServerUuid = Text

pub record DumpArtifactMetadata : Type 0 where
  pub format : DumpArtifactFormat
  pub dump_id : DumpId
  pub database : DatabaseName
  pub profile : ProfileName
  pub source_fingerprint : Sha256Digest
  pub source_server_uuid : MysqlServerUuid
  pub source_version : MysqlVersion
  pub client_version : MysqlVersion
  pub database_charset : Text
  pub database_collation : Text
  pub policy_version : ℕ
  pub created_at_unix_seconds : ℕ
  pub completed_at_unix_seconds : ℕ
  pub uncompressed_bytes : ℕ
  pub compressed_bytes : ℕ
  pub sql_sha256 : Sha256Digest
  pub artifact_sha256 : Sha256Digest

pub record DumpArtifactContext : Type 0 where
  pub database : DatabaseName
  pub profile : ProfileName
  pub source_fingerprint : Sha256Digest
  pub source_server_uuid : MysqlServerUuid
  pub source_version : MysqlVersion
  pub client_version : MysqlVersion
  pub database_encoding : DatabaseEncoding
  pub policy_version : ℕ

pub record DumpArtifactCompletion : Type 0 where
  pub created_at_unix_seconds : ℕ
  pub completed_at_unix_seconds : ℕ
  pub uncompressed_bytes : ℕ
  pub compressed_bytes : ℕ
  pub sql_sha256 : Sha256Digest
  pub artifact_sha256 : Sha256Digest

pub data DumpMetadataError : Type 0 where
  invalid_dump_id invalid_policy_version invalid_timestamps empty_artifact : DumpMetadataError

-- `DumpId::from_str`: only the canonical hyphenated text of a UUID.
unfoldable pub dump_id_from_str : UuidText → Text → Result DumpMetadataError DumpId
dump_id_from_str uuid value = do
  id ← ok_or invalid_dump_id (uuid.parse_str value)
  guard (text_eq (uuid.hyphenated id) value) invalid_dump_id
  ok id

unfoldable pub try_new :
    DumpId
    → DumpArtifactContext
    → DumpArtifactCompletion
    → Result DumpMetadataError DumpArtifactMetadata
try_new dump_id context completion =
    if context.policy_version == 0
    then err invalid_policy_version
    else if ltb completion.completed_at_unix_seconds completion.created_at_unix_seconds
    then err invalid_timestamps
    else if completion.compressed_bytes == 0
    then err empty_artifact
    else ok (record {
      format = mysql_sql_zstd_v1;
      dump_id = dump_id;
      database = context.database;
      profile = context.profile;
      source_fingerprint = context.source_fingerprint;
      source_server_uuid = context.source_server_uuid;
      source_version = context.source_version;
      client_version = context.client_version;
      database_charset = context.database_encoding.charset;
      database_collation = context.database_encoding.collation;
      policy_version = context.policy_version;
      created_at_unix_seconds = completion.created_at_unix_seconds;
      completed_at_unix_seconds = completion.completed_at_unix_seconds;
      uncompressed_bytes = completion.uncompressed_bytes;
      compressed_bytes = completion.compressed_bytes;
      sql_sha256 = completion.sql_sha256;
      artifact_sha256 = completion.artifact_sha256;
    })

pub data DeserializeError : Type 0 where
  bad_encoding : DumpPreflightMetadataError → DeserializeError
  bad_metadata : DumpMetadataError → DeserializeError

-- `DumpArtifactMetadata::deserialize` behind the wire record, whose fields are those of the metadata;
-- the only format passes its test.
unfoldable pub from_wire : DumpArtifactMetadata → Result DeserializeError DumpArtifactMetadata
unfolding try_new encoding_try_new
from_wire wire = do
  encoding ← map_err bad_encoding (encoding_try_new wire.database_charset wire.database_collation)
  map_err bad_metadata (
      try_new wire.dump_id
        (record {
          database = wire.database;
          profile = wire.profile;
          source_fingerprint = wire.source_fingerprint;
          source_server_uuid = wire.source_server_uuid;
          source_version = wire.source_version;
          client_version = wire.client_version;
          database_encoding = encoding;
          policy_version = wire.policy_version;
        })
        (record {
          created_at_unix_seconds = wire.created_at_unix_seconds;
          completed_at_unix_seconds = wire.completed_at_unix_seconds;
          uncompressed_bytes = wire.uncompressed_bytes;
          compressed_bytes = wire.compressed_bytes;
          sql_sha256 = wire.sql_sha256;
          artifact_sha256 = wire.artifact_sha256;
        }))
