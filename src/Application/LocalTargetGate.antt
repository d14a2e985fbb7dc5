-- ===== src/Application/LocalTargetGate.antt =====
-- application/local_target_gate.rs: the container that a restore may write to.
pub mod Verified
use reprodb.Common.{
  Bool, true, false, not, ◌&&◌, ◌||◌, Option, none, some, Result, ok, err, ◌>>=◌, ◌>>◌, guard,
  map_err, ok_or,
}
use reprodb.Common.Text.{Text, codes, text_eq, to_ascii_lowercase, contains}
use reprodb.Domain.Names.{ContainerName, ContainerId, DatabaseName}
use reprodb.Domain.Version.{MysqlVersion, series_text}
use reprodb.Domain.CredentialKey.{CredentialKey}
use reprodb.Domain.Artifact.{MysqlServerUuid}
use reprodb.Infrastructure.ClientCatalog.{ApprovedMysqlClient}
use reprodb.Infrastructure.Config.{
  AppConfig, ConfigError, LocalTargetConfig, LocalTargetTrust, reprodb_managed, user_confirmed,
  local_target_named,
}
use reprodb.Infrastructure.Config.Repository.{ConfigFile, load}
use reprodb.Infrastructure.Credentials.{CredentialError, SecretString}

pub record LocalTargetAttestation : Type 0 where
  pub docker_context : Text
  pub container_name : ContainerName
  pub container_id : ContainerId
  pub managed_by_reprodb : Bool
  pub server_version : MysqlVersion
  pub server_uuid : MysqlServerUuid
  pub vendor : Text
  pub client : ApprovedMysqlClient

pub data LocalTargetAttestationError : Type 0 where
  docker_unavailable remote_context context_changed : LocalTargetAttestationError
  container_not_found container_not_running client_unavailable : LocalTargetAttestationError
  authentication_failed connection_unavailable invalid_metadata : LocalTargetAttestationError

pub data LocalTargetGateError : Type 0 where
  config_error : ConfigError → LocalTargetGateError
  not_configured unknown_target runtime_context_missing : LocalTargetGateError
  credential_error : CredentialError → LocalTargetGateError
  attestation_error : LocalTargetAttestationError → LocalTargetGateError
  context_identity_changed container_identity_changed managed_marker_missing : LocalTargetGateError
  unsupported_vendor unsupported_server_series : LocalTargetGateError

-- What the gate asks outside: the credential store and the attestor.
pub record Outside : Type 0 where
  pub credentials : CredentialKey → Result CredentialError SecretString
  pub attest :
      LocalTargetConfig → SecretString → Result LocalTargetAttestationError LocalTargetAttestation

pub record GuardedLocalTarget : Type 0 where
  pub docker_context : Text
  pub container_name : ContainerName
  pub container_id : ContainerId
  pub username : Text
  pub password : SecretString
  pub server_version : MysqlVersion
  pub server_uuid : MysqlServerUuid
  pub vendor : Text
  pub client : ApprovedMysqlClient

abbrev pub is_managed : LocalTargetTrust → Bool
is_managed reprodb_managed = true
is_managed user_confirmed = false

-- The `match` on the target's name.
unfoldable pub selected :
    AppConfig → Option ContainerName → Result LocalTargetGateError LocalTargetConfig
selected loaded none = ok_or not_configured loaded.local_target
selected loaded (some name) = ok_or unknown_target (local_target_named loaded name)

unfoldable pub verify_loaded :
    Outside → Option ContainerName → AppConfig → Result LocalTargetGateError GuardedLocalTarget
verify_loaded outside target_name loaded = do
  configured ← selected loaded target_name
  runtime_context ← ok_or runtime_context_missing loaded.docker_context
  guard (text_eq runtime_context configured.docker_context) context_identity_changed
  password ← map_err credential_error (outside.credentials configured.credential_key)
  attested ← map_err attestation_error (outside.attest configured password)
  guard (text_eq attested.docker_context configured.docker_context) context_identity_changed
  guard
      (text_eq attested.container_id configured.container_id
        && text_eq attested.container_name configured.container_name)
      container_identity_changed
  guard (not (is_managed configured.trust && not attested.managed_by_reprodb))
      managed_marker_missing
  guard (contains (to_ascii_lowercase attested.vendor) (codes "mysql")) unsupported_vendor
  guard (text_eq (series_text attested.server_version) attested.client.series)
      unsupported_server_series
  ok (record {
    docker_context = configured.docker_context;
    container_name = configured.container_name;
    container_id = configured.container_id;
    username = configured.username;
    password = password;
    server_version = attested.server_version;
    server_uuid = attested.server_uuid;
    vendor = attested.vendor;
    client = attested.client;
  })

-- `verify` is the case `none`.
unfoldable pub verify_named :
    Outside → Option ContainerName → ConfigFile → Result LocalTargetGateError GuardedLocalTarget
unfolding verify_loaded load
verify_named outside target_name file =
    map_err config_error (load file) >>= verify_loaded outside target_name

pub record AuthorizedLocalTarget : Type 0 where
  pub target : GuardedLocalTarget
  pub database : DatabaseName

unfoldable pub authorize_database :
    GuardedLocalTarget → DatabaseName → Result LocalTargetGateError AuthorizedLocalTarget
authorize_database guarded database = ok (record { target = guarded; database = database })
