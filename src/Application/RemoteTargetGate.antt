-- ===== src/Application/RemoteTargetGate.antt =====
-- application/remote_target_gate.rs: the only path that turns a profile into a destination of a push.
pub mod Verified
pub mod Authorized
pub mod Offered
use reprodb.Common.{
  ℕ, Bool, true, false, not, ◌&&◌, ◌||◌, Option, none, some, List, [], ◌∷◌, map, ◌==◌, any, keep,
  find, if◌then◌else◌, Result, ok, err, ◌>>=◌, ◌>>◌, guard, map_err, ok_or,
}
use reprodb.Common.Text.{
  Text, codes, text_eq, text_ord, trim, trim_end, to_ascii_lowercase, starts_with, contains,
}
use reprodb.Common.Maps.{get, insert}
use reprodb.Common.Sorting.{sort_by}
use reprodb.Domain.Names.{ProfileName, DatabaseName}
use reprodb.Domain.Tls.{MysqlTlsMode, MysqlTlsMaterialPaths, requires_encrypted_transport, is_none}
use reprodb.Domain.Version.{MysqlVersion, series_text}
use reprodb.Domain.CredentialKey.{CredentialKey}
use reprodb.Domain.Artifact.{MysqlServerUuid, DumpArtifactMetadata}
use reprodb.Infrastructure.ClientCatalog
use reprodb.Infrastructure.ClientCatalog.{ApprovedMysqlClient, ClientCatalogError}
use reprodb.Infrastructure.Config.{AppConfig, ConfigError, SourceProfileConfig}
use reprodb.Infrastructure.Config.Repository.{ConfigFile, Saving, load, save}
use reprodb.Infrastructure.Credentials.{CredentialError, SecretString}
use reprodb.Infrastructure.Server.{MysqlServerInfo, DockerClientError, ArtifactStoreError}
use reprodb.Application.Compatibility.{versions_are_restore_compatible, is_same_major_downgrade}

pub record RemoteProfileChoice : Type 0 where
  pub profile : ProfileName
  pub host : Text
  pub port : ℕ
  pub accepts_push : Bool

pub data RemoteTargetGateError : Type 0 where
  config_error : ConfigError → RemoteTargetGateError
  profile_not_found production_destination : RemoteTargetGateError
  push_not_allowed protected_endpoint_error : ProfileName → RemoteTargetGateError
  docker_context_missing : RemoteTargetGateError
  client_catalog_error : ClientCatalogError → RemoteTargetGateError
  credential_error : CredentialError → RemoteTargetGateError
  probe_error : DockerClientError → RemoteTargetGateError
  protected_server_error : ProfileName → RemoteTargetGateError
  store_error : ArtifactStoreError → RemoteTargetGateError
  tls_required_but_not_negotiated unsupported_vendor : RemoteTargetGateError
  unsupported_server_series : RemoteTargetGateError
  protected_source_server : ProfileName → RemoteTargetGateError
  source_collision : RemoteTargetGateError
  downgrade_error : MysqlVersion → MysqlVersion → RemoteTargetGateError
  version_mismatch : RemoteTargetGateError

-- The function `accepts_push`.
abbrev pub profile_accepts_push : SourceProfileConfig → Bool
profile_accepts_push profile = profile.push_destination && not profile.production

abbrev loopback_spellings : List Text
loopback_spellings =
    codes "localhost" ∷ codes "::1" ∷ codes "[::1]" ∷ codes "host.docker.internal" ∷ []

abbrev is_dot : ℕ → Bool
is_dot c = c == b'.'

abbrev fold_loopback : Text → Text
fold_loopback host =
    if any (text_eq host) loopback_spellings
    then codes "loopback"
    else if starts_with host (codes "127.")
    then codes "loopback"
    else host

unfoldable pub endpoint_host : Text → Text
endpoint_host host = fold_loopback (to_ascii_lowercase (trim_end is_dot (trim host)))

-- The closure of the `find` in `protected_endpoint`.
unfoldable pub protects :
    ProfileName → SourceProfileConfig → ProfileName × SourceProfileConfig → Bool
protects name profile (candidate_name, candidate) =
    not (text_eq candidate_name name)
    && not (profile_accepts_push candidate)
    && candidate.port == profile.port
    && text_eq (endpoint_host candidate.host) (endpoint_host profile.host)

unfoldable pub protected_endpoint :
    AppConfig → ProfileName → SourceProfileConfig → Option ProfileName
protected_endpoint config name profile = elim (find (protects name profile) config.profiles) [
  | none ↦ none
  | some (candidate, _) ↦ some candidate
]

-- `config.active_profile.as_ref() == Some(name)`.
abbrev is_active : Option ProfileName → ProfileName → Bool
is_active none name = false
is_active (some active) name = text_eq active name

unfoldable pub is_eligible : AppConfig → ProfileName × SourceProfileConfig → Bool
is_eligible config (name, profile) =
    not profile.production
    && (profile_accepts_push profile || not (is_active config.active_profile name))
    && is_none (protected_endpoint config name profile)

abbrev choice : ProfileName × SourceProfileConfig → RemoteProfileChoice
choice (name, profile) = record {
  profile = name;
  host = profile.host;
  port = profile.port;
  accepts_push = profile_accepts_push profile;
}

-- `sort_by_key(|choice| !choice.accepts_push)`: `false` comes before `true`.
abbrev pub allowed_first : RemoteProfileChoice → RemoteProfileChoice → Bool
allowed_first a b = a.accepts_push && not b.accepts_push

unfoldable pub eligible_choices : AppConfig → List RemoteProfileChoice
unfolding is_eligible
eligible_choices config =
    sort_by allowed_first (map choice (keep (is_eligible config) config.profiles))

unfoldable pub eligible_profiles :
    ConfigFile → Result RemoteTargetGateError (List RemoteProfileChoice)
unfolding eligible_choices load
eligible_profiles file = do loaded ← map_err config_error (load file); ok (eligible_choices loaded)

-- The configuration that `allow_push` saves.
unfoldable pub with_push_allowed : ProfileName → AppConfig → Result RemoteTargetGateError AppConfig
with_push_allowed name loaded = do
  profile ← ok_or profile_not_found (get name loaded.profiles)
  guard (not profile.production) production_destination
  ok (record loaded {
    profiles = insert name (record profile { push_destination = true }) loaded.profiles;
  })

abbrev pub saved :
    Saving
    → Result RemoteTargetGateError AppConfig
    → ConfigFile
    → Result RemoteTargetGateError (Unit {0}) × ConfigFile
saved saving (err e) file = (err e, file)
saved saving (ok allowed) file =
    (map_err config_error (save saving allowed file).0, (save saving allowed file).1)

unfoldable pub allow_push :
    Saving → ProfileName → ConfigFile → Result RemoteTargetGateError (Unit {0}) × ConfigFile
unfolding with_push_allowed load
allow_push saving name file =
    saved saving (map_err config_error (load file) >>= with_push_allowed name) file

pub record RemoteTargetProbeRequest : Type 0 where
  pub docker_context : Text
  pub profile : SourceProfileConfig
  pub password : SecretString
  pub client : ApprovedMysqlClient

-- What the gate asks outside: the credential store, the probe, and the cached dumps in the order of
-- `list_all_candidates`, where `none` is one whose metadata cannot be read.
pub record Outside : Type 0 where
  pub credentials : CredentialKey → Result CredentialError SecretString
  pub probe : RemoteTargetProbeRequest → Result DockerClientError MysqlServerInfo
  pub candidates : Result ArtifactStoreError (List (Option DumpArtifactMetadata))

pub record GuardedRemoteTarget : Type 0 where
  pub profile : ProfileName
  pub host : Text
  pub port : ℕ
  pub username : Text
  pub password : SecretString
  pub tls_mode : MysqlTlsMode
  pub tls_material : MysqlTlsMaterialPaths
  pub docker_context : Text
  pub client : ApprovedMysqlClient
  pub server_version : MysqlVersion
  pub server_uuid : MysqlServerUuid

-- `config.profiles.get(name).is_some_and(accepts_push)`.
unfoldable pub named_accepts_push : AppConfig → ProfileName → Bool
named_accepts_push config name = elim (get name config.profiles) [
  | none ↦ false
  | some profile ↦ profile_accepts_push profile
]

-- The loop of `protected_server`.
unfoldable pub protected_server :
    AppConfig → MysqlServerUuid → List (Option DumpArtifactMetadata) → Option ProfileName
protected_server config server_uuid [] = none
protected_server config server_uuid (none ∷ rest) = protected_server config server_uuid rest
protected_server config server_uuid (some metadata ∷ rest) =
    if text_eq metadata.source_server_uuid server_uuid
      && not (named_accepts_push config metadata.profile)
    then some metadata.profile
    else protected_server config server_uuid rest

-- `if let Some(protected) = … { return Err(…) }`.
abbrev pub refuse :
    (ProfileName → RemoteTargetGateError)
    → Option ProfileName
    → Result RemoteTargetGateError (Unit {0})
refuse e none = ok tt
refuse e (some protected) = err (e protected)

unfoldable pub verify_loaded :
    Outside → ProfileName → Bool → AppConfig → Result RemoteTargetGateError GuardedRemoteTarget
verify_loaded outside name consented loaded = do
  profile ← ok_or profile_not_found (get name loaded.profiles)
  guard (not profile.production) production_destination
  guard (profile.push_destination || consented) (push_not_allowed name)
  refuse protected_endpoint_error (protected_endpoint loaded name profile)
  docker_context ← ok_or docker_context_missing loaded.docker_context
  client ← map_err client_catalog_error (ClientCatalog.validate profile.mysql_series profile.image)
  password ← map_err credential_error (outside.credentials profile.credential_key)
  server ← map_err probe_error (
      outside.probe (record {
        docker_context = docker_context;
        profile = profile;
        password = password;
        client = client;
      }))
  guard (not (requires_encrypted_transport profile.tls_mode && is_none server.tls_cipher))
      tls_required_but_not_negotiated
  guard (not (contains (to_ascii_lowercase server.vendor) (codes "mariadb"))) unsupported_vendor
  guard (text_eq (series_text server.version) client.series) unsupported_server_series
  candidates ← map_err store_error outside.candidates
  refuse protected_server_error (protected_server loaded server.server_uuid candidates)
  ok (record {
    profile = name;
    host = profile.host;
    port = profile.port;
    username = profile.username;
    password = password;
    tls_mode = profile.tls_mode;
    tls_material = profile.tls_material;
    docker_context = docker_context;
    client = client;
    server_version = server.version;
    server_uuid = server.server_uuid;
  })

unfoldable pub verify :
    Outside → ProfileName → Bool → ConfigFile → Result RemoteTargetGateError GuardedRemoteTarget
unfolding verify_loaded load
verify outside name consented file =
    map_err config_error (load file) >>= verify_loaded outside name consented

unfoldable pub source_accepts_push :
    DumpArtifactMetadata → ConfigFile → Result RemoteTargetGateError Bool
unfolding load named_accepts_push
source_accepts_push metadata file = do
  loaded ← map_err config_error (load file)
  ok (named_accepts_push loaded metadata.profile)

pub record AuthorizedRemoteTarget : Type 0 where
  pub target : GuardedRemoteTarget
  pub database : DatabaseName
  pub downgrade : Bool

abbrev check_source :
    GuardedRemoteTarget
    → DatabaseName
    → DumpArtifactMetadata
    → Bool
    → Result RemoteTargetGateError (Unit {0})
check_source remote database metadata accepted =
    if text_eq remote.server_uuid metadata.source_server_uuid
    then (guard accepted (protected_source_server metadata.profile)
        >> guard (not (text_eq database metadata.database)) source_collision)
    else ok tt

abbrev check_versions :
    GuardedRemoteTarget → DumpArtifactMetadata → Bool → Result RemoteTargetGateError (Unit {0})
check_versions remote metadata allow_downgrade =
    if is_same_major_downgrade metadata.source_version remote.server_version
    then guard allow_downgrade (downgrade_error metadata.source_version remote.server_version)
    else guard
        (versions_are_restore_compatible metadata.source_version metadata.client_version
          remote.server_version remote.client.version)
        version_mismatch

unfoldable pub authorize :
    GuardedRemoteTarget
    → DatabaseName
    → DumpArtifactMetadata
    → Bool
    → Bool
    → Result RemoteTargetGateError AuthorizedRemoteTarget
unfolding is_same_major_downgrade versions_are_restore_compatible
authorize remote database metadata source_accepts_push allow_downgrade = do
  check_source remote database metadata source_accepts_push
  check_versions remote metadata allow_downgrade
  ok (record {
    target = remote;
    database = database;
    downgrade = is_same_major_downgrade metadata.source_version remote.server_version;
  })
