-- ===== src/Witnesses/Samples.antt =====
-- The values that the tests run on.
use reprodb.Common.{
  ℕ, ◌+◌, ◌*◌, zero, suc, ◌≡◌, refl, ap, true, false, none, some, [], ◌∷◌, length, ok, arith,
}
use reprodb.Common.Text.{Text, codes}
use reprodb.Common.Affixes.{Lacks}
use reprodb.Domain.Uuid.{UuidText}
use reprodb.Domain.Digest.{Sha256Digest}
use reprodb.Domain.Version.{MysqlVersion}
use reprodb.Domain.Tls.{MysqlTlsMaterialPaths, MysqlTlsMode}
use reprodb.Domain.CredentialKey.{CredentialKey, source, target}
use reprodb.Domain.Artifact.{DumpArtifactMetadata, mysql_sql_zstd_v1}
use reprodb.Infrastructure.ClientCatalog.{mysql_8_4_4}
use reprodb.Infrastructure.Config.{
  AppConfig, SourceProfileConfig, LocalTargetConfig, current_schema_version, reprodb_managed,
}
use reprodb.Infrastructure.Config.Repository.{Toml, Saving, no_fault}
use reprodb.Infrastructure.Credentials.{SecretString}
use reprodb.Infrastructure.Server.{MysqlServerInfo}
use reprodb.Application.RemoteTargetGate
use reprodb.Application.LocalTargetGate

-- A UUID in unary: the texts of `uuid` need only be read back.
abbrev dashes : ℕ → Text
dashes zero = []
dashes (suc n) = b'-' ∷ dashes n

pub length-dashes : (n : ℕ) → length (dashes n) ≡ n
length-dashes zero = refl
length-dashes (suc n) = omega (arith, length-dashes n)

pub dashes-Lacks : (n : ℕ) → Lacks b'.' (dashes n)
dashes-Lacks zero = tt
dashes-Lacks (suc n) = (λ h. omega (arith, h), dashes-Lacks n)

abbrev pub unary : UuidText
unary = record {
  parse_str = λ text. some (length text);
  hyphenated = dashes;
  parse_str-hyphenated = λ id. ap (λ n. some n) (length-dashes id);
  hyphenated-Lacks = dashes-Lacks;
}

abbrev pub version_8_4 : MysqlVersion
version_8_4 = record { major = 8; minor = 4; patch = 4 }

abbrev pub sandbox_key : CredentialKey
sandbox_key = record { scope = source; id = 1 }

abbrev pub target_key : CredentialKey
target_key = record { scope = target; id = 2 }

abbrev pub no_material : MysqlTlsMaterialPaths
no_material = record { ca = none; cert = none; key = none }

abbrev pub sandbox : SourceProfileConfig
sandbox = record {
  host = codes "db";
  port = 3306;
  username = codes "w";
  credential_key = sandbox_key;
  mysql_series = codes "8.4";
  production = false;
  push_destination = true;
  tls_mode = MysqlTlsMode.required;
  tls_material = no_material;
  image = mysql_8_4_4.image;
}

abbrev pub container : LocalTargetConfig
container = record {
  docker_context = codes "local";
  container_name = codes "mysql";
  container_id = codes "a1";
  username = codes "root";
  credential_key = target_key;
  trust = reprodb_managed;
}

abbrev pub configured : AppConfig
configured = record {
  schema_version = current_schema_version;
  active_profile = some (codes "sandbox");
  docker_context = some (codes "local");
  local_target = some container;
  local_targets = [];
  profiles = (codes "sandbox", sandbox) ∷ [];
}

abbrev pub zeros : ℕ → Sha256Digest
zeros zero = []
zeros (suc n) = 0 ∷ zeros n

abbrev pub digest : Sha256Digest
digest = zeros 32

abbrev pub metadata : DumpArtifactMetadata
metadata = record {
  format = mysql_sql_zstd_v1;
  dump_id = 7;
  database = codes "shop";
  profile = codes "sandbox";
  source_fingerprint = digest;
  source_server_uuid = codes "u1";
  source_version = version_8_4;
  client_version = version_8_4;
  database_charset = codes "utf8mb4";
  database_collation = codes "utf8mb4_bin";
  policy_version = 2;
  created_at_unix_seconds = 10;
  completed_at_unix_seconds = 20;
  uncompressed_bytes = 100;
  compressed_bytes = 40;
  sql_sha256 = digest;
  artifact_sha256 = digest;
}

abbrev pub server : MysqlServerInfo
server = record {
  version = version_8_4;
  vendor = codes "MySQL";
  server_uuid = codes "u1";
  tls_cipher = some (codes "AES");
}

abbrev pub secret : SecretString
secret = codes "pw"

abbrev pub remote_outside : RemoteTargetGate.Outside
remote_outside = record {
  credentials = λ key. ok secret;
  probe = λ request. ok server;
  candidates = ok (none ∷ some metadata ∷ []);
}

abbrev pub remote : RemoteTargetGate.GuardedRemoteTarget
remote = record {
  profile = codes "sandbox";
  host = codes "db";
  port = 3306;
  username = codes "w";
  password = secret;
  tls_mode = MysqlTlsMode.required;
  tls_material = no_material;
  docker_context = codes "local";
  client = mysql_8_4_4;
  server_version = version_8_4;
  server_uuid = codes "u1";
}

abbrev pub attested : LocalTargetGate.LocalTargetAttestation
attested = record {
  docker_context = codes "local";
  container_name = codes "mysql";
  container_id = codes "a1";
  managed_by_reprodb = true;
  server_version = version_8_4;
  server_uuid = codes "u2";
  vendor = codes "MySQL";
  client = mysql_8_4_4;
}

abbrev pub local_outside : LocalTargetGate.Outside
local_outside = record {
  credentials = λ key. ok secret;
  attest = λ configured password. ok attested;
}

abbrev pub local : LocalTargetGate.GuardedLocalTarget
local = record {
  docker_context = codes "local";
  container_name = codes "mysql";
  container_id = codes "a1";
  username = codes "root";
  password = secret;
  server_version = version_8_4;
  server_uuid = codes "u2";
  vendor = codes "MySQL";
  client = mysql_8_4_4;
}

abbrev pub local_shop : LocalTargetGate.AuthorizedLocalTarget
local_shop = record { target = local; database = codes "shop" }

-- A text whose size grows with the profiles, and which is read back as it was written.
abbrev pub toml : Toml
toml = record {
  size = λ config. 256 + 512 * length config.profiles;
  reread = λ config. config;
  reread_same = λ config. refl;
}

abbrev pub saves : Saving
saves = record { toml = toml; fault = no_fault }

-- A text that is too long for `load`.
abbrev pub too_long : Saving
too_long = record saves { toml = record toml { size = λ config. 1024 * 1024 + 1 } }
