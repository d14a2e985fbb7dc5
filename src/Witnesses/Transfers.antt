-- ===== src/Witnesses/Transfers.antt =====
-- Pulls, pushes and restores of the dump in the sample cache, and the inputs of its digests.
use reprodb.Common.{List, [], ◌∷◌, ℕ, ◌≡◌, refl, true, false, none, some, All, arith, ok, err}
use reprodb.Common.Text.{
  codes, text_eq, bytes, trim, trim_start, trim_end, split, is_control, is_whitespace,
  to_ascii_lowercase, starts_with, contains, text_before, utf8, eq_ignore_ascii_case,
}
use reprodb.Common.Maps.{get, contains_key}
use reprodb.Common.Sorting.{sort_by}
use reprodb.Common.Decimal.{decimal}
use reprodb.Domain.Names.{validate_profile_name, validate_database_name}
use reprodb.Domain.Artifact.{dump_id_from_str, from_wire}
use reprodb.Domain.Version.{series_text, same_series}
use reprodb.Domain.CredentialKey.{scope_eq}
use reprodb.Domain.Tls
use reprodb.Domain.Tls.{verifies_certificate_authority, requires_encrypted_transport}
use reprodb.Infrastructure.ClientCatalog
use reprodb.Infrastructure.ClientCatalog.{mysql_8_0_46, mysql_8_4_4, resolve}
use reprodb.Infrastructure.CacheTree.{parse_metadata}
use reprodb.Infrastructure.Config.{
  validate, validate_local_target, validate_local_targets, validate_profiles, validate_profile,
  validate_plain_text, validate_credential_scope, validate_mysql_series, validate_tls_material,
  validate_target, validate_docker_context, local_target_named,
}
use reprodb.Application.Compatibility.{versions_are_restore_compatible}
use reprodb.Application.RemoteTargetGate.{
  protected_endpoint, protects, protected_server, endpoint_host, named_accepts_push,
}
use reprodb.Application.LocalTargetGate
use reprodb.Application.LocalTargetGate.{verify_named, selected}
use reprodb.Infrastructure.OperationLock.{source, name_fields}
use reprodb.Infrastructure.OperationLock.Distinct.{key_input-injective}
use reprodb.Infrastructure.Config.Fingerprint.{IsBounded, SameSource, fingerprint_input-injective}
use reprodb.Infrastructure.Config.Repository.{stored, load}
use reprodb.Infrastructure.Framing.{Fits}
use reprodb.Application.RestoreEngine
use reprodb.Application.RestoreEngine.{Answers, original, imported, new_state}
use reprodb.Application.RestoreService
use reprodb.Application.RestoreService.{
  RestoreRequest, RestoreReady, restore_to, no_restore_dump_selector,
}
use reprodb.Application.RestoreService.Restored.{IsServed, restore_to-IsServed}
use reprodb.Application.PushService
use reprodb.Application.PushService.{existing, push}
use reprodb.Application.PullService
use reprodb.Application.PullService.{PullReady, reused, pull}
use reprodb.Application.PullService.Pulled.{IsPulled, pull-IsPulled}
use reprodb.Application.DumpService
use reprodb.Application.DumpService.{began, create}
use reprodb.Application.DumpService.Kept.{Keeps, create-Keeps}
use reprodb.Domain.Dump.{DatabaseObjectCounts, off}
use reprodb.Domain.Artifact.{DumpArtifactMetadata}
use reprodb.Infrastructure.Server
use reprodb.Infrastructure.CacheTree.{contents}
use reprodb.Infrastructure.CacheCleanup.{sweep_named}
use reprodb.Common.Affixes.{split_once_text, strip_suffix}
use reprodb.Infrastructure.ArtifactStage.{sync_parent}
use reprodb.Witnesses.Samples.{
  saves, server, digest, configured, sandbox, local_outside, local_shop, remote_outside,
  version_8_4,
}
use reprodb.Witnesses.CacheFiles.{libraries, tree}

lock_key_example :
    (source ≡ source) × (name_fields (codes "a") (codes "b") ≡ name_fields (codes "a") (codes "b"))
unfolding bytes utf8
lock_key_example =
    key_input-injective source source (name_fields (codes "a") (codes "b"))
      (name_fields (codes "a") (codes "b")) fits fits refl
  where
    fits : All Fits (name_fields (codes "a") (codes "b"))
    fits = (omega arith, (omega arith, tt))

bounded : IsBounded (codes "sandbox") sandbox
unfolding mysql_8_4_4 bytes utf8
bounded = record {
  name_fits = omega arith;
  host_fits = omega arith;
  port_fits = omega arith;
  username_fits = omega arith;
  series_fits = omega arith;
  image_fits = omega arith;
}

fingerprint_example : SameSource (codes "sandbox") (codes "sandbox") sandbox sandbox
fingerprint_example =
    fingerprint_input-injective (codes "sandbox") (codes "sandbox") sandbox sandbox bounded bounded
      refl

abbrev start : RestoreEngine.World
start = record { saved = none; contents = original }

abbrev answers : Answers
answers = record {
  lock = ok tt;
  save_incomplete = RestoreEngine.no_fault;
  recreate_database = ok tt;
  import = ok 2;
  save_ready = RestoreEngine.no_fault;
}

abbrev finish : RestoreEngine.World
finish = record { saved = some (new_state local_shop 7 RestoreEngine.ready); contents = imported 2 }

abbrev restore_outside : RestoreService.Outside
restore_outside = record { select = no_restore_dump_selector; gate = local_outside }

abbrev request : RestoreRequest
request = record {
  database = codes "shop";
  dump_id = some 7;
  target_container = some (codes "mysql");
  target_database = none;
}

abbrev restored_ready : RestoreReady
restored_ready = record {
  plan = record {
    profile = codes "sandbox";
    source_database = codes "shop";
    database = codes "shop";
    dump_id = 7;
    source_version = version_8_4;
    client_version = version_8_4;
    container = codes "mysql";
  };
  imported_bytes = 2;
}

restores :
    restore_to libraries tree (stored configured) restore_outside answers request start
    ≡ (ok restored_ready, finish)
unfolding restore_to verify_named load validate validate_local_target validate_local_targets
    validate_profiles validate_profile validate_plain_text validate_credential_scope
    validate_mysql_series validate_tls_material validate_target validate_docker_context text_eq
    bytes trim trim_start trim_end split is_control is_whitespace get contains_key scope_eq
    Tls.is_empty verifies_certificate_authority ClientCatalog.validate resolve mysql_8_0_46
    mysql_8_4_4 text_before utf8 LocalTargetGate.verify_loaded selected local_target_named decimal
    contains starts_with to_ascii_lowercase series_text versions_are_restore_compatible same_series
    dump_id_from_str parse_metadata from_wire sort_by validate_profile_name validate_database_name
    eq_ignore_ascii_case
restores = refl

restored_transfer :
    IsServed libraries tree (stored configured) restore_outside request restored_ready finish
restored_transfer =
    restore_to-IsServed libraries tree (stored configured) restore_outside request answers start
      finish restored_ready restores

abbrev push_outside : PushService.Outside
push_outside = record {
  selector = record {
    profile = λ choices. ok (codes "sandbox");
    allow_push = λ choice. ok true;
    accept_downgrade = λ dump destination. ok false;
    dump = λ database choices. ok (existing 7);
    database = λ database. ok (codes "copy");
    confirm = λ plan. ok true;
  };
  gate = remote_outside;
  create = λ database. err PushService.dump_failed;
  save = saves;
  lock = ok tt;
  ensure_database = ok tt;
  import = ok 2;
}

abbrev before_push : PushService.World
before_push = record { file = stored configured; remote = PushService.original }

-- The push of the sample changes the destination.
pushed :
    (push libraries push_outside tree (codes "shop") before_push).1.remote ≡ PushService.imported 2
unfolding push protected_endpoint protects requires_encrypted_transport protected_server
    endpoint_host named_accepts_push verify_named load validate validate_local_target
    validate_local_targets validate_profiles validate_profile validate_plain_text
    validate_credential_scope validate_mysql_series validate_tls_material validate_target
    validate_docker_context text_eq bytes trim trim_start trim_end split is_control is_whitespace
    get contains_key scope_eq Tls.is_empty verifies_certificate_authority ClientCatalog.validate
    resolve mysql_8_0_46 mysql_8_4_4 text_before utf8 LocalTargetGate.verify_loaded selected
    local_target_named decimal contains starts_with to_ascii_lowercase series_text
    versions_are_restore_compatible same_series dump_id_from_str parse_metadata from_wire sort_by
    validate_profile_name validate_database_name eq_ignore_ascii_case
pushed = refl

abbrev pull_outside : PullService.Outside
pull_outside = record {
  now_unix_seconds = some 50;
  create = λ database. none;
  select_target = λ choices. some (codes "mysql");
  select_database = λ database. some (codes "shop");
  gate = local_outside;
}

abbrev pulled : PullReady
pulled = record { cache = reused 30; restored = restored_ready }

pulls :
    pull libraries pull_outside answers tree (stored configured) (codes "shop") false start
    ≡ (ok pulled, finish)
unfolding pull verify_named load validate validate_local_target validate_local_targets
    validate_profiles validate_profile validate_plain_text validate_credential_scope
    validate_mysql_series validate_tls_material validate_target validate_docker_context text_eq
    bytes trim trim_start trim_end split is_control is_whitespace get contains_key scope_eq
    Tls.is_empty verifies_certificate_authority ClientCatalog.validate resolve mysql_8_0_46
    mysql_8_4_4 text_before utf8 LocalTargetGate.verify_loaded selected local_target_named decimal
    contains starts_with to_ascii_lowercase series_text versions_are_restore_compatible same_series
    dump_id_from_str parse_metadata from_wire sort_by validate_profile_name validate_database_name
    eq_ignore_ascii_case
pulls = refl

pull_transfer :
    IsPulled libraries pull_outside tree (stored configured) (codes "shop") false pulled finish
pull_transfer =
    pull-IsPulled libraries pull_outside tree (stored configured) (codes "shop") false answers start
      finish pulled pulls

abbrev no_objects : DatabaseObjectCounts
no_objects = record { views = 0; triggers = 0; routines = 0; events = 0 }

abbrev to_json : DumpArtifactMetadata → List ℕ
to_json metadata = 123 ∷ []

abbrev dump_outside : DumpService.Outside
dump_outside = record {
  cleanup_now = some 100000;
  credentials = λ key. ok (codes "pw");
  lock = ok tt;
  assess = λ source database. some (record {
    preflight = record {
      encoding = record { charset = codes "utf8mb4"; collation = codes "utf8mb4_bin" };
      estimated_data_bytes = 2;
      engines = [];
      objects = no_objects;
      definers = no_objects;
      gtid_mode = off;
    };
    plan = record { policy_version = 2; arguments = []; notices = [] };
    server = server;
  });
  created_at = some 10;
  begin = began 9;
  execute = λ source plan. some (record {
    input_bytes = 2;
    compressed_bytes = 3;
    input_sha256 = digest;
    compressed_sha256 = digest;
  });
  dump = contents (40 ∷ 41 ∷ 42 ∷ []);
  completed_at = some 20;
  files = record { fault = sync_parent; is_removed = true; modified = 20 };
}

Keeps-example :
    Keeps libraries to_json dump_outside
      (codes "shop")
      (some (codes "sandbox"))
      (some (codes "shop"))
      (stored configured)
      tree
      (create libraries to_json dump_outside (codes "shop") tree (stored configured)).1
Keeps-example =
    create-Keeps libraries to_json dump_outside (codes "shop") (some (codes "sandbox"))
      (some (codes "shop")) (stored configured) tree

-- The sync behind the rename fails, and the new dump stands there nevertheless.
late_sync :
    (create libraries to_json dump_outside (codes "shop") tree (stored configured)).0
    ≡ err (DumpService.artifact_error Server.io)
unfolding create requires_encrypted_transport verify_named load validate validate_local_target
    validate_local_targets validate_profiles validate_profile validate_plain_text
    validate_credential_scope validate_mysql_series validate_tls_material validate_target
    validate_docker_context text_eq bytes trim trim_start trim_end split is_control is_whitespace
    get contains_key scope_eq Tls.is_empty verifies_certificate_authority ClientCatalog.validate
    resolve mysql_8_0_46 mysql_8_4_4 text_before utf8 LocalTargetGate.verify_loaded selected
    local_target_named decimal contains starts_with to_ascii_lowercase series_text
    versions_are_restore_compatible same_series dump_id_from_str parse_metadata from_wire sort_by
    validate_profile_name validate_database_name eq_ignore_ascii_case sweep_named split_once_text
    strip_suffix
late_sync = refl
