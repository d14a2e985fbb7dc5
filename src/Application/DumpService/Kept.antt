-- ===== src/Application/DumpService/Kept.antt =====
-- What a new dump does to the cache.
use mathlib.Core.Path.{subst}
use reprodb.Common.{
  ℕ, ◌≤◌, ◌≡◌, ◌⊎◌, refl, inl, inr, true, false, not, ◌&&◌, Option, none, some, List, [], Result,
  ok, err, arith, map_err, ok_or, >>=-elim, guard-elim, map_err-eq-ok, ok_or-eq-ok,
}
use reprodb.Common.Maps.{get}
use reprodb.Domain.Tls.{requires_encrypted_transport, is_none}
use reprodb.Infrastructure.ClientCatalog
use reprodb.Infrastructure.Config.{AppConfig}
use reprodb.Common.Text.{Text, text_ord}
use reprodb.Domain.Names.{DatabaseName}
use reprodb.Domain.Prune.{DumpId}
use reprodb.Domain.Artifact.{DumpArtifactMetadata, DumpMetadataError, mysql_sql_zstd_v1, try_new}
use reprodb.Infrastructure.Config.Fingerprint.{source_profile_fingerprint}
use reprodb.Infrastructure.CacheTree.{Libraries, CacheTree, Node, Artifact, FileState, absent}
use reprodb.Infrastructure.ArtifactStage.{CompressionMetrics, dropped}
use reprodb.Infrastructure.ArtifactStage.Atomic.{IsWhole, dropped_none, publish-IsWhole}
use reprodb.Infrastructure.CacheCleanup.{Swept, sweep, defaults_at}
use reprodb.Infrastructure.CacheCleanup.Complete.{Stored, complete_dumps, complete_entry, flat_map}
use reprodb.Infrastructure.CacheCleanup.Sweep.{complete_dumps-sweep}
use reprodb.Infrastructure.Config.Repository.{ConfigFile, load}
use reprodb.Application.DumpService.{
  Outside, Begun, began, not_begun, Assessed, assess, Left, stage_of, metadata_of, publish_on,
  completed_on, executed_on, begun_on, assessed_on, swept_on, create_at, create, DumpServiceError,
  DumpSource, config_error, no_active_profile, docker_context_missing, client_catalog_error,
  credential_error, lock_error, preflight_error, clock_error,
}

module _ (outside : Outside) (database : DatabaseName) where
  -- What a run has established before it makes the stage.
  pub record IsAssessed (file : ConfigFile) (a : Assessed) : Type 0 where
    pub config : AppConfig
    pub loads : load file ≡ ok config
    pub active : config.active_profile ≡ some a.source.profile_name
    pub found : get a.source.profile_name config.profiles ≡ some a.source.profile
    pub context : config.docker_context ≡ some a.source.docker_context
    pub pinned :
        ClientCatalog.validate a.source.profile.mysql_series a.source.profile.image
        ≡ ok a.source.client
    pub password : outside.credentials a.source.profile.credential_key ≡ ok a.source.password
    pub locked : outside.lock ≡ ok tt
    pub approved : outside.assess a.source database ≡ some a.approved
    pub encrypted :
        requires_encrypted_transport a.source.profile.tls_mode ≡ true
        → is_none a.approved.server.tls_cipher ≡ false
    pub created_at : outside.created_at ≡ some a.created_at_unix_seconds

  assess-IsAssessed :
      (file : ConfigFile) (a : Assessed) → assess outside file database ≡ ok a → IsAssessed file a
  unfolding assess
  assess-IsAssessed file a h = >>=-elim (map_err config_error (load file)) _ h λ config e₁ h₁.
      >>=-elim (ok_or no_active_profile config.active_profile) _ h₁ λ name e₂ h₂.
        >>=-elim (ok_or no_active_profile (get name config.profiles)) _ h₂ λ profile e₃ h₃.
          >>=-elim (ok_or docker_context_missing config.docker_context) _ h₃ λ context e₄ h₄.
            >>=-elim
              (map_err client_catalog_error
                (ClientCatalog.validate profile.mysql_series profile.image))
              _ h₄
              λ client e₅ h₅.
                >>=-elim (map_err credential_error (outside.credentials profile.credential_key)) _
                  h₅
                  λ password e₆ h₆. >>=-elim (map_err lock_error outside.lock) _ h₆ λ u e₇ h₇.
                    let source : DumpSource = record {
                      profile_name = name;
                      docker_context = context;
                      profile = profile;
                      password = password;
                      client = client;
                    } in
                    >>=-elim (ok_or preflight_error (outside.assess source database)) _ h₇
                      λ approved e₈ h₈.
                        guard-elim
                          (not (
                            requires_encrypted_transport profile.tls_mode
                            && is_none approved.server.tls_cipher))
                          _ _ h₈
                          λ e₉ h₉.
                            >>=-elim (ok_or clock_error outside.created_at) _ h₉ λ created e₁₀ h₁₀.
                              subst (IsAssessed file)
                                {x = record {
                                  source = source;
                                  approved = approved;
                                  created_at_unix_seconds = created;
                                }}
                                {y = a} (cc)
                                (record {
                                  config = config;
                                  loads = map_err-eq-ok config_error _ e₁;
                                  active = ok_or-eq-ok no_active_profile _ e₂;
                                  found = ok_or-eq-ok no_active_profile _ e₃;
                                  context = ok_or-eq-ok docker_context_missing _ e₄;
                                  pinned = map_err-eq-ok client_catalog_error _ e₅;
                                  password = map_err-eq-ok credential_error _ e₆;
                                  locked = map_err-eq-ok lock_error _ e₇;
                                  approved = ok_or-eq-ok preflight_error _ e₈;
                                  encrypted = λ r. ground arith;
                                  created_at = ok_or-eq-ok clock_error _ e₁₀;
                                })

module _ (lib : Libraries) (to_json : DumpArtifactMetadata → List ℕ) (outside : Outside)
    (database : DatabaseName) (profile_dir database_dir : Option Text) where
  -- The metadata that a run describes its dump with.
  abbrev pub described : DumpId → Assessed → CompressionMetrics → ℕ → DumpArtifactMetadata
  described dump_id a metrics completed_at = record {
    format = mysql_sql_zstd_v1;
    dump_id = dump_id;
    database = database;
    profile = a.source.profile_name;
    source_fingerprint =
        source_profile_fingerprint lib.sha256 a.source.profile_name a.source.profile;
    source_server_uuid = a.approved.server.server_uuid;
    source_version = a.approved.server.version;
    client_version = a.source.client.version;
    database_charset = a.approved.preflight.encoding.charset;
    database_collation = a.approved.preflight.encoding.collation;
    policy_version = a.approved.plan.policy_version;
    created_at_unix_seconds = a.created_at_unix_seconds;
    completed_at_unix_seconds = completed_at;
    uncompressed_bytes = metrics.input_bytes;
    compressed_bytes = metrics.compressed_bytes;
    sql_sha256 = metrics.input_sha256;
    artifact_sha256 = metrics.compressed_sha256;
  }

  metadata_of-described :
      (dump_id : DumpId) (a : Assessed) (metrics : CompressionMetrics) (completed_at : ℕ)
      (metadata : DumpArtifactMetadata)
      → metadata_of lib to_json outside database dump_id a metrics completed_at ≡ ok metadata
      → (metadata ≡ described dump_id a metrics completed_at)
        × (a.created_at_unix_seconds ≤ completed_at)
  unfolding metadata_of try_new
  metadata_of-described dump_id a metrics completed_at metadata h =
      (ground (arith, h), ground (arith, h))

  -- What is added is the whole dump of the active profile, with the metadata of this run: the ID of the
  -- stage, the metrics that the execution of the approved plan on the assessed source returned, and the
  -- clock's answers before and after it.
  pub record IsAdded (a : Assessed) (added : List (Node Artifact)) : Type 0 where
    pub dump_id : DumpId
    pub metrics : CompressionMetrics
    pub completed_at : ℕ
    pub metadata : DumpArtifactMetadata
    pub begun : outside.begin ≡ began dump_id
    pub executed : outside.execute a.source a.approved.plan ≡ some metrics
    pub started : outside.created_at ≡ some a.created_at_unix_seconds
    pub completed : outside.completed_at ≡ some completed_at
    pub metadata_is : metadata ≡ described dump_id a metrics completed_at
    pub ordered : a.created_at_unix_seconds ≤ completed_at
    pub whole :
        IsWhole lib.uuid to_json profile_dir database_dir outside.files
          (stage_of lib to_json outside database dump_id a outside.dump)
          metadata
          added

  abbrev pub complete : List (Node Artifact) → List Stored
  complete = flat_map (complete_entry lib.uuid profile_dir database_dir)

  abbrev Adds : Assessed → List (Node Artifact) → Type 0
  Adds a added = (complete added ≡ []) ⊎ IsAdded a added

  module _ (a : Assessed) (started : outside.created_at ≡ some a.created_at_unix_seconds)
      (dump_id : DumpId) where
    nothing :
        (dump : FileState)
        → complete (
            dropped lib.uuid to_json outside.files
              (stage_of lib to_json outside database dump_id a dump)
              absent)
          ≡ []
    nothing dump =
        dropped_none lib.uuid to_json profile_dir database_dir outside.files
          (stage_of lib to_json outside database dump_id a dump) absent

    publish_on-Adds :
        (metrics : CompressionMetrics) (completed_at : ℕ)
        (r : Result DumpMetadataError DumpArtifactMetadata)
        → outside.begin ≡ began dump_id
        → outside.execute a.source a.approved.plan ≡ some metrics
        → outside.completed_at ≡ some completed_at
        → metadata_of lib to_json outside database dump_id a metrics completed_at ≡ r
        → Adds a (publish_on lib to_json outside database dump_id a metrics r).1
    publish_on-Adds metrics completed_at (err e) b x c h = inl (nothing outside.dump)
    publish_on-Adds metrics completed_at (ok metadata) b x c h =
        elim (publish-IsWhole lib.uuid to_json profile_dir database_dir outside.files
          (stage_of lib to_json outside database dump_id a outside.dump) metadata metrics) [
            | inl none_left ↦ inl none_left
            | inr whole ↦ inr (record {
              dump_id = dump_id;
              metrics = metrics;
              completed_at = completed_at;
              metadata = metadata;
              begun = b;
              executed = x;
              started = started;
              completed = c;
              metadata_is = (metadata_of-described dump_id a metrics completed_at metadata h).0;
              ordered = (metadata_of-described dump_id a metrics completed_at metadata h).1;
              whole = whole;
            })
          ]

    completed_on-Adds :
        (metrics : CompressionMetrics) (completed : Option ℕ)
        → outside.begin ≡ began dump_id
        → outside.execute a.source a.approved.plan ≡ some metrics
        → outside.completed_at ≡ completed
        → Adds a (completed_on lib to_json outside database dump_id a metrics completed).1
    completed_on-Adds metrics none b x c = inl (nothing outside.dump)
    completed_on-Adds metrics (some completed_at) b x c =
        publish_on-Adds metrics completed_at
          (metadata_of lib to_json outside database dump_id a metrics completed_at) b x c refl

    executed_on-Adds :
        (executed : Option CompressionMetrics)
        → outside.begin ≡ began dump_id
        → outside.execute a.source a.approved.plan ≡ executed
        → Adds a (executed_on lib to_json outside database dump_id a executed).1
    executed_on-Adds none b x = inl (nothing outside.dump)
    executed_on-Adds (some metrics) b x = completed_on-Adds metrics outside.completed_at b x refl

  begun_on-Adds :
      (a : Assessed) (begun : Begun)
      → outside.created_at ≡ some a.created_at_unix_seconds
      → outside.begin ≡ begun
      → Adds a (begun_on lib to_json outside database a begun).1
  begun_on-Adds a (not_begun e dump_id) s b = inl (nothing a s dump_id absent)
  begun_on-Adds a (began dump_id) s b =
      executed_on-Adds a s dump_id (outside.execute a.source a.approved.plan) b refl

  -- What was in the cache is kept, and what is added is nothing complete or the new dump.
  abbrev pub Keeps : ConfigFile → CacheTree → Left → Type 0
  Keeps file tree left =
      (complete_dumps lib.uuid left.tree ≡ complete_dumps lib.uuid tree)
      × ((complete left.added ≡ [])
          ⊎ ((a : Assessed) × IsAssessed outside database file a × IsAdded a left.added))

  assessed_on-Keeps :
      (file : ConfigFile) (tree swept : CacheTree) (r : Result DumpServiceError Assessed)
      → assess outside file database ≡ r
      → complete_dumps lib.uuid swept ≡ complete_dumps lib.uuid tree
      → Keeps file tree (assessed_on lib to_json outside database swept r).1
  unfolding flat_map
  assessed_on-Keeps file tree swept (err e) h k = (k, inl refl)
  assessed_on-Keeps file tree swept (ok a) h k =
      elim (begun_on-Adds a outside.begin (assess-IsAssessed outside database file a h).created_at
        refl) [
          | inl nothing ↦ (k, inl nothing)
          | inr added ↦ (k, inr (a, assess-IsAssessed outside database file a h, added))
        ]

  swept_on-Keeps :
      (file : ConfigFile) (tree : CacheTree) (s : Swept CacheTree)
      → complete_dumps lib.uuid s.1 ≡ complete_dumps lib.uuid tree
      → Keeps file tree (swept_on lib to_json outside database file s).1
  unfolding flat_map
  swept_on-Keeps file tree (err e, swept) k = (k, inl refl)
  swept_on-Keeps file tree (ok report, swept) k =
      assessed_on-Keeps file tree swept (assess outside file database) refl k

  create_at-Keeps :
      (file : ConfigFile) (tree : CacheTree) (clock : Option ℕ)
      → Keeps file tree (create_at lib to_json outside database tree file clock).1
  unfolding flat_map
  create_at-Keeps file tree none = (refl, inl refl)
  create_at-Keeps file tree (some now) =
      swept_on-Keeps file tree (sweep lib.uuid (defaults_at now) tree)
        (complete_dumps-sweep lib.uuid (defaults_at now) tree)

  -- Making a dump, whether it succeeds or fails, keeps every complete dump of the cache; what it adds
  -- is no complete dump, or the whole new dump of the active profile, under the ID of the stage and with
  -- the metadata of this run: the metrics that the execution returned and the clock's two answers.
  pub create-Keeps :
      (file : ConfigFile) (tree : CacheTree)
      → Keeps file tree (create lib to_json outside database tree file).1
  unfolding create
  create-Keeps file tree = create_at-Keeps file tree outside.cleanup_now
