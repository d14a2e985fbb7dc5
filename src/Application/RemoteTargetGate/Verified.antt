-- ===== src/Application/RemoteTargetGate/Verified.antt =====
-- What a destination that the gate let pass is: nothing that it protects is written to.
use mathlib.Core.Path.{subst}
use reprodb.Infrastructure.Config.Repository.{ConfigFile, load}
use reprodb.Common.{
  ◌≡◌, refl, sym, inl, inr, Bool, true, false, not, ◌&&◌, ◌||◌, Option, none, some, List, [], ◌∷◌,
  find, All, arith, Result, ok, map_err, ok_or, Bool-cases, >>=-elim, guard-elim, ok_or-eq-ok,
  map_err-eq-ok,
}
use reprodb.Common.Text.{codes, text_eq, text_ord, text_eq_iff, contains, to_ascii_lowercase}
use reprodb.Common.Maps.{get}
use reprodb.Domain.Names.{ProfileName}
use reprodb.Domain.Tls.{requires_encrypted_transport, is_none}
use reprodb.Domain.Version.{series_text}
use reprodb.Domain.Artifact.{MysqlServerUuid, DumpArtifactMetadata}
use reprodb.Infrastructure.ClientCatalog
use reprodb.Infrastructure.ClientCatalog.{IsApproved, validate-IsApproved}
use reprodb.Infrastructure.Config.{AppConfig, SourceProfileConfig}
use reprodb.Infrastructure.Server.{MysqlServerInfo}
use reprodb.Application.RemoteTargetGate.{
  RemoteTargetGateError, GuardedRemoteTarget, Outside, verify, verify_loaded, config_error,
  protected_endpoint, protected_server, profile_accepts_push, endpoint_host, named_accepts_push,
  protects, refuse, profile_not_found, protected_endpoint_error, protected_server_error,
  docker_context_missing, client_catalog_error, credential_error, probe_error, store_error,
}

-- Another profile for the same endpoint accepts pushes.
abbrev pub SharesOnly :
    ProfileName → SourceProfileConfig → ProfileName × SourceProfileConfig → Type 0
SharesOnly name profile (other, candidate) =
    text_eq other name ≡ false
    → candidate.port ≡ profile.port
    → endpoint_host candidate.host ≡ endpoint_host profile.host
    → profile_accepts_push candidate ≡ true

-- A readable cached dump of the server came from a profile that accepts pushes.
abbrev pub CameFrom : AppConfig → MysqlServerUuid → Option DumpArtifactMetadata → Type 0
CameFrom config server_uuid none = Unit
CameFrom config server_uuid (some metadata) =
    metadata.source_server_uuid ≡ server_uuid → named_accepts_push config metadata.profile ≡ true

protects-SharesOnly :
    (name : ProfileName) (profile : SourceProfileConfig) (entry : ProfileName × SourceProfileConfig)
    → protects name profile entry ≡ false
    → SharesOnly name profile entry
unfolding protects
protects-SharesOnly name profile (other, candidate) h n p e =
    elim (Bool-cases (profile_accepts_push candidate)) [
      | inl e₁ ↦ e₁
      | inr e₁ ↦
          let same =
            (text_eq_iff (endpoint_host candidate.host) (endpoint_host profile.host)).1 e in
          ground arith
    ]

find-SharesOnly :
    (name : ProfileName) (profile : SourceProfileConfig)
    (entries : List (ProfileName × SourceProfileConfig))
    → find (protects name profile) entries ≡ none
    → All (SharesOnly name profile) entries
find-SharesOnly name profile [] h = tt
find-SharesOnly name profile (entry ∷ entries) h = elim (Bool-cases (protects name profile entry)) [
  | inl e ↦ absurd (ground arith)
  | inr e ↦ (
    protects-SharesOnly name profile entry e,
    find-SharesOnly name profile entries (ground arith),
  )
]

protected_endpoint-none :
    (config : AppConfig) (name : ProfileName) (profile : SourceProfileConfig)
    → protected_endpoint config name profile ≡ none
    → All (SharesOnly name profile) config.profiles
unfolding protected_endpoint
protected_endpoint-none config name profile h =
    find-SharesOnly name profile config.profiles (ground arith)

protected_server-none :
    (config : AppConfig) (server_uuid : MysqlServerUuid)
    (candidates : List (Option DumpArtifactMetadata))
    → protected_server config server_uuid candidates ≡ none
    → All (CameFrom config server_uuid) candidates
unfolding protected_server
protected_server-none config server_uuid [] h = tt
protected_server-none config server_uuid (none ∷ rest) h =
    (tt, protected_server-none config server_uuid rest h)
protected_server-none config server_uuid (some metadata ∷ rest) h = (
  λ e. let same = (text_eq_iff metadata.source_server_uuid server_uuid).1 e in ground arith,
  protected_server-none config server_uuid rest (ground arith),
)

refuse-ok :
    (e : ProfileName → RemoteTargetGateError) (o : Option ProfileName) {u : Unit {0}}
    → refuse e o ≡ ok u
    → o ≡ none
refuse-ok e none h = refl
refuse-ok e (some p) h = absurd (cc)

abbrev accepted : GuardedRemoteTarget → Result RemoteTargetGateError GuardedRemoteTarget
accepted a = ok a

ok-eq : {a b : GuardedRemoteTarget} → accepted a ≡ accepted b → a ≡ b
ok-eq h = cc

-- A destination that may be written to, with its profile, the answer of its server to the probe that
-- uses the target's own context, password and client, and the cached dumps.
pub record IsGuarded (outside : Outside) (config : AppConfig) (name : ProfileName)
    (consented : Bool) (target : GuardedRemoteTarget) (profile : SourceProfileConfig)
    (server : MysqlServerInfo) (candidates : List (Option DumpArtifactMetadata)) : Type 0 where
  pub found : get name config.profiles ≡ some profile
  pub not_production : profile.production ≡ false
  pub allowed : (profile.push_destination || consented) ≡ true
  pub endpoint : All (SharesOnly name profile) config.profiles
  pub same_endpoint : (target.host ≡ profile.host) × (target.port ≡ profile.port)
  pub named : target.profile ≡ name
  pub same_account :
      (target.username ≡ profile.username)
      × (target.tls_mode ≡ profile.tls_mode)
      × (target.tls_material ≡ profile.tls_material)
  pub context : config.docker_context ≡ some target.docker_context
  pub password : outside.credentials profile.credential_key ≡ ok target.password
  pub pinned : ClientCatalog.validate profile.mysql_series profile.image ≡ ok target.client
  pub probed :
      outside.probe (record {
        docker_context = target.docker_context;
        profile = profile;
        password = target.password;
        client = target.client;
      })
      ≡ ok server
  pub vendor : contains (to_ascii_lowercase server.vendor) (codes "mariadb") ≡ false
  pub scanned : outside.candidates ≡ ok candidates
  pub same_server :
      (target.server_uuid ≡ server.server_uuid) × (target.server_version ≡ server.version)
  pub encrypted :
      requires_encrypted_transport profile.tls_mode ≡ true → is_none server.tls_cipher ≡ false
  pub client : IsApproved target.client
  pub series : target.client.series ≡ series_text target.server_version
  pub cache : All (CameFrom config target.server_uuid) candidates

-- What the gate returns is guarded.
verify_loaded-IsGuarded :
    (outside : Outside) (name : ProfileName) (consented : Bool) (config : AppConfig)
    (target : GuardedRemoteTarget)
    → verify_loaded outside name consented config ≡ ok target
    → (profile : SourceProfileConfig) × (server : MysqlServerInfo) × (candidates : List
        (Option DumpArtifactMetadata))
      × IsGuarded outside config name consented target profile server candidates
unfolding verify_loaded
verify_loaded-IsGuarded outside name consented config target h =
    >>=-elim (ok_or profile_not_found (get name config.profiles)) _ h λ profile e₁ h₁.
      guard-elim (not profile.production) _ _ h₁ λ e₂ h₂.
        guard-elim (profile.push_destination || consented) _ _ h₂ λ e₃ h₃.
          >>=-elim (refuse protected_endpoint_error (protected_endpoint config name profile)) _ h₃
            λ u e₄ h₄.
              >>=-elim (ok_or docker_context_missing config.docker_context) _ h₄ λ context e₅ h₅.
                >>=-elim
                  (map_err client_catalog_error
                    (ClientCatalog.validate profile.mysql_series profile.image))
                  _ h₅
                  λ client e₆ h₆.
                    >>=-elim (map_err credential_error (outside.credentials profile.credential_key))
                      _ h₆
                      λ password e₇ h₇.
                        >>=-elim
                          (map_err probe_error (
                            outside.probe (record {
                              docker_context = context;
                              profile = profile;
                              password = password;
                              client = client;
                            })))
                          _ h₇
                          λ server e₈ h₈.
                            guard-elim
                              (not (
                                requires_encrypted_transport profile.tls_mode
                                && is_none server.tls_cipher))
                              _ _ h₈
                              λ e₉ h₉.
                                guard-elim
                                  (not
                                    (contains (to_ascii_lowercase server.vendor) (codes "mariadb")))
                                  _ _ h₉
                                  λ e₁₀ h₁₀.
                                    guard-elim (text_eq (series_text server.version) client.series)
                                      _ _ h₁₀
                                      λ e₁₁ h₁₁.
                                        >>=-elim (map_err store_error outside.candidates) _ h₁₁
                                          λ candidates e₁₂ h₁₂.
                                            >>=-elim
                                              (refuse protected_server_error (
                                                protected_server config server.server_uuid
                                                  candidates))
                                              _ h₁₂
                                              λ v e₁₃ h₁₃.
                                                let checked =
                                                  ClientCatalog.validate-IsApproved
                                                    profile.mysql_series profile.image client
                                                    (map_err-eq-ok client_catalog_error _ e₆) in
                                                (
                                                  profile,
                                                  server,
                                                  candidates,
                                                  subst
                                                      (λ t.
                                                        IsGuarded outside config name consented t
                                                          profile server candidates)
                                                      (ok-eq h₁₃)
                                                      (record {
                                                        found = ok_or-eq-ok profile_not_found _ e₁;
                                                        not_production = ground arith;
                                                        allowed = e₃;
                                                        endpoint =
                                                            protected_endpoint-none config name
                                                            profile
                                                            (refuse-ok protected_endpoint_error _
                                                            e₄);
                                                        same_endpoint = (refl, refl);
                                                        named = refl;
                                                        same_account = (refl, refl, refl);
                                                        context =
                                                            ok_or-eq-ok docker_context_missing _ e₅;
                                                        password =
                                                            map_err-eq-ok credential_error _ e₇;
                                                        pinned =
                                                            map_err-eq-ok client_catalog_error _ e₆;
                                                        probed = map_err-eq-ok probe_error _ e₈;
                                                        vendor = ground arith;
                                                        scanned =
                                                            map_err-eq-ok store_error
                                                            outside.candidates e₁₂;
                                                        same_server = (refl, refl);
                                                        encrypted = λ e. ground arith;
                                                        client = checked.0;
                                                        series = sym (
                                                            (text_eq_iff
                                                            (series_text server.version)
                                                            client.series).0
                                                            e₁₁);
                                                        cache =
                                                            protected_server-none config
                                                            server.server_uuid candidates
                                                            (refuse-ok protected_server_error _
                                                            e₁₃);
                                                      }),
                                                )

-- The file holds a configuration of which the target is guarded, by what was asked outside.
abbrev pub IsVerified : Outside → ProfileName → Bool → ConfigFile → GuardedRemoteTarget → Type 0
IsVerified outside name consented file target =
    (config : AppConfig) × (load file ≡ ok config)
    × (profile : SourceProfileConfig) × (server : MysqlServerInfo) × (candidates : List
        (Option DumpArtifactMetadata))
    × IsGuarded outside config name consented target profile server candidates

-- A destination that `verify` returns belongs to a profile of the configuration that is not
-- production and accepts pushes or was consented to; no other profile that refuses pushes has its
-- port and host; no readable cached dump of its server came from a profile that refuses pushes. The
-- probe of that profile, with the target's context, stored password and pinned client, was answered by
-- the server: over an encrypted transport where the profile asks for one, by no MariaDB, and of the
-- client's series.
pub verify-IsVerified :
    (outside : Outside) (name : ProfileName) (consented : Bool) (file : ConfigFile)
    (target : GuardedRemoteTarget)
    → verify outside name consented file ≡ ok target
    → IsVerified outside name consented file target
unfolding verify
verify-IsVerified outside name consented file target h =
    >>=-elim (map_err config_error (load file)) _ h λ config e h₁.
      let (profile, server, candidates, guarded) =
        verify_loaded-IsGuarded outside name consented config target h₁ in
      (config, map_err-eq-ok config_error (load file) e, profile, server, candidates, guarded)
