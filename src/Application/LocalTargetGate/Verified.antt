-- ===== src/Application/LocalTargetGate/Verified.antt =====
-- What a local target that the gate let pass is.
use mathlib.Core.Path.{subst}
use reprodb.Common.{
  ◌≡◌, refl, sym, ap, ◌∙◌, true, not, ◌&&◌, Option, some, arith, Result, ok, map_err, ok_or,
  >>=-elim, guard-elim, ok_or-eq-ok, map_err-eq-ok, &&-true,
}
use reprodb.Common.Text.{codes, text_eq, text_eq_iff, contains, to_ascii_lowercase}
use reprodb.Domain.Names.{ContainerName}
use reprodb.Domain.Version.{series_text}
use reprodb.Infrastructure.Config.{AppConfig, LocalTargetConfig}
use reprodb.Infrastructure.Config.Repository.{ConfigFile, load}
use reprodb.Application.LocalTargetGate.{
  Outside, GuardedLocalTarget, LocalTargetAttestation, LocalTargetGateError, verify_loaded,
  verify_named, selected, is_managed, runtime_context_missing, credential_error, attestation_error,
  config_error,
}

-- The configured target, and the container that the attestor, asked about that target with its stored
-- password, saw under its identity.
pub record IsGuarded (outside : Outside) (config : AppConfig) (target_name : Option ContainerName)
    (target : GuardedLocalTarget) (configured : LocalTargetConfig)
    (attested : LocalTargetAttestation) : Type 0 where
  pub selected : selected config target_name ≡ ok configured
  pub runtime : config.docker_context ≡ some configured.docker_context
  pub password : outside.credentials configured.credential_key ≡ ok target.password
  pub answered : outside.attest configured target.password ≡ ok attested
  pub vendor : contains (to_ascii_lowercase attested.vendor) (codes "mysql") ≡ true
  pub context : attested.docker_context ≡ configured.docker_context
  pub container_id : attested.container_id ≡ configured.container_id
  pub container_name : attested.container_name ≡ configured.container_name
  pub managed : is_managed configured.trust ≡ true → attested.managed_by_reprodb ≡ true
  pub series : attested.client.series ≡ series_text attested.server_version
  pub same_container :
      (target.docker_context ≡ configured.docker_context)
      × (target.container_id ≡ configured.container_id)
      × (target.container_name ≡ configured.container_name)
      × (target.username ≡ configured.username)
  pub same_server :
      (target.server_uuid ≡ attested.server_uuid)
      × (target.server_version ≡ attested.server_version)
      × (target.vendor ≡ attested.vendor)
      × (target.client ≡ attested.client)

abbrev accepted : GuardedLocalTarget → Result LocalTargetGateError GuardedLocalTarget
accepted a = ok a

ok-eq : {a b : GuardedLocalTarget} → accepted a ≡ accepted b → a ≡ b
ok-eq h = cc

verify_loaded-IsGuarded :
    (outside : Outside) (target_name : Option ContainerName) (config : AppConfig)
    (target : GuardedLocalTarget)
    → verify_loaded outside target_name config ≡ ok target
    → (configured : LocalTargetConfig) × (attested : LocalTargetAttestation) × IsGuarded outside
        config target_name target configured attested
unfolding verify_loaded
verify_loaded-IsGuarded outside target_name config target h =
    >>=-elim (selected config target_name) _ h λ configured e₁ h₁.
      >>=-elim (ok_or runtime_context_missing config.docker_context) _ h₁ λ context e₂ h₂.
        guard-elim (text_eq context configured.docker_context) _ _ h₂ λ e₃ h₃.
          >>=-elim (map_err credential_error (outside.credentials configured.credential_key)) _ h₃
            λ password e₄ h₄.
              >>=-elim (map_err attestation_error (outside.attest configured password)) _ h₄
                λ attested e₅ h₅.
                  guard-elim (text_eq attested.docker_context configured.docker_context) _ _ h₅
                    λ e₆ h₆.
                      guard-elim
                        (text_eq attested.container_id configured.container_id
                          && text_eq attested.container_name configured.container_name)
                        _ _ h₆
                        λ e₇ h₇.
                          guard-elim
                            (not (is_managed configured.trust && not attested.managed_by_reprodb)) _
                            _ h₇
                            λ e₈ h₈.
                              guard-elim
                                (contains (to_ascii_lowercase attested.vendor) (codes "mysql")) _ _
                                h₈
                                λ e₉ h₉.
                                  guard-elim
                                    (text_eq (series_text attested.server_version)
                                      attested.client.series)
                                    _ _ h₉
                                    λ e₁₀ h₁₀.
                                      let same = &&-true _ _ e₇ in
                                      (
                                        configured,
                                        attested,
                                        subst
                                            (λ t.
                                              IsGuarded outside config target_name t configured
                                                attested)
                                            (ok-eq h₁₀)
                                            (record {
                                              selected = e₁;
                                              runtime =
                                                  ok_or-eq-ok runtime_context_missing _ e₂
                                                  ∙ ap (λ x. some x)
                                                      ((text_eq_iff context
                                                          configured.docker_context).0
                                                        e₃);
                                              password = map_err-eq-ok credential_error _ e₄;
                                              answered = map_err-eq-ok attestation_error _ e₅;
                                              vendor = e₉;
                                              context =
                                                  (text_eq_iff attested.docker_context
                                                      configured.docker_context).0
                                                    e₆;
                                              container_id =
                                                  (text_eq_iff attested.container_id
                                                      configured.container_id).0
                                                    same.0;
                                              container_name =
                                                  (text_eq_iff attested.container_name
                                                      configured.container_name).0
                                                    same.1;
                                              managed = λ e. ground arith;
                                              series = sym (
                                                  (text_eq_iff (series_text attested.server_version)
                                                      attested.client.series).0
                                                    e₁₀);
                                              same_container = (refl, refl, refl, refl);
                                              same_server = (refl, refl, refl, refl);
                                            }),
                                      )

-- The file holds a configuration of which the target is guarded, by what the attestor saw.
abbrev pub IsVerified : Outside → Option ContainerName → ConfigFile → GuardedLocalTarget → Type 0
IsVerified outside target_name file target =
    (config : AppConfig) × (load file ≡ ok config)
    × (configured : LocalTargetConfig) × (attested : LocalTargetAttestation) × IsGuarded outside
        config target_name target configured attested

-- A target that `verify_named` returns is the configured one: the runtime's Docker context is the
-- target's, and the attestor, asked about that target with its stored password, saw a container of its
-- context, ID and name, with the mark of reprodb if the target is managed, and a MySQL server of the
-- client's series.
pub verify_named-IsVerified :
    (outside : Outside) (target_name : Option ContainerName) (file : ConfigFile)
    (target : GuardedLocalTarget)
    → verify_named outside target_name file ≡ ok target
    → IsVerified outside target_name file target
unfolding verify_named
verify_named-IsVerified outside target_name file target h =
    >>=-elim (map_err config_error (load file)) _ h λ config e h₁.
      let (configured, attested, guarded) =
        verify_loaded-IsGuarded outside target_name config target h₁ in
      (config, map_err-eq-ok config_error (load file) e, configured, attested, guarded)
