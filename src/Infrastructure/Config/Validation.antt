-- ===== src/Infrastructure/Config/Validation.antt =====
-- What a configuration that validates guarantees to the services that load it.
use reprodb.Common.{
  ◌≤◌, ◌≡◌, refl, inl, inr, true, false, some, List, [], ◌∷◌, arith, Result, ok, err, Bool-cases,
  Option-cases,
}
use reprodb.Common.Text.{text_eq, text_ord}
use reprodb.Common.Maps.{get, contains_key-get}
use reprodb.Domain.Names.{ProfileName}
use reprodb.Domain.Tls.{verify_identity}
use reprodb.Domain.CredentialKey.{CredentialScope}
use reprodb.Infrastructure.ClientCatalog
use reprodb.Infrastructure.ClientCatalog.{ApprovedMysqlClient}
use reprodb.Infrastructure.Config.{
  AppConfig, SourceProfileConfig, validate, validate_profile, validate_profiles,
  validate_credential_scope, catalog_result,
}

-- A profile that validates: it reaches a port with a source credential and an approved client, and a
-- production profile verifies the server's identity and accepts no push.
pub record IsProfile (p : SourceProfileConfig) : Type 0 where
  pub port : 1 ≤ p.port
  pub scope : p.credential_key.scope ≡ CredentialScope.source
  pub no_push : p.production ≡ true → p.push_destination ≡ false
  pub identity : p.production ≡ true → p.tls_mode ≡ verify_identity
  pub client : (c : ApprovedMysqlClient) × (ClientCatalog.validate p.mysql_series p.image ≡ ok c)

catalog_result-ok :
    (r : Result ClientCatalog.ClientCatalogError ApprovedMysqlClient)
    → catalog_result r ≡ ok tt
    → (c : ApprovedMysqlClient) × (r ≡ ok c)
catalog_result-ok (ok c) h = (c, refl)
catalog_result-ok (err e) h = absurd (cc)

pub validate_profile-IsProfile :
    (p : SourceProfileConfig) → validate_profile p ≡ ok tt → IsProfile p
unfolding validate_profile validate_credential_scope
validate_profile-IsProfile p h = record {
  port = ground arith;
  scope = ground arith;
  no_push = λ e. ground arith;
  identity = λ e. ground arith;
  client = catalog_result-ok (ClientCatalog.validate p.mysql_series p.image) (ground arith);
}

validate_profiles-get :
    (m : List (ProfileName × SourceProfileConfig)) (name : ProfileName) (p : SourceProfileConfig)
    → validate_profiles m ≡ ok tt
    → get name m ≡ some p
    → IsProfile p
unfolding validate_profiles get
validate_profiles-get [] name p h g = cc
validate_profiles-get ((j, q) ∷ m) name p h g = elim (Bool-cases (text_eq j name)) [
  | inl e ↦ validate_profile-IsProfile p (ground arith)
  | inr e ↦ validate_profiles-get m name p (ground arith) (ground arith)
]

-- Every profile of a configuration that validates has a port, a source credential and an approved
-- client; a production profile verifies the server's identity and accepts no push.
pub validate-get :
    (config : AppConfig) (name : ProfileName) (p : SourceProfileConfig)
    → validate config ≡ ok tt
    → get name config.profiles ≡ some p
    → IsProfile p
unfolding validate
validate-get config name p h g = validate_profiles-get config.profiles name p (ground arith) g

-- The active profile of a configuration that validates is there.
pub validate-active :
    (config : AppConfig) (name : ProfileName)
    → validate config ≡ ok tt
    → config.active_profile ≡ some name
    → (p : SourceProfileConfig) × (get name config.profiles ≡ some p)
unfolding validate
validate-active config name h e = elim (Option-cases (get name config.profiles)) [
  | inl missing ↦ absurd (ground (arith, contains_key-get name config.profiles))
  | inr found ↦ found
]
