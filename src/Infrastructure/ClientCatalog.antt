-- ===== src/Infrastructure/ClientCatalog.antt =====
-- infrastructure/mysql/client_catalog.rs: the MySQL clients that the program may run.
use mathlib.Core.Path.{subst}
use reprodb.Common.{
  ◌≡◌, refl, Bool, true, false, List, [], ◌∷◌, ◌++◌, find, Result, ok, ◌>>=◌, ◌>>◌, guard, ok_or,
  ◌⊎◌, inl, inr, sym, ap, ◌∙◌, some, none, Bool-cases, >>=-elim, guard-ok,
}
use reprodb.Common.Text.{Text, codes, text_eq, text_eq_iff}
use reprodb.Common.Decimal.{decimal}
use reprodb.Domain.Version.{MysqlVersion, series_text}

pub data ClientCatalogError : Type 0 where
  unsupported_series unapproved_image : ClientCatalogError

pub record ApprovedMysqlClient : Type 0 where
  pub series : Text
  pub version : MysqlVersion
  pub image : Text
  pub repository_digest : Text
  pub supports_no_login_paths : Bool

unfoldable pub mysql_8_0_46 : ApprovedMysqlClient
mysql_8_0_46 = record {
  series = codes "8.0";
  version = record { major = 8; minor = 0; patch = 46 };
  image =
      codes "mysql:8.0.46@sha256:"
      ++ codes "7dcddc01f13bab2f15cde676d44d01f61fc9f99fe7785e86196dfc07d358ae2b";
  repository_digest =
      codes "mysql@sha256:"
      ++ codes "7dcddc01f13bab2f15cde676d44d01f61fc9f99fe7785e86196dfc07d358ae2b";
  supports_no_login_paths = false;
}

unfoldable pub mysql_8_4_4 : ApprovedMysqlClient
mysql_8_4_4 = record {
  series = codes "8.4";
  version = record { major = 8; minor = 4; patch = 4 };
  image =
      codes "mysql:8.4.4@sha256:"
      ++ codes "1d967fb75a64dc3c2894c69285becfc2304ae0c3c4f4c715c297f3c12d60b01c";
  repository_digest =
      codes "mysql@sha256:"
      ++ codes "1d967fb75a64dc3c2894c69285becfc2304ae0c3c4f4c715c297f3c12d60b01c";
  supports_no_login_paths = true;
}

abbrev pub approved_clients : List ApprovedMysqlClient
approved_clients = mysql_8_0_46 ∷ mysql_8_4_4 ∷ []

unfoldable pub resolve : Text → Result ClientCatalogError ApprovedMysqlClient
resolve series =
    ok_or unsupported_series (find (λ client. text_eq client.series series) approved_clients)

unfoldable pub validate : Text → Text → Result ClientCatalogError ApprovedMysqlClient
unfolding resolve
validate series configured_image = do
  client ← resolve series
  guard (text_eq client.image configured_image) unapproved_image
  ok client

-- A client of the catalog: its version is of its series, and it is one of the two that are pinned.
pub record IsApproved (client : ApprovedMysqlClient) : Type 0 where
  pub pinned : (client ≡ mysql_8_0_46) ⊎ (client ≡ mysql_8_4_4)
  pub series : client.series ≡ series_text client.version

mysql_8_0_46-IsApproved : IsApproved mysql_8_0_46
unfolding mysql_8_0_46 series_text decimal
mysql_8_0_46-IsApproved = record { pinned = inl refl; series = refl }

mysql_8_4_4-IsApproved : IsApproved mysql_8_4_4
unfolding mysql_8_4_4 series_text decimal
mysql_8_4_4-IsApproved = record { pinned = inr refl; series = refl }

pinned-IsApproved :
    (client : ApprovedMysqlClient)
    → (client ≡ mysql_8_0_46) ⊎ (client ≡ mysql_8_4_4)
    → IsApproved client
pinned-IsApproved client (inl e) = subst IsApproved (sym e) mysql_8_0_46-IsApproved
pinned-IsApproved client (inr e) = subst IsApproved (sym e) mysql_8_4_4-IsApproved

resolve-pinned :
    (series : Text) (client : ApprovedMysqlClient)
    → resolve series ≡ ok client
    → (client.series ≡ series) × ((client ≡ mysql_8_0_46) ⊎ (client ≡ mysql_8_4_4))
unfolding resolve
resolve-pinned series client h = elim (Bool-cases (text_eq mysql_8_0_46.series series)) [
  | inl e ↦
      let same : client ≡ mysql_8_0_46 = found (rw e at h) in
      (ap (λ (c : ApprovedMysqlClient). c.series) same ∙ (text_eq_iff _ series).0 e, inl same)
  | inr n ↦ elim (Bool-cases (text_eq mysql_8_4_4.series series)) [
    | inl e ↦
        let same : client ≡ mysql_8_4_4 = found (rw (n, e) at h) in
        (ap (λ (c : ApprovedMysqlClient). c.series) same ∙ (text_eq_iff _ series).0 e, inr same)
    | inr m ↦ absurd (lost (rw (n, m) at h))
  ]
]
  where
    found : {c d : ApprovedMysqlClient} → ok_or unsupported_series (some c) ≡ ok d → d ≡ c
    found h = cc

    lost :
        {d : ApprovedMysqlClient}
        → ok_or {A = ApprovedMysqlClient} unsupported_series none ≡ ok d
        → ⊥
    lost h = cc

-- What `validate` returns is an approved client whose series and image are the configured ones.
pub validate-IsApproved :
    (series image : Text) (client : ApprovedMysqlClient)
    → validate series image ≡ ok client
    → IsApproved client × (client.series ≡ series) × (client.image ≡ image)
unfolding validate
validate-IsApproved series image client h = >>=-elim (resolve series) _ h λ found resolved h₁.
    >>=-elim (guard (text_eq found.image image) unapproved_image) _ h₁ λ u same h₂.
      let (e, pinned) = resolve-pinned series found resolved in
      let image_eq = (text_eq_iff found.image image).0 (guard-ok _ _ same) in
      let eq : found ≡ client = cc in
      (subst IsApproved eq (pinned-IsApproved found pinned), cc (eq, e), cc (eq, image_eq))
