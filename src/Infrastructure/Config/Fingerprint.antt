-- ===== src/Infrastructure/Config/Fingerprint.antt =====
-- infrastructure/config.rs: `source_profile_fingerprint`, by which the cache knows a dump's source.
use reprodb.Common.{
  ℕ, zero, suc, ◌<◌, ◌^◌, ◌≡◌, refl, sym, ap, ◌∙◌, Bool, true, false, List, [], ◌∷◌, ◌++◌, arith,
  All, if◌then◌else◌,
}
use reprodb.Common.Text.{Text, codes, text_eq, bytes}
use reprodb.Common.Utf8.{bytes-injective}
use reprodb.Domain.Names.{ProfileName}
use reprodb.Domain.Digest.{Sha256Digest}
use reprodb.Domain.Tls.{
  MysqlTlsMode, disabled, preferred, required, verify_ca, verify_identity, option_value,
}
use reprodb.Infrastructure.Config.{SourceProfileConfig}
use reprodb.Infrastructure.Framing.{
  Fits, to_be_bytes, to_be_bytes-injective, hash_fields, hash_fields-injective, prefix-injective,
}

-- `u8::from(bool)`.
abbrev from_bool : Bool → ℕ
from_bool false = 0
from_bool true = 1

-- The fields in their bytes, `as_bytes()`; the names of the TLS modes are ASCII.
abbrev fields : ProfileName → SourceProfileConfig → List (List ℕ)
fields name profile =
    bytes name
    ∷ bytes profile.host
    ∷ to_be_bytes 2 profile.port
    ∷ bytes profile.username
    ∷ codes "mysql"
    ∷ bytes profile.mysql_series
    ∷ option_value profile.tls_mode
    ∷ bytes profile.image
    ∷ (from_bool profile.production ∷ [])
    ∷ []

-- What the function hashes.
unfoldable pub fingerprint_input : ProfileName → SourceProfileConfig → List ℕ
unfolding bytes to_be_bytes option_value hash_fields
fingerprint_input name profile =
    codes "reprodb-source-profile-v1" ++ hash_fields (fields name profile)

unfoldable pub source_profile_fingerprint :
    (List ℕ → Sha256Digest) → ProfileName → SourceProfileConfig → Sha256Digest
unfolding fingerprint_input
source_profile_fingerprint sha256 name profile = sha256 (fingerprint_input name profile)

mode_of : Text → MysqlTlsMode
mode_of name =
    if text_eq name (codes "DISABLED")
    then disabled
    else if text_eq name (codes "PREFERRED")
    then preferred
    else if text_eq name (codes "REQUIRED")
    then required
    else if text_eq name (codes "VERIFY_CA")
    then verify_ca
    else verify_identity

mode_of-option_value : (mode : MysqlTlsMode) → mode_of (option_value mode) ≡ mode
unfolding mode_of option_value text_eq
mode_of-option_value disabled = refl
mode_of-option_value preferred = refl
mode_of-option_value required = refl
mode_of-option_value verify_ca = refl
mode_of-option_value verify_identity = refl

-- The lengths in bytes and the port that a configuration can hold.
pub record IsBounded (name : ProfileName) (profile : SourceProfileConfig) : Type 0 where
  pub name_fits : Fits (bytes name)
  pub host_fits : Fits (bytes profile.host)
  pub port_fits : profile.port < 256 ^ 2
  pub username_fits : Fits (bytes profile.username)
  pub series_fits : Fits (bytes profile.mysql_series)
  pub image_fits : Fits (bytes profile.image)

-- The profiles agree on all that makes a source.
pub record SameSource (a b : ProfileName) (p q : SourceProfileConfig) : Type 0 where
  pub name : a ≡ b
  pub host : p.host ≡ q.host
  pub port : p.port ≡ q.port
  pub username : p.username ≡ q.username
  pub series : p.mysql_series ≡ q.mysql_series
  pub tls_mode : p.tls_mode ≡ q.tls_mode
  pub image : p.image ≡ q.image
  pub production : p.production ≡ q.production

option_value-Fits : (mode : MysqlTlsMode) → Fits (option_value mode)
unfolding option_value
option_value-Fits disabled = omega arith
option_value-Fits preferred = omega arith
option_value-Fits required = omega arith
option_value-Fits verify_ca = omega arith
option_value-Fits verify_identity = omega arith

fields-Fits :
    (name : ProfileName) (profile : SourceProfileConfig)
    → IsBounded name profile
    → All Fits (fields name profile)
unfolding to_be_bytes
fields-Fits name profile b = (
  b.name_fits,
  (
    b.host_fits,
    (
      omega arith,
      (
        b.username_fits,
        (
          omega arith,
          (b.series_fits, (option_value-Fits profile.tls_mode, (b.image_fits, (omega arith, tt)))),
        ),
      ),
    ),
  ),
)

from_bool-injective : (a b : Bool) → from_bool a ≡ from_bool b → a ≡ b
from_bool-injective a b h = ground (arith, h)

nth : ℕ → List Text → Text
nth n [] = []
nth zero (x ∷ xs) = x
nth (suc n) (x ∷ xs) = nth n xs

-- The fingerprint of a profile hashes an input that determines its name, host, port, user, series, TLS
-- mode, client image and whether it is production, where lengths in bytes fit 64 bits and the port 16.
pub fingerprint_input-injective :
    (a b : ProfileName) (p q : SourceProfileConfig)
    → IsBounded a p
    → IsBounded b q
    → fingerprint_input a p ≡ fingerprint_input b q
    → SameSource a b p q
unfolding fingerprint_input nth
fingerprint_input-injective a b p q bp bq h = record {
  name = bytes-injective a b (ap (nth 0) same);
  host = bytes-injective p.host q.host (ap (nth 1) same);
  port = to_be_bytes-injective 2 p.port q.port bp.port_fits bq.port_fits (ap (nth 2) same);
  username = bytes-injective p.username q.username (ap (nth 3) same);
  series = bytes-injective p.mysql_series q.mysql_series (ap (nth 5) same);
  tls_mode =
      sym (mode_of-option_value p.tls_mode)
      ∙ ap mode_of (ap (nth 6) same)
      ∙ mode_of-option_value q.tls_mode;
  image = bytes-injective p.image q.image (ap (nth 7) same);
  production = from_bool-injective p.production q.production (head_of (ap (nth 8) same));
}
  where
    same : fields a p ≡ fields b q
    same =
        hash_fields-injective (fields a p) (fields b q) (fields-Fits a p bp) (fields-Fits b q bq)
          (prefix-injective (codes "reprodb-source-profile-v1") _ _ h)

    head_of : {x y : ℕ} → x ∷ [] ≡ y ∷ [] → x ≡ y
    head_of e = cc
