-- ===== src/Domain/Version.antt =====
-- domain/value_objects.rs: MySQL versions, `major.minor.patch` with `u16` components.
pub mod RoundTrip
use reprodb.Common.{
  ℕ, ◌≤◌, Bool, true, false, not, ◌&&◌, ◌||◌, Option, none, some, List, [], ◌∷◌, ◌++◌, ◌==◌, ltb,
  if◌then◌else◌, all, any, max_u16, Result, ok, err, ◌>>=◌, ◌>>◌, guard, ok_or,
}
use reprodb.Common.Text.{Text, bytes, split, is_ascii_digit}
use reprodb.Common.Decimal.{decimal, parse_digits}
use reprodb.Domain.Names.{ValueObjectError, invalid_format, mysql_version, is_empty}

pub record MysqlVersion : Type 0 where
  pub major : ℕ
  pub minor : ℕ
  pub patch : ℕ

-- The components are `u16`.
pub record IsVersion (v : MysqlVersion) : Type 0 where
  pub major : v.major ≤ max_u16
  pub minor : v.minor ≤ max_u16
  pub patch : v.patch ≤ max_u16

-- `Display`.
unfoldable pub display : MysqlVersion → Text
display v = decimal v.major ++ b'.' ∷ (decimal v.minor ++ b'.' ∷ decimal v.patch)

-- `format!("{}.{}", version.major, version.minor)`.
unfoldable pub series_text : MysqlVersion → Text
series_text v = decimal v.major ++ b'.' ∷ decimal v.minor

-- `(version.major, version.minor)`, compared.
unfoldable pub same_series : MysqlVersion → MysqlVersion → Bool
same_series a b = a.major == b.major && a.minor == b.minor

abbrev invalid : ValueObjectError
invalid = invalid_format mysql_version

abbrev not_numeric : Text → Bool
not_numeric component = is_empty component || not (all is_ascii_digit (bytes component))

from_components : List Text → Result ValueObjectError MysqlVersion
from_components (major ∷ minor ∷ patch ∷ []) = do
  guard (not (any not_numeric (major ∷ minor ∷ patch ∷ []))) invalid
  x ← ok_or invalid (parse_digits max_u16 major)
  y ← ok_or invalid (parse_digits max_u16 minor)
  z ← ok_or invalid (parse_digits max_u16 patch)
  ok (record { major = x; minor = y; patch = z })
from_components _ = err invalid

unfoldable pub from_str : Text → Result ValueObjectError MysqlVersion
unfolding from_components
from_str value = from_components (split b'.' value)
