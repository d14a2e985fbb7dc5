-- ===== src/Domain/Uuid.antt =====
-- The `uuid` crate: a UUID is its 128 bits as a number, and its text forms are a parameter.
use reprodb.Common.{ℕ, ◌≡◌, Option, some}
use reprodb.Common.Text.{Text}
use reprodb.Common.Affixes.{Lacks}

-- `Uuid::parse_str` and `hyphenated().to_string()`. What is printed is read back, and holds digits
-- and hyphens, so no full stop.
pub record UuidText : Type 0 where
  pub parse_str : Text → Option ℕ
  pub hyphenated : ℕ → Text
  pub parse_str-hyphenated : (id : ℕ) → parse_str (hyphenated id) ≡ some id
  pub hyphenated-Lacks : (id : ℕ) → Lacks b'.' (hyphenated id)
