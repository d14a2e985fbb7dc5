-- ===== src/Domain/Version/RoundTrip.antt =====
-- A version is read back from its text, and its series text names its series.
use reprodb.Common.{
  ℕ, ◌≡◌, ◌≢◌, ◌↔◌, refl, sym, ap, ◌∙◌, true, false, [], ◌∷◌, ◌++◌, ltb, all, arith, max_u16, ok,
}
use reprodb.Common.Text.{Text, bytes, bytes-ascii_chars, split, is_ascii_digit}
use reprodb.Common.Decimal.{
  decimal, decimal-IsDigits, decimal-ne-nil, decimal-injective, parse_digits-decimal,
}
use reprodb.Domain.Names.{is_empty}
use reprodb.Domain.Version.{
  MysqlVersion, IsVersion, display, series_text, same_series, not_numeric, from_str,
}

split-digits : (s : Text) → all is_ascii_digit s ≡ true → split b'.' s ≡ s ∷ []
unfolding split
split-digits [] h = refl
split-digits (c ∷ s) h = ground (arith, split-digits s)

split-ne-nil : (s : Text) → split b'.' s ≢ []
unfolding split
split-ne-nil [] h = cc
split-ne-nil (c ∷ s) h = ground (arith, split-ne-nil s)

-- Digits in front of a dot are the first part.
split-digits-dot :
    (s t : Text) → all is_ascii_digit s ≡ true → split b'.' (s ++ b'.' ∷ t) ≡ s ∷ split b'.' t
unfolding split
split-digits-dot [] t h = ground (arith, split-ne-nil t)
split-digits-dot (c ∷ s) t h = ground (arith, split-digits-dot s t)

digits-ascii : (s : Text) → all is_ascii_digit s ≡ true → bytes s ≡ s
digits-ascii s h = bytes-ascii_chars s (widen s h)
  where
    widen : (s : Text) → all is_ascii_digit s ≡ true → all (λ c. ltb c 0x80) s ≡ true
    widen [] h = refl
    widen (c ∷ s) h = ground (arith, widen s)

not_numeric-decimal : (n : ℕ) → not_numeric (decimal n) ≡ false
not_numeric-decimal n = rw (
  digits-ascii (decimal n) (decimal-IsDigits n),
  decimal-IsDigits n,
  nonempty (decimal n) (decimal-ne-nil n),
)
  where
    nonempty : (s : Text) → s ≢ [] → is_empty s ≡ false
    nonempty [] h = absurd (h refl)
    nonempty (c ∷ s) h = refl

-- The text of a version is read back as the version.
pub from_str-display : (v : MysqlVersion) → IsVersion v → from_str (display v) ≡ ok v
unfolding from_str display
from_str-display v i = rw (
  split-digits-dot (decimal v.major) _ (decimal-IsDigits v.major),
  split-digits-dot (decimal v.minor) _ (decimal-IsDigits v.minor),
  split-digits (decimal v.patch) (decimal-IsDigits v.patch),
  not_numeric-decimal v.major,
  not_numeric-decimal v.minor,
  not_numeric-decimal v.patch,
  parse_digits-decimal max_u16 v.major i.major,
  parse_digits-decimal max_u16 v.minor i.minor,
  parse_digits-decimal max_u16 v.patch i.patch,
)

split-series_text :
    (v : MysqlVersion) → split b'.' (series_text v) ≡ decimal v.major ∷ decimal v.minor ∷ []
unfolding series_text
split-series_text v = rw (
  split-digits-dot (decimal v.major) _ (decimal-IsDigits v.major),
  split-digits (decimal v.minor) (decimal-IsDigits v.minor),
)

same_parts : {a b c d : Text} → a ∷ b ∷ [] ≡ c ∷ d ∷ [] → (a ≡ c) × (b ≡ d)
same_parts h = (cc, cc)

-- Two versions print the same series exactly if their major and minor numbers agree.
pub series_text_iff :
    (a b : MysqlVersion) → (series_text a ≡ series_text b) ↔ (same_series a b ≡ true)
unfolding same_series
series_text_iff a b = (there, back)
  where
    there : series_text a ≡ series_text b → same_series a b ≡ true
    there e =
        let (x, y) =
          same_parts (sym (split-series_text a) ∙ ap (split b'.') e ∙ split-series_text b) in
        ground (arith, decimal-injective a.major b.major x, decimal-injective a.minor b.minor y)

    back : same_series a b ≡ true → series_text a ≡ series_text b
    back h =
        let same : (a.major ≡ b.major) × (a.minor ≡ b.minor) = ground arith in
        unfold series_text in cc (same.0, same.1)
