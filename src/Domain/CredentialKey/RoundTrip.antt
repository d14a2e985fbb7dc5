-- ===== src/Domain/CredentialKey/RoundTrip.antt =====
-- A credential key is read back from its text, and no other text reads as that key.
use reprodb.Common.{
  true, ◌≡◌, ◌↔◌, refl, arith, some, ◌++◌, [], ◌∷◌, ok, guard, ok_or, >>=-elim, guard-ok,
  ok_or-eq-ok,
}
use reprodb.Common.Text.{Text, codes, text_eq, text_eq_iff, text_eq_refl, split_once}
use reprodb.Domain.Uuid.{UuidText}
use reprodb.Domain.CredentialKey.{
  CredentialScope, source, target, scope_text, CredentialKey, invalid, parse_scope, display,
  from_str, key_eq,
}

pub key_eq_iff : (a b : CredentialKey) → (key_eq a b ≡ true) ↔ (a ≡ b)
unfolding key_eq
key_eq_iff a b = ground arith

split_once-scope :
    (scope : CredentialScope) (id : Text)
    → split_once b':' (scope_text scope ++ b':' ∷ id) ≡ some (scope_text scope, id)
unfolding split_once scope_text
split_once-scope source id = refl
split_once-scope target id = refl

parse_scope-scope_text : (scope : CredentialScope) → parse_scope (scope_text scope) ≡ ok scope
unfolding parse_scope scope_text text_eq
parse_scope-scope_text source = refl
parse_scope-scope_text target = refl

-- What stands round the first separator spells the text.
split_once_spells : (s a b : Text) → split_once b':' s ≡ some (a, b) → s ≡ a ++ b':' ∷ b
unfolding split_once
split_once_spells [] a b h = cc
split_once_spells (c ∷ s) [] b h = ground arith
split_once_spells (c ∷ s) (d ∷ a) b h = ground (arith, split_once_spells s a b)

scope_text-parse_scope :
    (text : Text) (scope : CredentialScope) → parse_scope text ≡ ok scope → scope_text scope ≡ text
unfolding parse_scope scope_text
scope_text-parse_scope text scope h =
    ground (arith, text_eq_iff text (codes "source"), text_eq_iff text (codes "target"))

module _ (uuid : UuidText) where
  open uuid use {parse_str, hyphenated, parse_str-hyphenated}

  -- The text of a key is read back as the key.
  pub key_from_str-display : (key : CredentialKey) → from_str uuid (display uuid key) ≡ ok key
  unfolding from_str display
  key_from_str-display key = rw (
    split_once-scope key.scope (hyphenated key.id),
    parse_scope-scope_text key.scope,
    parse_str-hyphenated key.id,
    text_eq_refl (hyphenated key.id),
  )

  -- A text that is accepted is the text of the key that is returned: no other spelling of a UUID or
  -- of a scope names the same credential.
  pub display-key_from_str :
      (value : Text) (key : CredentialKey) → from_str uuid value ≡ ok key → display uuid key ≡ value
  unfolding from_str display
  display-key_from_str value key h =
      >>=-elim (ok_or invalid (split_once b':' value)) _ h λ parts split h₁.
        >>=-elim (parse_scope parts.0) _ h₁ λ scope scoped h₂.
          >>=-elim (ok_or invalid (parse_str parts.1)) _ h₂ λ parsed_id parsed h₃.
            >>=-elim (guard (text_eq (hyphenated parsed_id) parts.1) invalid) _ h₃ λ u canonical h₄.
              cc (
                h₄,
                split_once_spells value parts.0 parts.1 (ok_or-eq-ok _ _ split),
                scope_text-parse_scope parts.0 scope scoped,
                (text_eq_iff (hyphenated parsed_id) parts.1).0 (guard-ok _ _ canonical),
              )
