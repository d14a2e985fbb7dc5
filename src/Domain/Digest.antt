-- ===== src/Domain/Digest.antt =====
-- domain/value_objects.rs: SHA-256 digests and their lowercase hexadecimal text.
pub mod RoundTrip
use Prim.Native.Nat.{bit_or}
use reprodb.Common.{
  ℕ, ◌+◌, ◌-◌, ◌*◌, ◌/◌, ◌%◌, ◌<◌, ◌≡◌, Bool, true, false, not, ◌&&◌, ◌||◌, Option, none, some,
  List, [], ◌∷◌, leb, ltb, ◌==◌, if◌then◌else◌, length, all, All, Result, ok, err, ◌>>=◌, ◌>>◌,
  guard, ok_or,
}
use reprodb.Common.Text.{Text, bytes, is_ascii_digit}
use reprodb.Domain.Names.{ValueObjectError, invalid_format, sha256_digest, is_lowercase_hex}

-- `[u8; 32]`.
abbrev pub Sha256Digest : Type 0
Sha256Digest = List ℕ

pub record IsDigest (d : Sha256Digest) : Type 0 where
  pub size : length d ≡ 32
  pub in_range : All (λ b. b < 256) d

abbrev hex_digit : ℕ → ℕ
hex_digit n = if ltb n 10 then b'0' + n else b'a' + (n - 10)

-- `write!(formatter, "{byte:02x}")` for each byte.
unfoldable pub format : Sha256Digest → Text
format [] = []
format (byte ∷ rest) = hex_digit (byte / 16) ∷ hex_digit (byte % 16) ∷ format rest

unfoldable pub lowercase_hex_digit : ℕ → Option ℕ
lowercase_hex_digit value =
    if is_ascii_digit value
    then some (value - b'0')
    else if leb b'a' value && leb value b'f'
    then some (value - b'a' + 10)
    else none

-- `(high << 4) | low` on `u8`.
abbrev pub join_nibbles : ℕ → ℕ → ℕ
join_nibbles high low = bit_or (high * 16 % 256) low

-- The loop over `as_chunks::<2>()`, whose odd last byte is dropped.
unfoldable pub from_pairs : List ℕ → Result ValueObjectError (List ℕ)
unfolding lowercase_hex_digit
from_pairs [] = ok []
from_pairs (a ∷ []) = ok []
from_pairs (a ∷ b ∷ rest) = do
  high ← ok_or (invalid_format sha256_digest) (lowercase_hex_digit a)
  low ← ok_or (invalid_format sha256_digest) (lowercase_hex_digit b)
  tail ← from_pairs rest
  ok (join_nibbles high low ∷ tail)

unfoldable pub from_str : Text → Result ValueObjectError Sha256Digest
unfolding from_pairs
from_str value = do
  guard (length (bytes value) == 64 && all is_lowercase_hex (bytes value))
      (invalid_format sha256_digest)
  from_pairs (bytes value)
