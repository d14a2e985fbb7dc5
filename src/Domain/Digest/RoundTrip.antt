-- ===== src/Domain/Digest/RoundTrip.antt =====
-- The text of a digest is read back, and what is read prints as it stood.
use reprodb.Common.{
  ℕ, zero, suc, ◌+◌, ◌-◌, ◌*◌, ◌/◌, ◌%◌, ◌<◌, ◌≡◌, refl, Bool, true, false, ◌&&◌, Option, none,
  some, List, [], ◌∷◌, ltb, ◌==◌, if◌then◌else◌, length, all, All, Result, ok, err, ◌>>=◌, ok_or,
  arith, ==_iff, Bool-cases, &&-true, ◌∙◌, inl, inr, ◌≢◌,
}
use reprodb.Common.Text.{Text, bytes, bytes-ascii, bytes-ascii_chars}
use reprodb.Domain.Names.{ValueObjectError, invalid_format, sha256_digest, is_lowercase_hex}
use reprodb.Domain.Digest.{
  Sha256Digest, IsDigest, hex_digit, format, lowercase_hex_digit, join_nibbles, from_pairs,
  from_str,
}

-- The test holds of every number under the bound.
holds_under : (ℕ → Bool) → ℕ → Bool
holds_under test zero = true
holds_under test (suc bound) = if test bound then holds_under test bound else false

holds_under_at :
    (test : ℕ → Bool) (bound value : ℕ)
    → value < bound
    → holds_under test bound ≡ true
    → test value ≡ true
unfolding holds_under
holds_under_at test zero value small holds = absurd (omega arith)
holds_under_at test (suc bound) value small holds = ground (arith, holds_under_at test bound value)

abbrev splits : ℕ → Bool
splits byte = join_nibbles (byte / 16) (byte % 16) == byte

every_byte-splits : holds_under splits 256 ≡ true
unfolding holds_under
every_byte-splits = refl

join_nibbles-split : (byte : ℕ) → byte < 256 → join_nibbles (byte / 16) (byte % 16) ≡ byte
join_nibbles-split byte small =
    let split : splits byte ≡ true = holds_under_at splits 256 byte small every_byte-splits in
    (==_iff (join_nibbles (byte / 16) (byte % 16)) byte).0 split

join_nibbles-sum : (a b : ℕ) → a < 16 → b < 16 → join_nibbles a b ≡ a * 16 + b
join_nibbles-sum a b ha hb =
    let q : (a * 16 + b) / 16 ≡ a = omega arith in
    let r : (a * 16 + b) % 16 ≡ b = omega arith in
    rw (q, r) at (join_nibbles-split (a * 16 + b) (omega arith))

lowercase_hex_digit-hex_digit : (n : ℕ) → n < 16 → lowercase_hex_digit (hex_digit n) ≡ some n
unfolding lowercase_hex_digit
lowercase_hex_digit-hex_digit n h = ground arith

hex_digit-lowercase_hex_digit :
    (c n : ℕ) → lowercase_hex_digit c ≡ some n → (hex_digit n ≡ c) × (n < 16)
unfolding lowercase_hex_digit
hex_digit-lowercase_hex_digit c n h = ground arith

hex_digit-IsHex : (n : ℕ) → n < 16 → is_lowercase_hex (hex_digit n) ≡ true
hex_digit-IsHex n h = ground arith

format-IsHex : (d : Sha256Digest) → All (λ b. b < 256) d → all is_lowercase_hex (format d) ≡ true
unfolding format
format-IsHex [] h = refl
format-IsHex (b ∷ d) (hb, hd) = ground (
  arith,
  hex_digit-IsHex (b / 16) (omega arith),
  hex_digit-IsHex (b % 16) (omega arith),
  format-IsHex d hd,
)

length-format : (d : Sha256Digest) → length (format d) ≡ 2 * length d
unfolding format
length-format [] = refl
length-format (b ∷ d) = omega (arith, length-format d)

hex-ascii : (s : List ℕ) → all is_lowercase_hex s ≡ true → all (λ b. ltb b 0x80) s ≡ true
hex-ascii [] h = refl
hex-ascii (b ∷ s) h = ground (arith, hex-ascii s)

from_pairs-format : (d : Sha256Digest) → All (λ b. b < 256) d → from_pairs (format d) ≡ ok d
unfolding from_pairs format
from_pairs-format [] h = refl
from_pairs-format (b ∷ d) (hb, hd) = rw (
  lowercase_hex_digit-hex_digit (b / 16) (omega arith),
  lowercase_hex_digit-hex_digit (b % 16) (omega arith),
  from_pairs-format d hd,
  join_nibbles-split b hb,
)

-- A digest's text is read back as the digest.
pub from_str-format : (d : Sha256Digest) → IsDigest d → from_str (format d) ≡ ok d
unfolding from_str
from_str-format d i =
    let hex = format-IsHex d i.in_range in
    let size : length (format d) ≡ 64 = omega (arith, length-format d, i.size) in
    rw (
      bytes-ascii_chars (format d) (hex-ascii (format d) hex),
      hex,
      size,
      from_pairs-format d i.in_range,
    )

abbrev bad : ValueObjectError
bad = invalid_format sha256_digest

-- A pair that is read is two digits, and the rest is read too.
pair_read :
    (oa ob : Option ℕ) (r : Result ValueObjectError (List ℕ)) (d : List ℕ)
    → (do high ← ok_or bad oa; low ← ok_or bad ob; tail ← r; ok (join_nibbles high low ∷ tail))
      ≡ ok d
    → (hi : ℕ) × (lo : ℕ) × (tail : List ℕ) × (oa ≡ some hi)
      × (ob ≡ some lo)
      × (r ≡ ok tail)
      × (d ≡ join_nibbles hi lo ∷ tail)
pair_read (some hi) (some lo) (ok tail) d h = (hi, lo, tail, refl, refl, refl, cc)
pair_read (some hi) (some lo) (err e) d h = cc
pair_read (some hi) none r d h = cc
pair_read none ob r d h = cc

byte-format :
    (hi lo : ℕ) (tail : List ℕ)
    → hi < 16
    → lo < 16
    → (format (join_nibbles hi lo ∷ tail) ≡ hex_digit hi ∷ hex_digit lo ∷ format tail)
      × (join_nibbles hi lo < 256)
unfolding format
byte-format hi lo tail h l =
    let q : (hi * 16 + lo) / 16 ≡ hi = omega arith in
    let r : (hi * 16 + lo) % 16 ≡ lo = omega arith in
    (rw (join_nibbles-sum hi lo h l, q, r), rw (join_nibbles-sum hi lo h l) (omega arith))

-- What the loop returns prints as the text that it read, two characters for each byte.
format-from_pairs :
    (s : List ℕ) (n : ℕ) (d : Sha256Digest)
    → length s ≡ 2 * n
    → from_pairs s ≡ ok d
    → (format d ≡ s) × (length d ≡ n) × All (λ b. b < 256) d
unfolding from_pairs
format-from_pairs [] n [] size h = (unfold format in refl, omega arith, tt)
format-from_pairs [] n (x ∷ d) size h = cc
format-from_pairs (a ∷ []) n d size h = absurd (omega arith)
format-from_pairs (a ∷ b ∷ s) n d size h =
    let (hi, lo, tail, ea, eb, er, ed) =
      pair_read (lowercase_hex_digit a) (lowercase_hex_digit b) (from_pairs s) d h in
    let (fa, ha) = hex_digit-lowercase_hex_digit a hi ea in
    let (fb, hb) = hex_digit-lowercase_hex_digit b lo eb in
    let (fs, ls, rs) = format-from_pairs s (n - 1) tail (omega arith) er in
    let (ff, fits) = byte-format hi lo tail ha hb in
    (cc (ed, ff, fa, fb, fs), rw ed (omega arith), rw ed (fits, rs))

refused : {d : List ℕ} → (err bad >>= λ (x : Unit {0}). from_pairs []) ≢ ok d
refused h = cc

-- A text is accepted as a digest only if it is the text of the digest that is returned, so each
-- digest has one text.
pub format-from_str :
    (value : Text) (d : Sha256Digest) → from_str value ≡ ok d → IsDigest d × (format d ≡ value)
unfolding from_str
format-from_str value d h =
    let checked = Bool-cases (length (bytes value) == 64 && all is_lowercase_hex (bytes value)) in
    elim checked [
      | inl e ↦
          let (sized, hex) = &&-true (length (bytes value) == 64) _ e in
          let same = bytes-ascii value (hex-ascii (bytes value) hex) in
          let size : length (bytes value) ≡ 2 * 32 = (==_iff _ _).0 sized in
          let read = rw e at h in
          let (f, l, r) = format-from_pairs (bytes value) 32 d size read in
          (record { size = l; in_range = r }, f ∙ same)
      | inr e ↦ absurd (refused (rw e at h))
    ]
