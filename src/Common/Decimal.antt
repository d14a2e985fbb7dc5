-- ===== src/Common/Decimal.antt =====
-- Decimal numbers of the standard library: `Display` of an unsigned number and `str::parse`.
use Prim.Native.Nat.{ℕ, zero, suc, ◌+◌, ◌-◌, ◌*◌, ◌/◌, ◌%◌, ◌≤◌, ◌<◌}
use mathlib.Core.Path.{◌≡◌, refl}
use mathlib.Core.Logic.{◌≢◌}
use mathlib.Core.Bool.{true}
use mathlib.Core.List.{[], ◌∷◌, ◌++◌, concat-ne-nil}
use mathlib.Core.Option.{Option, none, some}
use native.Mathlib.Omega.{arith}
use reprodb.Common.Tests.{ltb, if◌then◌else◌}
use reprodb.Common.Lists.{all, all-append}
use reprodb.Common.Text.{Text, is_ascii_digit}

-- The digits of `n`, the last one by the remainder; `fuel` bounds their number.
digits : ℕ → ℕ → Text
digits zero n = []
digits (suc fuel) n =
    let rest = digits fuel (n / 10) in
    if ltb n 10 then (b'0' + n) ∷ [] else rest ++ (b'0' + n % 10) ∷ []

-- `format!("{n}")`.
unfoldable pub decimal : ℕ → Text
unfolding digits
decimal n = digits (suc n) n

-- `parse()` of an unsigned number up to `max`: `none` on empty text, on a character that is no
-- digit, and on overflow. The sign `+` that `parse` allows is not among the callers' inputs, which
-- are tested to be digits first.
scan : ℕ → Text → ℕ → Option ℕ
scan max [] n = some n
scan max (c ∷ s) n =
    let rest = scan max s (n * 10 + (c - b'0')) in
    if is_ascii_digit c then (if ltb max (n * 10 + (c - b'0')) then none else rest) else none

unfoldable pub parse_digits : ℕ → Text → Option ℕ
unfolding scan
parse_digits max [] = none
parse_digits max (c ∷ s) = scan max (c ∷ s) 0

scan-append :
    (max : ℕ) (s t : Text) (n m : ℕ) → scan max s n ≡ some m → scan max (s ++ t) n ≡ scan max t m
unfolding scan
scan-append max [] t n m h = ground arith
scan-append max (c ∷ s) t n m h = ground (arith, scan-append max s t (n * 10 + (c - b'0')) m)

-- With enough fuel the digits of `n` are read back as `n`.
scan-digits : (max fuel n : ℕ) → n < fuel → n ≤ max → scan max (digits fuel n) 0 ≡ some n
unfolding digits scan
scan-digits max zero n h fits = elim h [ ]
scan-digits max (suc fuel) n h fits = ground (
  arith,
  scan-append max (digits fuel (n / 10)) ((b'0' + n % 10) ∷ []) 0 (n / 10),
  scan-digits max fuel (n / 10),
)

digits-ne-nil : (fuel n : ℕ) → n < fuel → digits fuel n ≢ []
unfolding digits
digits-ne-nil zero n h = elim h [ ]
digits-ne-nil (suc fuel) n h = ground (arith, concat-ne-nil (b'0' + n % 10) (digits fuel (n / 10)))

parse_digits-scan : (max : ℕ) (s : Text) → s ≢ [] → parse_digits max s ≡ scan max s 0
unfolding parse_digits
parse_digits-scan max [] h = absurd (h refl)
parse_digits-scan max (c ∷ s) h = refl

pub parse_digits-decimal : (max n : ℕ) → n ≤ max → parse_digits max (decimal n) ≡ some n
unfolding decimal
parse_digits-decimal max n h =
    rw (parse_digits-scan max _ (digits-ne-nil (suc n) n (omega arith)))
      (scan-digits max (suc n) n (omega arith) h)

digits-IsDigits : (fuel n : ℕ) → all is_ascii_digit (digits fuel n) ≡ true
unfolding digits
digits-IsDigits zero n = refl
digits-IsDigits (suc fuel) n = ground (
  arith,
  all-append is_ascii_digit (digits fuel (n / 10)) ((b'0' + n % 10) ∷ []),
  digits-IsDigits fuel (n / 10),
)

pub decimal-IsDigits : (n : ℕ) → all is_ascii_digit (decimal n) ≡ true
unfolding decimal
decimal-IsDigits n = digits-IsDigits (suc n) n

pub decimal-ne-nil : (n : ℕ) → decimal n ≢ []
unfolding decimal
decimal-ne-nil n = digits-ne-nil (suc n) n (omega arith)

-- Two numbers that print alike are equal.
pub decimal-injective : (n m : ℕ) → decimal n ≡ decimal m → n ≡ m
decimal-injective n m h =
    cc (
      h,
      parse_digits-decimal (n + m) n (omega arith),
      parse_digits-decimal (n + m) m (omega arith),
    )
