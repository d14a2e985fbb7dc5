-- ===== src/Common/Words.antt =====
-- Machine words: the ranges of `u16`, `u32` and `u64`, and the additions on `u64` that do not wrap.
use Prim.Native.Nat.{ℕ, ◌+◌, ◌-◌, ◌^◌, ◌≤◌}
use mathlib.Core.Option.{Option, none, some}
use native.Mathlib.Omega.{arith}
use reprodb.Common.Tests.{ltb, if◌then◌else◌}

abbrev pub max_u16 : ℕ
max_u16 = 2 ^ 16 - 1

abbrev pub max_u64 : ℕ
max_u64 = 2 ^ 64 - 1

-- `u64::checked_add`: `none` past `u64::MAX`.
abbrev pub checked_add : ℕ → ℕ → Option ℕ
checked_add a b = if ltb max_u64 (a + b) then none else some (a + b)

-- `u64::saturating_add`.
abbrev pub saturating_add : ℕ → ℕ → ℕ
saturating_add a b = if ltb max_u64 (a + b) then max_u64 else a + b

pub saturating_add-bounds : (a b : ℕ) → saturating_add a b ≤ max_u64
saturating_add-bounds a b = ground arith
