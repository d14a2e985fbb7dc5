-- ===== src/Domain/Prune.antt =====
-- domain/prune.rs: which complete dumps a prune run destroys.
pub mod Selection
use reprodb.Common.{
  ℕ, ◌+◌, ◌*◌, Bool, true, false, ◌&&◌, ◌||◌, Option, none, some, List, [], ◌∷◌, ◌++◌, ltb, leb,
  ◌==◌, if◌then◌else◌, keep, drop, checked_add, ◌↔◌, ◌≡◌, arith,
}
use reprodb.Common.Text.{text_eq, text_before, text_eq_iff}
use reprodb.Common.Maps.{Ord, get, insert}
use reprodb.Common.Sorting.{sort_by}
use reprodb.Domain.Names.{ProfileName, DatabaseName}

abbrev pub DumpId : Type 0
DumpId = ℕ

abbrev pub default_retention_seconds : ℕ
default_retention_seconds = 7 * 24 * 60 * 60

pub data PruneSelection : Type 0 where
  older_than : ℕ → PruneSelection
  keep_last : ℕ → PruneSelection
  everything : PruneSelection

pub record PruneCandidate : Type 0 where
  pub profile : ProfileName
  pub database : DatabaseName
  pub dump_id : DumpId
  pub completed_at_unix_seconds : ℕ
  pub compressed_bytes : ℕ

-- The test of `OlderThan`.
unfoldable pub has_aged : ℕ → ℕ → PruneCandidate → Bool
has_aged seconds now candidate = elim (checked_add candidate.completed_at_unix_seconds seconds) [
  | none ↦ false
  | some expires_at ↦ leb candidate.completed_at_unix_seconds now && leb expires_at now
]

-- The key of the groups, `(profile, database)`, in the order of pairs.
pub record GroupKey : Type 0 where
  pub profile : ProfileName
  pub database : DatabaseName

abbrev pub key_of : PruneCandidate → GroupKey
key_of candidate = record { profile = candidate.profile; database = candidate.database }

unfoldable pub same_key : GroupKey → GroupKey → Bool
same_key a b = text_eq a.profile b.profile && text_eq a.database b.database

pub same_key_iff : (a b : GroupKey) → (same_key a b ≡ true) ↔ (a ≡ b)
unfolding same_key
same_key_iff a b =
    ground (arith, text_eq_iff a.profile b.profile, text_eq_iff a.database b.database)

instance abbrev pub group_ord : Ord GroupKey
group_ord = record {
  eqb = same_key;
  before = λ a b.
      if text_eq a.profile b.profile
      then text_before a.database b.database
      else text_before a.profile b.profile;
  eqb_iff = same_key_iff;
}

-- `entry(key).or_default()`.
unfoldable pub group_at : GroupKey → List (GroupKey × List PruneCandidate) → List PruneCandidate
group_at key grouped = elim (get key grouped) [ none ↦ [] | some group ↦ group ]

-- The loop that fills `grouped`.
unfoldable pub group_by_key :
    List PruneCandidate
    → List (GroupKey × List PruneCandidate)
    → List (GroupKey × List PruneCandidate)
unfolding group_at
group_by_key [] grouped = grouped
group_by_key (candidate ∷ rest) grouped =
    group_by_key rest
      (insert (key_of candidate) (group_at (key_of candidate) grouped ++ candidate ∷ []) grouped)

-- Newest first, the larger dump ID first among equals.
unfoldable pub newer : PruneCandidate → PruneCandidate → Bool
newer left right =
    ltb right.completed_at_unix_seconds left.completed_at_unix_seconds
    || right.completed_at_unix_seconds == left.completed_at_unix_seconds
      && ltb right.dump_id left.dump_id

-- `into_values().flat_map(sort, skip)`.
unfoldable pub skip_newest : ℕ → List (GroupKey × List PruneCandidate) → List PruneCandidate
skip_newest count [] = []
skip_newest count ((key, group) ∷ rest) = drop count (sort_by newer group) ++ skip_newest count rest

unfoldable pub select_for_prune : PruneSelection → List PruneCandidate → ℕ → List PruneCandidate
unfolding has_aged group_by_key skip_newest
select_for_prune everything candidates now = candidates
select_for_prune (older_than seconds) candidates now = keep (has_aged seconds now) candidates
select_for_prune (keep_last count) candidates now = skip_newest count (group_by_key candidates [])
