-- ===== src/Infrastructure/CacheCleanup.antt =====
-- infrastructure/cache_cleanup.rs: the sweep of what nobody can restore, and the plan and the execution
-- of a prune. Each returns the cache directory that it leaves, on every path.
pub mod Complete
pub mod Sweep
use reprodb.Common.{
  ℕ, ◌+◌, ◌*◌, Bool, true, false, not, ◌&&◌, ◌||◌, Option, none, some, List, [], ◌∷◌, ◌++◌, ltb,
  saturating_add, if◌then◌else◌, Result, ok, err, ◌>>=◌,
}
use reprodb.Common.Text.{Text, text_eq}
use reprodb.Common.Affixes.{strip_suffix, ends_with, split_once_text}
use reprodb.Domain.Names.{
  ValueObjectError, ProfileName, DatabaseName, is_empty, validate_profile_name,
  validate_database_name,
}
use reprodb.Domain.Uuid.{UuidText}
use reprodb.Domain.Prune.{PruneCandidate, PruneSelection, select_for_prune}
use reprodb.Domain.Artifact.{DumpArtifactMetadata, dump_id_from_str}
use reprodb.Infrastructure.CacheTree.{
  Libraries, Artifact, FileState, Node, Listing, Database, Profile, CacheTree, valid_name,
  parse_metadata, has_bad_size, part_suffix, deleting_marker, absent, uninspectable, unreadable,
  contents, missing, fails, listed, deletes, rename_finds_nothing, rename_fails, remove_fails,
  vanishes, unknown, at, DeletionAnswer, ModifiedTime,
}
use reprodb.Infrastructure.ArtifactLock.{
  try_acquire_exclusive_artifact_lock, ExclusiveLock, acquired, held, vanished, lock_fails,
}
use reprodb.Infrastructure.Directory.{has_name}

abbrev pub default_partial_ttl_seconds : ℕ
default_partial_ttl_seconds = 60 * 60

pub record CacheCleanupPolicy : Type 0 where
  pub now_unix_seconds : ℕ
  pub partial_ttl_seconds : ℕ

abbrev pub defaults_at : ℕ → CacheCleanupPolicy
defaults_at now = record {
  now_unix_seconds = now;
  partial_ttl_seconds = default_partial_ttl_seconds;
}

pub record CacheSweepReport : Type 0 where
  pub orphan_partials_removed : ℕ
  pub interrupted_deletions_removed : ℕ
  pub locked_entries_skipped : ℕ
  pub future_entries_skipped : ℕ
  pub invalid_entries_skipped : ℕ

-- Without the causes.
pub data CacheCleanupError : Type 0 where
  artifact_store io invalid_managed_path : CacheCleanupError

pub data RemovalKind : Type 0 where
  partial interrupted_deletion : RemovalKind

pub data RemovalOutcome : Type 0 where
  removed is_locked is_gone : RemovalOutcome

-- `id.parse::<DumpId>().is_ok()`.
unfoldable pub is_dump_id : UuidText → Text → Bool
is_dump_id uuid name = elim (dump_id_from_str uuid name) [ ok dump_id ↦ true | err e ↦ false ]

abbrev is_uuid : UuidText → Text → Bool
is_uuid uuid text = elim (uuid.parse_str text) [ none ↦ false | some id ↦ true ]

abbrev is_partial_name : UuidText → Option Text → Bool
is_partial_name uuid none = false
is_partial_name uuid (some id) = is_dump_id uuid id

abbrev is_deletion : UuidText → Option (Text × Text) → Bool
is_deletion uuid none = false
is_deletion uuid (some (original, suffix)) =
    not (is_empty suffix)
    && is_uuid uuid suffix
    && (is_dump_id uuid original || is_partial_name uuid (strip_suffix original part_suffix))

unfoldable pub is_interrupted_deletion : UuidText → Text → Bool
unfolding is_dump_id
is_interrupted_deletion uuid name = is_deletion uuid (split_once_text deleting_marker name)

-- The name in `deletion_path`.
unfoldable pub deletion_name : UuidText → Text → ℕ → Text
deletion_name uuid name tag = name ++ (deleting_marker ++ uuid.hyphenated tag)

-- A step on one entry: its result, and what is left in the entry's place.
abbrev pub Left : Type 0 → Type 0
Left R = Result CacheCleanupError R × List (Node Artifact)

abbrev deletion_answered : UuidText → Text → Node Artifact → DeletionAnswer → Left RemovalOutcome
deletion_answered uuid name node deletes = (ok removed, [])
deletion_answered uuid name node rename_finds_nothing = (ok is_gone, [])
deletion_answered uuid name node rename_fails = (err io, node ∷ [])
deletion_answered uuid name node remove_fails =
    (err io, record node { name = some (deletion_name uuid name node.content.tag) } ∷ [])

abbrev lock_answered : UuidText → Text → Node Artifact → ExclusiveLock → Left RemovalOutcome
lock_answered uuid name node acquired = deletion_answered uuid name node node.content.deletion
lock_answered uuid name node held = (ok is_locked, node ∷ [])
lock_answered uuid name node vanished = (ok is_gone, [])
lock_answered uuid name node lock_fails = (err artifact_store, node ∷ [])

unfoldable pub isolate_and_remove : UuidText → Text → Node Artifact → Left RemovalOutcome
unfolding try_acquire_exclusive_artifact_lock deletion_name
isolate_and_remove uuid name node =
    lock_answered uuid name node (try_acquire_exclusive_artifact_lock node.content)

abbrev pub count_removal : RemovalKind → RemovalOutcome → CacheSweepReport → CacheSweepReport
count_removal partial removed report = record report {
  orphan_partials_removed = report.orphan_partials_removed + 1;
}
count_removal interrupted_deletion removed report = record report {
  interrupted_deletions_removed = report.interrupted_deletions_removed + 1;
}
count_removal kind is_locked report = record report {
  locked_entries_skipped = report.locked_entries_skipped + 1;
}
count_removal kind is_gone report = report

abbrev pub counted :
    RemovalKind
    → CacheSweepReport
    → Result CacheCleanupError RemovalOutcome
    → Result CacheCleanupError CacheSweepReport
counted kind report (err e) = err e
counted kind report (ok outcome) = ok (count_removal kind outcome report)

unfoldable pub remove_if_unlocked :
    UuidText → Text → RemovalKind → CacheSweepReport → Node Artifact → Left CacheSweepReport
unfolding isolate_and_remove
remove_if_unlocked uuid name kind report node = (
  counted kind report (isolate_and_remove uuid name node).0,
  (isolate_and_remove uuid name node).1,
)

abbrev sweep_aged :
    UuidText
    → CacheCleanupPolicy
    → Text
    → CacheSweepReport
    → Node Artifact
    → ModifiedTime
    → Left CacheSweepReport
sweep_aged uuid policy name report node vanishes = (ok report, [])
sweep_aged uuid policy name report node unknown = (err io, node ∷ [])
sweep_aged uuid policy name report node (at modified) =
    if ltb policy.now_unix_seconds modified
    then (
      ok (record report { future_entries_skipped = report.future_entries_skipped + 1 }),
      node ∷ [],
    )
    else if ltb policy.now_unix_seconds (saturating_add modified policy.partial_ttl_seconds)
    then (ok report, node ∷ [])
    else remove_if_unlocked uuid name partial report node

unfoldable pub sweep_partial :
    UuidText → CacheCleanupPolicy → Text → CacheSweepReport → Node Artifact → Left CacheSweepReport
unfolding remove_if_unlocked
sweep_partial uuid policy name report node =
    sweep_aged uuid policy name report node node.content.modified

abbrev pub one_invalid : CacheSweepReport → CacheSweepReport
one_invalid report = record report { invalid_entries_skipped = report.invalid_entries_skipped + 1 }

unfoldable pub sweep_named :
    UuidText → CacheCleanupPolicy → Text → CacheSweepReport → Node Artifact → Left CacheSweepReport
unfolding is_interrupted_deletion remove_if_unlocked sweep_partial is_dump_id
sweep_named uuid policy name report node =
    if is_interrupted_deletion uuid name
    then remove_if_unlocked uuid name interrupted_deletion report node
    else elim (strip_suffix name part_suffix) [
      | some id ↦
          if not (is_dump_id uuid id)
          then (ok (one_invalid report), node ∷ [])
          else sweep_partial uuid policy name report node
      | none ↦
          if not (is_dump_id uuid name)
          then (ok (one_invalid report), node ∷ [])
          else (ok report, node ∷ [])
    ]

-- `read_directories` has passed over what is no directory.
unfoldable pub sweep_inspected :
    UuidText
    → CacheCleanupPolicy
    → CacheSweepReport
    → Node Artifact
    → Bool
    → Option Text
    → Left CacheSweepReport
sweep_inspected uuid policy report node false name = (ok report, node ∷ [])
sweep_inspected uuid policy report node true none = (ok (one_invalid report), node ∷ [])
sweep_inspected uuid policy report node true (some name) = sweep_named uuid policy name report node

unfoldable pub sweep_entry :
    UuidText → CacheCleanupPolicy → CacheSweepReport → Node Artifact → Left CacheSweepReport
unfolding sweep_inspected
sweep_entry uuid policy report node = sweep_inspected uuid policy report node node.is_dir node.name

-- A loop over the entries of a directory that threads the report and stops at an error; the entries
-- that it did not reach stay.
abbrev pub Swept : Type 0 → Type 0
Swept A = Result CacheCleanupError CacheSweepReport × A

abbrev pub sweep_on :
    {A : Type 0} → Swept (List A) → (CacheSweepReport → Swept (List A)) → List A → Swept (List A)
sweep_on (err e, left) next rest = (err e, left ++ rest)
sweep_on (ok report, left) next rest = ((next report).0, left ++ (next report).1)

module _ {A : Type 0} (body : CacheSweepReport → A → Swept (List A)) where
  unfoldable pub sweep_each : CacheSweepReport → List A → Swept (List A)
  sweep_each report [] = (ok report, [])
  sweep_each report (x ∷ xs) = sweep_on (body report x) (λ r. sweep_each r xs) xs

-- A directory that is listed by `read_directories`.
abbrev pub sweep_listing :
    {A : Type 0}
    → (CacheSweepReport → Node A → Swept (List (Node A)))
    → CacheSweepReport
    → Listing A
    → Swept (Listing A)
sweep_listing body report missing = (ok report, missing)
sweep_listing body report fails = (err io, fails)
sweep_listing body report (listed nodes) =
    ((sweep_each body report nodes).0, listed (sweep_each body report nodes).1)

-- A directory of the upper levels: its name must be valid, and its content is swept.
abbrev pub sweep_content :
    {A : Type 0}
    → (CacheSweepReport → A → Swept A)
    → CacheSweepReport
    → Node A
    → Bool
    → Option Text
    → Swept (List (Node A))
sweep_content inner report node false name = (ok report, node ∷ [])
sweep_content inner report node true none = (ok (one_invalid report), node ∷ [])
sweep_content inner report node true (some name) =
    ((inner report node.content).0, record node { content = (inner report node.content).1 } ∷ [])

abbrev pub sweep_directory :
    {A : Type 0}
    → (Text → Result ValueObjectError (Unit {0}))
    → (CacheSweepReport → A → Swept A)
    → CacheSweepReport
    → Node A
    → Swept (List (Node A))
sweep_directory validator inner report node =
    sweep_content inner report node node.is_dir (valid_name validator node.name)

abbrev pub no_report : CacheSweepReport
no_report = record {
  orphan_partials_removed = 0;
  interrupted_deletions_removed = 0;
  locked_entries_skipped = 0;
  future_entries_skipped = 0;
  invalid_entries_skipped = 0;
}

module _ (uuid : UuidText) (policy : CacheCleanupPolicy) where
  unfoldable pub sweep_database : CacheSweepReport → Database → Swept Database
  unfolding sweep_each sweep_entry
  sweep_database = sweep_listing (sweep_entry uuid policy)

  unfoldable pub sweep_profile : CacheSweepReport → Profile → Swept Profile
  unfolding sweep_each sweep_database
  sweep_profile = sweep_listing (sweep_directory validate_database_name sweep_database)

  unfoldable pub sweep : CacheTree → Swept CacheTree
  unfolding sweep_each sweep_profile
  sweep tree = sweep_listing (sweep_directory validate_profile_name sweep_profile) no_report tree
