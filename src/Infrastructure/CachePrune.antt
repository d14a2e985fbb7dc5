-- ===== src/Infrastructure/CachePrune.antt =====
-- infrastructure/cache_cleanup.rs: `plan_prune` and `execute_prune`.
pub mod Executed
use reprodb.Common.{
  ℕ, ◌+◌, ◌%◌, ◌^◌, Bool, true, false, not, ◌&&◌, ◌||◌, Option, none, some, List, [], ◌∷◌, ◌++◌,
  saturating_add, if◌then◌else◌, Result, ok, err, ◌>>=◌,
}
use reprodb.Common.Text.{Text, text_eq}
use reprodb.Common.Affixes.{ends_with}
use reprodb.Domain.Names.{
  ProfileName, DatabaseName, is_empty, validate_profile_name, validate_database_name,
}
use reprodb.Domain.Uuid.{UuidText}
use reprodb.Domain.Prune.{PruneCandidate, PruneSelection, select_for_prune}
use reprodb.Domain.Artifact.{DumpArtifactMetadata, dump_id_from_str}
use reprodb.Infrastructure.CacheTree.{
  Libraries, Artifact, FileState, Node, Listing, Database, Profile, CacheTree, valid_name,
  parse_metadata, has_bad_size, part_suffix, absent, uninspectable, unreadable, contents, missing,
  fails, listed,
}
use reprodb.Infrastructure.Directory.{collect, has_name}
use reprodb.Infrastructure.CacheCleanup.{
  CacheCleanupError, artifact_store, io, is_interrupted_deletion, isolate_and_remove,
  RemovalOutcome, removed, is_locked, is_gone,
}

pub record PrunePlan : Type 0 where
  pub selected : List PruneCandidate
  pub invalid_entries_skipped : ℕ

abbrev pub is_empty_plan : PrunePlan → Bool
is_empty_plan plan = is_empty plan.selected

-- `sum()`, which a release build wraps.
abbrev sum_bytes : List PruneCandidate → ℕ
sum_bytes [] = 0
sum_bytes (candidate ∷ rest) = (candidate.compressed_bytes + sum_bytes rest) % 2 ^ 64

abbrev pub total_compressed_bytes : PrunePlan → ℕ
total_compressed_bytes plan = sum_bytes plan.selected

pub record PruneReport : Type 0 where
  pub artifacts_removed : ℕ
  pub bytes_removed : ℕ
  pub locked_entries_skipped : ℕ
  pub invalid_entries_skipped : ℕ

-- What an entry adds: a candidate, or one to the count of invalid entries.
pub data Found : Type 0 where
  found : PruneCandidate → Found
  invalid : Found

unfoldable pub read_metadata :
    Libraries → FileState → Result CacheCleanupError (Option DumpArtifactMetadata)
read_metadata lib absent = ok none
read_metadata lib uninspectable = err io
read_metadata lib (unreadable size) = err io
read_metadata lib (contents bytes) =
    ok (if has_bad_size bytes then none else parse_metadata lib bytes)

-- `read_directories`: the directories of a directory, none where it is not there.
unfoldable pub directories : {A : Type 0} → List (Node A) → List (Node A)
directories [] = []
directories (node ∷ nodes) = if node.is_dir then node ∷ directories nodes else directories nodes

unfoldable pub read_directories :
    {A : Type 0} → Listing A → Result CacheCleanupError (List (Node A))
unfolding directories
read_directories missing = ok []
read_directories fails = err io
read_directories (listed nodes) = ok (directories nodes)

module _ (lib : Libraries) where
  unfoldable pub plan_named :
      ProfileName → DatabaseName → Text → Artifact → Result CacheCleanupError (List Found)
  unfolding read_metadata is_interrupted_deletion ends_with
  plan_named profile database name files =
      if ends_with name part_suffix || is_interrupted_deletion lib.uuid name
      then ok []
      else elim (dump_id_from_str lib.uuid name) [
        | err e ↦ ok (invalid ∷ [])
        | ok dump_id ↦ do
          read ← read_metadata lib files.metadata
          elim read [
            | none ↦ ok (invalid ∷ [])
            | some metadata ↦ ok (
                found (record {
                  profile = profile;
                  database = database;
                  dump_id = dump_id;
                  completed_at_unix_seconds = metadata.completed_at_unix_seconds;
                  compressed_bytes = metadata.compressed_bytes;
                })
                ∷ [])
          ]
      ]

  unfoldable pub plan_entry :
      ProfileName → DatabaseName → Node Artifact → Result CacheCleanupError (List Found)
  unfolding plan_named
  plan_entry profile database node = elim node.name [
    | none ↦ ok (invalid ∷ [])
    | some name ↦ plan_named profile database name node.content
  ]

  -- `database.is_some_and(|wanted| *wanted != stored_database)`.
  abbrev is_other : Option DatabaseName → DatabaseName → Bool
  is_other none stored = false
  is_other (some wanted) stored = not (text_eq wanted stored)

  unfoldable pub plan_database :
      Option DatabaseName → ProfileName → Node Database → Result CacheCleanupError (List Found)
  unfolding collect read_directories plan_entry
  plan_database wanted profile node = elim (valid_name validate_database_name node.name) [
    | none ↦ ok (invalid ∷ [])
    | some database ↦
        if is_other wanted database
        then ok []
        else (do nodes ← read_directories node.content; collect (plan_entry profile database) nodes)
  ]

  unfoldable pub plan_profile :
      Option DatabaseName → Node Profile → Result CacheCleanupError (List Found)
  unfolding collect read_directories plan_database
  plan_profile wanted node = elim (valid_name validate_profile_name node.name) [
    | none ↦ ok (invalid ∷ [])
    | some profile ↦ do
      nodes ← read_directories node.content
      collect (plan_database wanted profile) nodes
  ]

  unfoldable pub candidates : List Found → List PruneCandidate
  candidates [] = []
  candidates (found c ∷ rest) = c ∷ candidates rest
  candidates (invalid ∷ rest) = candidates rest

  unfoldable pub count_invalid : List Found → ℕ
  count_invalid [] = 0
  count_invalid (found c ∷ rest) = count_invalid rest
  count_invalid (invalid ∷ rest) = count_invalid rest + 1

  unfoldable pub plan_prune :
      PruneSelection → Option DatabaseName → ℕ → CacheTree → Result CacheCleanupError PrunePlan
  unfolding collect read_directories plan_profile candidates count_invalid
  plan_prune selection wanted now tree = do
    nodes ← read_directories tree
    entries ← collect (plan_profile wanted) nodes
    ok (record {
      selected = select_for_prune selection (candidates entries) now;
      invalid_entries_skipped = count_invalid entries;
    })

-- A step on a path: its outcome, and what is left of the directory.
abbrev pub Removed : Type 0 → Type 0
Removed A = Result CacheCleanupError RemovalOutcome × A

abbrev pub with_tail : {A : Type 0} → Removed (List A) → List A → Removed (List A)
with_tail removal rest = (removal.0, removal.1 ++ rest)

abbrev pub with_head : {A : Type 0} → A → Removed (List A) → Removed (List A)
with_head x removal = (removal.0, x ∷ removal.1)

-- The entry that the path finds, a directory or not; a path through what is no directory cannot be
-- locked.
abbrev pub remove_found :
    UuidText → Text → Node Artifact → List (Node Artifact) → Bool → Removed (List (Node Artifact))
remove_found uuid name node nodes true = with_tail (isolate_and_remove uuid name node) nodes
remove_found uuid name node nodes false = (err artifact_store, node ∷ nodes)

unfoldable pub remove_entry :
    UuidText → Text → List (Node Artifact) → Removed (List (Node Artifact))
unfolding isolate_and_remove
remove_entry uuid name [] = (ok is_gone, [])
remove_entry uuid name (node ∷ nodes) =
    if has_name name node.name
    then remove_found uuid name node nodes node.is_dir
    else with_head node (remove_entry uuid name nodes)

abbrev pub remove_inside :
    {A : Type 0} → (A → Removed A) → Node A → List (Node A) → Bool → Removed (List (Node A))
remove_inside inner node nodes true =
    ((inner node.content).0, record node { content = (inner node.content).1 } ∷ nodes)
remove_inside inner node nodes false = (err artifact_store, node ∷ nodes)

unfoldable pub remove_below :
    {A : Type 0} → Text → (A → Removed A) → List (Node A) → Removed (List (Node A))
remove_below name inner [] = (ok is_gone, [])
remove_below name inner (node ∷ nodes) =
    if has_name name node.name
    then remove_inside inner node nodes node.is_dir
    else with_head node (remove_below name inner nodes)

abbrev pub in_directory :
    {A : Type 0} → (List (Node A) → Removed (List (Node A))) → Listing A → Removed (Listing A)
in_directory step missing = (ok is_gone, missing)
in_directory step fails = (err artifact_store, fails)
in_directory step (listed nodes) = ((step nodes).0, listed (step nodes).1)

-- `isolate_and_remove` at `profiles/<profile>/<database>/<dump id>`.
unfoldable pub remove_candidate : UuidText → PruneCandidate → CacheTree → Removed CacheTree
unfolding remove_entry remove_below
remove_candidate uuid candidate = in_directory (
    remove_below candidate.profile (
      in_directory (
        remove_below candidate.database
          (in_directory (remove_entry uuid (uuid.hyphenated candidate.dump_id))))))

abbrev pub count_outcome : PruneCandidate → RemovalOutcome → PruneReport → PruneReport
count_outcome candidate removed report = record report {
  artifacts_removed = report.artifacts_removed + 1;
  bytes_removed = saturating_add report.bytes_removed candidate.compressed_bytes;
}
count_outcome candidate is_locked report = record report {
  locked_entries_skipped = report.locked_entries_skipped + 1;
}
count_outcome candidate is_gone report = report

abbrev pub prune_on :
    Removed CacheTree
    → (RemovalOutcome → CacheTree → Result CacheCleanupError PruneReport × CacheTree)
    → Result CacheCleanupError PruneReport × CacheTree
prune_on (err e, tree) next = (err e, tree)
prune_on (ok outcome, tree) next = next outcome tree

-- The loop over the selected candidates.
unfoldable pub prune_each :
    UuidText
    → List PruneCandidate
    → PruneReport
    → CacheTree
    → Result CacheCleanupError PruneReport × CacheTree
unfolding remove_candidate
prune_each uuid [] report tree = (ok report, tree)
prune_each uuid (candidate ∷ rest) report tree =
    prune_on (remove_candidate uuid candidate tree)
      (λ outcome t. prune_each uuid rest (count_outcome candidate outcome report) t)

unfoldable pub execute_prune :
    UuidText → PrunePlan → CacheTree → Result CacheCleanupError PruneReport × CacheTree
unfolding prune_each
execute_prune uuid plan tree =
    prune_each uuid plan.selected
      (record {
        artifacts_removed = 0;
        bytes_removed = 0;
        locked_entries_skipped = 0;
        invalid_entries_skipped = plan.invalid_entries_skipped;
      })
      tree
