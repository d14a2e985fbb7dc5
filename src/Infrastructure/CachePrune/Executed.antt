-- ===== src/Infrastructure/CachePrune/Executed.antt =====
-- What a prune leaves: every dump that the plan does not select, and every dump that is in use.
use reprodb.Common.{
  ◌≡◌, refl, sym, ap, ◌∙◌, inl, inr, Bool, true, false, not, ◌&&◌, ◌||◌, Option, some, List, [],
  ◌∷◌, ◌++◌, arith, any, keep, All, ok, err, Bool-cases,
}
use reprodb.Common.Text.{Text}
use reprodb.Common.Sorting.{keep-append, All-mono}
use reprodb.Domain.Uuid.{UuidText}
use reprodb.Domain.Prune.{PruneCandidate}
use reprodb.Infrastructure.CacheTree.{
  Artifact, LockState, Node, Listing, CacheTree, missing, fails, listed, leased, locked,
}
use reprodb.Infrastructure.ArtifactLock.{try_acquire_exclusive_artifact_lock}
use reprodb.Infrastructure.Directory.{has_name}
use reprodb.Infrastructure.CacheCleanup.{deletion_name, isolate_and_remove}
use reprodb.Infrastructure.CacheCleanup.Complete.{
  Stored, flat_map, flat_map-append, in_listing, has_dump_id, complete_entry, complete_database,
  complete_profile, complete_dumps,
}
use reprodb.Infrastructure.CacheCleanup.Sweep.{deletion_name-not_dump_id}
use reprodb.Infrastructure.CachePrune.{
  PrunePlan, PruneReport, Removed, remove_entry, remove_below, remove_found, remove_inside,
  in_directory, remove_candidate, prune_each, execute_prune, prune_on, count_outcome,
}

-- Somebody reads or writes the artifact.
abbrev pub is_held : LockState → Bool
is_held leased = true
is_held locked = true
is_held state = false

-- The path of a candidate names this entry.
unfoldable pub is_at : UuidText → PruneCandidate → Stored → Bool
is_at uuid c stored =
    has_name c.profile stored.profile
    && has_name c.database stored.database
    && has_name (uuid.hyphenated c.dump_id) stored.entry.name

-- A dump that a prune must leave.
unfoldable pub is_spared : UuidText → List PruneCandidate → Stored → Bool
unfolding is_at
is_spared uuid selected stored =
    is_held stored.entry.content.lock || not (any (λ c. is_at uuid c stored) selected)

module _ (t : Stored → Bool) where
  -- What is kept of a loop's result.
  keep-flat_map-append :
      {A : Type 0} (f : A → List Stored) (xs ys : List A)
      → keep t (flat_map f (xs ++ ys)) ≡ keep t (flat_map f xs) ++ keep t (flat_map f ys)
  keep-flat_map-append f xs ys =
      ap (keep t) (flat_map-append f xs ys) ∙ keep-append t (flat_map f xs) (flat_map f ys)

  keep-flat_map-cons :
      {A : Type 0} (f : A → List Stored) (x y : A) (xs ys : List A)
      → keep t (f x) ≡ keep t (f y)
      → keep t (flat_map f xs) ≡ keep t (flat_map f ys)
      → keep t (flat_map f (x ∷ xs)) ≡ keep t (flat_map f (y ∷ ys))
  unfolding flat_map
  keep-flat_map-cons f x y xs ys h k =
      rw (keep-append t (f x) (flat_map f xs), keep-append t (f y) (flat_map f ys), h, k) refl

  remove_below-keeps :
      {A : Type 0} (f : Node A → List Stored) (name : Text) (inner : A → Removed A)
      → ((node : Node A)
          → has_name name node.name ≡ true
          → keep t (f (record node { content = (inner node.content).1 })) ≡ keep t (f node))
      → (nodes : List (Node A))
      → keep t (flat_map f (remove_below name inner nodes).1) ≡ keep t (flat_map f nodes)
  unfolding remove_below
  remove_below-keeps f name inner h [] = refl
  remove_below-keeps f name inner h (node ∷ nodes) = elim (Bool-cases (has_name name node.name)) [
    | inl n ↦ rw n (found node.is_dir n)
    | inr n ↦
        rw n (keep-flat_map-cons f node node _ nodes refl (remove_below-keeps f name inner h nodes))
  ]
    where
      found :
          (is_dir : Bool)
          → has_name name node.name ≡ true
          → keep t (flat_map f (remove_inside inner node nodes is_dir).1)
            ≡ keep t (flat_map f (node ∷ nodes))
      found true n = keep-flat_map-cons f _ node nodes nodes (h node n) refl
      found false n = refl

  in_directory-keeps :
      {A : Type 0} (f : Node A → List Stored) (step : List (Node A) → Removed (List (Node A)))
      → ((nodes : List (Node A)) → keep t (flat_map f (step nodes).1) ≡ keep t (flat_map f nodes))
      → (l : Listing A) → keep t (in_listing f (in_directory step l).1) ≡ keep t (in_listing f l)
  unfolding in_listing
  in_directory-keeps f step h missing = refl
  in_directory-keeps f step h fails = refl
  in_directory-keeps f step h (listed nodes) = h nodes

  module _ (uuid : UuidText) (c : PruneCandidate)
      (spares : (s : Stored) → is_at uuid c s ≡ true → t s ≡ is_held s.entry.content.lock) where
    module _ (profile database : Option Text) (in_profile : has_name c.profile profile ≡ true)
        (in_database : has_name c.database database ≡ true) where
      abbrev kept : List (Node Artifact) → List Stored
      kept nodes = keep t (flat_map (complete_entry uuid profile database) nodes)

      not_kept :
          (node : Node Artifact)
          → has_name (uuid.hyphenated c.dump_id) node.name ≡ true
          → is_held node.content.lock ≡ false
          → kept (node ∷ []) ≡ []
      unfolding flat_map complete_entry is_at
      not_kept node n held = elim (Bool-cases (has_dump_id uuid node.name)) [
        | inl d ↦
            rw
              (
                d,
                spares (record { profile = profile; database = database; entry = node })
                    (ground (arith, in_profile, in_database, n)),
                held,
              )
              refl
        | inr d ↦ rw d refl
      ]

      isolate_and_remove-held :
          (node : Node Artifact)
          → is_held node.content.lock ≡ true
          → (isolate_and_remove uuid (uuid.hyphenated c.dump_id) node).1 ≡ node ∷ []
      unfolding isolate_and_remove try_acquire_exclusive_artifact_lock
      isolate_and_remove-held node held = ground (arith, held)

      renamed_not_kept :
          (node : Node Artifact)
          → kept (
              record node {
                name = some (deletion_name uuid (uuid.hyphenated c.dump_id) node.content.tag);
              }
              ∷ [])
            ≡ []
      unfolding flat_map complete_entry
      renamed_not_kept node =
          rw (deletion_name-not_dump_id uuid (uuid.hyphenated c.dump_id) node.content.tag) refl

      isolate_and_remove-not_held :
          (node : Node Artifact)
          → has_name (uuid.hyphenated c.dump_id) node.name ≡ true
          → is_held node.content.lock ≡ false
          → kept (isolate_and_remove uuid (uuid.hyphenated c.dump_id) node).1 ≡ []
      unfolding isolate_and_remove flat_map
      isolate_and_remove-not_held node n held =
          ground (arith, not_kept node n held, renamed_not_kept node)

      isolate_and_remove-keeps :
          (node : Node Artifact)
          → has_name (uuid.hyphenated c.dump_id) node.name ≡ true
          → kept (isolate_and_remove uuid (uuid.hyphenated c.dump_id) node).1 ≡ kept (node ∷ [])
      isolate_and_remove-keeps node n = elim (Bool-cases (is_held node.content.lock)) [
        | inl held ↦ ap kept (isolate_and_remove-held node held)
        | inr held ↦ isolate_and_remove-not_held node n held ∙ sym (not_kept node n held)
      ]

      remove_entry-keeps :
          (nodes : List (Node Artifact))
          → kept (remove_entry uuid (uuid.hyphenated c.dump_id) nodes).1 ≡ kept nodes
      unfolding remove_entry
      remove_entry-keeps [] = refl
      remove_entry-keeps (node ∷ nodes) =
          elim (Bool-cases (has_name (uuid.hyphenated c.dump_id) node.name)) [
            | inl n ↦ rw n (found node.is_dir n)
            | inr n ↦ rw n (
                keep-flat_map-cons (complete_entry uuid profile database) node node _ nodes refl
                  (remove_entry-keeps nodes))
          ]
        where
          found :
              (is_dir : Bool)
              → has_name (uuid.hyphenated c.dump_id) node.name ≡ true
              → kept (remove_found uuid (uuid.hyphenated c.dump_id) node nodes is_dir).1
                ≡ kept (node ∷ nodes)
          found true n =
              keep-flat_map-append (complete_entry uuid profile database)
                (isolate_and_remove uuid (uuid.hyphenated c.dump_id) node).1 nodes
              ∙ ap (λ l. l ++ kept nodes) (isolate_and_remove-keeps node n)
              ∙ sym (keep-flat_map-append (complete_entry uuid profile database) (node ∷ []) nodes)
          found false n = refl

    -- One candidate: what it leaves of the dumps that are spared.
    remove_candidate-keeps :
        (tree : CacheTree)
        → keep t (complete_dumps uuid (remove_candidate uuid c tree).1)
          ≡ keep t (complete_dumps uuid tree)
    unfolding remove_candidate complete_dumps complete_profile complete_database
    remove_candidate-keeps tree =
        in_directory-keeps (complete_profile uuid) _
          (remove_below-keeps (complete_profile uuid) c.profile _ λ p in_profile.
            in_directory-keeps (complete_database uuid p.name) _
              (remove_below-keeps (complete_database uuid p.name) c.database _ λ d in_database.
                in_directory-keeps (complete_entry uuid p.name d.name) _
                  (remove_entry-keeps p.name d.name in_profile in_database) d.content)
              p.content)
          tree

  -- The candidates of a list spare what `t` accepts, if it is not at their paths or is held.
  abbrev Spares : UuidText → PruneCandidate → Type 0
  Spares uuid c = (s : Stored) → is_at uuid c s ≡ true → t s ≡ is_held s.entry.content.lock

  prune_each-keeps :
      (uuid : UuidText) (selected : List PruneCandidate) (report : PruneReport) (tree : CacheTree)
      → All (Spares uuid) selected
      → keep t (complete_dumps uuid (prune_each uuid selected report tree).1)
        ≡ keep t (complete_dumps uuid tree)
  unfolding prune_each
  prune_each-keeps uuid [] report tree spares = refl
  prune_each-keeps uuid (c ∷ rest) report tree (s, spares) =
      on (remove_candidate uuid c tree) (λ r t. prune_each-keeps uuid rest r t spares)
      ∙ remove_candidate-keeps uuid c s tree
    where
      on :
          (removal : Removed CacheTree)
          → ((r : PruneReport) (left : CacheTree)
              → keep t (complete_dumps uuid (prune_each uuid rest r left).1)
                ≡ keep t (complete_dumps uuid left))
          → keep t (
              complete_dumps uuid
                (prune_on removal
                  (λ outcome left. prune_each uuid rest (count_outcome c outcome report) left)).1)
            ≡ keep t (complete_dumps uuid removal.1)
      on (err e, left) k = refl
      on (ok outcome, left) k = k (count_outcome c outcome report) left

any-All :
    {A S : Type 0} (q : A → S → Bool) (xs : List A)
    → All (λ x. (s : S) → q x s ≡ true → any (λ y. q y s) xs ≡ true) xs
any-All q [] = tt
any-All q (x ∷ xs) =
    ((λ s h. rw h refl), All-mono _ xs (λ y k s h. ground (arith, k s h)) (any-All q xs))

-- A prune, whether it succeeds or stops at an error, leaves every complete dump that the plan does not
-- select, and every one whose lock is held, with its files, in its directory and in its order.
pub execute_prune-spares :
    (uuid : UuidText) (plan : PrunePlan) (tree : CacheTree)
    → keep (is_spared uuid plan.selected) (complete_dumps uuid (execute_prune uuid plan tree).1)
      ≡ keep (is_spared uuid plan.selected) (complete_dumps uuid tree)
unfolding execute_prune is_spared
execute_prune-spares uuid plan tree =
    prune_each-keeps (is_spared uuid plan.selected) uuid plan.selected _ tree (
      All-mono _ plan.selected (λ c found s at_path. ground (arith, found s at_path))
        (any-All (is_at uuid) plan.selected))
