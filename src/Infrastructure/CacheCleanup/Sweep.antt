-- ===== src/Infrastructure/CacheCleanup/Sweep.antt =====
-- A sweep keeps every complete dump, whatever it finds and wherever it stops.
use mathlib.Core.Path.{subst}
use reprodb.Common.{
  ◌≡◌, refl, sym, ap, ◌∙◌, inl, inr, Bool, true, false, Option, none, some, List, [], ◌∷◌, ◌++◌,
  arith, Result, ok, err, Bool-cases, Option-cases, ok_or, >>=-elim, guard-elim,
}
use reprodb.Common.Text.{Text, codes, text_eq, text_eq_iff}
use reprodb.Common.Affixes.{
  Lacks, Lacks-append, strip_suffix, strip_suffix-Lacks, split_once_text-Lacks,
}
use reprodb.Domain.Names.{validate_profile_name, validate_database_name}
use reprodb.Domain.Uuid.{UuidText}
use reprodb.Domain.Prune.{DumpId}
use reprodb.Domain.Artifact.{dump_id_from_str, DumpMetadataError, invalid_dump_id}
use reprodb.Infrastructure.CacheTree.{
  Artifact, Node, Listing, Database, Profile, CacheTree, missing, fails, listed, part_suffix,
  valid_name,
}
use reprodb.Infrastructure.CacheCleanup.{
  CacheCleanupPolicy, CacheSweepReport, is_dump_id, is_interrupted_deletion, deletion_name,
  isolate_and_remove, remove_if_unlocked, sweep_partial, sweep_named, sweep_inspected, sweep_entry,
  sweep_on, sweep_content, sweep_each, sweep_listing, sweep_database, sweep_profile, sweep, Swept,
  no_report,
}
use reprodb.Infrastructure.CacheCleanup.Complete.{
  Stored, flat_map, flat_map-append, flat_map-one, in_listing, complete_entry, complete_database,
  complete_profile, complete_dumps,
}

module _ (uuid : UuidText) where
  -- A dump ID has one text.
  dump_id_from_str-canonical :
      (name : Text) (id : DumpId) → dump_id_from_str uuid name ≡ ok id → uuid.hyphenated id ≡ name
  unfolding dump_id_from_str
  dump_id_from_str-canonical name id h =
      >>=-elim (ok_or invalid_dump_id (uuid.parse_str name)) _ h λ parsed e h₁.
        guard-elim (text_eq (uuid.hyphenated parsed) name) invalid_dump_id _ h₁
          λ same h₂. cc ((text_eq_iff (uuid.hyphenated parsed) name).0 same, h₂)

  -- The text of a dump ID holds no full stop.
  pub is_dump_id-Lacks : (name : Text) → is_dump_id uuid name ≡ true → Lacks b'.' name
  unfolding is_dump_id
  is_dump_id-Lacks name h = parsed (dump_id_from_str uuid name) refl h
    where
      parsed :
          (r : Result DumpMetadataError DumpId)
          → dump_id_from_str uuid name ≡ r
          → (elim r [ ok dump_id ↦ true | err e ↦ false ]) ≡ true
          → Lacks b'.' name
      parsed (ok id) e h =
          subst (Lacks b'.') (dump_id_from_str-canonical name id e) (uuid.hyphenated-Lacks id)
      parsed (err x) e h = absurd (cc)

  -- The name under which a deletion isolates an entry is no dump ID.
  pub deletion_name-not_dump_id :
      (name : Text) (tag : DumpId) → is_dump_id uuid (deletion_name uuid name tag) ≡ false
  unfolding deletion_name
  deletion_name-not_dump_id name tag =
      elim (Bool-cases (is_dump_id uuid (deletion_name uuid name tag))) [
        | inl e ↦ absurd (
            Lacks-append name (codes "deleting-" ++ uuid.hyphenated tag) b'.'
              (is_dump_id-Lacks (deletion_name uuid name tag) e))
        | inr e ↦ e
      ]

  dump_id-not_deletion :
      (name : Text) → is_dump_id uuid name ≡ true → is_interrupted_deletion uuid name ≡ false
  unfolding is_interrupted_deletion
  dump_id-not_deletion name h =
      rw (split_once_text-Lacks name _ b'.' (is_dump_id-Lacks name h)) refl

  dump_id-not_partial :
      (name : Text) → is_dump_id uuid name ≡ true → strip_suffix name part_suffix ≡ none
  dump_id-not_partial name h = strip_suffix-Lacks name _ b'.' (is_dump_id-Lacks name h)

  module _ (profile database : Option Text) where
    abbrev complete : List (Node Artifact) → List Stored
    complete = flat_map (complete_entry uuid profile database)

    not_complete :
        (node : Node Artifact) (name : Text)
        → node.name ≡ some name
        → is_dump_id uuid name ≡ false
        → complete (node ∷ []) ≡ []
    unfolding flat_map complete_entry
    not_complete node name e h = rw (e, h) refl

    -- Isolating an entry that is no dump leaves no complete dump in its place.
    isolate_and_remove-complete :
        (name : Text) (node : Node Artifact)
        → node.name ≡ some name
        → is_dump_id uuid name ≡ false
        → complete (isolate_and_remove uuid name node).1 ≡ []
    unfolding isolate_and_remove flat_map complete_entry
    isolate_and_remove-complete name node e h =
        ground (arith, deletion_name-not_dump_id name node.content.tag)

    sweep_partial-complete :
        (policy : CacheCleanupPolicy) (name : Text) (report : CacheSweepReport)
        (node : Node Artifact)
        → node.name ≡ some name
        → is_dump_id uuid name ≡ false
        → complete (sweep_partial uuid policy name report node).1 ≡ []
    unfolding sweep_partial remove_if_unlocked flat_map
    sweep_partial-complete policy name report node e n =
        ground (arith, not_complete node name e n, isolate_and_remove-complete name node e n)

    -- An entry that is no dump: whatever the sweep leaves of it is none.
    sweep_named-none :
        (policy : CacheCleanupPolicy) (name : Text) (report : CacheSweepReport)
        (node : Node Artifact)
        → node.name ≡ some name
        → is_dump_id uuid name ≡ false
        → complete (sweep_named uuid policy name report node).1 ≡ []
    unfolding sweep_named remove_if_unlocked
    sweep_named-none policy name report node e n =
        elim (Bool-cases (is_interrupted_deletion uuid name)) [
          | inl d ↦ rw d (isolate_and_remove-complete name node e n)
          | inr d ↦ elim (Option-cases (strip_suffix name part_suffix)) [
            | inl s ↦ rw (d, s, n) (not_complete node name e n)
            | inr (id, s) ↦ elim (Bool-cases (is_dump_id uuid id)) [
              | inl p ↦ rw (d, s, p) (sweep_partial-complete policy name report node e n)
              | inr p ↦ rw (d, s, p) (not_complete node name e n)
            ]
          ]
        ]

    -- A complete dump stays as it is.
    sweep_named-dump :
        (policy : CacheCleanupPolicy) (name : Text) (report : CacheSweepReport)
        (node : Node Artifact)
        → is_dump_id uuid name ≡ true
        → (sweep_named uuid policy name report node).1 ≡ node ∷ []
    unfolding sweep_named
    sweep_named-dump policy name report node d =
        rw (dump_id-not_deletion name d, dump_id-not_partial name d, d) refl

    sweep_inspected-complete :
        (policy : CacheCleanupPolicy) (report : CacheSweepReport) (node : Node Artifact)
        (is_dir : Bool) (name : Option Text)
        → node.name ≡ name
        → complete (sweep_inspected uuid policy report node is_dir name).1 ≡ complete (node ∷ [])
    unfolding sweep_inspected
    sweep_inspected-complete policy report node false name n = refl
    sweep_inspected-complete policy report node true none n = refl
    sweep_inspected-complete policy report node true (some name) n =
        elim (Bool-cases (is_dump_id uuid name)) [
          | inl d ↦ ap complete (sweep_named-dump policy name report node d)
          | inr d ↦ sweep_named-none policy name report node n d ∙ sym (not_complete node name n d)
        ]

    sweep_entry-complete :
        (policy : CacheCleanupPolicy) (report : CacheSweepReport) (node : Node Artifact)
        → complete (sweep_entry uuid policy report node).1
          ≡ complete_entry uuid profile database node
    unfolding sweep_entry
    sweep_entry-complete policy report node =
        sweep_inspected-complete policy report node node.is_dir node.name refl
        ∙ flat_map-one (complete_entry uuid profile database) node

sweep_on-keeps :
    {A B : Type 0} (f : A → List B) (s : Swept (List A)) (next : CacheSweepReport → Swept (List A))
    (kept : List B) (rest : List A)
    → flat_map f s.1 ≡ kept
    → ((report : CacheSweepReport) → flat_map f (next report).1 ≡ flat_map f rest)
    → flat_map f (sweep_on s next rest).1 ≡ kept ++ flat_map f rest
sweep_on-keeps f (err e, left) next kept rest h k =
    flat_map-append f left rest ∙ ap (λ l. l ++ flat_map f rest) h
sweep_on-keeps f (ok report, left) next kept rest h k =
    flat_map-append f left (next report).1
    ∙ ap (λ l. l ++ flat_map f (next report).1) h
    ∙ ap (λ l. kept ++ l) (k report)

-- A loop keeps what each of its steps keeps, also where it stops early.
sweep_each-keeps :
    {A B : Type 0} (f : A → List B) (body : CacheSweepReport → A → Swept (List A))
    → ((report : CacheSweepReport) (x : A) → flat_map f (body report x).1 ≡ f x)
    → (report : CacheSweepReport) (xs : List A)
    → flat_map f (sweep_each body report xs).1 ≡ flat_map f xs
unfolding sweep_each flat_map
sweep_each-keeps f body h report [] = refl
sweep_each-keeps f body h report (x ∷ xs) =
    sweep_on-keeps f (body report x) (λ r. sweep_each body r xs) (f x) xs (h report x)
      (λ r. sweep_each-keeps f body h r xs)

sweep_listing-keeps :
    {A B : Type 0} (f : Node A → List B) (body : CacheSweepReport → Node A → Swept (List (Node A)))
    → ((report : CacheSweepReport) (x : Node A) → flat_map f (body report x).1 ≡ f x)
    → (report : CacheSweepReport) (l : Listing A)
    → in_listing f (sweep_listing body report l).1 ≡ in_listing f l
unfolding in_listing
sweep_listing-keeps f body h report missing = refl
sweep_listing-keeps f body h report fails = refl
sweep_listing-keeps f body h report (listed nodes) = sweep_each-keeps f body h report nodes

sweep_content-keeps :
    {A B : Type 0} (f : Node A → List B) (inner : CacheSweepReport → A → Swept A)
    → ((report : CacheSweepReport) (node : Node A)
        → f (record node { content = (inner report node.content).1 }) ≡ f node)
    → (report : CacheSweepReport) (node : Node A) (is_dir : Bool) (name : Option Text)
    → flat_map f (sweep_content inner report node is_dir name).1 ≡ f node
sweep_content-keeps f inner h report node false name = flat_map-one f node
sweep_content-keeps f inner h report node true none = flat_map-one f node
sweep_content-keeps f inner h report node true (some name) = flat_map-one f _ ∙ h report node

module _ (uuid : UuidText) (policy : CacheCleanupPolicy) where
  sweep_database-keeps :
      (profile : Option Text) (report : CacheSweepReport) (node : Node Database)
      → complete_database uuid profile
          (record node { content = (sweep_database uuid policy report node.content).1 })
        ≡ complete_database uuid profile node
  unfolding sweep_database complete_database
  sweep_database-keeps profile report node =
      sweep_listing-keeps (complete_entry uuid profile node.name) (sweep_entry uuid policy)
        (sweep_entry-complete uuid profile node.name policy) report node.content

  sweep_profile-keeps :
      (report : CacheSweepReport) (node : Node Profile)
      → complete_profile uuid
          (record node { content = (sweep_profile uuid policy report node.content).1 })
        ≡ complete_profile uuid node
  unfolding sweep_profile complete_profile
  sweep_profile-keeps report node =
      sweep_listing-keeps (complete_database uuid node.name) _
        (λ r d.
          sweep_content-keeps (complete_database uuid node.name) (sweep_database uuid policy)
            (sweep_database-keeps node.name) r d d.is_dir
            (valid_name validate_database_name d.name))
        report node.content

  -- A sweep, whether it succeeds or stops at an error, leaves exactly the complete dumps that were
  -- there, with their files, in their directories and in their order.
  pub complete_dumps-sweep :
      (tree : CacheTree) → complete_dumps uuid (sweep uuid policy tree).1 ≡ complete_dumps uuid tree
  unfolding sweep complete_dumps
  complete_dumps-sweep tree =
      sweep_listing-keeps (complete_profile uuid) _
        (λ r p.
          sweep_content-keeps (complete_profile uuid) (sweep_profile uuid policy)
            sweep_profile-keeps r p p.is_dir (valid_name validate_profile_name p.name))
        no_report tree
