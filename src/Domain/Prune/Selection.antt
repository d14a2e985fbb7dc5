-- ===== src/Domain/Prune/Selection.antt =====
-- What a prune run selects, and what it spares.
use mathlib.Core.Path.{subst}
use mathlib.Core.List.{Perm}
use reprodb.Common.{
  leb, length, ℕ, zero, suc, ◌+◌, ◌≤◌, ◌≡◌, ◌↔◌, ◌⊎◌, refl, sym, ◌∙◌, ap, Bool, true, false, List,
  [], ◌∷◌, ◌++◌, if◌then◌else◌, keep, take, drop, All, All-append, max_u64, arith, inl, inr,
  Bool-cases, append-nil, append_assoc,
}
use reprodb.Common.Maps.{
  get, insert, get-insert, contains_key, contains_key-get, Unique, insert-Unique, insert-All,
}
use reprodb.Common.Sorting.{
  sort_by, sort_by-Sorted, take-drop-Sorted, sort_by-Perm, take-drop, length-take, length-sort_by,
  All-sort_by, All-drop, All-mono, keep-All, keep-none, keep-append,
}
use reprodb.Domain.Prune.{
  keep_last, PruneCandidate, GroupKey, same_key, same_key_iff, key_of, has_aged, group_at,
  group_by_key, newer, skip_newest, select_for_prune, group_ord,
}

-- The age test selects exactly the dumps that completed `seconds` or more before `now`: one that
-- completes in the future of the clock is spared, and so is one whose expiry does not fit in `u64`.
pub has_aged_iff :
    (seconds now : ℕ) (c : PruneCandidate)
    → now ≤ max_u64
    → (has_aged seconds now c ≡ true) ↔ (c.completed_at_unix_seconds + seconds ≤ now)
unfolding has_aged
has_aged_iff seconds now c fits = (λ h. ground arith, λ h. ground arith)

abbrev pub in_group : GroupKey → PruneCandidate → Bool
in_group key c = same_key (key_of c) key

abbrev Grouped : Type 0
Grouped = List (GroupKey × List PruneCandidate)

-- Each group holds candidates of its own key.
abbrev Pure : Grouped → Type 0
Pure = All (λ entry. All (λ c. in_group entry.0 c ≡ true) entry.1)

group_at-insert :
    (k j : GroupKey) (g : List PruneCandidate) (m : Grouped)
    → group_at j (insert k g m) ≡ (if same_key k j then g else group_at j m)
unfolding group_at
group_at-insert k j g m = ground (arith, get-insert k j g m)

group_by_key-step :
    (c : PruneCandidate) (cs : List PruneCandidate) (m : Grouped)
    → group_by_key (c ∷ cs) m
      ≡ group_by_key cs (insert (key_of c) (group_at (key_of c) m ++ c ∷ []) m)
unfolding group_by_key
group_by_key-step c cs m = refl

group_at-cons_same :
    (k j : GroupKey) (g : List PruneCandidate) (m : Grouped)
    → same_key j k ≡ true
    → group_at k ((j, g) ∷ m) ≡ g
unfolding group_at get
group_at-cons_same k j g m e = ground arith

group_at-cons_other :
    (k j : GroupKey) (g : List PruneCandidate) (m : Grouped)
    → same_key j k ≡ false
    → group_at k ((j, g) ∷ m) ≡ group_at k m
unfolding group_at get
group_at-cons_other k j g m e = ground arith

group_at-absent : (k : GroupKey) (m : Grouped) → contains_key k m ≡ false → group_at k m ≡ []
unfolding group_at
group_at-absent k m h = ground (arith, contains_key-get k m)

absent :
    (j k : GroupKey) (m : Grouped)
    → same_key j k ≡ true
    → contains_key j m ≡ false
    → contains_key k m ≡ false
absent j k m e h = rw (← (same_key_iff j k).0 e) h

skip_newest-cons :
    (n : ℕ) (j : GroupKey) (g : List PruneCandidate) (m : Grouped)
    → skip_newest n ((j, g) ∷ m) ≡ drop n (sort_by newer g) ++ skip_newest n m
unfolding skip_newest
skip_newest-cons n j g m = refl

drop-nil {ℓ} : {A : Type ℓ} (n : ℕ) → drop {A = A} n [] ≡ []
drop-nil zero = refl
drop-nil (suc n) = refl

group_by_key-group :
    (cs : List PruneCandidate) (m : Grouped) (k : GroupKey)
    → group_at k (group_by_key cs m) ≡ group_at k m ++ keep (in_group k) cs
group_by_key-group [] m k = unfold group_by_key in rw append-nil
group_by_key-group (c ∷ cs) m k =
    ap (group_at k) (group_by_key-step c cs m)
    ∙ group_by_key-group cs (insert (key_of c) (group_at (key_of c) m ++ c ∷ []) m) k
    ∙ joined (Bool-cases (same_key (key_of c) k))
  where
    joined :
        (same_key (key_of c) k ≡ true) ⊎ (same_key (key_of c) k ≡ false)
        → group_at k (insert (key_of c) (group_at (key_of c) m ++ c ∷ []) m) ++ keep (in_group k) cs
          ≡ group_at k m ++ keep (in_group k) (c ∷ cs)
    joined (inl e) =
        rw (group_at-insert, e, append_assoc)
          (ap (λ key. group_at key m ++ c ∷ keep (in_group k) cs) ((same_key_iff _ _).0 e))
    joined (inr e) = rw (group_at-insert, e)

group_by_key-Unique :
    (cs : List PruneCandidate) (m : Grouped) → Unique m → Unique (group_by_key cs m)
unfolding group_by_key
group_by_key-Unique [] m u = u
group_by_key-Unique (c ∷ cs) m u = group_by_key-Unique cs _ (insert-Unique (key_of c) _ m u)

same_key-in_group :
    (j k : GroupKey) (c : PruneCandidate)
    → same_key j k ≡ true
    → in_group j c ≡ true
    → in_group k c ≡ true
same_key-in_group j k c e h =
    ground (arith, same_key_iff j k, same_key_iff (key_of c) j, same_key_iff (key_of c) k)

other_key-in_group :
    (j k : GroupKey) (c : PruneCandidate)
    → same_key j k ≡ false
    → in_group j c ≡ true
    → in_group k c ≡ false
other_key-in_group j k c e h =
    ground (arith, same_key_iff j k, same_key_iff (key_of c) j, same_key_iff (key_of c) k)

group_at-Pure :
    (k : GroupKey) (m : Grouped) → Pure m → All (λ c. in_group k c ≡ true) (group_at k m)
group_at-Pure k [] h = unfold group_at get in tt
group_at-Pure k ((j, g) ∷ m) (pure, h) = elim (Bool-cases (same_key j k)) [
  | inl e ↦
      rw (group_at-cons_same k j g m e)
        (All-mono (λ c. in_group j c ≡ true) g (λ c. same_key-in_group j k c e) pure)
  | inr e ↦ rw (group_at-cons_other k j g m e) (group_at-Pure k m h)
]

group_by_key-Pure : (cs : List PruneCandidate) (m : Grouped) → Pure m → Pure (group_by_key cs m)
unfolding group_by_key
group_by_key-Pure [] m h = h
group_by_key-Pure (c ∷ cs) m h = group_by_key-Pure cs _ (
    insert-All (λ entry. All (λ d. in_group entry.0 d ≡ true) entry.1) (key_of c) _ m
      (All-append _ _ (c ∷ []) (group_at-Pure (key_of c) m h) ((same_key_iff _ _).1 refl, tt)) h)

-- Skipping in one group leaves the candidates of the other keys alone.
skip_newest-group :
    (n : ℕ) (m : Grouped) (k : GroupKey)
    → Unique m
    → Pure m
    → keep (in_group k) (skip_newest n m) ≡ drop n (sort_by newer (group_at k m))
skip_newest-group n [] k u h = unfold skip_newest group_at get sort_by in sym (drop-nil n)
skip_newest-group n ((j, g) ∷ m) k (u, us) (pure, h) =
    let ih = skip_newest-group n m k us h in
    let own = All-drop _ n (sort_by newer g) (All-sort_by newer _ g pure) in
    rw (skip_newest-cons n j g m, keep-append)
      (elim (Bool-cases (same_key j k)) [
        | inl e ↦
            rw
              (
                group_at-cons_same k j g m e,
                keep-All (in_group k) _ (All-mono _ _ (λ c. same_key-in_group j k c e) own),
                ih,
                group_at-absent k m (absent j k m e u),
              )
              (unfold sort_by in rw (drop-nil n, append-nil))
        | inr e ↦ rw (
          group_at-cons_other k j g m e,
          keep-none (in_group k) _ (All-mono _ _ (λ c. other_key-in_group j k c e) own),
          ih,
        )
      ])

-- Of each profile and database, `KeepLast` selects what stands behind the newest `count` dumps, and
-- nothing else: the selection, cut down to the pair, is the pair's dumps, newest first, less the
-- first `count`.
pub keep_last-group :
    (count now : ℕ) (cs : List PruneCandidate) (k : GroupKey)
    → keep (in_group k) (select_for_prune (keep_last count) cs now)
      ≡ drop count (sort_by newer (keep (in_group k) cs))
unfolding select_for_prune
keep_last-group count now cs k =
    skip_newest-group count (group_by_key cs []) k (group_by_key-Unique cs [] tt)
      (group_by_key-Pure cs [] tt)
    ∙ ap (λ group. drop count (sort_by newer group)) (group_by_key-group cs [] k ∙ start)
  where
    start : group_at k [] ++ keep (in_group k) cs ≡ keep (in_group k) cs
    start = unfold group_at get in refl

-- A group is what is selected of it and what is spared: `count` dumps, or all if there are fewer, none
-- of which completed before one that is selected.
pub record SparesNewest (count : ℕ) (group selected : List PruneCandidate) : Type 0 where
  pub spared : List PruneCandidate
  pub whole : Perm (spared ++ selected) group
  pub number : length spared ≡ (if leb count (length group) then count else length group)
  pub newest :
      All
        (λ s. All (λ d. d.completed_at_unix_seconds ≤ s.completed_at_unix_seconds) selected)
        spared

not_newer :
    (s d : PruneCandidate)
    → newer d s ≡ false
    → d.completed_at_unix_seconds ≤ s.completed_at_unix_seconds
unfolding newer
not_newer s d h = ground (arith, h)

drop-SparesNewest :
    (count : ℕ) (group : List PruneCandidate)
    → SparesNewest count group (drop count (sort_by newer group))
drop-SparesNewest count group = record {
  spared = take count sorted;
  whole = rw take-drop (sort_by-Perm newer group);
  number =
      length-take count sorted
      ∙ ap (λ n. if leb count n then count else n) (length-sort_by newer group);
  newest =
      All-mono _ (take count sorted) (λ s. All-mono _ (drop count sorted) (not_newer s))
        (take-drop-Sorted newer count sorted (
          sort_by-Sorted newer (λ x y h. unfold newer in ground arith)
            (λ x y z h g. unfold newer in ground arith) group));
}
  where
    sorted : List PruneCandidate
    sorted = sort_by newer group

-- Of each profile and database, `KeepLast` spares `count` dumps, or all if there are fewer, and selects
-- every other; no dump that it selects completed after one of the pair that it spares.
pub keep_last-SparesNewest :
    (count now : ℕ) (cs : List PruneCandidate) (k : GroupKey)
    → SparesNewest count
        (keep (in_group k) cs)
        (keep (in_group k) (select_for_prune (keep_last count) cs now))
keep_last-SparesNewest count now cs k =
    subst (SparesNewest count (keep (in_group k) cs)) (sym (keep_last-group count now cs k))
      (drop-SparesNewest count (keep (in_group k) cs))
