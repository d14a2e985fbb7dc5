-- ===== src/Infrastructure/CacheCleanup/Complete.antt =====
-- The complete dumps of a cache directory: the entries whose names are dump IDs.
use mathlib.Core.Path.{◌≡◌, refl, sym, ap, ◌∙◌}
use reprodb.Common.{
  Bool, false, Option, none, some, List, [], ◌∷◌, ◌++◌, if◌then◌else◌, append-nil, append_assoc,
}
use reprodb.Common.Text.{Text}
use reprodb.Domain.Uuid.{UuidText}
use reprodb.Infrastructure.CacheTree.{
  Artifact, Node, Listing, Database, Profile, CacheTree, missing, fails, listed,
}
use reprodb.Infrastructure.CacheCleanup.{is_dump_id}

-- An entry with the names of the directories that it stands in.
pub record Stored : Type 0 where
  pub profile : Option Text
  pub database : Option Text
  pub entry : Node Artifact

-- `flat_map`.
unfoldable pub flat_map : {A B : Type 0} → (A → List B) → List A → List B
flat_map f [] = []
flat_map f (x ∷ xs) = f x ++ flat_map f xs

pub flat_map-append :
    {A B : Type 0} (f : A → List B) (xs ys : List A)
    → flat_map f (xs ++ ys) ≡ flat_map f xs ++ flat_map f ys
unfolding flat_map
flat_map-append f [] ys = refl
flat_map-append f (x ∷ xs) ys =
    ap (λ r. f x ++ r) (flat_map-append f xs ys)
    ∙ sym (append_assoc (f x) (flat_map f xs) (flat_map f ys))

pub flat_map-one : {A B : Type 0} (f : A → List B) (x : A) → flat_map f (x ∷ []) ≡ f x
unfolding flat_map
flat_map-one f x = append-nil (f x)

unfoldable pub in_listing : {A B : Type 0} → (Node A → List B) → Listing A → List B
unfolding flat_map
in_listing f missing = []
in_listing f fails = []
in_listing f (listed nodes) = flat_map f nodes

abbrev pub has_dump_id : UuidText → Option Text → Bool
has_dump_id uuid none = false
has_dump_id uuid (some name) = is_dump_id uuid name

module _ (uuid : UuidText) where
  unfoldable pub complete_entry : Option Text → Option Text → Node Artifact → List Stored
  complete_entry profile database node =
      if has_dump_id uuid node.name
      then record { profile = profile; database = database; entry = node } ∷ []
      else []

  unfoldable pub complete_database : Option Text → Node Database → List Stored
  unfolding in_listing complete_entry
  complete_database profile node = in_listing (complete_entry profile node.name) node.content

  unfoldable pub complete_profile : Node Profile → List Stored
  unfolding in_listing complete_database
  complete_profile node = in_listing (complete_database node.name) node.content

  unfoldable pub complete_dumps : CacheTree → List Stored
  unfolding in_listing complete_profile
  complete_dumps tree = in_listing complete_profile tree
