-- ===== src/Infrastructure/Directory.antt =====
-- Directories as the loops of infrastructure/artifact_store.rs and cache_cleanup.rs read them.
use reprodb.Common.{
  Bool, false, Option, none, some, List, [], ◌∷◌, ◌++◌, if◌then◌else◌, Result, ok, err, ◌>>=◌,
}
use reprodb.Common.Text.{Text, text_eq}
use reprodb.Infrastructure.CacheTree.{Node, Listing, missing, fails, listed}
use reprodb.Infrastructure.Server.{ArtifactStoreError, io}

-- A loop that pushes to a list and returns early on an error.
unfoldable pub collect : {E A B : Type 0} → (A → Result E (List B)) → List A → Result E (List B)
collect body [] = ok []
collect body (x ∷ xs) = do found ← body x; rest ← collect body xs; ok (found ++ rest)

-- `read_dir` where a directory that is not there is empty, and where it is an error.
abbrev pub entries_or_none : {A : Type 0} → Listing A → Result ArtifactStoreError (List (Node A))
entries_or_none missing = ok []
entries_or_none fails = err io
entries_or_none (listed nodes) = ok nodes

abbrev pub entries : {A : Type 0} → Listing A → Result ArtifactStoreError (List (Node A))
entries missing = err io
entries fails = err io
entries (listed nodes) = ok nodes

abbrev pub has_name : Text → Option Text → Bool
has_name name none = false
has_name name (some other) = text_eq other name

-- The path of a name below a directory: `join(name)`, read as a directory.
unfoldable pub enter_nodes : {A : Type 0} → Text → List (Node (Listing A)) → Listing A
enter_nodes name [] = missing
enter_nodes name (node ∷ nodes) =
    if has_name name node.name
    then (if node.is_dir then node.content else fails)
    else enter_nodes name nodes

unfoldable pub enter : {A : Type 0} → Text → Listing (Listing A) → Listing A
unfolding enter_nodes
enter name missing = missing
enter name fails = fails
enter name (listed nodes) = enter_nodes name nodes
