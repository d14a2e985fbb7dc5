-- ===== src/Infrastructure/ArtifactStore.antt =====
-- infrastructure/artifact_store.rs: what the store lists of the cache directory. An artifact carries
-- the state of its files, for which the source keeps their paths.
use reprodb.Common.{
  Bool, true, false, Option, none, some, List, [], ◌∷◌, map, if◌then◌else◌, Result, ok, err, ◌>>=◌,
}
use reprodb.Common.Text.{Text, text_eq, text_before}
use reprodb.Common.Sorting.{sort_by}
use reprodb.Domain.Names.{
  ValueObjectError, ProfileName, DatabaseName, validate_profile_name, validate_database_name,
}
use reprodb.Domain.Prune.{DumpId}
use reprodb.Domain.Artifact.{dump_id_from_str}
use reprodb.Infrastructure.CacheTree.{
  Libraries, Artifact, FileState, Node, Database, Profile, CacheTree, valid_name, absent,
  uninspectable, unreadable, contents,
}
use reprodb.Infrastructure.Server.{ArtifactStoreError, io}
use reprodb.Infrastructure.Directory.{collect, entries_or_none, entries, has_name, enter}

pub record PublishedDumpArtifact : Type 0 where
  pub dump_id : DumpId
  pub files : Artifact

pub record LocatedDumpArtifact : Type 0 where
  pub profile : ProfileName
  pub database : DatabaseName
  pub artifact : PublishedDumpArtifact

unfoldable pub is_regular_file : FileState → Result ArtifactStoreError Bool
is_regular_file absent = ok false
is_regular_file uninspectable = err io
is_regular_file (unreadable size) = ok true
is_regular_file (contents bytes) = ok true

abbrev parsed_id : Libraries → Option Text → Option DumpId
parsed_id lib none = none
parsed_id lib (some name) = elim (dump_id_from_str lib.uuid name) [
  | ok dump_id ↦ some dump_id
  | err e ↦ none
]

-- `entry.file_name().to_str()` and `name.parse::<DumpId>()`, of a directory.
unfoldable pub node_dump_id : Libraries → Node Artifact → Option DumpId
node_dump_id lib node = if node.is_dir then parsed_id lib node.name else none

-- `is_regular_file(dump)? && is_regular_file(metadata)?`.
unfoldable pub has_files : Artifact → Result ArtifactStoreError Bool
unfolding is_regular_file
has_files files = do
  dump ← is_regular_file files.dump
  if dump then is_regular_file files.metadata else ok false

-- The body of the loop of `list_complete`.
unfoldable pub complete_entry :
    Libraries → Node Artifact → Result ArtifactStoreError (List PublishedDumpArtifact)
unfolding has_files node_dump_id
complete_entry lib node = elim (node_dump_id lib node) [
  | none ↦ ok []
  | some dump_id ↦ do
    complete ← has_files node.content
    ok (if complete then record { dump_id = dump_id; files = node.content } ∷ [] else [])
]

module _ (lib : Libraries) where
  -- `sort_by_key(|artifact| artifact.dump_id.to_string())`.
  abbrev id_before : PublishedDumpArtifact → PublishedDumpArtifact → Bool
  id_before a b = text_before (lib.uuid.hyphenated a.dump_id) (lib.uuid.hyphenated b.dump_id)

  abbrev located_before : LocatedDumpArtifact → LocatedDumpArtifact → Bool
  located_before a b =
      if text_eq a.profile b.profile
      then (if text_eq a.database b.database
          then id_before a.artifact b.artifact
          else text_before a.database b.database)
      else text_before a.profile b.profile

  unfoldable pub list_complete_in :
      Database → Result ArtifactStoreError (List PublishedDumpArtifact)
  unfolding collect complete_entry
  list_complete_in directory = do
    nodes ← entries_or_none directory
    artifacts ← collect (complete_entry lib) nodes
    ok (sort_by id_before artifacts)

  unfoldable pub list_complete :
      CacheTree
      → ProfileName
      → DatabaseName
      → Result ArtifactStoreError (List PublishedDumpArtifact)
  unfolding enter list_complete_in
  list_complete tree profile database = list_complete_in (enter database (enter profile tree))

  abbrev located : ProfileName → DatabaseName → PublishedDumpArtifact → LocatedDumpArtifact
  located profile database artifact = record {
    profile = profile;
    database = database;
    artifact = artifact;
  }

  -- One directory of a level: it must be a directory whose name is valid, or it is skipped.
  abbrev directory_name :
      (Text → Result ValueObjectError (Unit {0})) → Bool → Option Text → Option Text
  directory_name validator is_dir name = if is_dir then valid_name validator name else none

  -- The body of the loop of `list_complete_for_profile`; the path of the database is listed again.
  unfoldable pub complete_database :
      CacheTree → ProfileName → Node Database → Result ArtifactStoreError (List LocatedDumpArtifact)
  unfolding list_complete
  complete_database tree profile node =
      elim (directory_name validate_database_name node.is_dir node.name) [
        | none ↦ ok []
        | some database ↦ do
          artifacts ← list_complete tree profile database
          ok (map (located profile database) artifacts)
      ]

  unfoldable pub list_complete_for_profile :
      CacheTree → ProfileName → Result ArtifactStoreError (List LocatedDumpArtifact)
  unfolding enter complete_database
  list_complete_for_profile tree profile = do
    nodes ← entries_or_none (enter profile tree)
    collect (complete_database tree profile) nodes

  -- The inner loop of `list_all_candidates`.
  unfoldable pub candidate :
      ProfileName
      → DatabaseName
      → Node Artifact
      → Result ArtifactStoreError (List LocatedDumpArtifact)
  unfolding node_dump_id
  candidate profile database node = elim (node_dump_id lib node) [
    | none ↦ ok []
    | some dump_id ↦
        ok (located profile database (record { dump_id = dump_id; files = node.content }) ∷ [])
  ]

  unfoldable pub database_candidates :
      ProfileName → Node Database → Result ArtifactStoreError (List LocatedDumpArtifact)
  unfolding collect candidate
  database_candidates profile node =
      elim (directory_name validate_database_name node.is_dir node.name) [
        | none ↦ ok []
        | some database ↦ do
          nodes ← entries node.content
          collect (candidate profile database) nodes
      ]

  unfoldable pub profile_candidates :
      Node Profile → Result ArtifactStoreError (List LocatedDumpArtifact)
  unfolding collect database_candidates
  profile_candidates node = elim (directory_name validate_profile_name node.is_dir node.name) [
    | none ↦ ok []
    | some profile ↦ do nodes ← entries node.content; collect (database_candidates profile) nodes
  ]

  unfoldable pub list_all_candidates :
      CacheTree → Result ArtifactStoreError (List LocatedDumpArtifact)
  unfolding collect profile_candidates
  list_all_candidates tree = do
    nodes ← entries_or_none tree
    artifacts ← collect profile_candidates nodes
    ok (sort_by located_before artifacts)

  -- The body of the loop of `find_complete_by_database`.
  unfoldable pub complete_candidate :
      DatabaseName → LocatedDumpArtifact → Result ArtifactStoreError (List LocatedDumpArtifact)
  unfolding has_files
  complete_candidate database found =
      if text_eq found.database database
      then (do complete ← has_files found.artifact.files; ok (if complete then found ∷ [] else []))
      else ok []

  unfoldable pub find_complete_by_database :
      CacheTree → DatabaseName → Result ArtifactStoreError (List LocatedDumpArtifact)
  unfolding list_all_candidates collect complete_candidate
  find_complete_by_database tree database = do
    candidates ← list_all_candidates tree
    collect (complete_candidate database) candidates

  -- The first entry that `join(dump_id.to_string())` finds, where it is a directory.
  unfoldable pub find_entry : DumpId → List (Node Artifact) → Option Artifact
  find_entry dump_id [] = none
  find_entry dump_id (node ∷ nodes) =
      if has_name (lib.uuid.hyphenated dump_id) node.name
      then (if node.is_dir then some node.content else none)
      else find_entry dump_id nodes

  unfoldable pub database_by_id :
      DumpId → ProfileName → Node Database → Result ArtifactStoreError (List LocatedDumpArtifact)
  unfolding find_entry has_files
  database_by_id dump_id profile node =
      elim (directory_name validate_database_name node.is_dir node.name) [
        | none ↦ ok []
        | some database ↦ do
          nodes ← entries_or_none node.content
          elim (find_entry dump_id nodes) [
            | none ↦ ok []
            | some files ↦ do
              complete ← has_files files
              ok (
                  if complete
                  then located profile database (record { dump_id = dump_id; files = files }) ∷ []
                  else [])
          ]
      ]

  unfoldable pub profile_by_id :
      DumpId → Node Profile → Result ArtifactStoreError (List LocatedDumpArtifact)
  unfolding collect database_by_id
  profile_by_id dump_id node = elim (directory_name validate_profile_name node.is_dir node.name) [
    | none ↦ ok []
    | some profile ↦ do nodes ← entries node.content; collect (database_by_id dump_id profile) nodes
  ]

  unfoldable pub find_complete_by_id :
      CacheTree → DumpId → Result ArtifactStoreError (List LocatedDumpArtifact)
  unfolding collect profile_by_id
  find_complete_by_id tree dump_id = do
    nodes ← entries_or_none tree
    collect (profile_by_id dump_id) nodes
