-- ===== src/Infrastructure/CacheTree.antt =====
-- The cache directory, `profiles/<profile>/<database>/<dump>`, as infrastructure/artifact_store.rs and
-- infrastructure/cache_cleanup.rs find it.
use reprodb.Common.{
  ℕ, ◌*◌, Bool, ◌||◌, Option, none, some, List, length, ltb, ◌==◌, Result, ok, err, to_option,
}
use reprodb.Common.Text.{Text, codes}
use reprodb.Domain.Names.{ValueObjectError}
use reprodb.Domain.Uuid.{UuidText}
use reprodb.Domain.Digest.{Sha256Digest}
use reprodb.Domain.Artifact.{DumpArtifactMetadata, from_wire}

-- A Zstandard stream that decodes: its content, and the bytes that the decoder read of it.
pub record Decoded : Type 0 where
  pub sql : List ℕ
  pub consumed : List ℕ

-- What the program takes from the crates `uuid`, `serde_json`, `sha2` and `zstd`.
pub record Libraries : Type 0 where
  pub uuid : UuidText
  pub from_json : List ℕ → Option DumpArtifactMetadata
  pub sha256 : List ℕ → Sha256Digest
  pub decode : List ℕ → Option Decoded

-- A file at a path: none, one that cannot be inspected, one of so many bytes that cannot be opened or
-- read, or its bytes.
pub data FileState : Type 0 where
  absent uninspectable : FileState
  unreadable : ℕ → FileState
  contents : List ℕ → FileState

-- What taking the artifact's lock file finds: the directory is gone, an error, nobody's lock, the
-- leases of readers, or the lock of one writer.
pub data LockState : Type 0 where
  gone broken unlocked leased locked : LockState

-- How `rename` and `remove_dir_all` answer when the artifact is deleted.
pub data DeletionAnswer : Type 0 where
  deletes rename_finds_nothing rename_fails remove_fails : DeletionAnswer

-- How the directory's time of change is answered, in seconds.
pub data ModifiedTime : Type 0 where
  vanishes unknown : ModifiedTime
  at : ℕ → ModifiedTime

-- An artifact's directory; `tag` is the UUID that a deletion would draw.
pub record Artifact : Type 0 where
  pub dump : FileState
  pub metadata : FileState
  pub lock : LockState
  pub modified : ModifiedTime
  pub deletion : DeletionAnswer
  pub tag : ℕ

-- An entry of a directory; a name that is not UTF-8 is `none`.
pub record Node (A : Type 0) : Type 0 where
  pub name : Option Text
  pub is_dir : Bool
  pub content : A

-- A directory: not there, one whose listing fails, or its entries in the order of the listing.
pub data Listing (A : Type 0) : Type 0 where
  missing fails : Listing A
  listed : List (Node A) → Listing A

abbrev pub Database : Type 0
Database = Listing Artifact

abbrev pub Profile : Type 0
Profile = Listing Database

abbrev pub CacheTree : Type 0
CacheTree = Listing Profile

abbrev pub part_suffix : Text
part_suffix = codes ".part"

abbrev pub deleting_marker : Text
deleting_marker = codes ".deleting-"

abbrev pub max_metadata_bytes : ℕ
max_metadata_bytes = 64 * 1024

abbrev pub decoded : Option DumpArtifactMetadata → Option DumpArtifactMetadata
decoded none = none
decoded (some wire) = to_option (from_wire wire)

-- `serde_json::from_reader` of a metadata file: the JSON, then the checks of `deserialize`.
unfoldable pub parse_metadata : Libraries → List ℕ → Option DumpArtifactMetadata
parse_metadata lib bytes = decoded (lib.from_json bytes)

-- `length == 0 || length > MAX_METADATA_BYTES`.
abbrev pub has_bad_size : List ℕ → Bool
has_bad_size bytes = length bytes == 0 || ltb max_metadata_bytes (length bytes)

-- `to_str()` and the parser of a name.
abbrev pub valid_name : (Text → Result ValueObjectError (Unit {0})) → Option Text → Option Text
valid_name validator none = none
valid_name validator (some name) = elim (validator name) [ ok u ↦ some name | err e ↦ none ]
