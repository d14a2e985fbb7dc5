-- ===== src/Witnesses/CacheFiles.antt =====
-- A cache directory with one dump, and what the program does with it.
use reprodb.Common.{◌≡◌, ◌↔◌, refl, true, false, some, [], ◌∷◌, here, arith, ok, keep}
use reprodb.Common.Text.{codes, text_eq, bytes, starts_with}
use reprodb.Common.Maps.{get}
use reprodb.Common.Sorting.{sort_by}
use reprodb.Domain.Artifact.{DumpArtifactMetadata, dump_id_from_str, from_wire}
use reprodb.Infrastructure.CacheTree.{
  Libraries, Artifact, Node, Database, Profile, CacheTree, listed, contents, unlocked, deletes, at,
  parse_metadata,
}
use reprodb.Infrastructure.ArtifactLock.{try_acquire_lease}
use reprodb.Infrastructure.ArtifactStore.{PublishedDumpArtifact, LocatedDumpArtifact, list_complete}
use reprodb.Infrastructure.CacheHit.{CacheLookup, hit, ValidatedCacheHit, read_metadata}
use reprodb.Infrastructure.Cache.{lookup}
use reprodb.Infrastructure.Cache.Validation.{IsHit, IsReadable, HasDump, Answers}
use reprodb.Infrastructure.Cache.Lookup.{IsNewest, lookup-IsHit, lookup-IsNewest}
use reprodb.Infrastructure.Cache.Inventory.{
  CacheInventoryRequest, inspect, ready, CacheInventoryEntry,
}
use reprodb.Infrastructure.Cache.Inventory.Ready.{inspect-ready_iff, Reusable}
use reprodb.Infrastructure.CacheCleanup.{defaults_at, sweep}
use reprodb.Infrastructure.CacheCleanup.Complete.{complete_dumps}
use reprodb.Infrastructure.CacheCleanup.Sweep.{complete_dumps-sweep}
use reprodb.Infrastructure.CachePrune.{PrunePlan, execute_prune}
use reprodb.Infrastructure.CachePrune.Executed.{is_spared, execute_prune-spares}
use reprodb.Witnesses.Samples.{unary, metadata, digest}

-- The metadata of a dump of three bytes that decodes to two.
abbrev pub small : DumpArtifactMetadata
small = record metadata { uncompressed_bytes = 2; compressed_bytes = 3 }

abbrev pub libraries : Libraries
libraries = record {
  uuid = unary;
  from_json = λ bytes. some small;
  sha256 = λ bytes. digest;
  decode = λ bytes. some (record { sql = 1 ∷ 2 ∷ []; consumed = bytes });
}

abbrev pub files : Artifact
files = record {
  dump = contents (40 ∷ 41 ∷ 42 ∷ []);
  metadata = contents (123 ∷ []);
  lock = unlocked;
  modified = at 5;
  deletion = deletes;
  tag = 2;
}

-- A staging directory that is old enough for the sweep.
abbrev staging : Node Artifact
staging = record { name = some (codes "--.part"); is_dir = true; content = files }

abbrev pub shop : Database
shop =
    listed (staging ∷ record { name = some (codes "-------"); is_dir = true; content = files } ∷ [])

abbrev pub source_profile : Profile
source_profile = listed (record { name = some (codes "shop"); is_dir = true; content = shop } ∷ [])

abbrev pub tree : CacheTree
tree =
    listed (record { name = some (codes "sandbox"); is_dir = true; content = source_profile } ∷ [])

sweep_example :
    complete_dumps unary (sweep unary (defaults_at 100000) tree).1 ≡ complete_dumps unary tree
sweep_example = complete_dumps-sweep unary (defaults_at 100000) tree

-- A plan that selects another dump.
abbrev plan : PrunePlan
plan = record {
  selected =
      record {
        profile = codes "sandbox";
        database = codes "shop";
        dump_id = 3;
        completed_at_unix_seconds = 1;
        compressed_bytes = 1;
      }
      ∷ [];
  invalid_entries_skipped = 0;
}

prune_example :
    keep (is_spared unary plan.selected) (complete_dumps unary (execute_prune unary plan tree).1)
    ≡ keep (is_spared unary plan.selected) (complete_dumps unary tree)
prune_example = execute_prune-spares unary plan tree

abbrev pub request : CacheLookup
request = record {
  profile = codes "sandbox";
  database = codes "shop";
  source_fingerprint = digest;
  policy_version = 2;
  now_unix_seconds = 50;
  ttl_seconds = 3600;
  fresh = false;
}

abbrev stored : PublishedDumpArtifact
stored = record { dump_id = 7; files = files }

abbrev found : ValidatedCacheHit
found = record { artifact = stored; metadata = small; age_seconds = 30 }

hits : lookup libraries tree request ≡ ok (hit found)
unfolding lookup text_eq dump_id_from_str sort_by parse_metadata from_wire bytes starts_with
hits = refl

hit_example : IsHit libraries request found
hit_example = lookup-IsHit libraries tree request found hits

lists : list_complete libraries tree (codes "sandbox") (codes "shop") ≡ ok (stored ∷ [])
unfolding list_complete text_eq dump_id_from_str sort_by parse_metadata from_wire bytes starts_with
lists = refl

readable : IsReadable libraries (record { artifact = stored; metadata = small })
unfolding try_acquire_lease read_metadata text_eq dump_id_from_str sort_by parse_metadata from_wire
    bytes starts_with
readable = record { leased = refl; read = refl }

answers : Answers request small
answers = record {
  same_profile = refl;
  same_database = refl;
  same_source = refl;
  same_policy = refl;
  completed = omega arith;
  recent = omega arith;
}

pub intact : HasDump libraries small files.dump
intact = record { bytes = 40 ∷ 41 ∷ 42 ∷ []; stored = refl; size = refl; digest = refl }

IsNewest-example : IsNewest (hit found) small
IsNewest-example =
    lookup-IsNewest libraries tree request (stored ∷ []) (hit found) stored small refl lists hits
      here readable refl answers intact

abbrev inventory : CacheInventoryRequest
inventory = record {
  source_fingerprints = (codes "sandbox", digest) ∷ [];
  policy_version = 2;
  now_unix_seconds = 50;
  ttl_seconds = 3600;
  retention_seconds = 7200;
}

abbrev candidate : LocatedDumpArtifact
candidate = record { profile = codes "sandbox"; database = codes "shop"; artifact = stored }

abbrev entry : CacheInventoryEntry
entry = record {
  profile = codes "sandbox";
  database = codes "shop";
  dump_id = 7;
  completed_at_unix_seconds = some 20;
  expires_at_unix_seconds = some 3620;
  compressed_bytes = some 3;
  status = ready;
}

inspected : inspect libraries inventory candidate ≡ ok entry
unfolding inspect get text_eq dump_id_from_str sort_by parse_metadata from_wire bytes starts_with
inspected = refl

ready_example : (entry.status ≡ ready) ↔ Reusable libraries inventory candidate
ready_example = inspect-ready_iff libraries inventory candidate entry inspected
