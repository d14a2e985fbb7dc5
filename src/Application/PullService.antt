-- ===== src/Application/PullService.antt =====
-- application/pull_service.rs: a fresh dump of the active profile is reused or made, and restored. The
-- progress and the elapsed times that are reported are left out.
pub mod Pulled
use reprodb.Common.{
  ℕ, Bool, true, false, Option, none, some, List, [], ◌∷◌, ◌++◌, map, Result, ok, err, ◌>>=◌,
  map_err, ok_or,
}
use reprodb.Common.Text.{text_ord}
use reprodb.Common.Maps.{get}
use reprodb.Domain.Names.{ProfileName, DatabaseName, ContainerName}
use reprodb.Domain.Prune.{DumpId}
use reprodb.Domain.Dump.{mysql_8_dump_policy_version}
use reprodb.Infrastructure.CacheTree.{Libraries, CacheTree}
use reprodb.Infrastructure.CacheHit.{
  CacheLookup, CacheLookupResult, hit, miss, CacheError, ValidatedCacheHit,
  pull_freshness_ttl_seconds,
}
use reprodb.Infrastructure.Cache.{lookup_by_database}
use reprodb.Infrastructure.Config.{AppConfig, ConfigError, LocalTargetConfig, SourceProfileConfig}
use reprodb.Infrastructure.Config.Repository.{ConfigFile, load}
use reprodb.Infrastructure.Config.Fingerprint.{source_profile_fingerprint}
use reprodb.Application.LocalTargetGate
use reprodb.Application.RestoreEngine.{Answers, World}
use reprodb.Application.RestoreService.{
  RestoreServiceError, RestoreRequest, RestoreReady, no_restore_dump_selector, restore_to,
}

pub record PullTargetChoice : Type 0 where
  pub container : ContainerName
  pub is_default : Bool

pub data PullCacheUse : Type 0 where
  reused : ℕ → PullCacheUse
  created : PullCacheUse

-- Without the causes.
pub data PullServiceError : Type 0 where
  config_error : ConfigError → PullServiceError
  no_active_profile clock_error : PullServiceError
  cache_error : CacheError → PullServiceError
  dump_error : PullServiceError
  restore_error : RestoreServiceError → PullServiceError
  database_selection target_selection : PullServiceError

pub record PullReady : Type 0 where
  pub cache : PullCacheUse
  pub restored : RestoreReady

-- A dump that `DumpService` made: its ID, its database, and the cache that it leaves.
pub record Created : Type 0 where
  pub dump_id : DumpId
  pub database : DatabaseName
  pub tree : CacheTree

-- What the service asks outside: the clock, a new dump, the two selectors, and what the gate asks.
pub record Outside : Type 0 where
  pub now_unix_seconds : Option ℕ
  pub create : DatabaseName → Option Created
  pub select_target : List PullTargetChoice → Option ContainerName
  pub select_database : DatabaseName → Option DatabaseName
  pub gate : LocalTargetGate.Outside

abbrev target_choice : Bool → LocalTargetConfig → PullTargetChoice
target_choice is_default configured = record {
  container = configured.container_name;
  is_default = is_default;
}

abbrev default_choice : Option LocalTargetConfig → List PullTargetChoice
default_choice none = []
default_choice (some configured) = target_choice true configured ∷ []

abbrev other_choice : ContainerName × LocalTargetConfig → PullTargetChoice
other_choice (name, configured) = target_choice false configured

-- `configured_local_targets` and the closure that reads it.
unfoldable pub target_choices : AppConfig → List PullTargetChoice
target_choices config = default_choice config.local_target ++ map other_choice config.local_targets

pub record Active : Type 0 where
  pub config : AppConfig
  pub name : ProfileName
  pub profile : SourceProfileConfig

unfoldable pub active : ConfigFile → Result PullServiceError Active
unfolding load get
active file = do
  config ← map_err config_error (load file)
  name ← ok_or no_active_profile config.active_profile
  profile ← ok_or no_active_profile (get name config.profiles)
  ok (record { config = config; name = name; profile = profile })

-- The dump to restore, its database, and the cache in which it is.
pub record Ready : Type 0 where
  pub cache : PullCacheUse
  pub dump_id : DumpId
  pub source_database : DatabaseName
  pub tree : CacheTree

abbrev pub request_of : Libraries → Active → ℕ → DatabaseName → Bool → CacheLookup
request_of lib current now database fresh = record {
  profile = current.name;
  database = database;
  source_fingerprint = source_profile_fingerprint lib.sha256 current.name current.profile;
  policy_version = mysql_8_dump_policy_version;
  now_unix_seconds = now;
  ttl_seconds = pull_freshness_ttl_seconds;
  fresh = fresh;
}

abbrev pub dump_on :
    Outside → CacheTree → DatabaseName → CacheLookupResult → Result PullServiceError Ready
dump_on outside tree database (hit found) = ok (record {
  cache = reused found.age_seconds;
  dump_id = found.metadata.dump_id;
  source_database = found.metadata.database;
  tree = tree;
})
dump_on outside tree database (miss reason) = do
  made ← ok_or dump_error (outside.create database)
  ok (record {
    cache = created;
    dump_id = made.dump_id;
    source_database = made.database;
    tree = made.tree;
  })

pub record Chosen : Type 0 where
  pub ready : Ready
  pub target_container : ContainerName
  pub target_database : DatabaseName

unfoldable pub choose_dump :
    Libraries
    → Outside
    → CacheTree
    → ConfigFile
    → DatabaseName
    → Bool
    → Result PullServiceError Chosen
unfolding active target_choices source_profile_fingerprint lookup_by_database
choose_dump lib outside tree file database fresh = do
  current ← active file
  target_container ← ok_or target_selection (outside.select_target (target_choices current.config))
  now ← ok_or clock_error outside.now_unix_seconds
  looked_up ←
      map_err cache_error (lookup_by_database lib tree (request_of lib current now database fresh))
  ready ← dump_on outside tree database looked_up
  target_database ← ok_or database_selection (outside.select_database ready.source_database)
  ok (record {
    ready = ready;
    target_container = target_container;
    target_database = target_database;
  })

abbrev pub restore_request : DatabaseName → Chosen → RestoreRequest
restore_request database c = record {
  database = database;
  dump_id = some c.ready.dump_id;
  target_container = some c.target_container;
  target_database = some c.target_database;
}

abbrev pub pulled :
    PullCacheUse → Result RestoreServiceError RestoreReady → Result PullServiceError PullReady
pulled use_of_cache (err e) = err (restore_error e)
pulled use_of_cache (ok restored) = ok (record { cache = use_of_cache; restored = restored })

abbrev pub restore_chosen :
    Libraries
    → Outside
    → Answers
    → ConfigFile
    → DatabaseName
    → Result PullServiceError Chosen
    → World
    → Result PullServiceError PullReady × World
restore_chosen lib outside answers file database (err e) w = (err e, w)
restore_chosen lib outside answers file database (ok c) w = (
  pulled c.ready.cache
      (restore_to lib c.ready.tree file
        (record { select = no_restore_dump_selector; gate = outside.gate }) answers
        (restore_request database c) w).0,
  (restore_to lib c.ready.tree file
      (record { select = no_restore_dump_selector; gate = outside.gate }) answers
      (restore_request database c) w).1,
)

unfoldable pub pull :
    Libraries
    → Outside
    → Answers
    → CacheTree
    → ConfigFile
    → DatabaseName
    → Bool
    → World
    → Result PullServiceError PullReady × World
unfolding choose_dump restore_to
pull lib outside answers tree file database fresh w =
    restore_chosen lib outside answers file database
      (choose_dump lib outside tree file database fresh) w
