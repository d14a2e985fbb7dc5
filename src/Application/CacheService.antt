-- ===== src/Application/CacheService.antt =====
-- application/cache_service.rs: what the `cache` commands do with the clock and the configuration.
use reprodb.Common.{
  ℕ, ◌+◌, ◌%◌, ◌^◌, Option, none, some, List, [], ◌∷◌, map, Result, ok, err, ◌>>=◌, map_err, ok_or,
}
use reprodb.Domain.Names.{ProfileName, DatabaseName}
use reprodb.Domain.Digest.{Sha256Digest}
use reprodb.Domain.Dump.{mysql_8_dump_policy_version}
use reprodb.Domain.Prune.{PruneSelection, default_retention_seconds}
use reprodb.Infrastructure.CacheTree.{Libraries, CacheTree}
use reprodb.Infrastructure.CacheHit.{CacheError, pull_freshness_ttl_seconds}
use reprodb.Infrastructure.Cache.Inventory.{CacheInventoryEntry, inspect_all}
use reprodb.Infrastructure.CacheCleanup
use reprodb.Infrastructure.CacheCleanup.{CacheCleanupError, CacheSweepReport, defaults_at}
use reprodb.Infrastructure.CachePrune
use reprodb.Infrastructure.CachePrune.{PrunePlan, PruneReport}
use reprodb.Infrastructure.Config.{ConfigError, SourceProfileConfig}
use reprodb.Infrastructure.Config.Repository.{ConfigFile, load}
use reprodb.Infrastructure.Config.Fingerprint.{source_profile_fingerprint}

pub data CacheServiceError : Type 0 where
  config_error : ConfigError → CacheServiceError
  clock_error : CacheServiceError
  cache_error : CacheError → CacheServiceError
  cleanup_error : CacheCleanupError → CacheServiceError

-- `CacheListEntry` and its status have the fields and the cases of the inventory's.
pub record CacheListReport : Type 0 where
  pub now_unix_seconds : ℕ
  pub total_compressed_bytes : ℕ
  pub entries : List CacheInventoryEntry

abbrev fingerprinted : Libraries → ProfileName × SourceProfileConfig → ProfileName × Sha256Digest
fingerprinted lib (name, profile) = (name, source_profile_fingerprint lib.sha256 name profile)

abbrev size_or_none : Option ℕ → ℕ
size_or_none none = 0
size_or_none (some size) = size

-- `filter_map(...).sum()`, which a release build wraps.
unfoldable pub total_bytes : List CacheInventoryEntry → ℕ
total_bytes [] = 0
total_bytes (entry ∷ entries) = (size_or_none entry.compressed_bytes + total_bytes entries) % 2 ^ 64

module _ (lib : Libraries) (tree : CacheTree) (file : ConfigFile) (clock : Option ℕ) where
  unfoldable pub list : Result CacheServiceError CacheListReport
  unfolding load source_profile_fingerprint inspect_all total_bytes
  list = do
    config ← map_err config_error (load file)
    now ← ok_or clock_error clock
    entries ← map_err cache_error (
        inspect_all lib tree (record {
          source_fingerprints = map (fingerprinted lib) config.profiles;
          policy_version = mysql_8_dump_policy_version;
          now_unix_seconds = now;
          ttl_seconds = pull_freshness_ttl_seconds;
          retention_seconds = default_retention_seconds;
        }))
    ok (record {
      now_unix_seconds = now;
      total_compressed_bytes = total_bytes entries;
      entries = entries;
    })

  abbrev sweep_at : Option ℕ → Result CacheServiceError CacheSweepReport × CacheTree
  sweep_at none = (err clock_error, tree)
  sweep_at (some now) = (
    map_err cleanup_error (CacheCleanup.sweep lib.uuid (defaults_at now) tree).0,
    (CacheCleanup.sweep lib.uuid (defaults_at now) tree).1,
  )

  unfoldable pub sweep : Result CacheServiceError CacheSweepReport × CacheTree
  unfolding CacheCleanup.sweep
  sweep = sweep_at clock

  unfoldable pub plan_prune :
      PruneSelection → Option DatabaseName → Result CacheServiceError PrunePlan
  unfolding CachePrune.plan_prune
  plan_prune selection database = do
    now ← ok_or clock_error clock
    map_err cleanup_error (CachePrune.plan_prune lib selection database now tree)

  unfoldable pub execute_prune : PrunePlan → Result CacheServiceError PruneReport × CacheTree
  unfolding CachePrune.execute_prune
  execute_prune plan = (
    map_err cleanup_error (CachePrune.execute_prune lib.uuid plan tree).0,
    (CachePrune.execute_prune lib.uuid plan tree).1,
  )
