-- ===== src/Application/PullService/Pulled.antt =====
-- What a pull that succeeds did.
use mathlib.Core.Path.{subst}
use reprodb.Common.{
  ℕ, ◌≡◌, ◌⊎◌, refl, inl, inr, Bool, some, Result, ok, err, >>=-elim, map_err, map_err-eq-ok, ok_or,
  ok_or-eq-ok,
}
use reprodb.Domain.Names.{DatabaseName}
use reprodb.Infrastructure.CacheTree.{Libraries, CacheTree}
use reprodb.Infrastructure.CacheHit.{CacheLookupResult, hit, miss, ValidatedCacheHit}
use reprodb.Infrastructure.Cache.{lookup_by_database}
use reprodb.Infrastructure.Cache.Validation.{IsHit}
use reprodb.Infrastructure.Cache.Lookup.{lookup_by_database-IsHit}
use reprodb.Infrastructure.Config.Repository.{ConfigFile}
use reprodb.Application.RestoreEngine.{Answers, World}
use reprodb.Application.RestoreService
use reprodb.Application.RestoreService.{
  RestoreServiceError, RestoreReady, no_restore_dump_selector, restore_to,
}
use reprodb.Application.RestoreService.Restored.{IsServed, restore_to-IsServed}
use reprodb.Application.PullService.{
  PullServiceError, cache_error, dump_error, clock_error, target_selection, database_selection,
  Outside, Active, active, Ready, Chosen, Created, PullReady, request_of, dump_on, choose_dump,
  restore_request, pulled, restore_chosen, pull, target_choices,
}

module _ (lib : Libraries) (outside : Outside) (tree : CacheTree) (file : ConfigFile)
    (database : DatabaseName) (fresh : Bool) where
  -- The restored dump is a hit of the lookup for the active profile as it is now configured.
  pub record IsReused (ready : Ready) : Type 0 where
    pub current : Active
    pub now : ℕ
    pub found : ValidatedCacheHit
    pub is_active : active file ≡ ok current
    pub is_now : outside.now_unix_seconds ≡ some now
    pub is_hit : IsHit lib (request_of lib current now database fresh) found
    pub dump_id : ready.dump_id ≡ found.metadata.dump_id
    pub same_tree : ready.tree ≡ tree

  -- The restored dump was made by this pull.
  pub record IsMade (ready : Ready) : Type 0 where
    pub made : Created
    pub is_made : outside.create database ≡ some made
    pub dump_id : ready.dump_id ≡ made.dump_id
    pub left_tree : ready.tree ≡ made.tree

  dump_on_sound :
      (current : Active) (now : ℕ) (looked_up : CacheLookupResult) (ready : Ready)
      → active file ≡ ok current
      → outside.now_unix_seconds ≡ some now
      → lookup_by_database lib tree (request_of lib current now database fresh) ≡ ok looked_up
      → dump_on outside tree database looked_up ≡ ok ready
      → IsReused ready ⊎ IsMade ready
  dump_on_sound current now (hit found) ready a n l h = inl (record {
    current = current;
    now = now;
    found = found;
    is_active = a;
    is_now = n;
    is_hit = lookup_by_database-IsHit lib tree (request_of lib current now database fresh) found l;
    dump_id = cc;
    same_tree = cc;
  })
  dump_on_sound current now (miss reason) ready a n l h =
      >>=-elim (ok_or dump_error (outside.create database)) _ h λ made m w. inr (record {
        made = made;
        is_made = ok_or-eq-ok dump_error (outside.create database) m;
        dump_id = cc;
        left_tree = cc;
      })

  choose_dump_sound :
      (c : Chosen)
      → choose_dump lib outside tree file database fresh ≡ ok c
      → IsReused c.ready ⊎ IsMade c.ready
  unfolding choose_dump
  choose_dump_sound c h = >>=-elim (active file) _ h λ current a h₁.
      >>=-elim (ok_or target_selection (outside.select_target (target_choices current.config))) _ h₁
        λ target t h₂. >>=-elim (ok_or clock_error outside.now_unix_seconds) _ h₂ λ now n h₃.
          >>=-elim
            (map_err cache_error
              (lookup_by_database lib tree (request_of lib current now database fresh)))
            _ h₃
            λ looked_up l h₄. >>=-elim (dump_on outside tree database looked_up) _ h₄ λ ready d h₅.
              >>=-elim (ok_or database_selection (outside.select_database ready.source_database)) _
                h₅
                λ target_database s h₆.
                  subst (λ (r : Ready). IsReused r ⊎ IsMade r) {x = ready} {y = c.ready} (cc)
                    (dump_on_sound current now looked_up ready a
                      (ok_or-eq-ok clock_error outside.now_unix_seconds n)
                      (map_err-eq-ok cache_error
                        (lookup_by_database lib tree (request_of lib current now database fresh)) l)
                      d)

  abbrev pub restore_outside : RestoreService.Outside
  restore_outside = record { select = no_restore_dump_selector; gate = outside.gate }

  pub record IsPulled (ready : PullReady) (after : World) : Type 0 where
    pub chosen : Chosen
    pub dump : IsReused chosen.ready ⊎ IsMade chosen.ready
    pub restored :
        IsServed lib chosen.ready.tree file restore_outside
          (restore_request database chosen)
          ready.restored
          after

  pulled-IsPulled :
      (answers : Answers) (w after : World) (ready : PullReady) (c : Chosen)
      (r : Result RestoreServiceError RestoreReady × World)
      → choose_dump lib outside tree file database fresh ≡ ok c
      → restore_to lib c.ready.tree file restore_outside answers (restore_request database c) w ≡ r
      → pulled c.ready.cache r.0 ≡ ok ready
      → r.1 ≡ after
      → IsPulled ready after
  pulled-IsPulled answers w after ready c (err e, x) q r s a = absurd (cc)
  pulled-IsPulled answers w after ready c (ok restored, x) q r s a = record {
    chosen = c;
    dump = choose_dump_sound c q;
    restored =
        restore_to-IsServed lib c.ready.tree file restore_outside (restore_request database c)
          answers w after ready.restored (cc);
  }

  -- A pull that succeeds restored either a hit of the cache for the active profile as it is now
  -- configured, recent and intact, or a dump that it made itself; and the restore met every condition
  -- of a restore by the service.
  pub pull-IsPulled :
      (answers : Answers) (w after : World) (ready : PullReady)
      → pull lib outside answers tree file database fresh w ≡ (ok ready, after)
      → IsPulled ready after
  unfolding pull
  pull-IsPulled answers w after ready h =
      on (choose_dump lib outside tree file database fresh) refl h
    where
      on :
          (r : Result PullServiceError Chosen)
          → choose_dump lib outside tree file database fresh ≡ r
          → restore_chosen lib outside answers file database r w ≡ (ok ready, after)
          → IsPulled ready after
      on (err e) q s = absurd (cc)
      on (ok c) q s =
          pulled-IsPulled answers w after ready c
            (restore_to lib c.ready.tree file restore_outside answers (restore_request database c)
              w)
            q refl (cc) (cc)
