-- ===== src/Application/RestoreService/Restored.antt =====
-- What a restore by the service did, and what it leaves where it fails.
use mathlib.Core.Path.{subst}
use reprodb.Common.{◌≡◌, ◌⊎◌, refl, ap, inl, inr, Result, ok, err, >>=-elim, map_err, map_err-eq-ok}
use reprodb.Domain.Prune.{DumpId}
use reprodb.Infrastructure.CacheTree.{Libraries, CacheTree}
use reprodb.Infrastructure.RestoreArtifact.{ValidatedRestoreArtifact, validate_by_id}
use reprodb.Infrastructure.RestoreArtifact.Intact.{IsValidated, validate_by_id-IsValidated}
use reprodb.Infrastructure.Config.Repository.{ConfigFile}
use reprodb.Application.LocalTargetGate.{GuardedLocalTarget, verify_named, authorize_database}
use reprodb.Application.RestoreEngine
use reprodb.Application.RestoreEngine.{RestoreCompleted, RestoreEngineError, Answers, World}
use reprodb.Application.RestoreEngine.Safety.{
  IsSafe, IsRestored, restore-IsSafe, restore-IsRestored,
}
use reprodb.Application.RestoreService.{
  RestoreRequest, RestoreServiceError, artifact_error, target_error, RestoreReady, Outside,
  Prepared, plan_of, or_source, chosen, prepare, ready_of, restore_prepared, restore_to,
}

module _ (lib : Libraries) (tree : CacheTree) (file : ConfigFile) (outside : Outside)
    (request : RestoreRequest) where
  -- What the service has checked before it starts the engine.
  pub record IsPrepared (p : Prepared) : Type 0 where
    pub dump_id : DumpId
    pub artifact : ValidatedRestoreArtifact
    pub chosen_id : chosen lib tree outside request.database request.dump_id ≡ ok dump_id
    pub validated : IsValidated lib request.database dump_id artifact
    pub metadata : p.metadata ≡ artifact.metadata
    pub verified : verify_named outside.gate request.target_container file ≡ ok p.target.target
    pub database : p.target.database ≡ or_source request.target_database request.database
    pub plan : p.plan ≡ plan_of p.target p.metadata

  prepare-IsPrepared : (p : Prepared) → prepare lib tree file outside request ≡ ok p → IsPrepared p
  unfolding prepare authorize_database
  prepare-IsPrepared p h =
      >>=-elim (chosen lib tree outside request.database request.dump_id) _ h λ dump_id c h₁.
        >>=-elim (map_err artifact_error (validate_by_id lib tree request.database dump_id)) _ h₁
          λ artifact a h₂.
            >>=-elim
              (map_err target_error (verify_named outside.gate request.target_container file)) _ h₂
              λ guarded g h₃. subst IsPrepared {x = found guarded artifact} {y = p} (cc) (record {
                dump_id = dump_id;
                artifact = artifact;
                chosen_id = c;
                validated = valid artifact dump_id a;
                metadata = refl;
                verified =
                    map_err-eq-ok target_error
                      (verify_named outside.gate request.target_container file) g;
                database =
                    ap (or_source request.target_database) (valid artifact dump_id a).same_database;
                plan = refl;
              })
    where
      found : GuardedLocalTarget → ValidatedRestoreArtifact → Prepared
      found guarded artifact = record {
        target = record {
          target = guarded;
          database = or_source request.target_database artifact.metadata.database;
        };
        metadata = artifact.metadata;
        plan =
            plan_of
              (record {
                target = guarded;
                database = or_source request.target_database artifact.metadata.database;
              })
              artifact.metadata;
      }

      valid :
          (artifact : ValidatedRestoreArtifact) (dump_id : DumpId)
          → map_err artifact_error (validate_by_id lib tree request.database dump_id) ≡ ok artifact
          → IsValidated lib request.database dump_id artifact
      valid artifact dump_id a =
          validate_by_id-IsValidated lib tree request.database dump_id artifact
            (map_err-eq-ok artifact_error (validate_by_id lib tree request.database dump_id) a)

  -- A restore that succeeded.
  pub record IsServed (ready : RestoreReady) (after : World) : Type 0 where
    pub p : Prepared
    pub done : RestoreCompleted
    pub prepared : IsPrepared p
    pub restored : IsRestored p.target p.metadata done after
    pub plan : ready.plan ≡ p.plan
    pub bytes : ready.imported_bytes ≡ done.imported_bytes

  ready_of-IsServed :
      (answers : Answers) (w after : World) (ready : RestoreReady) (p : Prepared)
      (r : Result RestoreEngineError RestoreCompleted × World)
      → IsPrepared p
      → RestoreEngine.restore answers p.target p.metadata w ≡ r
      → ready_of p.plan r.0 ≡ ok ready
      → r.1 ≡ after
      → IsServed ready after
  ready_of-IsServed answers w after ready p (err e, x) q r s a = absurd (cc)
  ready_of-IsServed answers w after ready p (ok done, x) q r s a = record {
    p = p;
    done = done;
    prepared = q;
    restored = restore-IsRestored answers p.target p.metadata w after done (cc);
    plan = cc;
    bytes = cc;
  }

  -- A restore that succeeds went into the target that the gate verified, into the database that was
  -- asked for, from an intact dump of the requested database; the whole dump was imported, from
  -- another server and of compatible versions, and the state file says so.
  pub restore_to-IsServed :
      (answers : Answers) (w after : World) (ready : RestoreReady)
      → restore_to lib tree file outside answers request w ≡ (ok ready, after)
      → IsServed ready after
  unfolding restore_to
  restore_to-IsServed answers w after ready h =
      served (prepare lib tree file outside request) refl h
    where
      served :
          (r : Result RestoreServiceError Prepared)
          → prepare lib tree file outside request ≡ r
          → restore_prepared answers r w ≡ (ok ready, after)
          → IsServed ready after
      served (err e) q s = absurd (cc)
      served (ok p) q s =
          ready_of-IsServed answers w after ready p
            (RestoreEngine.restore answers p.target p.metadata w) (prepare-IsPrepared p q) refl (cc)
            (cc)

  -- Whatever fails, the database is as it was, or the state file says that it is incomplete, or that
  -- it is ready, and then the whole of an intact dump was imported.
  pub restore_to-IsSafe :
      (answers : Answers) (w : World)
      → ((restore_to lib tree file outside answers request w).1.contents ≡ w.contents)
        ⊎ ((p : Prepared) × IsPrepared p
            × IsSafe p.target p.metadata w (restore_to lib tree file outside answers request w).1)
  unfolding restore_to
  restore_to-IsSafe answers w = safe (prepare lib tree file outside request) refl
    where
      safe :
          (r : Result RestoreServiceError Prepared)
          → prepare lib tree file outside request ≡ r
          → ((restore_prepared answers r w).1.contents ≡ w.contents)
            ⊎ ((p : Prepared) × IsPrepared p
                × IsSafe p.target p.metadata w (restore_prepared answers r w).1)
      safe (err e) q = inl refl
      safe (ok p) q = inr (p, prepare-IsPrepared p q, restore-IsSafe answers p.target p.metadata w)
