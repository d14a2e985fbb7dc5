-- ===== src/Domain/Dump/Policy.antt =====
-- The dump policy approves exactly the consistent dumps of supported servers.
use reprodb.Common.{
  ℕ, ◌+◌, ◌<◌, ◌≤◌, ◌^◌, ◌≡◌, ◌↔◌, ◌⊎◌, refl, sym, ap, ◌∙◌, false, List, [], ◌∷◌, All, keep, ok,
  arith,
}
use reprodb.Common.Text.{
  Text, codes, contains, to_ascii_lowercase, eq_ignore_ascii_case, text_eq_iff,
}
use reprodb.Domain.Names.{DatabaseName}
use reprodb.Domain.Version.{MysqlVersion, same_series}
use reprodb.Domain.Dump.{
  DumpPreflight, StorageEngineUsage, ApprovedDumpPlan, evaluate, non_innodb_tables, definer_count,
  dump_arguments, is_not_innodb, sum_tables, mysql_8_dump_policy_version,
  concurrent_ddl_must_be_prevented,
}

abbrev UsesInnodb : StorageEngineUsage → Type 0
UsesInnodb usage = (usage.table_count ≡ 0) ⊎ (to_ascii_lowercase usage.engine ≡ codes "innodb")

-- Nothing that the restore could not reproduce: every table of a positive count is InnoDB, and no
-- view, trigger, routine or event is there, with or without a DEFINER.
pub record IsConsistent (preflight : DumpPreflight) : Type 0 where
  pub innodb : All UsesInnodb preflight.engines
  pub views : preflight.objects.views ≡ 0
  pub triggers : preflight.objects.triggers ≡ 0
  pub routines : preflight.objects.routines ≡ 0
  pub events : preflight.objects.events ≡ 0
  pub definer_views : preflight.definers.views ≡ 0
  pub definer_triggers : preflight.definers.triggers ≡ 0
  pub definer_routines : preflight.definers.routines ≡ 0
  pub definer_events : preflight.definers.events ≡ 0

-- A supported pair of a server and a client.
pub record IsSupported (server : MysqlVersion) (vendor : Text) (client : MysqlVersion)
    : Type 0 where
  pub not_mariadb : contains (to_ascii_lowercase vendor) (codes "mariadb") ≡ false
  pub major : server.major ≡ 8
  pub minor : (server.minor ≡ 0) ⊎ (server.minor ≡ 4)
  pub client_major : client.major ≡ 8
  pub client_minor : client.minor ≡ server.minor

-- The tables that the server reports, with no bound on the sum.
abbrev pub total_tables : List StorageEngineUsage → ℕ
total_tables [] = 0
total_tables (usage ∷ rest) = usage.table_count + total_tables rest

sum_tables-bounded :
    (engines : List StorageEngineUsage)
    → total_tables engines < 2 ^ 64
    → sum_tables (keep is_not_innodb engines) ≤ total_tables engines
sum_tables-bounded [] fits = omega arith
sum_tables-bounded (usage ∷ rest) fits =
    let ih = sum_tables-bounded rest (omega (arith, fits)) in ground (arith, ih)

innodb_iff :
    (engines : List StorageEngineUsage)
    → total_tables engines < 2 ^ 64
    → (sum_tables (keep is_not_innodb engines) ≡ 0) ↔ All UsesInnodb engines
unfolding eq_ignore_ascii_case
innodb_iff [] fits = (λ h. tt, λ h. refl)
innodb_iff (usage ∷ rest) fits =
    let same = text_eq_iff (to_ascii_lowercase usage.engine) (codes "innodb") in
    let small : total_tables rest < 2 ^ 64 = omega (arith, fits) in
    let bound = sum_tables-bounded rest small in
    let ih = innodb_iff rest small in
    (λ h. ground (arith, same, ih, bound), λ h. ground (arith, same, ih))

non_innodb_tables_iff :
    (p : DumpPreflight)
    → total_tables p.engines < 2 ^ 64
    → (non_innodb_tables p ≡ 0) ↔ All UsesInnodb p.engines
unfolding non_innodb_tables
non_innodb_tables_iff p fits = innodb_iff p.engines fits

definer_count_iff :
    (p : DumpPreflight)
    → (definer_count p ≡ 0) ↔ (
        (p.definers.views ≡ 0)
        × (p.definers.triggers ≡ 0)
        × (p.definers.routines ≡ 0)
        × (p.definers.events ≡ 0))
unfolding definer_count
definer_count_iff p = ground arith

-- The plan that an approval returns.
abbrev pub approved_plan : Text → DatabaseName → ApprovedDumpPlan
approved_plan charset database = record {
  policy_version = mysql_8_dump_policy_version;
  arguments = dump_arguments charset database;
  notices = concurrent_ddl_must_be_prevented ∷ [];
}

module _ (server : MysqlVersion) (vendor : Text) (client : MysqlVersion) (database : DatabaseName)
    (p : DumpPreflight) (fits : total_tables p.engines < 2 ^ 64) where
  sound :
      (plan : ApprovedDumpPlan)
      → evaluate server vendor client database p ≡ ok plan
      → IsSupported server vendor client
        × IsConsistent p
        × (plan ≡ approved_plan p.encoding.charset database)
  unfolding evaluate same_series
  sound plan h =
      let tables : non_innodb_tables p ≡ 0 = ground arith in
      let none_defined : definer_count p ≡ 0 = ground arith in
      let definers = (definer_count_iff p).0 none_defined in
      (
        record {
          not_mariadb = ground arith;
          major = ground arith;
          minor = ground arith;
          client_major = ground arith;
          client_minor = ground arith;
        },
        record {
          innodb = (non_innodb_tables_iff p fits).0 tables;
          views = ground arith;
          triggers = ground arith;
          routines = ground arith;
          events = ground arith;
          definer_views = definers.0;
          definer_triggers = definers.1;
          definer_routines = definers.2;
          definer_events = definers.3;
        },
        ground arith,
      )

  complete :
      IsSupported server vendor client
      → IsConsistent p
      → evaluate server vendor client database p ≡ ok (approved_plan p.encoding.charset database)
  unfolding evaluate same_series
  complete s c =
      let tables = (non_innodb_tables_iff p fits).1 c.innodb in
      let definers =
        (definer_count_iff p).1
          (c.definer_views, c.definer_triggers, c.definer_routines, c.definer_events) in
      ground arith

-- Where the number of tables fits in `u64`, a dump is approved exactly if the server is MySQL 8.0 or 8.4 and no MariaDB, the client is of the
-- server's series, every table is InnoDB and there is no view, trigger, routine, event or DEFINER;
-- the plan is then the policy's version, the fixed arguments of `mysqldump` and the notice.
pub evaluate_iff :
    (server : MysqlVersion) (vendor : Text) (client : MysqlVersion) (database : DatabaseName)
    (p : DumpPreflight) (plan : ApprovedDumpPlan)
    → total_tables p.engines < 2 ^ 64
    → (evaluate server vendor client database p ≡ ok plan) ↔ (
        IsSupported server vendor client
        × IsConsistent p
        × (plan ≡ approved_plan p.encoding.charset database))
evaluate_iff server vendor client database p plan fits = (
  sound server vendor client database p fits plan,
  λ h. complete server vendor client database p fits h.0 h.1 ∙ ap ok (sym h.2),
)
