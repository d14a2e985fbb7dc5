-- ===== src/Domain/Dump.antt =====
-- domain/dump.rs: what the preflight reports of a source database, and the policy that approves a
-- dump of it.
pub mod Policy
use reprodb.Common.{
  ◌%◌, ◌^◌, ℕ, ◌+◌, ◌≤◌, ◌<◌, Bool, true, false, not, ◌&&◌, ◌||◌, List, [], ◌∷◌, ◌++◌, ◌==◌, ltb,
  leb, if◌then◌else◌, length, all, keep, saturating_add, Result, ok, err, ◌>>=◌, ◌>>◌, guard,
}
use reprodb.Common.Text.{
  Text, codes, bytes, text_eq, starts_with, contains, to_ascii_lowercase, eq_ignore_ascii_case,
  is_ascii_alphanumeric,
}
use reprodb.Domain.Names.{DatabaseName, is_empty}
use reprodb.Domain.Version.{MysqlVersion, same_series}

pub data DumpPreflightMetadataError : Type 0 where
  invalid_charset invalid_collation invalid_engine invalid_gtid_mode : DumpPreflightMetadataError

unfoldable pub validate_mysql_name : Text → ℕ → Bool
validate_mysql_name value max =
    not (is_empty value)
    && leb (length (bytes value)) max
    && all (λ byte. is_ascii_alphanumeric byte || byte == b'_' || byte == b'$') (bytes value)

pub record DatabaseEncoding : Type 0 where
  pub charset : Text
  pub collation : Text

unfoldable pub encoding_try_new : Text → Text → Result DumpPreflightMetadataError DatabaseEncoding
unfolding validate_mysql_name
encoding_try_new charset collation = do
  guard (validate_mysql_name charset 64) invalid_charset
  guard (validate_mysql_name collation 64) invalid_collation
  guard (starts_with collation (charset ++ b'_' ∷ [])) invalid_collation
  ok (record { charset = charset; collation = collation })

pub record StorageEngineUsage : Type 0 where
  pub engine : Text
  pub table_count : ℕ

unfoldable pub engine_try_new : Text → ℕ → Result DumpPreflightMetadataError StorageEngineUsage
unfolding validate_mysql_name
engine_try_new engine table_count =
    if not (validate_mysql_name engine 64) || table_count == 0
    then err invalid_engine
    else ok (record { engine = engine; table_count = table_count })

-- The same four counts stand for the objects and for those with a DEFINER.
pub record DatabaseObjectCounts : Type 0 where
  pub views : ℕ
  pub triggers : ℕ
  pub routines : ℕ
  pub events : ℕ

pub data GtidMode : Type 0 where
  off off_permissive on_permissive on : GtidMode

unfoldable pub gtid_parse : Text → Result DumpPreflightMetadataError GtidMode
gtid_parse value =
    if text_eq value (codes "OFF")
    then ok off
    else if text_eq value (codes "OFF_PERMISSIVE")
    then ok off_permissive
    else if text_eq value (codes "ON_PERMISSIVE")
    then ok on_permissive
    else if text_eq value (codes "ON")
    then ok on
    else err invalid_gtid_mode

pub record DumpPreflight : Type 0 where
  pub encoding : DatabaseEncoding
  pub estimated_data_bytes : ℕ
  pub engines : List StorageEngineUsage
  pub objects : DatabaseObjectCounts
  pub definers : DatabaseObjectCounts
  pub gtid_mode : GtidMode

pub data DumpPolicyNotice : Type 0 where
  concurrent_ddl_must_be_prevented : DumpPolicyNotice

pub record ApprovedDumpPlan : Type 0 where
  pub policy_version : ℕ
  pub arguments : List Text
  pub notices : List DumpPolicyNotice

pub data DumpPolicyError : Type 0 where
  unsupported_vendor unsupported_server_series client_server_series_mismatch : DumpPolicyError
  non_transactional_tables stored_routines_unsupported views_unsupported : ℕ → DumpPolicyError
  triggers_unsupported definer_objects_unsupported events_unsupported : ℕ → DumpPolicyError

abbrev pub mysql_8_dump_policy_version : ℕ
mysql_8_dump_policy_version = 2

-- `.map(table_count).sum()`, which wraps around in a release build. Both orders of the additions wrap
-- to the same sum.
abbrev pub sum_tables : List StorageEngineUsage → ℕ
sum_tables [] = 0
sum_tables (usage ∷ rest) = (usage.table_count + sum_tables rest) % 2 ^ 64

abbrev pub is_not_innodb : StorageEngineUsage → Bool
is_not_innodb usage = not (eq_ignore_ascii_case usage.engine (codes "InnoDB"))

unfoldable pub non_innodb_tables : DumpPreflight → ℕ
non_innodb_tables preflight = sum_tables (keep is_not_innodb preflight.engines)

unfoldable pub definer_count : DumpPreflight → ℕ
definer_count preflight =
    saturating_add
      (saturating_add (saturating_add preflight.definers.views preflight.definers.triggers)
        preflight.definers.routines)
      preflight.definers.events

-- The arguments of `mysqldump`, in their order.
unfoldable pub dump_arguments : Text → DatabaseName → List Text
dump_arguments charset database =
    codes "--single-transaction"
    ∷ codes "--quick"
    ∷ codes "--compression-algorithms=zstd,uncompressed"
    ∷ codes "--zstd-compression-level=1"
    ∷ codes "--no-tablespaces"
    ∷ codes "--hex-blob"
    ∷ codes "--set-gtid-purged=OFF"
    ∷ codes "--triggers"
    ∷ codes "--skip-routines"
    ∷ codes "--skip-events"
    ∷ codes "--skip-lock-tables"
    ∷ (codes "--default-character-set=" ++ charset)
    ∷ database
    ∷ []

abbrev pub is_mysql_8_series : MysqlVersion → Bool
is_mysql_8_series version = version.major == 8 && (version.minor == 0 || version.minor == 4)

unfoldable pub evaluate :
    MysqlVersion
    → Text
    → MysqlVersion
    → DatabaseName
    → DumpPreflight
    → Result DumpPolicyError ApprovedDumpPlan
evaluate server_version server_vendor client_version database preflight = do
  guard (not (contains (to_ascii_lowercase server_vendor) (codes "mariadb"))) unsupported_vendor
  guard (is_mysql_8_series server_version) unsupported_server_series
  guard (same_series client_version server_version) client_server_series_mismatch
  guard (not (ltb 0 (non_innodb_tables preflight)))
      (non_transactional_tables (non_innodb_tables preflight))
  guard (not (ltb 0 (definer_count preflight)))
      (definer_objects_unsupported (definer_count preflight))
  guard (not (ltb 0 preflight.objects.views)) (views_unsupported preflight.objects.views)
  guard (not (ltb 0 preflight.objects.triggers)) (triggers_unsupported preflight.objects.triggers)
  guard (not (ltb 0 preflight.objects.routines))
      (stored_routines_unsupported preflight.objects.routines)
  guard (not (ltb 0 preflight.objects.events)) (events_unsupported preflight.objects.events)
  ok (record {
    policy_version = mysql_8_dump_policy_version;
    arguments = dump_arguments preflight.encoding.charset database;
    notices = concurrent_ddl_must_be_prevented ∷ [];
  })
