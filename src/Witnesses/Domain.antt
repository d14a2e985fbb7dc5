-- ===== src/Witnesses/Domain.antt =====
-- The value objects, the dump policy, the pruning and the metadata on small inputs.
use reprodb.Common.{
  ◌^◌, ℕ, zero, suc, ◌<◌, ◌≤◌, ◌+◌, ◌≡◌, ◌≢◌, ◌↔◌, inr, refl, true, List, [], ◌∷◌, All, keep, drop,
  ok, arith,
}
use reprodb.Common.Text.{Text, codes, bytes, text_eq, to_ascii_lowercase, eq_ignore_ascii_case}
use reprodb.Common.Sorting.{sort_by}
use reprodb.Domain.Names.{
  validate_database_name, validate_simple_identifier, validate_length, database_byte,
}
use reprodb.Domain.Names.Shape.{
  IsIdentifier, NotReserved, validate_database_name_iff, names_are_components,
}
use reprodb.Domain.Digest
use reprodb.Domain.Digest.{IsDigest, format}
use reprodb.Domain.Digest.RoundTrip.{from_str-format}
use reprodb.Domain.CredentialKey
use reprodb.Domain.CredentialKey.{CredentialKey, scope_text}
use reprodb.Domain.CredentialKey.RoundTrip.{key_from_str-display}
use reprodb.Domain.Version.{series_text, same_series}
use reprodb.Domain.Version.RoundTrip.{series_text_iff}
use reprodb.Domain.Dump.{non_innodb_tables, DumpPreflight, DatabaseObjectCounts, evaluate, off}
use reprodb.Domain.Dump.Policy.{IsSupported, IsConsistent, approved_plan, evaluate_iff}
use reprodb.Domain.Prune.{PruneCandidate, has_aged, select_for_prune, keep_last, newer, GroupKey}
use reprodb.Domain.Prune.Selection.{
  in_group, has_aged_iff, keep_last-group, SparesNewest, keep_last-SparesNewest,
}
use reprodb.Domain.Artifact.{from_wire}
use reprodb.Domain.Artifact.Metadata.{IsMetadata, from_wire_iff}
use reprodb.Domain.Dump.{encoding_try_new}
use reprodb.Witnesses.Samples.{unary, digest, zeros, sandbox_key, version_8_4, metadata}

database_name_example :
    (validate_database_name (codes "shop") ≡ ok tt)
    ↔ (IsIdentifier 64 database_byte (codes "shop") × NotReserved (codes "shop"))
database_name_example = validate_database_name_iff (codes "shop")

shop_is_a_name : validate_database_name (codes "shop") ≡ ok tt
unfolding validate_database_name validate_simple_identifier validate_length bytes
    eq_ignore_ascii_case text_eq to_ascii_lowercase
shop_is_a_name = refl

components_example : All (λ c. (c ≢ b'/') × (c ≢ b'.') × (c ≢ 0)) (codes "shop")
components_example = names_are_components (codes "shop") (inr shop_is_a_name)

zeros-All : (n : ℕ) → All (λ b. b < 256) (zeros n)
zeros-All zero = tt
zeros-All (suc n) = (omega arith, zeros-All n)

digest-IsDigest : IsDigest digest
digest-IsDigest = record { size = refl; in_range = zeros-All 32 }

digest_example : Digest.from_str (format digest) ≡ ok digest
digest_example = from_str-format digest digest-IsDigest

abbrev digest_text : Text
digest_text = codes "0000000000000000000000000000000000000000000000000000000000000000"

digest_parses : Digest.from_str digest_text ≡ ok digest
unfolding Digest.from_str Digest.from_pairs Digest.lowercase_hex_digit bytes
digest_parses = refl

key_example :
    CredentialKey.from_str unary (CredentialKey.display unary sandbox_key) ≡ ok sandbox_key
key_example = key_from_str-display unary sandbox_key

series_example :
    (series_text version_8_4 ≡ series_text version_8_4)
    ↔ (same_series version_8_4 version_8_4 ≡ true)
series_example = series_text_iff version_8_4 version_8_4

abbrev no_objects : DatabaseObjectCounts
no_objects = record { views = 0; triggers = 0; routines = 0; events = 0 }

abbrev preflight : DumpPreflight
preflight = record {
  encoding = record { charset = codes "utf8mb4"; collation = codes "utf8mb4_bin" };
  estimated_data_bytes = 1000;
  engines = record { engine = codes "InnoDB"; table_count = 3 } ∷ [];
  objects = no_objects;
  definers = no_objects;
  gtid_mode = off;
}

policy_example :
    (evaluate version_8_4 (codes "MySQL") version_8_4 (codes "shop") preflight
      ≡ ok (approved_plan (codes "utf8mb4") (codes "shop")))
    ↔ (IsSupported version_8_4 (codes "MySQL") version_8_4
        × IsConsistent preflight
        × (approved_plan (codes "utf8mb4") (codes "shop")
            ≡ approved_plan (codes "utf8mb4") (codes "shop")))
policy_example =
    evaluate_iff version_8_4 (codes "MySQL") version_8_4 (codes "shop") preflight
      (approved_plan (codes "utf8mb4") (codes "shop")) (omega arith)

-- The sum of the table counts wraps around, and tables of other engines go unseen.
wrapped :
    non_innodb_tables (record preflight {
      engines =
          record { engine = codes "MyISAM"; table_count = 2 ^ 63 }
          ∷ record { engine = codes "MEMORY"; table_count = 2 ^ 63 }
          ∷ [];
    })
    ≡ 0
unfolding non_innodb_tables eq_ignore_ascii_case to_ascii_lowercase text_eq
wrapped = refl

abbrev dump_at : ℕ → PruneCandidate
dump_at seconds = record {
  profile = codes "sandbox";
  database = codes "shop";
  dump_id = seconds;
  completed_at_unix_seconds = seconds;
  compressed_bytes = 40;
}

aged_example : (has_aged 10 50 (dump_at 20) ≡ true) ↔ (20 + 10 ≤ 50)
aged_example = has_aged_iff 10 50 (dump_at 20) (omega arith)

abbrev dumps : List PruneCandidate
dumps = dump_at 20 ∷ dump_at 40 ∷ dump_at 30 ∷ []

abbrev sandbox_shop : GroupKey
sandbox_shop = record { profile = codes "sandbox"; database = codes "shop" }

group_example :
    keep (in_group sandbox_shop) (select_for_prune (keep_last 1) dumps 50)
    ≡ drop 1 (sort_by newer (keep (in_group sandbox_shop) dumps))
group_example = keep_last-group 1 50 dumps sandbox_shop

spared_example :
    SparesNewest 1
      (keep (in_group sandbox_shop) dumps)
      (keep (in_group sandbox_shop) (select_for_prune (keep_last 1) dumps 50))
spared_example = keep_last-SparesNewest 1 50 dumps sandbox_shop

metadata_example : (from_wire metadata ≡ ok metadata) ↔ (
    (metadata ≡ metadata)
    × IsMetadata metadata
    × (encoding_try_new (codes "utf8mb4") (codes "utf8mb4_bin")
        ≡ ok (record { charset = codes "utf8mb4"; collation = codes "utf8mb4_bin" })))
metadata_example = from_wire_iff metadata metadata
