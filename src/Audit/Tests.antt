-- ===== src/Audit/Tests.antt =====
-- Queries of the audit log on concrete rows, and the theorems at these.
use mathlib.Core.List.{Perm}
use elydora_open_source.Prelude.{
  arith, ◌≡◌, refl, none, some, List, [], ◌∷◌, filter, length, All, ◌≤◌,
}
use elydora_open_source.Prelude.Texts.{codes, text_eq, text_lt}
use elydora_open_source.Json.{pos, undefined}
use elydora_open_source.Crypto.Utf8.Bytes.{all_units, units_of}
use elydora_open_source.Model.Errors.{ok}
use elydora_open_source.Model.Entities.{Operation}
use elydora_open_source.Model.Tables.{Database}
use elydora_open_source.Audit.{
  AuditQuery, max_query_limit, matches, insert_row, newest_first, page_of, fetch_page, query_audit,
}
use elydora_open_source.Audit.Cursors.{encode_cursor, decode_cursor}
use elydora_open_source.Audit.Cursors.RoundTrip.{cursor-read}
use elydora_open_source.Audit.Order.{AreDistinct, IsNewestFirst}
use elydora_open_source.Audit.Following.{follow, follow_pages}
use elydora_open_source.Audit.Isolated.{query_audit-IsBounded}
use elydora_open_source.Samples.{empty_database, operation_at}

abbrev rows : Database
rows = record empty_database {
  operations =
      operation_at (codes "x") 2 (codes "Bg")
      ∷ operation_at (codes "y") 9 (codes "AQ")
      ∷ operation_at (codes "z") 9 (codes "Aw")
      ∷ [];
}

abbrev asked : AuditQuery
asked = record {
  agent_id = none;
  operation_type = none;
  start_time = undefined;
  end_time = undefined;
  cursor = none;
  limit = some (pos 2);
}

run : Unit {0}
unfolding text_eq text_lt insert_row newest_first page_of fetch_page query_audit all_units
    AreDistinct
run = tt

cursor-read_example :
    decode_cursor (encode_cursor (record { created_at = pos 9; id = codes "x" }))
    ≡ some (record { created_at = pos 9; id = codes "x" })
unfolding run
cursor-read_example =
    cursor-read (record { created_at = pos 9; id = codes "x" }) (units_of (codes "x") refl)

follow_pages_example :
    (found : List Operation) × (follow 4 asked (codes "o") rows ≡ ok found)
    × IsNewestFirst found
    × Perm found (filter (matches asked (codes "o") none none) rows.operations)
unfolding run
follow_pages_example =
    follow_pages 4 asked (codes "o") none none rows ((refl, (refl, tt)), ((refl, tt), (tt, tt)))
      (units_of (codes "x") refl, (units_of (codes "y") refl, (units_of (codes "z") refl, tt))) refl
      refl refl (omega arith)

query_audit-IsBounded_example :
    (length (page_of 2 3 (newest_first rows.operations)).operations ≤ max_query_limit)
    × All
        (λ (o : Operation). o.org_id ≡ codes "o")
        (page_of 2 3 (newest_first rows.operations)).operations
unfolding run
query_audit-IsBounded_example =
    query_audit-IsBounded asked (codes "o") rows (page_of 2 3 (newest_first rows.operations)) refl
