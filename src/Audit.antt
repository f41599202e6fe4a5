-- ===== src/Audit.antt =====
-- Queries of the audit log: packages/server/src/services/audit-service.ts, with the cursors of
-- utils/pagination.ts in Cursors.
--
-- Identifiers are compared by code units, as in the C collation.
pub mod Cursors
pub mod Order
pub mod Following
pub mod Isolated
mod Tests
use elydora_open_source.Prelude.{
  ℕ, suc, ◌+◌, Bool, true, false, ◌&&◌, ◌||◌, ◌==◌, ltb, leb, String, Option, none, some, List, [],
  ◌∷◌, filter, take, last?, length, if◌then◌else◌,
}
use elydora_open_source.Prelude.Texts.{Text, text_eq, text_lt}
use elydora_open_source.Json.{Json, ℤ, pos, negsuc, undefined, null, number}
use elydora_open_source.Model.Errors.{
  AppError, keyed, validation_error, Result, ok, error, fault, ◌>>=◌,
}
use elydora_open_source.Model.Entities.{Operation}
use elydora_open_source.Model.Tables.{Database}
use elydora_open_source.Audit.Cursors.{Cursor, encode_cursor, decode_cursor}

-- AuditQueryRequest; an empty text is no filter and no cursor.
pub record AuditQuery : Type 0 where
  pub agent_id : Option Text
  pub operation_type : Option Text
  pub start_time : Json
  pub end_time : Json
  pub cursor : Option Text
  pub limit : Option ℤ

pub record AuditPage : Type 0 where
  pub operations : List Operation
  pub cursor : Option Text
  pub total_count : ℕ

abbrev default_query_limit : ℕ
default_query_limit = 100

abbrev pub max_query_limit : ℕ
max_query_limit = 1000

abbrev at_most : ℕ → ℕ → ℕ
at_most a b = if leb a b then a else b

abbrev at_least : ℕ → ℕ → ℕ
at_least a b = if leb a b then b else a

-- Math.min(Math.max(params.limit ?? DEFAULT_QUERY_LIMIT, 1), MAX_QUERY_LIMIT)
abbrev pub clamped : Option ℤ → ℕ
clamped none = default_query_limit
clamped (some (pos n)) = at_most (at_least n 1) max_query_limit
clamped (some (negsuc n)) = 1

abbrev refuse : String → AppError
refuse key = keyed 400 validation_error key []

-- A bound that is missing adds no condition.
abbrev pub time_bound : String → Json → Result (Option ℕ)
time_bound key undefined = ok none
time_bound key null = ok none
time_bound key (number (pos n)) = ok (some n)
time_bound key _ = error (refuse key)

abbrev pub passes : Option Text → Text → Bool
passes (some (c ∷ s)) t = text_eq t (c ∷ s)
passes _ t = true

abbrev from : Option ℕ → ℕ → Bool
from none t = true
from (some s) t = leb s t

abbrev until : Option ℕ → ℕ → Bool
until none t = true
until (some e) t = leb t e

-- The conditions of the count
abbrev pub matches : AuditQuery → Text → Option ℕ → Option ℕ → Operation → Bool
matches q org_id s e o =
    text_eq o.org_id org_id
    && passes q.agent_id o.agent_id
    && passes q.operation_type o.operation_type
    && from s o.created_at
    && until e o.created_at

-- created_at < ? OR (created_at = ? AND operation_id < ?)
abbrev pub behind : Cursor → Operation → Bool
behind c o = elim c.created_at [
  | pos n ↦ ltb o.created_at n || (o.created_at == n && text_lt o.operation_id c.id)
  | negsuc n ↦ false
]

abbrev pub behind_cursor : Option Cursor → Operation → Bool
behind_cursor none o = true
behind_cursor (some c) o = behind c o

-- Whether a row goes before another: ORDER BY created_at DESC, operation_id DESC
abbrev pub newer : Operation → Operation → Bool
newer o q =
    ltb q.created_at o.created_at
    || (q.created_at == o.created_at && text_lt q.operation_id o.operation_id)

unfoldable pub insert_row : Operation → List Operation → List Operation
insert_row o [] = o ∷ []
insert_row o (q ∷ qs) = let rest = insert_row o qs in if newer q o then q ∷ rest else o ∷ q ∷ qs

unfoldable pub newest_first : List Operation → List Operation
newest_first [] = []
newest_first (o ∷ os) = insert_row o (newest_first os)

-- params.cursor ? decodeCursor(params.cursor) : null
abbrev pub requested_cursor : Option Text → Result (Option Cursor)
requested_cursor (some (c ∷ s)) = elim (decode_cursor (c ∷ s)) [
  | none ↦ error (refuse "audit.invalidCursor")
  | some k ↦ ok (some k)
]
requested_cursor _ = ok none

abbrev pub cursor_of : Operation → Cursor
cursor_of o = record { created_at = pos o.created_at; id = o.operation_id }

-- The cursor behind the last row of a page
abbrev pub next_cursor : Option Operation → Option Text
next_cursor none = none
next_cursor (some o) = some (encode_cursor (cursor_of o))

-- The page from the rows that the query fetches, one more than it shows.
unfoldable pub page_of : ℕ → ℕ → List Operation → AuditPage
page_of limit total rows =
    let page = take limit rows in
    if ltb limit (length rows)
    then record { operations = page; cursor = next_cursor (last? page); total_count = total }
    else record { operations = rows; cursor = none; total_count = total }

unfoldable pub fetch_page :
    AuditQuery → Text → Option ℕ → Option ℕ → Option Cursor → Database → AuditPage
fetch_page q org_id s e c db =
    page_of (clamped q.limit) (length (filter (matches q org_id s e) db.operations)) (
      take (suc (clamped q.limit)) (
        newest_first
          (filter (λ (o : Operation). matches q org_id s e o && behind_cursor c o) db.operations)))

-- queryAudit
unfoldable pub query_audit : AuditQuery → Text → Database → Result AuditPage
query_audit q org_id db = do
  s ← time_bound "audit.invalidStartTime" q.start_time
  e ← time_bound "audit.invalidEndTime" q.end_time
  c ← requested_cursor q.cursor
  ok (fetch_page q org_id s e c db)
