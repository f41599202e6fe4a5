-- ===== src/Exports/Requests.antt =====
-- The request for an export: packages/server/src/services/export-service.ts.
use elydora_open_source.Prelude.{ℕ, ltb, String, [], if◌then◌else◌}
use elydora_open_source.Prelude.Texts.{Text, codes, text_eq}
use elydora_open_source.Json.{Json, undefined, null, number, string, object, pos, end, field}
use elydora_open_source.Model.Errors.{AppError, keyed, validation_error, Result, ok, error, ◌>>=◌}

-- CreateExportRequest, as its fields arrive.
pub record ExportRequest : Type 0 where
  pub start_time : Json
  pub end_time : Json
  pub agent_id : Json
  pub operation_type : Json
  pub format : Json

abbrev pub export_refused : String → AppError
export_refused key = keyed 400 validation_error key []

-- typeof t !== 'number' || t <= 0
abbrev positive_time : String → Json → Result ℕ
positive_time key (number (pos n)) = if ltb 0 n then ok n else error (export_refused key)
positive_time key _ = error (export_refused key)

abbrev in_order : ℕ → ℕ → Result (Unit {0})
in_order s t = if ltb s t then ok tt else error (export_refused "export.startBeforeEnd")

pub data Format : Type 0 where
  json pdf : Format

abbrev pub format_name : Format → Text
format_name json = codes "json"
format_name pdf = codes "pdf"

abbrev format_of : Json → Result Format
format_of (string s) =
    if text_eq s (codes "json")
    then ok json
    else if text_eq s (codes "pdf")
    then ok pdf
    else error (export_refused "export.invalidFormat")
format_of _ = error (export_refused "export.invalidFormat")

-- What is checked of a request: its times and format.
pub record Checked : Type 0 where
  pub start_time : ℕ
  pub end_time : ℕ
  pub format : Format

unfoldable pub check_request : ExportRequest → Result Checked
check_request r = do
  s ← positive_time "export.invalidStartTime" r.start_time
  t ← positive_time "export.invalidEndTime" r.end_time
  _ ← in_order s t
  f ← format_of r.format
  ok (record { start_time = s; end_time = t; format = f })

-- v ?? null
abbrev pub or_null : Json → Json
or_null undefined = null
or_null v = v

-- JSON.stringify of the query
unfoldable pub query_json : ExportRequest → Checked → Json
query_json r q = object (
    field (codes "start_time") (number (pos q.start_time)) (
      field (codes "end_time") (number (pos q.end_time)) (
        field (codes "agent_id") (or_null r.agent_id) (
          field (codes "operation_type") (or_null r.operation_type)
            (field (codes "format") (string (format_name q.format)) end)))))
