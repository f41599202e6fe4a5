-- ===== src/Exports.antt =====
-- Exports: packages/server/src/services/export-service.ts, and the download of routes/exports.ts.
pub mod Requests
pub mod Created
use elydora_open_source.Prelude.{
  ℕ, Bool, true, false, ◌&&◌, ltb, String, Option, none, some, List, [], ◌∷◌, ◌++◌, find?, filter,
  if◌then◌else◌,
}
use elydora_open_source.Prelude.Texts.{Text, codes, text_eq}
use elydora_open_source.Json.{
  Json, ℤ, undefined, null, boolean, number, string, array, object, pos, negsuc, end, field,
}
use elydora_open_source.Json.Stringify.{stringify}
use elydora_open_source.Model.Errors.{
  AppError, keyed, validation_error, not_found, text, Result, ok, error, fault,
}
use elydora_open_source.Model.Entities.{ExportStatus, Export, AdminEvent, export_create}
use elydora_open_source.Model.Tables.{Database}
use elydora_open_source.Model.Statements.{insert_export, insert_admin_event}
use elydora_open_source.Model.World.{
  World, Exec, Document, Message, export_message, execute, lift, pure, ◌>>=◌, evidence_get,
}
use elydora_open_source.Exports.Requests.{
  ExportRequest, Checked, check_request, query_json, export_refused,
}
use elydora_open_source.Agents.{Call, admin_event}

abbrev pub text_or_empty : Option Text → Text
text_or_empty none = []
text_or_empty (some t) = t

-- What the process supplies: generated ids, and whether the queue takes the message.
pub record Supply : Type 0 where
  pub export_id : Text
  pub message_id : Text
  pub queue_accepts : Bool

unfoldable pub export_row : Call → Supply → Text → Export
export_row c s query_params = record {
  export_id = s.export_id;
  org_id = c.org_id;
  status = ExportStatus.queued;
  query_params = query_params;
  r2_export_key = none;
  created_at = c.now;
  completed_at = none;
}

-- queue.send
unfoldable pub send : Supply → Message → Exec (Unit {0})
send s m w =
    if s.queue_accepts
    then (ok tt, record w { queue = record { message_id = s.message_id; body = m } ∷ w.queue })
    else (fault, w)

-- createExport: the row, the event and the message are three writes of their own.
unfoldable pub create_export : Call → Supply → ExportRequest → Exec Export
create_export c s r = do
  q ← lift (check_request r)
  let params = text_or_empty (stringify (query_json r q))
  _ ← execute (insert_export (export_row c s params))
  _ ←
      execute
        (insert_admin_event (admin_event c export_create "export" s.export_id (query_json r q)))
  _ ← send s (export_message s.export_id c.org_id params)
  pure (export_row c s params)

-- WHERE export_id = ? AND org_id = ?
abbrev pub is_export : Text → Text → Export → Bool
is_export export_id org_id x = text_eq x.export_id export_id && text_eq x.org_id org_id

-- exportRecord.status === 'done' && exportRecord.r2_export_key
abbrev pub file_key : Export → Option Text
file_key x = elim x.status [
  | ExportStatus.done ↦ elim x.r2_export_key [
    | none ↦ none
    | some [] ↦ none
    | some (c ∷ s) ↦ some (c ∷ s)
  ]
  | ExportStatus.queued ↦ none
  | ExportStatus.running ↦ none
  | ExportStatus.failed ↦ none
]

abbrev download_url : Text → Text
download_url export_id = codes "/v1/exports/" ++ (export_id ++ codes "/download")

-- A path for a file that is there
unfoldable pub url_of : Export → World → Option Text
url_of x w = elim (file_key x) [
  | none ↦ none
  | some key ↦ elim (evidence_get key w.evidence) [
    | none ↦ none
    | some d ↦ some (download_url x.export_id)
  ]
]

-- getExport
unfoldable pub get_export : Text → Text → World → Result (Export × Option Text)
get_export export_id org_id w = elim (find? (is_export export_id org_id) w.db.exports) [
  | none ↦ error (keyed 404 not_found "export.notFound" (("id", text export_id) ∷ []))
  | some x ↦ ok (x, url_of x w)
]

-- GET /v1/exports/:export_id/download: the object that is sent
unfoldable pub download_export : Text → Text → World → Result Document
download_export export_id org_id w = elim (find? (is_export export_id org_id) w.db.exports) [
  | none ↦ error (keyed 404 not_found "export.notFoundById" (("id", text export_id) ∷ []))
  | some x ↦ elim (file_key x) [
    | none ↦ error (export_refused "export.notYetComplete")
    | some key ↦ elim (evidence_get key w.evidence) [
      | none ↦ error (keyed 404 not_found "export.fileNotFound" [])
      | some d ↦ ok d
    ]
  ]
]
