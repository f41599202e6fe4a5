-- ===== src/Worker/Files.antt =====
-- No export is done without its file: an invariant of createExport and of the worker's jobs.
pub mod Jobs
use mathlib.Core.Path.{subst}
use elydora_open_source.Prelude.{
  ℕ, ◌≡◌, refl, sym, ap, ◌∙◌, inl, inr, Bool, true, false, ◌||◌, Option, none, some, List, [], ◌∷◌,
  arith, All, All-imp, Bool-cases, Option-cases, if◌then◌else◌, find?,
}
use elydora_open_source.Prelude.Texts.{Text, text_eq}
use elydora_open_source.Model.Errors.{Result, ok, error, fault, Result-cases}
use elydora_open_source.Model.Entities.{ExportStatus, Export, AdminEvent, Operation}
use elydora_open_source.Model.Tables.{Database, DbResult-cases, done, has_operation_id}
use elydora_open_source.Model.Statements.{
  Statement, update_where, has_export_id, insert_export, insert_admin_event,
}
use elydora_open_source.Model.World.{
  World, Exec, Document, Stored, blob, anchor_document, Message, operation_message, export_message,
  tsa_message, execute, evidence_get, evidence_put, lift, pure, ◌>>=◌,
}
use elydora_open_source.Agents.{Call}
use elydora_open_source.Exports.{Supply, create_export, send}
use elydora_open_source.Exports.Requests.{ExportRequest}
use elydora_open_source.Worker.{
  ExportFile, Attempt, Query, file_of, is_empty, export_key, process_operation, process_export,
  stamp, anchor_path, process_tsa, process_job, store,
}
use elydora_open_source.Worker.Stamps.{Authority}
use elydora_open_source.Worker.Anchored.{anchor}
use elydora_open_source.Exports.Created.{insert-rows, event-rows}
use elydora_open_source.Worker.Exported.{get-put}
use elydora_open_source.Worker.Attempts.{with_status, ended_row, filed_row, running, filed, failing}
use elydora_open_source.Worker.Endings.{IsLeft, process_export-Ends}

-- Something is stored under a key.
abbrev pub IsStored : Text → List Stored → Type 0
IsStored key ss = (d : Document) × (evidence_get key ss ≡ some d)

-- An export that is done names a file that is stored.
abbrev pub HasFile : List Stored → Export → Type 0
HasFile ss x =
    x.status ≡ ExportStatus.done → (key : Text) × (x.r2_export_key ≡ some key) × IsStored key ss

abbrev pub KeepsFiles : World → Type 0
KeepsFiles w = All (HasFile w.evidence) w.db.exports

-- What is stored stays stored when another object is put, or the same one again.
put-IsStored :
    (key other : Text) (d : Document) (ss : List Stored)
    → IsStored key ss
    → IsStored key (evidence_put other d ss)
unfolding evidence_put evidence_get
put-IsStored key other d ss (e, there) = elim (Bool-cases (text_eq other key)) [
  | inl same ↦ (d, rw same refl)
  | inr differs ↦ (e, rw differs there)
]

put-HasFile :
    (other : Text) (d : Document) (ss : List Stored) (x : Export)
    → HasFile ss x
    → HasFile (evidence_put other d ss) x
put-HasFile other d ss x h = λ is_done.
    let (key, named, there) = h is_done in (key, named, put-IsStored key other d ss there)

update-HasFile :
    (ss : List Stored) (id : Text) (f : Export → Export) (xs : List Export)
    → ((x : Export) → HasFile ss (f x))
    → All (HasFile ss) xs
    → All (HasFile ss) (update_where (has_export_id id) f xs)
update-HasFile ss id f [] g h = tt
update-HasFile ss id f (x ∷ xs) g (k, h) = elim (Bool-cases (has_export_id id x)) [
  | inl mine ↦ rw mine (g x, update-HasFile ss id f xs g h)
  | inr other ↦ rw other (k, update-HasFile ss id f xs g h)
]

running-KeepsFiles : (id : Text) (w : World) → KeepsFiles w → KeepsFiles (running id w)
running-KeepsFiles id w h =
    update-HasFile w.evidence id (with_status ExportStatus.running) w.db.exports (λ x is_done. cc) h

failing-KeepsFiles :
    (now : ℕ) (id : Text) (w : World) → KeepsFiles w → KeepsFiles (failing now id w)
failing-KeepsFiles now id w h =
    update-HasFile w.evidence id (ended_row ExportStatus.failed now) w.db.exports (λ x is_done. cc)
      h

queued_done : (s : ExportStatus) → s ≡ ExportStatus.queued → s ≡ ExportStatus.done → ⊥
queued_done s h k = ground arith

put-stored : (key : Text) (d : Document) (ss : List Stored) → IsStored key (evidence_put key d ss)
put-stored key d ss = (d, get-put key d ss)

put-KeepsFiles :
    (key : Text) (d : Document) (w : World)
    → KeepsFiles w
    → KeepsFiles (record w { evidence = evidence_put key d w.evidence })
put-KeepsFiles key d w h =
    All-imp (HasFile w.evidence) (HasFile (evidence_put key d w.evidence)) w.db.exports
      (λ x k. put-HasFile key d w.evidence x k) h

filed-KeepsFiles :
    (a : Attempt) (id org t : Text) (w : World) → KeepsFiles w → KeepsFiles (filed a id org t w)
filed-KeepsFiles a id org t w h =
    update-HasFile (evidence_put (export_key org id) (blob t) w.evidence) id
      (filed_row (export_key org id) a.ended_at) w.db.exports
      (λ x is_done. (export_key org id, refl, put-stored (export_key org id) (blob t) w.evidence))
      (put-KeepsFiles (export_key org id) (blob t) w h)

pub queued-HasFile : (ss : List Stored) (x : Export) → x.status ≡ ExportStatus.queued → HasFile ss x
queued-HasFile ss x queued = λ is_done. absurd (queued_done x.status queued is_done)

-- An action that keeps the files
abbrev pub Keeps {ℓ} : {A : Type ℓ} → Exec A → Type 0
Keeps m = (w : World) → KeepsFiles w → KeepsFiles (m w).1

pub store-Keeps : (accepts : Bool) (key : Text) (d : Document) → Keeps (store accepts key d)
unfolding store
store-Keeps true key d w h = put-KeepsFiles key d w h
store-Keeps false key d w h = h

left-KeepsFiles :
    (render : ExportFile → Option Text) (a : Attempt) (id org params : Text) (w u : World)
    → IsLeft render a id org params w u
    → KeepsFiles w
    → KeepsFiles u
left-KeepsFiles render a id org params w u (inl same) h =
    subst KeepsFiles (sym same) (running-KeepsFiles id w h)
left-KeepsFiles render a id org params w u (inr (t, file, same)) h =
    subst KeepsFiles (sym same)
      (put-KeepsFiles (export_key org id) (blob t) (running id w) (running-KeepsFiles id w h))

pub process_export-Keeps :
    (render : ExportFile → Option Text) (a : Attempt) (id org params : Text)
    → Keeps (process_export render a id org params)
unfolding process_export
process_export-Keeps render a id org params w h =
    elim (Bool-cases (is_empty id || is_empty org || is_empty params)) [
      | inl missing ↦ rw (missing, process_export) h
      | inr given ↦ elim (process_export-Ends render a id org params w given) [
        | inl (t, file, ends) ↦
            rw ends (filed-KeepsFiles a id org t (running id w) (running-KeepsFiles id w h))
        | inr (inl (u, left, ends)) ↦
            rw ends (
              failing-KeepsFiles a.ended_at id u
                (left-KeepsFiles render a id org params w u left h))
        | inr (inr (inl (u, left, refuses, ends))) ↦
            rw ends (left-KeepsFiles render a id org params w u left h)
        | inr (inr (inr (refuses, ends))) ↦ rw ends h
      ]
    ]
