-- ===== src/Worker/Files/Jobs.antt =====
-- The requests and jobs that Worker/Files is about, in any order.
use mathlib.Core.Path.{subst}
use elydora_open_source.Prelude.{
  ℕ, ◌≡◌, refl, sym, inl, inr, ◌||◌, Option, none, some, [], ◌∷◌, All, Bool-cases, Option-cases,
  find?,
}
use elydora_open_source.Prelude.Texts.{Text}
use elydora_open_source.Model.Errors.{Result, Result-cases}
use elydora_open_source.Model.Entities.{ExportStatus, Export, AdminEvent}
use elydora_open_source.Model.Tables.{Database, DbResult-cases, done, has_operation_id}
use elydora_open_source.Model.Statements.{Statement, insert_export, insert_admin_event}
use elydora_open_source.Model.World.{
  World, Exec, anchor_document, Message, operation_message, export_message, tsa_message, execute,
  lift, pure, ◌>>=◌,
}
use elydora_open_source.Agents.{Call}
use elydora_open_source.Exports.{Supply, create_export, send}
use elydora_open_source.Exports.Requests.{ExportRequest}
use elydora_open_source.Worker.{
  ExportFile, Attempt, is_empty, process_operation, stamp, anchor_path, process_tsa, process_job,
}
use elydora_open_source.Worker.Stamps.{Authority}
use elydora_open_source.Worker.Anchored.{anchor}
use elydora_open_source.Exports.Created.{insert-rows, event-rows}
use elydora_open_source.Json.Stringify.{stringify}
use elydora_open_source.Exports.{text_or_empty, export_row}
use elydora_open_source.Exports.Requests.{Checked, check_request, query_json}
use elydora_open_source.Agents.{admin_event}
use elydora_open_source.Model.Entities.{export_create}
use elydora_open_source.Worker.Files.{
  HasFile, KeepsFiles, Keeps, queued-HasFile, store-Keeps, process_export-Keeps,
}

process_operation-Keeps :
    (now : ℕ) (operation_id org_id : Text) → Keeps (process_operation now operation_id org_id)
unfolding process_operation
process_operation-Keeps now operation_id org_id w h =
    elim (Bool-cases (is_empty operation_id || is_empty org_id)) [
      | inl missing ↦ rw (missing, process_operation) h
      | inr given ↦ elim (Option-cases (find? (has_operation_id operation_id) w.db.operations)) [
        | inl absent ↦ rw (given, process_operation, absent) h
        | inr (o, found) ↦ rw (given, process_operation, found) h
      ]
    ]

process_tsa-Keeps :
    (fetch : Authority) (url : Option Text) (a : Attempt) (root : Option Text) (key : Text)
    → Keeps (process_tsa fetch url a root key)
unfolding process_tsa
process_tsa-Keeps fetch url a none key w h = h
process_tsa-Keeps fetch url a (some []) key w h = h
process_tsa-Keeps fetch url a (some (c ∷ root)) [] w h = h
process_tsa-Keeps fetch url a (some (c ∷ root)) (k ∷ key) w h =
    elim (Option-cases (stamp fetch url (c ∷ root))) [
      | inl failed ↦ rw (failed, process_tsa) h
      | inr (token, stamped) ↦
          rw (stamped, process_tsa)
            (store-Keeps a.store_accepts (anchor_path (k ∷ key))
              (anchor_document (anchor a url token)) w h)
    ]

process_job-Keeps :
    (fetch : Authority) (url : Option Text) (render : ExportFile → Option Text) (a : Attempt)
    → (m : Message) → Keeps (process_job fetch url render a m)
unfolding process_job
process_job-Keeps fetch url render a (operation_message o org agent) =
    process_operation-Keeps a.built_at o org
process_job-Keeps fetch url render a (export_message id org params) =
    process_export-Keeps render a id org params
process_job-Keeps fetch url render a (tsa_message id org root key) =
    process_tsa-Keeps fetch url a root key

chain-Keeps :
    {A : Type 0} {B : Type 0} (m : Exec A) (f : A → World → Result B × World)
    → Keeps m
    → ((a : A) → Keeps (f a))
    → Keeps (m >>= f)
chain-Keeps m f first next w h = elim (Result-cases (m w).0) [
  | inl (a, gives) ↦ rw gives (next a (m w).1 (first w h))
  | inr (inl (x, raises)) ↦ rw raises (first w h)
  | inr (inr faults) ↦ rw faults (first w h)
]

execute-Keeps :
    (s : Statement)
    → ((w : World) (db : Database)
        → s w.db ≡ done db
        → KeepsFiles w
        → KeepsFiles (record w { db = db }))
    → Keeps (execute s)
unfolding execute
execute-Keeps s kept w h = elim (DbResult-cases (s w.db)) [
  | inl (db, did) ↦ rw (did, execute) (kept w db did h)
  | inr (x, not) ↦ rw (not, execute) h
]

send-Keeps : (s : Supply) (m : Message) → Keeps (send s m)
unfolding send
send-Keeps s m w h = elim (Bool-cases s.queue_accepts) [
  | inl takes ↦ rw takes h
  | inr refuses ↦ rw refuses h
]

insert_export-Keeps :
    (x : Export) → x.status ≡ ExportStatus.queued → Keeps (execute (insert_export x))
insert_export-Keeps x queued = execute-Keeps (insert_export x) (λ w db did h.
    let (rows, operations) = insert-rows x w.db db did in
    subst (All (HasFile w.evidence)) (sym rows) (queued-HasFile w.evidence x queued, h))

insert_event-Keeps : (e : AdminEvent) → Keeps (execute (insert_admin_event e))
insert_event-Keeps e = execute-Keeps (insert_admin_event e) (λ w db did h.
    let (rows, operations) = event-rows e w.db db did in
    subst (All (HasFile w.evidence)) (sym rows) h)

lift-Keeps : {A : Type 0} (r : Result A) → Keeps (lift r)
lift-Keeps r w h = h

pure-Keeps : {A : Type 0} (a : A) → Keeps (pure a)
pure-Keeps a w h = h

new-queued :
    (c : Call) (s : Supply) (params : Text) → (export_row c s params).status ≡ ExportStatus.queued
unfolding export_row
new-queued c s params = refl

create_export-Keeps : (c : Call) (s : Supply) (r : ExportRequest) → Keeps (create_export c s r)
unfolding create_export
create_export-Keeps c s r =
    let params = λ (q : Checked). text_or_empty (stringify (query_json r q)) in
    let row = λ (q : Checked). export_row c s (params q) in
    let event =
      λ (q : Checked). admin_event c export_create "export" s.export_id (query_json r q) in
    let message = λ (q : Checked). export_message s.export_id c.org_id (params q) in
    let k4 = λ (q : Checked) (u : Unit {0}). pure (row q) in
    let k3 = λ (q : Checked) (u : Unit {0}). send s (message q) >>= k4 q in
    let k2 = λ (q : Checked) (u : Unit {0}). execute (insert_admin_event (event q)) >>= k3 q in
    let k1 = λ (q : Checked). execute (insert_export (row q)) >>= k2 q in
    chain-Keeps (lift (check_request r)) k1 (lift-Keeps (check_request r)) (λ q.
      chain-Keeps (execute (insert_export (row q))) (k2 q)
        (insert_export-Keeps (row q) (new-queued c s (params q)))
        (λ u.
          chain-Keeps (execute (insert_admin_event (event q))) (k3 q) (insert_event-Keeps (event q))
            (λ v.
              chain-Keeps (send s (message q)) (k4 q) (send-Keeps s (message q))
                (λ z. pure-Keeps (row q)))))

module _ (fetch : Authority) (url : Option Text) (render : ExportFile → Option Text) where
  -- The service takes a request for an export, or the worker runs a job: any message, at any time.
  pub data Step (w : World) : World → Type 0 where
    requests : (c : Call) (s : Supply) (r : ExportRequest) → Step w (create_export c s r w).1
    works : (a : Attempt) (m : Message) → Step w (process_job fetch url render a m w).1

  pub data Reach (w : World) : World → Type 0 where
    here : Reach w w
    next : {v v' : World} → Reach w v → Step v v' → Reach w v'

  Step-KeepsFiles : (v v' : World) → Step v v' → KeepsFiles v → KeepsFiles v'
  Step-KeepsFiles v _ (requests c s r) h = create_export-Keeps c s r v h
  Step-KeepsFiles v _ (works a m) h = process_job-Keeps fetch url render a m v h

  -- Whatever requests are taken and jobs are run, each export that is done names a stored file.
  pub Reach-KeepsFiles : (w v : World) → Reach w v → KeepsFiles w → KeepsFiles v
  Reach-KeepsFiles w _ here h = h
  Reach-KeepsFiles w _ (next {v} {v'} r s) h = Step-KeepsFiles v v' s (Reach-KeepsFiles w v r h)
