-- ===== src/Exports/Created.antt =====
-- What a creation of an export that returns has done: createExport of Exports taken apart.
use elydora_open_source.Prelude.{◌≡◌, refl, sym, ap, ◌∙◌, inl, inr, Bool-cases, ◌∷◌, arith}
use elydora_open_source.Json.Stringify.{stringify}
use elydora_open_source.Model.Errors.{Result, ok}
use elydora_open_source.Model.Entities.{Export, AdminEvent, export_create}
use elydora_open_source.Model.Tables.{Database, DbResult-cases, done}
use elydora_open_source.Model.Statements.{insert_export, insert_admin_event}
use elydora_open_source.Model.World.{
  World, execute, lift, pure, Message, export_message, ◌>>=◌, >>=-eq-ok,
}
use elydora_open_source.Agents.{Call, admin_event}
use elydora_open_source.Exports.{Supply, text_or_empty, export_row, send, create_export}
use elydora_open_source.Exports.Requests.{ExportRequest, Checked, check_request, query_json}

-- Two worlds with the same exports, operations and store
pub record SameFiles (w v : World) : Type 0 where
  pub exports : w.db.exports ≡ v.db.exports
  pub operations : w.db.operations ≡ v.db.operations
  pub evidence : w.evidence ≡ v.evidence

pub insert-rows :
    (x : Export) (db db' : Database)
    → insert_export x db ≡ done db'
    → (db'.exports ≡ x ∷ db.exports) × (db'.operations ≡ db.operations)
unfolding insert_export
insert-rows x db db' h = (ground arith, ground arith)

pub event-rows :
    (e : AdminEvent) (db db' : Database)
    → insert_admin_event e db ≡ done db'
    → (db'.exports ≡ db.exports) × (db'.operations ≡ db.operations)
unfolding insert_admin_event
event-rows e db db' h = (ground arith, ground arith)

execute-export :
    (x : Export) (w : World) (u : Unit {0})
    → (execute (insert_export x) w).0 ≡ ok u
    → ((execute (insert_export x) w).1.db.exports ≡ x ∷ w.db.exports)
      × ((execute (insert_export x) w).1.db.operations ≡ w.db.operations)
      × ((execute (insert_export x) w).1.evidence ≡ w.evidence)
unfolding execute
execute-export x w u h = elim (DbResult-cases (insert_export x w.db)) [
  | inl (db, did) ↦ let (a, b) = insert-rows x w.db db did in rw (did, execute) (a, b, refl)
  | inr (e, not) ↦ absurd (ground arith)
]

execute-event :
    (e : AdminEvent) (w : World) (u : Unit {0})
    → (execute (insert_admin_event e) w).0 ≡ ok u
    → SameFiles (execute (insert_admin_event e) w).1 w
unfolding execute
execute-event e w u h = elim (DbResult-cases (insert_admin_event e w.db)) [
  | inl (db, did) ↦
      let (a, b) = event-rows e w.db db did in
      rw (did, execute) (record { exports = a; operations = b; evidence = refl })
  | inr (x, not) ↦ absurd (ground arith)
]

send-SameFiles : (s : Supply) (m : Message) (w : World) → SameFiles (send s m w).1 w
unfolding send
send-SameFiles s m w = elim (Bool-cases s.queue_accepts) [
  | inl takes ↦ rw takes (record { exports = refl; operations = refl; evidence = refl })
  | inr refuses ↦ rw refuses (record { exports = refl; operations = refl; evidence = refl })
]

ok_export : (x y : Export) → ◌≡◌ {A = Result Export} (ok x) (ok y) → x ≡ y
ok_export x y h = ground arith

-- A new row with the text of the query; operations and store are as they were.
pub record IsCreated (c : Call) (s : Supply) (r : ExportRequest) (w v : World) (x : Export)
    : Type 0 where
  pub query : Checked
  pub checks : check_request r ≡ ok query
  pub row : x ≡ export_row c s (text_or_empty (stringify (query_json r query)))
  pub added : v.db.exports ≡ x ∷ w.db.exports
  pub same_operations : v.db.operations ≡ w.db.operations
  pub same_evidence : v.evidence ≡ w.evidence

pub create_export-IsCreated :
    (c : Call) (s : Supply) (r : ExportRequest) (w : World) (x : Export)
    → (create_export c s r w).0 ≡ ok x
    → IsCreated c s r w (create_export c s r w).1 x
unfolding create_export
create_export-IsCreated c s r w x h =
    let params = λ (q : Checked). text_or_empty (stringify (query_json r q)) in
    let row = λ (q : Checked). export_row c s (params q) in
    let event =
      λ (q : Checked). admin_event c export_create "export" s.export_id (query_json r q) in
    let message = λ (q : Checked). export_message s.export_id c.org_id (params q) in
    let k4 = λ (q : Checked) (u : Unit {0}). pure (row q) in
    let k3 = λ (q : Checked) (u : Unit {0}). send s (message q) >>= k4 q in
    let k2 = λ (q : Checked) (u : Unit {0}). execute (insert_admin_event (event q)) >>= k3 q in
    let k1 = λ (q : Checked). execute (insert_export (row q)) >>= k2 q in
    let (q, checks, h1) = >>=-eq-ok (lift (check_request r)) k1 w x h in
    let (u, inserted, h2) = >>=-eq-ok (execute (insert_export (row q))) (k2 q) w x h1 in
    let w1 = (execute (insert_export (row q)) w).1 in
    let (v, logged, h3) = >>=-eq-ok (execute (insert_admin_event (event q))) (k3 q) w1 x h2 in
    let w2 = (execute (insert_admin_event (event q)) w1).1 in
    let (z, sent, h4) = >>=-eq-ok (send s (message q)) (k4 q) w2 x h3 in
    let final : (create_export c s r w).1 ≡ (send s (message q) w2).1 =
      rw (checks, inserted, logged, sent) refl in
    let (rows, operations, evidence) = execute-export (row q) w u inserted in
    let event_kept = execute-event (event q) w1 v logged in
    let kept = send-SameFiles s (message q) w2 in
    let is_row : row q ≡ x = ok_export (row q) x h4 in
    record {
      query = q;
      checks = checks;
      row = sym is_row;
      added =
          ap (λ (v : World). v.db.exports) final
          ∙ kept.exports
          ∙ event_kept.exports
          ∙ rows
          ∙ ap (λ (y : Export). y ∷ w.db.exports) is_row;
      same_operations =
          ap (λ (v : World). v.db.operations) final
          ∙ kept.operations
          ∙ event_kept.operations
          ∙ operations;
      same_evidence =
          ap (λ (v : World). v.evidence) final ∙ kept.evidence ∙ event_kept.evidence ∙ evidence;
    }
