-- ===== src/Worker/Attempts.antt =====
-- How the try block of an export ends: processExport of Worker.
use elydora_open_source.Prelude.{
  ℕ, ◌≡◌, refl, ◌∙◌, ◌⊎◌, inl, inr, true, false, Option, none, some, List, arith, Bool-cases,
  Option-cases,
}
use elydora_open_source.Prelude.Texts.{Text}
use elydora_open_source.Json.{Json}
use elydora_open_source.Json.Parse.{parse}
use elydora_open_source.Model.Errors.{AppError, Result, ok, error, fault, Result-cases}
use elydora_open_source.Model.Entities.{ExportStatus, Export, Operation}
use elydora_open_source.Model.Statements.{
  Statement, update_where, has_export_id, set_export_status, set_export_file, set_export_end,
}
use elydora_open_source.Model.Tables.{Database}
use elydora_open_source.Model.World.{World, blob, execute, evidence_put}
use elydora_open_source.Worker.{
  Query, ExportFile, Attempt, parsed_query, export_key, store, update, file_of, read_rows,
  write_export, operations_for,
}

abbrev pub with_status : ExportStatus → Export → Export
with_status status x = record x { status = status }

abbrev pub ended_row : ExportStatus → ℕ → Export → Export
ended_row status now x = record x { status = status; completed_at = some now }

abbrev pub filed_row : Text → ℕ → Export → Export
filed_row key now x = record x {
  status = ExportStatus.done;
  r2_export_key = some key;
  completed_at = some now;
}

abbrev pub with_exports : World → List Export → World
with_exports w xs = record w { db = record w.db { exports = xs } }

-- The world after the file of an export was stored, and after its export was marked as well
abbrev pub stored : Text → Text → Text → World → World
stored org id t w = record w { evidence = evidence_put (export_key org id) (blob t) w.evidence }

abbrev pub filed : Attempt → Text → Text → Text → World → World
filed a id org t w = record w {
  db = record w.db {
    exports =
        update_where (has_export_id id) (filed_row (export_key org id) a.ended_at) w.db.exports;
  };
  evidence = evidence_put (export_key org id) (blob t) w.evidence;
}

abbrev pub running : Text → World → World
running id w =
    with_exports w (update_where (has_export_id id) (with_status ExportStatus.running) w.db.exports)

abbrev pub failing : ℕ → Text → World → World
failing now id w =
    with_exports w
      (update_where (has_export_id id) (ended_row ExportStatus.failed now) w.db.exports)

pub update-refused : (s : Statement) (w : World) → update false s w ≡ (fault, w)
unfolding update
update-refused s w = refl

pub mark-running :
    (id : Text) (w : World)
    → update true (set_export_status ExportStatus.running id) w ≡ (ok tt, running id w)
unfolding update execute set_export_status
mark-running id w = refl

pub mark-done :
    (a : Attempt) (id org t : Text) (w : World)
    → update true
        (set_export_file ExportStatus.done (export_key org id) a.ended_at id)
        (stored org id t w)
      ≡ (ok tt, filed a id org t w)
unfolding update execute set_export_file
mark-done a id org t w = refl

pub mark-failed :
    (now : ℕ) (id : Text) (w : World)
    → update true (set_export_end ExportStatus.failed now id) w ≡ (ok tt, failing now id w)
unfolding update execute set_export_end
mark-failed now id w = refl

parsed-no_error :
    (m : Option Json) (x : AppError) → ◌≡◌ {A = Result Query} (parsed_query m) (error x) → ⊥
parsed-no_error none x h = cc
parsed-no_error (some v) x h = ground arith

module _ (render : ExportFile → Option Text) where
  -- A text is the file of an export: that of the query in the message, over the rows that the
  -- database gives for it.
  pub record IsFile (a : Attempt) (id org params : Text) (db : Database) (t : Text) : Type 0 where
    pub query : Query
    pub operations : List Operation
    pub parsed : parsed_query (parse params) ≡ ok query
    pub read : operations_for a.coercion org query db ≡ some operations
    pub written : render (file_of a id org query operations) ≡ some t

  -- The three ways in which the try block ends
  abbrev pub Written : Attempt → Text → Text → Text → World → Result (Unit {0}) × World → Type 0
  Written a id org params w r =
      ((t : Text) × IsFile a id org params w.db t × (r ≡ (ok tt, filed a id org t w)))
      ⊎ (((t : Text) × IsFile a id org params w.db t × (r ≡ (fault, stored org id t w)))
          ⊎ (r ≡ (fault, w)))

  -- The end of the try block, once the text is there
  pub write-text :
      (a : Attempt) (id org params : Text) (q : Query) (os : List Operation) (t : Text) (w : World)
      → parsed_query (parse params) ≡ ok q
      → a.reads ≡ true
      → operations_for a.coercion org q w.db ≡ some os
      → render (file_of a id org q os) ≡ some t
      → a.store_accepts ≡ true
      → write_export render a id org params w
        ≡ update a.marks_done
            (set_export_file ExportStatus.done (export_key org id) a.ended_at id)
            (stored org id t w)
  unfolding write_export store read_rows
  write-text a id org params q os t w parsed reads rows written accepts =
      rw (parsed, reads, rows, written, accepts) refl

  write-refused :
      (a : Attempt) (id org params : Text) (q : Query) (os : List Operation) (t : Text) (w : World)
      → parsed_query (parse params) ≡ ok q
      → a.reads ≡ true
      → operations_for a.coercion org q w.db ≡ some os
      → render (file_of a id org q os) ≡ some t
      → a.store_accepts ≡ false
      → write_export render a id org params w ≡ (fault, w)
  unfolding write_export store read_rows
  write-refused a id org params q os t w parsed reads rows written refuses =
      rw (parsed, reads, rows, written, refuses) refl

  write-unwritten :
      (a : Attempt) (id org params : Text) (q : Query) (os : List Operation) (w : World)
      → parsed_query (parse params) ≡ ok q
      → a.reads ≡ true
      → operations_for a.coercion org q w.db ≡ some os
      → render (file_of a id org q os) ≡ none
      → write_export render a id org params w ≡ (fault, w)
  unfolding write_export read_rows
  write-unwritten a id org params q os w parsed reads rows unwritten =
      rw (parsed, reads, rows, unwritten) refl

  write-unread :
      (a : Attempt) (id org params : Text) (q : Query) (w : World)
      → parsed_query (parse params) ≡ ok q
      → a.reads ≡ true
      → operations_for a.coercion org q w.db ≡ none
      → write_export render a id org params w ≡ (fault, w)
  unfolding write_export read_rows
  write-unread a id org params q w parsed reads rows = rw (parsed, reads, rows) refl

  write-unavailable :
      (a : Attempt) (id org params : Text) (q : Query) (w : World)
      → parsed_query (parse params) ≡ ok q
      → a.reads ≡ false
      → write_export render a id org params w ≡ (fault, w)
  unfolding write_export read_rows
  write-unavailable a id org params q w parsed reads = rw (parsed, reads) refl

  write-unparsed :
      (a : Attempt) (id org params : Text) (w : World)
      → parsed_query (parse params) ≡ fault
      → write_export render a id org params w ≡ (fault, w)
  unfolding write_export
  write-unparsed a id org params w parsed = rw parsed refl

  text-Written :
      (a : Attempt) (id org params : Text) (q : Query) (os : List Operation) (t : Text) (w : World)
      → parsed_query (parse params) ≡ ok q
      → a.reads ≡ true
      → operations_for a.coercion org q w.db ≡ some os
      → render (file_of a id org q os) ≡ some t
      → Written a id org params w (write_export render a id org params w)
  text-Written a id org params q os t w parsed reads rows written =
      let file : IsFile a id org params w.db t = record {
        query = q;
        operations = os;
        parsed = parsed;
        read = rows;
        written = written;
      } in
      elim (Bool-cases a.store_accepts) [
        | inr refuses ↦
            inr (inr (write-refused a id org params q os t w parsed reads rows written refuses))
        | inl accepts ↦
            let last = write-text a id org params q os t w parsed reads rows written accepts in
            elim (Bool-cases a.marks_done) [
              | inl marks ↦ inl (t, file, last ∙ rw marks (mark-done a id org t w))
              | inr not ↦ inr (
                  inl (
                    t,
                    file,
                    last
                        ∙ rw not (
                            update-refused
                              (set_export_file ExportStatus.done (export_key org id) a.ended_at id)
                              (stored org id t w)),
                  ))
            ]
      ]

  pub write-Written :
      (a : Attempt) (id org params : Text) (w : World)
      → Written a id org params w (write_export render a id org params w)
  write-Written a id org params w = elim (Result-cases (parsed_query (parse params))) [
    | inr (inl (x, refused)) ↦ absurd (parsed-no_error (parse params) x refused)
    | inr (inr unparsed) ↦ inr (inr (write-unparsed a id org params w unparsed))
    | inl (q, parsed) ↦ elim (Bool-cases a.reads) [
      | inr unread ↦ inr (inr (write-unavailable a id org params q w parsed unread))
      | inl reads ↦ elim (Option-cases (operations_for a.coercion org q w.db)) [
        | inl none_read ↦ inr (inr (write-unread a id org params q w parsed reads none_read))
        | inr (os, rows) ↦ elim (Option-cases (render (file_of a id org q os))) [
          | inl unwritten ↦
              inr (inr (write-unwritten a id org params q os w parsed reads rows unwritten))
          | inr (t, written) ↦ text-Written a id org params q os t w parsed reads rows written
        ]
      ]
    ]
  ]
