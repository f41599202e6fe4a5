-- ===== src/Worker/Endings.antt =====
-- The ways in which a job for an export ends, as worlds: processExport of Worker.
use mathlib.Core.Path.{subst}
use elydora_open_source.Prelude.{
  ◌≡◌, sym, refl, ◌∙◌, ◌⊎◌, inl, inr, true, false, ◌||◌, Option, some, List, Bool-cases,
}
use elydora_open_source.Prelude.Texts.{Text}
use elydora_open_source.Json.Parse.{parse}
use elydora_open_source.Model.Errors.{Result, ok, fault}
use elydora_open_source.Model.Entities.{ExportStatus, Operation}
use elydora_open_source.Model.Statements.{set_export_status, set_export_end}
use elydora_open_source.Model.World.{World}
use elydora_open_source.Worker.{
  Query, ExportFile, Attempt, parsed_query, is_empty, file_of, write_export, guarded_export,
  run_export, process_export, operations_for,
}
use elydora_open_source.Worker.Attempts.{
  stored, filed, running, failing, update-refused, mark-running, mark-done, mark-failed, IsFile,
  write-text, write-Written,
}

-- Everything that the job asks for on its way is done.
abbrev pub IsServed : Attempt → Type 0
IsServed a =
    (a.marks_running ≡ true) × (a.reads ≡ true) × (a.store_accepts ≡ true) × (a.marks_done ≡ true)

module _ (render : ExportFile → Option Text) where
  -- A world that the try block may leave behind when it throws
  abbrev pub IsLeft : Attempt → Text → Text → Text → World → World → Type 0
  IsLeft a id org params w u =
      (u ≡ running id w)
      ⊎ ((t : Text) × IsFile render a id org params w.db t × (u ≡ stored org id t (running id w)))

  IsFile-running :
      (a : Attempt) (id org params t : Text) (w : World)
      → IsFile render a id org params (running id w).db t
      → IsFile render a id org params w.db t
  unfolding operations_for
  IsFile-running a id org params t w h = record {
    query = h.query;
    operations = h.operations;
    parsed = h.parsed;
    read = h.read;
    written = h.written;
  }

  process-runs :
      (a : Attempt) (id org params : Text) (w : World)
      → is_empty id || is_empty org || is_empty params ≡ false
      → a.marks_running ≡ true
      → process_export render a id org params w
        ≡ guarded_export render a id org params (running id w)
  unfolding process_export run_export
  process-runs a id org params w given marks =
      rw (given, process_export, marks, mark-running id w) refl

  process-refused :
      (a : Attempt) (id org params : Text) (w : World)
      → is_empty id || is_empty org || is_empty params ≡ false
      → a.marks_running ≡ false
      → process_export render a id org params w ≡ (fault, w)
  unfolding process_export run_export
  process-refused a id org params w given refuses =
      rw
        (
          given,
          process_export,
          refuses,
          update-refused (set_export_status ExportStatus.running id) w,
        )
        refl

  guarded-ok :
      (a : Attempt) (id org params : Text) (w v : World)
      → write_export render a id org params w ≡ (ok tt, v)
      → guarded_export render a id org params w ≡ (ok tt, v)
  guarded-ok a id org params w v h = rw h refl

  guarded-failed :
      (a : Attempt) (id org params : Text) (w v : World)
      → a.marks_failed ≡ true
      → write_export render a id org params w ≡ (fault, v)
      → guarded_export render a id org params w ≡ (fault, failing a.ended_at id v)
  guarded-failed a id org params w v marks h = rw (h, marks, mark-failed a.ended_at id v) refl

  guarded-stuck :
      (a : Attempt) (id org params : Text) (w v : World)
      → a.marks_failed ≡ false
      → write_export render a id org params w ≡ (fault, v)
      → guarded_export render a id org params w ≡ (fault, v)
  guarded-stuck a id org params w v refuses h =
      rw (h, refuses, update-refused (set_export_end ExportStatus.failed a.ended_at id) v) refl

  -- The ways in which a job with its fields ends
  abbrev pub Ends : Attempt → Text → Text → Text → World → Result (Unit {0}) × World → Type 0
  Ends a id org params w r =
      ((t : Text) × IsFile render a id org params w.db t
        × (r ≡ (ok tt, filed a id org t (running id w))))
      ⊎ (((u : World) × IsLeft a id org params w u × (r ≡ (fault, failing a.ended_at id u)))
          ⊎ (((u : World) × IsLeft a id org params w u
                × (a.marks_failed ≡ false)
                × (r ≡ (fault, u)))
              ⊎ ((a.marks_running ≡ false) × (r ≡ (fault, w)))))

  thrown-Ends :
      (a : Attempt) (id org params : Text) (w u : World)
      → IsLeft a id org params w u
      → write_export render a id org params (running id w) ≡ (fault, u)
      → Ends a id org params w (guarded_export render a id org params (running id w))
  thrown-Ends a id org params w u left h = elim (Bool-cases a.marks_failed) [
    | inl marks ↦ inr (inl (u, left, guarded-failed a id org params (running id w) u marks h))
    | inr refuses ↦
        inr (inr (inl (u, left, refuses, guarded-stuck a id org params (running id w) u refuses h)))
  ]

  guarded-Ends :
      (a : Attempt) (id org params : Text) (w : World)
      → Ends a id org params w (guarded_export render a id org params (running id w))
  guarded-Ends a id org params w =
      let v = running id w in
      elim (write-Written render a id org params v) [
        | inl (t, file, wrote) ↦ inl (
          t,
          IsFile-running a id org params t w file,
          guarded-ok a id org params v (filed a id org t v) wrote,
        )
        | inr (inl (t, file, threw)) ↦
            thrown-Ends a id org params w (stored org id t v)
              (inr (t, IsFile-running a id org params t w file, refl)) threw
        | inr (inr threw) ↦ thrown-Ends a id org params w v (inl refl) threw
      ]

  pub process_export-Ends :
      (a : Attempt) (id org params : Text) (w : World)
      → is_empty id || is_empty org || is_empty params ≡ false
      → Ends a id org params w (process_export render a id org params w)
  process_export-Ends a id org params w given = elim (Bool-cases a.marks_running) [
    | inl marks ↦
        subst (Ends a id org params w) (sym (process-runs a id org params w given marks))
          (guarded-Ends a id org params w)
    | inr refuses ↦ inr (inr (inr (refuses, process-refused a id org params w given refuses)))
  ]

  -- A job that nothing goes wrong with writes its file.
  pub process_export-filed :
      (a : Attempt) (id org params : Text) (q : Query) (os : List Operation) (t : Text) (w : World)
      → is_empty id || is_empty org || is_empty params ≡ false
      → parsed_query (parse params) ≡ ok q
      → operations_for a.coercion org q w.db ≡ some os
      → render (file_of a id org q os) ≡ some t
      → IsServed a
      → process_export render a id org params w ≡ (ok tt, filed a id org t (running id w))
  unfolding operations_for
  process_export-filed a id org params q os t w given parsed rows written served =
      let (marks, reads, accepts, ends) = served in
      let v = running id w in
      process-runs a id org params w given marks
      ∙ guarded-ok a id org params v (filed a id org t v) (
          write-text render a id org params q os t v parsed reads rows written accepts
          ∙ rw ends (mark-done a id org t v))
