-- ===== src/Worker/Outcomes.antt =====
-- How a job for an export ends: processExport of Worker.
use elydora_open_source.Prelude.{
  ◌≡◌, refl, ◌⊎◌, inl, inr, Bool, true, false, ◌||◌, Option, some, List, [], ◌∷◌, arith, All,
  Bool-cases,
}
use elydora_open_source.Prelude.Texts.{Text}
use elydora_open_source.Model.Errors.{ok, fault}
use elydora_open_source.Model.Entities.{ExportStatus, Export}
use elydora_open_source.Model.Statements.{update_where, has_export_id}
use elydora_open_source.Model.World.{World, blob, evidence_put}
use elydora_open_source.Worker.{ExportFile, Attempt, export_key, is_empty, process_export}
use elydora_open_source.Worker.Attempts.{with_status, ended_row, filed_row, running, IsFile}
use elydora_open_source.Worker.Endings.{IsLeft, process_export-Ends}

clash : (b : Bool) → b ≡ true → b ≡ false → ⊥
clash b h k = ground arith

All-update :
    (P : Export → Type 0) (id : Text) (f : Export → Export) (xs : List Export)
    → ((x : Export) → has_export_id id x ≡ true → P (f x))
    → ((x : Export) → has_export_id id x ≡ false → P x)
    → All P (update_where (has_export_id id) f xs)
All-update P id f [] g h = tt
All-update P id f (x ∷ xs) g h = elim (Bool-cases (has_export_id id x)) [
  | inl mine ↦ rw mine (g x mine, All-update P id f xs g h)
  | inr other ↦ rw other (h x other, All-update P id f xs g h)
]

-- The rows of one export
abbrev pub OfExport : Text → (Export → Type 0) → World → Type 0
OfExport id P w = All (λ (x : Export). has_export_id id x ≡ true → P x) w.db.exports

abbrev pub IsFiled : Text → Export → Type 0
IsFiled key x = (x.status ≡ ExportStatus.done) × (x.r2_export_key ≡ some key)

abbrev pub IsTouched :
    (ExportFile → Option Text) → Attempt → Text → Text → Text → World → World → Type 0
IsTouched render a id org params w u =
    (u.evidence ≡ w.evidence)
    ⊎ ((t : Text) × IsFile render a id org params w.db t
        × (u.evidence ≡ evidence_put (export_key org id) (blob t) w.evidence))

-- The rows of the export in a status, after a job that may have stored its file
abbrev pub IsLeftAs :
    ExportStatus
    → (ExportFile → Option Text)
    → Attempt
    → Text
    → Text
    → Text
    → World
    → World
    → Type 0
IsLeftAs status render a id org params w u =
    OfExport id (λ (x : Export). x.status ≡ status) u × IsTouched render a id org params w u

update-status :
    (status : ExportStatus) (id : Text) (f : Export → Export) (xs : List Export)
    → ((x : Export) → (f x).status ≡ status)
    → All
        (λ (x : Export). has_export_id id x ≡ true → x.status ≡ status)
        (update_where (has_export_id id) f xs)
update-status status id f xs g =
    All-update (λ (x : Export). has_export_id id x ≡ true → x.status ≡ status) id f xs
      (λ x mine same. g x) (λ x other mine. absurd (clash (has_export_id id x) mine other))

module _ (render : ExportFile → Option Text) where
  left-IsTouched :
      (a : Attempt) (id org params : Text) (w u : World)
      → IsLeft render a id org params w u
      → IsTouched render a id org params w u
  left-IsTouched a id org params w u (inl same) = inl (rw same refl)
  left-IsTouched a id org params w u (inr (t, file, same)) = inr (t, file, rw same refl)

  left-running :
      (a : Attempt) (id org params : Text) (w u : World)
      → IsLeft render a id org params w u
      → OfExport id (λ (x : Export). x.status ≡ ExportStatus.running) u
  left-running a id org params w u left =
      let rows =
        update-status ExportStatus.running id (with_status ExportStatus.running) w.db.exports
          (λ x. refl) in
      elim left [ inl same ↦ rw same rows | inr (t, file, same) ↦ rw same rows ]

  -- A job for an export with its fields ends in one of four ways. It succeeds, every row of the
  -- export is done and names its file, and the file of its query is stored. It throws and every row
  -- of the export is failed; or it throws, since the UPDATE to failed failed, and every row is
  -- running; in both cases the store is as it was, or the file of the query is stored all the same.
  -- Or it throws, since the UPDATE to running failed, and nothing has changed.
  pub process_export-ends :
      (a : Attempt) (id org params : Text) (w : World)
      → is_empty id || is_empty org || is_empty params ≡ false
      → (((process_export render a id org params w).0 ≡ ok tt)
          × OfExport id (IsFiled (export_key org id)) (process_export render a id org params w).1
          × (t : Text) × IsFile render a id org params w.db t
          × ((process_export render a id org params w).1.evidence
              ≡ evidence_put (export_key org id) (blob t) w.evidence))
        ⊎ ((((process_export render a id org params w).0 ≡ fault)
              × IsLeftAs ExportStatus.failed render a id org params w
                  (process_export render a id org params w).1)
            ⊎ ((((process_export render a id org params w).0 ≡ fault)
                  × (a.marks_failed ≡ false)
                  × IsLeftAs ExportStatus.running render a id org params w
                      (process_export render a id org params w).1)
                ⊎ ((a.marks_running ≡ false)
                    × (process_export render a id org params w ≡ (fault, w)))))
  process_export-ends a id org params w given =
      elim (process_export-Ends render a id org params w given) [
        | inl (t, file, ends) ↦ inl (
          rw ends refl,
          rw ends (
              All-update (λ (x : Export). has_export_id id x ≡ true → IsFiled (export_key org id) x)
                id (filed_row (export_key org id) a.ended_at) (running id w).db.exports
                (λ x mine same. (refl, refl))
                (λ x other mine. absurd (clash (has_export_id id x) mine other))),
          t,
          file,
          rw ends refl,
        )
        | inr (inl (u, left, ends)) ↦ inr (
            inl (
              rw ends refl,
              rw ends (
                update-status ExportStatus.failed id (ended_row ExportStatus.failed a.ended_at)
                    u.db.exports (λ x. refl),
                left-IsTouched a id org params w u left,
              ),
            ))
        | inr (inr (inl (u, left, refuses, ends))) ↦ inr (
            inr (
              inl (
                rw ends refl,
                refuses,
                rw ends (
                  left-running a id org params w u left,
                  left-IsTouched a id org params w u left,
                ),
              )))
        | inr (inr (inr ends)) ↦ inr (inr (inr ends))
      ]
