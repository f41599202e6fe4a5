-- ===== src/Operations/Accepted.antt =====
-- A submission that returned: what submitOperation of Operations/Submit has written.
use mathlib.Core.Path.{subst}
use elydora_open_source.Prelude.{ℕ, ◌≡◌, refl, sym, ap, ◌∙◌, List, ◌∷◌}
use elydora_open_source.Crypto.Platform.{Platform}
use elydora_open_source.Model.Errors.{ok}
use elydora_open_source.Model.Entities.{Eor, Ear}
use elydora_open_source.Model.Tables.{Database}
use elydora_open_source.Model.World.{
  World, Stored, eor_document, ear_document, evidence_put, >>=-eq-ok,
}
use elydora_open_source.Operations.Checks.{check_eor}
use elydora_open_source.Operations.Submit.{
  Request, payload_key, receipt_key, build_operation, build_receipt_fields, sign_receipt, Pending,
  prepare, commit, submit_operation,
}
use elydora_open_source.Operations.Prepared.{receipt_row, prepare-Prepared}
use elydora_open_source.Operations.Chain.{Extends, IsChained}
use elydora_open_source.Operations.Eor.{RawEor, validate_eor_fields}
use elydora_open_source.Operations.Committed.{Inserted, commit-Inserted}
use elydora_open_source.Operations.Ready.{IsReady, prepare-IsReady, ready-Extends}

module _ (p : Platform) where
  -- A world in which the rows and the documents of an accepted submission were added.
  pub record IsAccepted (r : Request) (e : Eor) (n : ℕ) (ear : Ear) (db : Database) (w : World)
      : Type 0 where
    pub checked : check_eor p e db ≡ ok n
    pub signed :
        sign_receipt p r (build_receipt_fields p r (build_operation p r.received_at e n)) ≡ ok ear
    pub same_keys : w.db.agent_keys ≡ db.agent_keys
    pub extends : Extends p (build_operation p r.received_at e n) db.operations
    pub chained : IsChained p db.operations
    pub added : w.db.operations ≡ build_operation p r.received_at e n ∷ db.operations
    pub received : w.db.receipts ≡ receipt_row r e ∷ db.receipts
    pub before : List Stored
    pub kept :
        w.evidence
        ≡ evidence_put
            (receipt_key e)
            (ear_document ear)
            (evidence_put (payload_key e) (eor_document e) before)

  submit-steps :
      (r : Request) (raw : RawEor) (w : World) (ear : Ear)
      → (submit_operation p r raw w).0 ≡ ok ear
      → (s : Pending) × ((prepare p r raw w).0 ≡ ok s)
        × ((commit r s (prepare p r raw w).1).0 ≡ ok ear)
        × ((submit_operation p r raw w).1 ≡ (commit r s (prepare p r raw w).1).1)
  unfolding submit_operation
  submit-steps r raw w ear h =
      let (s, ready, answer) = >>=-eq-ok (prepare p r raw) (λ s. commit r s) w ear h in
      (s, ready, answer, rw ready refl)

  -- The parts of a submission that returned, from the state it found to the state it left.
  submitted-IsAccepted :
      (r : Request) (raw : RawEor) (w : World) (s : Pending) (ear : Ear)
      → IsChained p w.db.operations
      → (prepare p r raw w).0 ≡ ok s
      → (commit r s (prepare p r raw w).1).0 ≡ ok ear
      → (e : Eor) × (n : ℕ) × (validate_eor_fields raw r.received_at ≡ ok e)
        × IsAccepted r e n ear w.db (commit r s (prepare p r raw w).1).1
  submitted-IsAccepted r raw w s ear c ready answer =
      let q = prepare-Prepared p r raw w s ready in
      let w1 = (prepare p r raw w).1 in
      let w2 = (commit r s w1).1 in
      let same_db : w1.db ≡ w.db = ap (λ (v : World). v.db) q.final in
      let (same_ear, i1, evidence) = commit-Inserted r s w1 ear answer in
      let i2 = subst (λ (d : Database). Inserted s d w2.db) same_db i1 in
      let i = subst (λ (t : Pending). Inserted t w.db w2.db) q.result i2 in
      let fit =
        subst (λ (t : Pending). IsReady p t.operation w.db.operations) q.result
          (prepare-IsReady p r raw w s ready) in
      (
        q.eor,
        q.seq_no,
        q.validated,
        record {
          checked = q.checked;
          signed = q.signed ∙ ap ok (sym same_ear);
          same_keys = i.same_keys;
          extends = ready-Extends p _ w.db w2.db c fit i;
          chained = c;
          added = i.added;
          received = i.received_row;
          before = w.evidence;
          kept =
              evidence
              ∙ ap (λ (v : World). v.evidence) q.final
              ∙ ap
                  (λ (x : Ear).
                    evidence_put (receipt_key q.eor) (ear_document x)
                      (evidence_put (payload_key q.eor) (eor_document q.eor) w.evidence))
                  (sym same_ear);
        },
      )

  -- The same of the whole submission.
  pub submit-IsAccepted :
      (r : Request) (raw : RawEor) (w : World) (ear : Ear)
      → IsChained p w.db.operations
      → (submit_operation p r raw w).0 ≡ ok ear
      → (e : Eor) × (n : ℕ) × (validate_eor_fields raw r.received_at ≡ ok e)
        × IsAccepted r e n ear w.db (submit_operation p r raw w).1
  submit-IsAccepted r raw w ear c h =
      let (s, ready, answer, left) = submit-steps r raw w ear h in
      let (e, n, validated, accepted) = submitted-IsAccepted r raw w s ear c ready answer in
      (e, n, validated, subst (IsAccepted r e n ear w.db) (sym left) accepted)
