-- ===== src/Operations/Verify/Accepted.antt =====
-- A world that holds an accepted submission verifies it: verifyOperation of Operations/Verify.
use mathlib.Core.Path.{subst}
use elydora_open_source.Prelude.{ℕ, ◌≡◌, refl, sym, ap, ◌∙◌, true, some, List, ◌∷◌, arith, find?}
use elydora_open_source.Prelude.Texts.{Text, eq_refl}
use elydora_open_source.Crypto.Platform.{Platform}
use elydora_open_source.Model.Errors.{Result, ok}
use elydora_open_source.Model.Errors
use elydora_open_source.Model.Entities.{AgentKey, Operation, Receipt, Eor, Ear}
use elydora_open_source.Model.Tables.{
  Database, find_operation, find_key, find_receipt, is_operation, is_receipt, is_key,
}
use elydora_open_source.Model.World.{
  World, Document, Stored, eor_document, ear_document, evidence_get, evidence_put,
}
use elydora_open_source.Operations.Checks.{
  check_agent, check_key, check_signature, check_prev_hash, check_eor,
}
use elydora_open_source.Operations.Submit.{
  Request, payload_key, receipt_key, build_operation, build_receipt_fields,
}
use elydora_open_source.Operations.Prepared.{receipt_row}
use elydora_open_source.Operations.Accepted.{IsAccepted}
use elydora_open_source.Operations.Verify.{
  Verification, present, signature_check, chain_check, receipt_check, verify_document,
  verify_parsed, verify_stored, verify_operation,
}
use elydora_open_source.Operations.Verify.Complete.{
  keys_differ, payload_key-present, check_signature-holds, check_key-found, chain_check-Extends,
  sign_receipt-hashed, receipt_check-stored, signature_check-passed,
}

-- Both documents of a submission are found under their keys.
receipt-kept :
    (e : Eor) (ear : Ear) (ss : List Stored)
    → evidence_get (receipt_key e) (
        evidence_put
          (receipt_key e)
          (ear_document ear)
          (evidence_put (payload_key e) (eor_document e) ss))
      ≡ some (ear_document ear)
unfolding evidence_get evidence_put
receipt-kept e ear ss = rw (eq_refl (receipt_key e)) refl

pub envelope-kept :
    (e : Eor) (ear : Ear) (ss : List Stored)
    → evidence_get (payload_key e) (
        evidence_put
          (receipt_key e)
          (ear_document ear)
          (evidence_put (payload_key e) (eor_document e) ss))
      ≡ some (eor_document e)
unfolding evidence_get evidence_put
envelope-kept e ear ss = rw (keys_differ e, eq_refl (payload_key e)) refl

pub find_operation-first :
    (o : Operation) (os : List Operation) (db : Database)
    → db.operations ≡ o ∷ os
    → find_operation o.operation_id o.org_id db ≡ some o
unfolding find_operation
find_operation-first o os db e =
    subst (λ (rs : List Operation). find? (is_operation o.operation_id o.org_id) rs ≡ some o)
      (sym e) (rw (eq_refl o.operation_id, eq_refl o.org_id) refl)

pub find_receipt-first :
    (row : Receipt) (rows : List Receipt) (db : Database)
    → db.receipts ≡ row ∷ rows
    → find_receipt row.operation_id db ≡ some row
unfolding find_receipt
find_receipt-first row rows db e =
    subst (λ (rs : List Receipt). find? (is_receipt row.operation_id) rs ≡ some row) (sym e)
      (rw (eq_refl row.operation_id) refl)

find_key-same :
    (kid id : Text) (db db' : Database)
    → db'.agent_keys ≡ db.agent_keys
    → find_key kid id db' ≡ find_key kid id db
unfolding find_key
find_key-same kid id db db' same = ap (find? (is_key kid id)) same

module _ (p : Platform) where
  check_eor-signed :
      (e : Eor) (db : Database) (n : ℕ)
      → check_eor p e db ≡ ok n
      → (k : AgentKey) × (check_key e db ≡ ok k) × (u : Unit {0}) × (check_signature p e k ≡ ok u)
  unfolding check_eor
  check_eor-signed e db n h =
      let (u, a, h1) =
        Errors.>>=-eq-ok (check_agent e db)
          (λ _.
            Errors.◌>>=◌ (check_key e db)
              (λ k. Errors.◌>>=◌ (check_signature p e k) (λ _. check_prev_hash e db)))
          n h in
      let (k, b, h2) =
        Errors.>>=-eq-ok (check_key e db)
          (λ k. Errors.◌>>=◌ (check_signature p e k) (λ _. check_prev_hash e db)) n h1 in
      let (v, c, h3) = Errors.>>=-eq-ok (check_signature p e k) (λ _. check_prev_hash e db) n h2 in
      (k, b, v, c)

  verify_document-valid :
      (o : Operation) (org_id : Text) (d : Document) (w : World)
      → (signature_check p d w.db).0 ≡ true
      → (chain_check p o w.db).0 ≡ true
      → (receipt_check p o.operation_id w).0 ≡ true
      → (verify_document p o org_id d w).valid ≡ true
  unfolding verify_document
  verify_document-valid o org_id d w a b c = rw (a, b, c) refl

  -- The three tests, at an operation whose envelope is kept under its key.
  verify_operation-valid :
      (o : Operation) (key : Text) (e : Eor) (w : World)
      → find_operation o.operation_id o.org_id w.db ≡ some o
      → present o.r2_payload_key ≡ some key
      → evidence_get key w.evidence ≡ some (eor_document e)
      → (verify_document p o o.org_id (eor_document e) w).valid ≡ true
      → (v : Verification) × (verify_operation p o.operation_id o.org_id w ≡ ok v)
        × (v.valid ≡ true)
  unfolding verify_operation verify_stored verify_parsed
  verify_operation-valid o key e w found kept there h =
      (verify_document p o o.org_id (eor_document e) w, ground arith, h)

  accepted-document-valid :
      (r : Request) (e : Eor) (n : ℕ) (ear : Ear) (db : Database) (w : World)
      → IsAccepted p r e n ear db w
      → (verify_document p (build_operation p r.received_at e n) e.org_id (eor_document e) w).valid
        ≡ true
  unfolding build_operation
  accepted-document-valid r e n ear db w a =
      let (k, looked, u, signed) = check_eor-signed e db n a.checked in
      let found =
        find_key-same e.agent_pubkey_kid e.agent_id db w.db a.same_keys
        ∙ check_key-found p e db k looked in
      let stored = ap (evidence_get (receipt_key e)) a.kept ∙ receipt-kept e ear a.before in
      verify_document-valid (build_operation p r.received_at e n) e.org_id (eor_document e) w
        (signature_check-passed p e k w.db found (check_signature-holds p e k u signed))
        (chain_check-Extends p (build_operation p r.received_at e n) db.operations w.db a.extends
          a.chained a.added)
        (receipt_check-stored p e.operation_id (receipt_row r e) ear w
          (find_receipt-first (receipt_row r e) db.receipts w.db a.received) stored
          (sign_receipt-hashed p r (build_receipt_fields p r (build_operation p r.received_at e n))
            ear a.signed))

  pub accepted-valid :
      (r : Request) (e : Eor) (n : ℕ) (ear : Ear) (db : Database) (w : World)
      → IsAccepted p r e n ear db w
      → (v : Verification) × (verify_operation p e.operation_id e.org_id w ≡ ok v)
        × (v.valid ≡ true)
  unfolding build_operation
  accepted-valid r e n ear db w a =
      verify_operation-valid (build_operation p r.received_at e n) (payload_key e) e w
        (find_operation-first (build_operation p r.received_at e n) db.operations w.db a.added)
        (payload_key-present e)
        (ap (evidence_get (payload_key e)) a.kept ∙ envelope-kept e ear a.before)
        (accepted-document-valid r e n ear db w a)
