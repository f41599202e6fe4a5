-- ===== src/Operations/Queries/Answered.antt =====
-- A submission that returned is found: submitOperation followed by getOperation.
use elydora_open_source.Prelude.{ℕ, ◌≡◌, ap, ◌∙◌, some}
use elydora_open_source.Prelude.{Option, arith}
use elydora_open_source.Prelude.Texts.{Text}
use elydora_open_source.Json.{Json}
use elydora_open_source.Model.Tables.{find_operation, find_receipt}
use elydora_open_source.Operations.Verify.{present}
use elydora_open_source.Crypto.Platform.{Platform}
use elydora_open_source.Model.Errors.{ok}
use elydora_open_source.Model.Entities.{Operation, Receipt, Eor, Ear, ReceiptFields}
use elydora_open_source.Model.World.{World, Document, eor_document, evidence_get}
use elydora_open_source.Operations.Eor.{RawEor, validate_eor_fields}
use elydora_open_source.Operations.Submit.{
  Request, payload_key, build_operation, build_receipt_fields, submit_operation,
}
use elydora_open_source.Operations.Prepared.{receipt_row}
use elydora_open_source.Operations.Chain.{IsChained}
use elydora_open_source.Operations.Accepted.{IsAccepted, submit-IsAccepted}
use elydora_open_source.Operations.Verify.Complete.{payload_key-present}
use elydora_open_source.Operations.Verify.Accepted.{
  envelope-kept, find_operation-first, find_receipt-first,
}
use elydora_open_source.Operations.Verify.Submitted.{sign_receipt-fields}
use elydora_open_source.Operations.Queries.{
  Found, payload_in, or_undefined, payload_of, get_operation,
}

payload_of-kept :
    (o : Operation) (key : Text) (d : Document) (w : World)
    → present o.r2_payload_key ≡ some key
    → evidence_get key w.evidence ≡ some d
    → payload_of o w ≡ payload_in d
unfolding payload_of
payload_of-kept o key d w kept there = ground arith

get_operation-found :
    (operation_id org_id : Text) (w : World) (o : Operation)
    → find_operation operation_id org_id w.db ≡ some o
    → get_operation operation_id org_id w
      ≡ ok (record {
        operation = o;
        receipt = find_receipt operation_id w.db;
        payload = payload_of o w;
      })
unfolding get_operation
get_operation-found operation_id org_id w o h = ground arith

module _ (p : Platform) where
  -- The operation, its receipt and the payload of its envelope
  abbrev pub found_of : Request → Eor → ℕ → Found
  found_of r e n = record {
    operation = build_operation p r.received_at e n;
    receipt = some (receipt_row r e);
    payload = or_undefined e.payload;
  }

  payload_of-accepted :
      (r : Request) (e : Eor) (n : ℕ) (ear : Ear) (w0 w : World)
      → IsAccepted p r e n ear w0.db w
      → payload_of (build_operation p r.received_at e n) w ≡ or_undefined e.payload
  unfolding build_operation
  payload_of-accepted r e n ear w0 w a =
      let there = ap (evidence_get (payload_key e)) a.kept ∙ envelope-kept e ear a.before in
      payload_of-kept (build_operation p r.received_at e n) (payload_key e) (eor_document e) w
        (payload_key-present e) there

  accepted-found :
      (r : Request) (e : Eor) (n : ℕ) (ear : Ear) (w0 w : World)
      → IsAccepted p r e n ear w0.db w
      → get_operation e.operation_id e.org_id w ≡ ok (found_of r e n)
  unfolding build_operation
  accepted-found r e n ear w0 w a =
      let o = build_operation p r.received_at e n in
      let receipt = find_receipt-first (receipt_row r e) w0.db.receipts w.db a.received in
      let payload = payload_of-accepted r e n ear w0 w a in
      get_operation-found e.operation_id e.org_id w o
        (find_operation-first o w0.db.operations w.db a.added)
      ∙ ap
          (λ (t : Option Receipt).
            ok (record { operation = o; receipt = t; payload = payload_of o w }))
          receipt
      ∙ ap
          (λ (v : Json).
            ok (record { operation = o; receipt = some (receipt_row r e); payload = v }))
          payload

  -- If the operations form a chain and submitOperation returns a receipt, then getOperation, asked for
  -- the operation that the receipt names in the state that the submission left, answers with the row
  -- of this operation, with its receipt, and with the payload of the envelope that was sent.
  pub submitted_found :
      (r : Request) (raw : RawEor) (w : World) (ear : Ear)
      → IsChained p w.db.operations
      → (submit_operation p r raw w).0 ≡ ok ear
      → (e : Eor) × (n : ℕ) × (validate_eor_fields raw r.received_at ≡ ok e)
        × (get_operation ear.operation_id ear.org_id (submit_operation p r raw w).1
            ≡ ok (found_of r e n))
  unfolding build_receipt_fields build_operation
  submitted_found r raw w ear c h =
      let (e, n, validated, accepted) = submit-IsAccepted p r raw w ear c h in
      let ids =
        sign_receipt-fields p r (build_receipt_fields p r (build_operation p r.received_at e n)) ear
          accepted.signed in
      (
        e,
        n,
        validated,
        ap
              (λ (f : ReceiptFields).
                get_operation f.operation_id f.org_id (submit_operation p r raw w).1)
              ids
            ∙ accepted-found r e n ear w (submit_operation p r raw w).1 accepted,
      )
