-- ===== src/Operations/Verify/Submitted.antt =====
-- A submission that returns verifies: submitOperation followed by verifyOperation.
use elydora_open_source.Prelude.{◌≡◌, ap, ◌∙◌, true, arith}
use elydora_open_source.Crypto.Platform.{Platform}
use elydora_open_source.Model.Errors.{ok}
use elydora_open_source.Model.Entities.{Ear, ReceiptFields}
use elydora_open_source.Model.World.{World}
use elydora_open_source.Operations.Eor.{RawEor}
use elydora_open_source.Operations.Submit.{
  Request, build_operation, build_receipt_fields, sign_receipt, submit_operation,
}
use elydora_open_source.Operations.Chain.{IsChained}
use elydora_open_source.Operations.Verify.{Verification, verify_operation}
use elydora_open_source.Operations.Accepted.{submit-IsAccepted}
use elydora_open_source.Operations.Verify.Accepted.{accepted-valid}

module _ (p : Platform) where
  pub sign_receipt-fields :
      (r : Request) (fields : ReceiptFields) (ear : Ear)
      → sign_receipt p r fields ≡ ok ear
      → ear.fields ≡ fields
  unfolding sign_receipt
  sign_receipt-fields r fields ear h = ground arith

  -- If the operations form a chain and submitOperation returns a receipt, verifyOperation answers
  -- `valid` for the operation that the receipt names, in the world that the submission left.
  pub submitted_verifies :
      (r : Request) (raw : RawEor) (w : World) (ear : Ear)
      → IsChained p w.db.operations
      → (submit_operation p r raw w).0 ≡ ok ear
      → (v : Verification) × (verify_operation p ear.operation_id ear.org_id
            (submit_operation p r raw w).1
          ≡ ok v)
        × (v.valid ≡ true)
  unfolding build_receipt_fields build_operation
  submitted_verifies r raw w ear c h =
      let (e, n, validated, accepted) = submit-IsAccepted p r raw w ear c h in
      let (v, answered, valid) =
        accepted-valid p r e n ear w.db (submit_operation p r raw w).1 accepted in
      let ids =
        sign_receipt-fields r (build_receipt_fields p r (build_operation p r.received_at e n)) ear
          accepted.signed in
      (
        v,
        ap
              (λ (f : ReceiptFields).
                verify_operation p f.operation_id f.org_id (submit_operation p r raw w).1)
              ids
            ∙ answered,
        valid,
      )
