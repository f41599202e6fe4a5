-- ===== src/Operations/Prepared.antt =====
-- What a preparation that returns has done: `prepare` of Operations/Submit taken apart.
use elydora_open_source.Prelude.{ℕ, ◌≡◌, ap, ◌∙◌, none, arith, Option-cases, inl, inr}
use elydora_open_source.Prelude.Texts.{codes}
use elydora_open_source.Crypto.Platform.{Platform}
use elydora_open_source.Model.Errors.{Result, ok}
use elydora_open_source.Model.Entities.{Operation, Receipt, Eor, Ear}
use elydora_open_source.Model.World.{
  World, >>=-eq-ok, lift, ◌>>=◌, evidence_put, cache_get, cache_put, eor_document, ear_document,
}
use elydora_open_source.Operations.Eor.{RawEor, validate_eor_fields}
use elydora_open_source.Operations.Checks.{check_eor}
use elydora_open_source.Operations.Submit.{
  Request, Pending, check_nonce, nonce_key, nonce_ttl_seconds, payload_key, receipt_key,
  build_operation, store_evidence, sign_receipt, build_receipt_fields, prepare,
}

-- The world after the nonce is stored.
abbrev pub with_nonce : ℕ → Eor → World → World
with_nonce now e w = record w {
  cache = cache_put now (nonce_key e) (codes "1") (nonce_ttl_seconds e) w.cache;
}

-- The world after the envelope is stored, and after the receipt is.
abbrev pub with_envelope : Eor → World → World
with_envelope e w = record w { evidence = evidence_put (payload_key e) (eor_document e) w.evidence }

abbrev pub with_receipt : Eor → Ear → World → World
with_receipt e ear w = record w {
  evidence = evidence_put (receipt_key e) (ear_document ear) w.evidence;
}

abbrev pub receipt_row : Request → Eor → Receipt
receipt_row r e = record {
  receipt_id = r.receipt_id;
  operation_id = e.operation_id;
  r2_receipt_key = receipt_key e;
  created_at = r.received_at;
}

-- The nonce test that passes finds nothing and stores the nonce.
check_nonce-passes :
    (now : ℕ) (e : Eor) (w : World) (u : Unit {0})
    → (check_nonce now e w).0 ≡ ok u
    → (cache_get now (nonce_key e) w.cache ≡ none)
      × (check_nonce now e w ≡ (ok tt, with_nonce now e w))
unfolding check_nonce
check_nonce-passes now e w u h = elim (Option-cases (cache_get now (nonce_key e) w.cache)) [
  | inl none' ↦ (none', rw (none', check_nonce))
  | inr (v, found) ↦ absurd (ground arith)
]

module _ (p : Platform) (r : Request) where
  -- The receipt is signed over the operation, and both documents are stored.
  store-inv :
      (e : Eor) (o : Operation) (w : World) (s : Pending)
      → (store_evidence p r e o w).0 ≡ ok s
      → (sign_receipt p r (build_receipt_fields p r o) ≡ ok s.ear)
        × (s ≡ record { operation = o; receipt = receipt_row r e; ear = s.ear })
        × ((store_evidence p r e o w).1 ≡ with_receipt e s.ear (with_envelope e w))
  unfolding store_evidence
  store-inv e o w s h = ground arith

  pub record Prepared (raw : RawEor) (w : World) (s : Pending) : Type 0 where
    pub eor : Eor
    pub seq_no : ℕ
    pub validated : validate_eor_fields raw r.received_at ≡ ok eor
    pub fresh : cache_get r.received_at (nonce_key eor) w.cache ≡ none
    pub checked : check_eor p eor w.db ≡ ok seq_no
    pub signed :
        sign_receipt p r (build_receipt_fields p r (build_operation p r.received_at eor seq_no))
        ≡ ok s.ear
    pub result : s ≡ record {
      operation = build_operation p r.received_at eor seq_no;
      receipt = receipt_row r eor;
      ear = s.ear;
    }
    pub final :
        (prepare p r raw w).1
        ≡ with_receipt eor s.ear (with_envelope eor (with_nonce r.received_at eor w))

  -- The read of the world between the nonce and the evidence.
  abbrev after_nonce : Eor → World → Result Pending × World
  after_nonce e = (λ (u : World). (check_eor p e u.db, u)) >>= λ seq_no.
      store_evidence p r e (build_operation p r.received_at e seq_no)

  prepare-run :
      (raw : RawEor) (e : Eor) (n : ℕ) (w : World)
      → validate_eor_fields raw r.received_at ≡ ok e
      → check_nonce r.received_at e w ≡ (ok tt, with_nonce r.received_at e w)
      → check_eor p e w.db ≡ ok n
      → prepare p r raw w
        ≡ store_evidence p r e (build_operation p r.received_at e n) (with_nonce r.received_at e w)
  unfolding prepare
  prepare-run raw e n w v c k = rw (v, c, k)

  pub prepare-Prepared :
      (raw : RawEor) (w : World) (s : Pending) → (prepare p r raw w).0 ≡ ok s → Prepared raw w s
  unfolding prepare
  prepare-Prepared raw w s h =
      let (e, validated, h1) =
        >>=-eq-ok (lift (validate_eor_fields raw r.received_at))
          (λ e. check_nonce r.received_at e >>= λ _. after_nonce e) w s h in
      let (u, passed, h2) = >>=-eq-ok (check_nonce r.received_at e) (λ _. after_nonce e) w s h1 in
      let (fresh, state) = check_nonce-passes r.received_at e w u passed in
      let h3 : (after_nonce e (with_nonce r.received_at e w)).0 ≡ ok s = rw state at h2 in
      let (n, checked, h4) =
        >>=-eq-ok (λ (u : World). (check_eor p e u.db, u))
          (λ seq_no. store_evidence p r e (build_operation p r.received_at e seq_no))
          (with_nonce r.received_at e w) s h3 in
      let (signed, result, final) =
        store-inv e (build_operation p r.received_at e n) (with_nonce r.received_at e w) s h4 in
      record {
        eor = e;
        seq_no = n;
        validated = validated;
        fresh = fresh;
        checked = checked;
        signed = signed;
        result = result;
        final =
            ap (λ (z : Result Pending × World). z.1) (prepare-run raw e n w validated state checked)
            ∙ final;
      }
