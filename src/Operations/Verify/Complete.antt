-- ===== src/Operations/Verify/Complete.antt =====
-- A submission that is committed at once verifies: submitOperation followed by verifyOperation.
use mathlib.Core.Path.{subst}
use elydora_open_source.Prelude.{
  ℕ, ◌+◌, ◌-◌, ◌≡◌, refl, sym, ap, ◌∙◌, inl, inr, true, false, ◌==◌, some, List, [], ◌∷◌, ◌++◌,
  arith, length, length-append, find?, Bool-cases, Option-cases,
}
use elydora_open_source.Prelude.Texts.{Text, text_eq, eq_iff, eq_refl}
use elydora_open_source.Crypto.Platform.{Platform, compute_receipt_hash}
use elydora_open_source.Model.Errors.{ok}
use elydora_open_source.Model.Entities.{AgentKey, Operation, Receipt, Eor, Ear, ReceiptFields}
use elydora_open_source.Model.Tables.{Database, find_key, find_receipt, is_step, latest}
use elydora_open_source.Model.World.{World, eor_document, ear_document, evidence_get}
use elydora_open_source.Operations.Checks.{
  check_key, check_signature, next_seq_no, expected_prev_hash,
}
use elydora_open_source.Operations.Submit.{Request, payload_key, receipt_key, sign_receipt}
use elydora_open_source.Operations.Chain.{Extends, IsChained, latest-Extends, latest_other}
use elydora_open_source.Operations.Verify.{
  signature_by, signature_check, links_to, expected_chain_hash, chain_check, receipt_check,
  receipt_document_check, present,
}

-- The two keys of an envelope differ in length.
pub keys_differ : (e : Eor) → text_eq (receipt_key e) (payload_key e) ≡ false
unfolding payload_key receipt_key
keys_differ e = elim (Bool-cases (text_eq (receipt_key e) (payload_key e))) [
  | inr other ↦ other
  | inl same ↦
      let sizes = ap length ((eq_iff (receipt_key e) (payload_key e)).0 same) in
      absurd (omega (arith, length-append {A = ℕ}))
]

present-append : (s t : Text) (c : ℕ) → present (some (s ++ c ∷ t)) ≡ some (s ++ c ∷ t)
present-append [] t c = refl
present-append (d ∷ s) t c = refl

pub payload_key-present : (e : Eor) → present (some (payload_key e)) ≡ some (payload_key e)
unfolding payload_key
payload_key-present e = present-append e.org_id _ _

module _ (p : Platform) where
  pub check_signature-holds :
      (e : Eor) (k : AgentKey) (u : Unit {0})
      → check_signature p e k ≡ ok u
      → (signature_by p e k).0 ≡ true
  unfolding check_signature signature_by
  check_signature-holds e k u h = ground arith

  pub check_key-found :
      (e : Eor) (db : Database) (k : AgentKey)
      → check_key e db ≡ ok k
      → find_key e.agent_pubkey_kid e.agent_id db ≡ some k
  unfolding check_key
  check_key-found e db k h = ground arith

  -- The latest operation of an agent is the one with its number.
  latest-is_step :
      (a : Text) (q : Operation) (os : List Operation)
      → IsChained p os
      → latest a os ≡ some q
      → find? (is_step a q.seq_no) os ≡ some q
  latest-is_step a q [] c h = unfold latest in absurd (ground arith)
  latest-is_step a q (o ∷ os) (x, c) h = elim (Bool-cases (text_eq o.agent_id a)) [
    | inr other ↦
        let rest = latest-is_step a q os c (rw (latest_other p a o os other) at h) in rw other rest
    | inl mine ↦
        let same : o.agent_id ≡ a = (eq_iff o.agent_id a).0 mine in
        let last : latest a (o ∷ os) ≡ some o =
          subst (λ b. latest b (o ∷ os) ≡ some o) same (latest-Extends p o os x) in
        let here : o ≡ q = ground arith in
        subst (λ (z : Operation). find? (is_step a z.seq_no) (o ∷ os) ≡ some z) here (ground arith)
  ]

  -- The predecessor is found behind the new row.
  find-behind :
      (o q : Operation) (os : List Operation)
      → find? (is_step o.agent_id q.seq_no) os ≡ some q
      → o.seq_no ≡ q.seq_no + 1
      → find? (is_step o.agent_id (o.seq_no - 1)) (o ∷ os) ≡ some q
  find-behind o q os found next =
      let before : o.seq_no - 1 ≡ q.seq_no = omega arith in
      let other : (o.seq_no == q.seq_no) ≡ false = ground arith in
      subst (λ (m : ℕ). find? (is_step o.agent_id m) (o ∷ os) ≡ some q) (sym before)
        (rw (eq_refl o.agent_id, other) found)

  links-behind :
      (o q : Operation) (db : Database)
      → find? (is_step o.agent_id (o.seq_no - 1)) db.operations ≡ some q
      → q.chain_hash ≡ o.prev_chain_hash
      → links_to o db ≡ true
  unfolding links_to
  links-behind o q db found same =
      let equal = (eq_iff q.chain_hash o.prev_chain_hash).1 same in ground arith

  links-first : (o : Operation) (db : Database) → o.seq_no ≡ 1 → links_to o db ≡ true
  unfolding links_to
  links-first o db one = ground arith

  -- An operation that extends a chain and is stored on top of it links to its predecessor.
  links-Extends :
      (o : Operation) (os : List Operation) (db : Database)
      → Extends p o os
      → IsChained p os
      → db.operations ≡ o ∷ os
      → links_to o db ≡ true
  links-Extends o os db x c same = elim (Option-cases (latest o.agent_id os)) [
    | inl first ↦ links-first o db (x.numbered ∙ ap next_seq_no first)
    | inr (q, found) ↦
        let step = latest-is_step o.agent_id q os c found in
        let behind = find-behind o q os step (x.numbered ∙ ap next_seq_no found) in
        links-behind o q db
          (subst
            (λ (rows : List Operation). find? (is_step o.agent_id (o.seq_no - 1)) rows ≡ some q)
            (sym same) behind)
          (sym (x.linked ∙ ap expected_prev_hash found))
  ]

  pub chain_check-Extends :
      (o : Operation) (os : List Operation) (db : Database)
      → Extends p o os
      → IsChained p os
      → db.operations ≡ o ∷ os
      → (chain_check p o db).0 ≡ true
  unfolding chain_check
  chain_check-Extends o os db x c same =
      let linked = links-Extends o os db x c same in
      let hashed = (eq_iff (expected_chain_hash p o) o.chain_hash).1 (sym x.hashed) in
      rw (hashed, linked) refl

  pub sign_receipt-hashed :
      (r : Request) (fields : ReceiptFields) (ear : Ear)
      → sign_receipt p r fields ≡ ok ear
      → compute_receipt_hash p ear.fields ≡ ear.receipt_hash
  unfolding sign_receipt
  sign_receipt-hashed r fields ear h = ground arith

  pub receipt_check-stored :
      (id : Text) (row : Receipt) (ear : Ear) (w : World)
      → find_receipt id w.db ≡ some row
      → evidence_get row.r2_receipt_key w.evidence ≡ some (ear_document ear)
      → compute_receipt_hash p ear.fields ≡ ear.receipt_hash
      → (receipt_check p id w).0 ≡ true
  unfolding receipt_check receipt_document_check
  receipt_check-stored id row ear w found there hashed =
      let same = (eq_iff (compute_receipt_hash p ear.fields) ear.receipt_hash).1 hashed in
      ground arith

  pub signature_check-passed :
      (e : Eor) (k : AgentKey) (db : Database)
      → find_key e.agent_pubkey_kid e.agent_id db ≡ some k
      → (signature_by p e k).0 ≡ true
      → (signature_check p (eor_document e) db).0 ≡ true
  unfolding signature_check
  signature_check-passed e k db found h = ground arith
