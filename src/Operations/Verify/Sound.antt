-- ===== src/Operations/Verify/Sound.antt =====
-- What a verification that answers `valid` has established: verifyOperation of Operations/Verify.
use mathlib.Core.Path.{subst}
use elydora_open_source.Prelude.{
  ℕ, ◌≤◌, ◌⊎◌, ltb, ◌-◌, find?, sym, ◌≡◌, refl, ap, ◌∙◌, inl, inr, Bool, true, false, ◌&&◌, Option,
  none, some, List, [], ◌∷◌, arith, Bool-cases, Option-cases,
}
use elydora_open_source.Prelude.Texts.{Text, text_eq, eq_iff}
use elydora_open_source.Json.Canonical.{jcs_canonicalise}
use elydora_open_source.Crypto.Base64.{base64url_decode}
use elydora_open_source.Crypto.Utf8.{utf8_encode}
use elydora_open_source.Crypto.Platform.{Platform, verify_ed25519_signature, compute_receipt_hash}
use elydora_open_source.Model.Errors.{ok}
use elydora_open_source.Model.Entities.{AgentKey, Operation, Receipt, Eor, Ear}
use elydora_open_source.Model.Tables.{is_step, Database, find_operation, find_key, find_receipt}
use elydora_open_source.Model.World.{
  World, Document, eor_document, ear_document, epoch_document, anchor_document, blob, evidence_get,
}
use elydora_open_source.Operations.Eor.{build_signable_eor}
use elydora_open_source.Operations.Verify.{
  Verification, links_to, signature_by, signature_check, expected_chain_hash, chain_check,
  receipt_document_check, receipt_check, verify_document, verify_parsed, present, verify_stored,
  verify_operation,
}

both-true : (a b : Bool) → a && b ≡ true → (a ≡ true) × (b ≡ true)
both-true true b h = (refl, h)
both-true false b h = absurd (ground arith)

-- An operation is the first, or the database has no predecessor of it, or it names the hash of the
-- predecessor that the database has.
abbrev pub NamesPredecessor : Operation → Database → Type 0
NamesPredecessor o db =
    (o.seq_no ≤ 1)
    ⊎ ((find? (is_step o.agent_id (o.seq_no - 1)) db.operations ≡ none)
        ⊎ ((q : Operation) × (find? (is_step o.agent_id (o.seq_no - 1)) db.operations ≡ some q)
            × (o.prev_chain_hash ≡ q.chain_hash)))

links_to-names : (o : Operation) (db : Database) → links_to o db ≡ true → NamesPredecessor o db
unfolding links_to
links_to-names o db h = elim (Bool-cases (ltb 1 o.seq_no)) [
  | inr first ↦ inl (ground arith)
  | inl later ↦ elim (Option-cases (find? (is_step o.agent_id (o.seq_no - 1)) db.operations)) [
    | inl absent ↦ inr (inl absent)
    | inr (q, found) ↦
        let same : text_eq q.chain_hash o.prev_chain_hash ≡ true = ground arith in
        inr (inr (q, found, sym ((eq_iff q.chain_hash o.prev_chain_hash).0 same)))
  ]
]

module _ (p : Platform) where
  -- The signature of an envelope holds under a key over the canonical form.
  pub record IsSigned (e : Eor) (k : AgentKey) : Type 0 where
    pub signature : List ℕ
    pub public_key : List ℕ
    pub signature_decodes : base64url_decode e.signature ≡ some signature
    pub key_decodes : base64url_decode k.public_key ≡ some public_key
    pub holds :
        verify_ed25519_signature p public_key signature
          (utf8_encode (jcs_canonicalise (build_signable_eor e)))
        ≡ some true

  signature_by-IsSigned : (e : Eor) (k : AgentKey) → (signature_by p e k).0 ≡ true → IsSigned e k
  unfolding signature_by
  signature_by-IsSigned e k h = elim (Option-cases (base64url_decode e.signature)) [
    | inl bad ↦ absurd (ground arith)
    | inr (s, es) ↦ elim (Option-cases (base64url_decode k.public_key)) [
      | inl bad ↦ absurd (ground arith)
      | inr (b, eb) ↦
          let bytes = utf8_encode (jcs_canonicalise (build_signable_eor e)) in
          elim (Option-cases (verify_ed25519_signature p b s bytes)) [
            | inl bad ↦ absurd (ground arith)
            | inr (v, ev) ↦ record {
              signature = s;
              public_key = b;
              signature_decodes = es;
              key_decodes = eb;
              holds = ground arith;
            }
          ]
    ]
  ]

  signature_check-IsSigned :
      (d : Document) (db : Database)
      → (signature_check p d db).0 ≡ true
      → (e : Eor) × (k : AgentKey) × (d ≡ eor_document e)
        × (find_key e.agent_pubkey_kid e.agent_id db ≡ some k)
        × IsSigned e k
  unfolding signature_check
  signature_check-IsSigned (eor_document e) db h =
      elim (Option-cases (find_key e.agent_pubkey_kid e.agent_id db)) [
        | inl bad ↦ absurd (ground arith)
        | inr (k, found) ↦ (e, k, refl, found, signature_by-IsSigned e k (ground arith))
      ]
  signature_check-IsSigned (ear_document ear) db h = absurd (ground arith)
  signature_check-IsSigned (epoch_document e ops layers) db h = absurd (ground arith)
  signature_check-IsSigned (anchor_document a) db h = absurd (ground arith)
  signature_check-IsSigned (blob t) db h = absurd (ground arith)

  chain_check-linked :
      (o : Operation) (db : Database)
      → (chain_check p o db).0 ≡ true
      → (expected_chain_hash p o ≡ o.chain_hash) × (links_to o db ≡ true)
  unfolding chain_check
  chain_check-linked o db h =
      let (same, linked) =
        both-true (text_eq (expected_chain_hash p o) o.chain_hash) (links_to o db) h in
      ((eq_iff (expected_chain_hash p o) o.chain_hash).0 same, linked)

  -- The receipt of an operation is stored, with the hash of its fields.
  pub record IsReceipted (operation_id : Text) (w : World) : Type 0 where
    pub row : Receipt
    pub ear : Ear
    pub found : find_receipt operation_id w.db ≡ some row
    pub stored : evidence_get row.r2_receipt_key w.evidence ≡ some (ear_document ear)
    pub hashed : compute_receipt_hash p ear.fields ≡ ear.receipt_hash

  receipt_document-hashed :
      (d : Document)
      → (receipt_document_check p d).0 ≡ true
      → (ear : Ear) × (d ≡ ear_document ear)
        × (compute_receipt_hash p ear.fields ≡ ear.receipt_hash)
  unfolding receipt_document_check
  receipt_document-hashed (ear_document ear) h =
      elim (Bool-cases (text_eq (compute_receipt_hash p ear.fields) ear.receipt_hash)) [
        | inl same ↦
            (ear, refl, (eq_iff (compute_receipt_hash p ear.fields) ear.receipt_hash).0 same)
        | inr other ↦ absurd (ground arith)
      ]
  receipt_document-hashed (eor_document e) h = absurd (ground arith)
  receipt_document-hashed (epoch_document e ops layers) h = absurd (ground arith)
  receipt_document-hashed (anchor_document a) h = absurd (ground arith)
  receipt_document-hashed (blob t) h = absurd (ground arith)

  receipt_check-IsReceipted :
      (id : Text) (w : World) → (receipt_check p id w).0 ≡ true → IsReceipted id w
  unfolding receipt_check
  receipt_check-IsReceipted id w h = elim (Option-cases (find_receipt id w.db)) [
    | inl bad ↦ absurd (ground arith)
    | inr (row, found) ↦ elim (Option-cases (evidence_get row.r2_receipt_key w.evidence)) [
      | inl bad ↦ absurd (ground arith)
      | inr (d, there) ↦
          let (ear, same, hashed) = receipt_document-hashed d (ground arith) in
          record { row = row; ear = ear; found = found; stored = ground arith; hashed = hashed }
    ]
  ]

  -- What `valid` stands for.
  pub record IsVerified (o : Operation) (w : World) : Type 0 where
    pub payload_key : Text
    pub envelope : Eor
    pub key : AgentKey
    pub kept : o.r2_payload_key ≡ some payload_key
    pub stored : evidence_get payload_key w.evidence ≡ some (eor_document envelope)
    pub found : find_key envelope.agent_pubkey_kid envelope.agent_id w.db ≡ some key
    pub signed : IsSigned envelope key
    pub hashed : expected_chain_hash p o ≡ o.chain_hash
    pub linked : NamesPredecessor o w.db
    pub receipted : IsReceipted o.operation_id w

  verify_document-IsVerified :
      (o : Operation) (org_id key : Text) (d : Document) (w : World)
      → o.r2_payload_key ≡ some key
      → evidence_get key w.evidence ≡ some d
      → (verify_document p o org_id d w).valid ≡ true
      → IsVerified o w
  unfolding verify_document
  verify_document-IsVerified o org_id key d w kept there h =
      let (first, receipt) =
        both-true ((signature_check p d w.db).0 && (chain_check p o w.db).0)
          (receipt_check p o.operation_id w).0 h in
      let (signature, chain) =
        both-true (signature_check p d w.db).0 (chain_check p o w.db).0 first in
      let (e, k, same, found, signed) = signature_check-IsSigned d w.db signature in
      let (hashed, linked) = chain_check-linked o w.db chain in
      record {
        payload_key = key;
        envelope = e;
        key = k;
        kept = kept;
        stored = there ∙ ap some same;
        found = found;
        signed = signed;
        hashed = hashed;
        linked = links_to-names o w.db linked;
        receipted = receipt_check-IsReceipted o.operation_id w receipt;
      }

  verify_parsed-document :
      (o : Operation) (org_id : Text) (d : Document) (w : World)
      → (verify_parsed p o org_id d w).valid ≡ true
      → (verify_document p o org_id d w).valid ≡ true
  unfolding verify_parsed
  verify_parsed-document o org_id (eor_document e) w h = h
  verify_parsed-document o org_id (ear_document ear) w h = h
  verify_parsed-document o org_id (epoch_document e ops layers) w h = h
  verify_parsed-document o org_id (anchor_document a) w h = h
  verify_parsed-document o org_id (blob t) w h = absurd (ground arith)

  present-eq : (k : Option Text) (key : Text) → present k ≡ some key → k ≡ some key
  present-eq none key h = absurd (ground arith)
  present-eq (some []) key h = absurd (ground arith)
  present-eq (some (c ∷ s)) key h = h

  verify_stored-IsVerified :
      (o : Operation) (org_id : Text) (w : World)
      → (verify_stored p o org_id w).valid ≡ true
      → IsVerified o w
  unfolding verify_stored
  verify_stored-IsVerified o org_id w h = elim (Option-cases (present o.r2_payload_key)) [
    | inl bad ↦ absurd (ground arith)
    | inr (key, kept) ↦ elim (Option-cases (evidence_get key w.evidence)) [
      | inl bad ↦ absurd (ground arith)
      | inr (d, there) ↦
          let holds : (verify_parsed p o org_id d w).valid ≡ true = ground arith in
          verify_document-IsVerified o org_id key d w (present-eq o.r2_payload_key key kept) there
            (verify_parsed-document o org_id d w holds)
    ]
  ]

  -- If verifyOperation answers `valid`, the operation is stored, its envelope is in the evidence
  -- store with a signature that holds under a registered key, its chain hash is that of its fields,
  -- its previous hash is the chain hash of its predecessor where it is not the first and the
  -- predecessor is stored, and a receipt is stored with the hash of its fields.
  pub verify_operation_sound :
      (id org_id : Text) (w : World) (v : Verification)
      → verify_operation p id org_id w ≡ ok v
      → v.valid ≡ true
      → (o : Operation) × (find_operation id org_id w.db ≡ some o) × IsVerified o w
  unfolding verify_operation
  verify_operation_sound id org_id w v h valid =
      elim (Option-cases (find_operation id org_id w.db)) [
        | inl bad ↦ absurd (ground arith)
        | inr (o, found) ↦
            let same : v ≡ verify_stored p o org_id w = ground arith in
            let holds : (verify_stored p o org_id w).valid ≡ true =
              subst (λ (x : Verification). x.valid ≡ true) same valid in
            (o, found, verify_stored-IsVerified o org_id w holds)
      ]
