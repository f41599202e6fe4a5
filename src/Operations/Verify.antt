-- ===== src/Operations/Verify.antt =====
-- Verification of a stored operation: packages/server/src/services/operation-verify.ts. It reads
-- only.
pub mod Sound
pub mod Complete
pub mod Accepted
pub mod Submitted
use elydora_open_source.Prelude.{
  ℕ, ◌-◌, Bool, true, false, not, ◌&&◌, Option, none, some, List, [], ◌∷◌, ◌++◌, ltb, leb, find?,
  if◌then◌else◌,
}
use elydora_open_source.Prelude.Texts.{Text, text_eq, codes}
use elydora_open_source.Json.Canonical.{jcs_canonicalise}
use elydora_open_source.Crypto.Base64.{base64url_decode}
use elydora_open_source.Crypto.Utf8.{utf8_encode}
use elydora_open_source.Crypto.Platform.{
  Platform, verify_ed25519_signature, compute_chain_hash, compute_receipt_hash,
}
use elydora_open_source.Merkle.{
  MerkleTree, MerkleProof, includes, get_merkle_proof, verify_merkle_proof,
}
use elydora_open_source.Model.Errors.{keyed, not_found, text, Result, ok, error, fault}
use elydora_open_source.Model.Entities.{
  AgentKey, Operation, Receipt, Epoch, Eor, ReceiptFields, Ear, Eer,
}
use elydora_open_source.Model.Tables.{Database, find_operation, find_key, find_receipt, is_step}
use elydora_open_source.Model.World.{
  World, Document, eor_document, ear_document, epoch_document, anchor_document, blob, evidence_get,
}
use elydora_open_source.Operations.Eor.{build_signable_eor}

-- A message of `errors`
pub data Problem : Type 0 where
  no_payload_key evidence_missing evidence_unparsable : Problem
  signature_failed signature_error prev_mismatch : Problem
  key_missing : Text → Problem
  chain_mismatch : (expected stored : Text) → Problem
  receipt_mismatch receipt_evidence_missing receipt_missing receipt_error : Problem
  merkle_failed merkle_unproved merkle_missing : Problem

pub record Verification : Type 0 where
  pub valid : Bool
  pub signature : Bool
  pub chain : Bool
  pub receipt : Bool
  pub merkle : Option Bool
  pub errors : List Problem

abbrev unreadable : Problem → Verification
unreadable problem = record {
  valid = false;
  signature = false;
  chain = false;
  receipt = false;
  merkle = none;
  errors = problem ∷ [];
}

-- The predecessor is compared where it is there.
unfoldable pub links_to : Operation → Database → Bool
links_to o db =
    if ltb 1 o.seq_no
    then elim (find? (is_step o.agent_id (o.seq_no - 1)) db.operations) [
      | none ↦ true
      | some q ↦ text_eq q.chain_hash o.prev_chain_hash
    ]
    else true

-- WHERE org_id = ? AND start_time <= ? AND end_time > ?
abbrev pub is_epoch_of : Text → ℕ → Epoch → Bool
is_epoch_of org_id t e = text_eq e.org_id org_id && leb e.start_time t && ltb t e.end_time

-- An empty key is none.
abbrev pub present : Option Text → Option Text
present none = none
present (some []) = none
present (some (c ∷ s)) = some (c ∷ s)

module _ (p : Platform) where
  unfoldable pub signature_by : Eor → AgentKey → Bool × List Problem
  signature_by e k = elim (base64url_decode e.signature) [
    | none ↦ (false, signature_error ∷ [])
    | some signature ↦ elim (base64url_decode k.public_key) [
      | none ↦ (false, signature_error ∷ [])
      | some public_key ↦
          elim (verify_ed25519_signature p public_key signature
            (utf8_encode (jcs_canonicalise (build_signable_eor e)))) [
              | none ↦ (false, signature_error ∷ [])
              | some valid ↦ (valid, if valid then [] else signature_failed ∷ [])
            ]
    ]
  ]

  -- The first `try` block. A document that is no envelope has no `agent_pubkey_kid`.
  unfoldable pub signature_check : Document → Database → Bool × List Problem
  signature_check (eor_document e) db = elim (find_key e.agent_pubkey_kid e.agent_id db) [
    | none ↦ (false, key_missing e.agent_pubkey_kid ∷ [])
    | some k ↦ signature_by e k
  ]
  signature_check _ db = (false, key_missing (codes "undefined") ∷ [])

  abbrev pub expected_chain_hash : Operation → Text
  expected_chain_hash o =
      compute_chain_hash p o.prev_chain_hash o.payload_hash o.operation_id o.issued_at

  -- The second `try` block
  unfoldable pub chain_check : Operation → Database → Bool × List Problem
  chain_check o db =
      let same = text_eq (expected_chain_hash o) o.chain_hash in
      let linked = links_to o db in
      (
        same && linked,
        (if same then [] else chain_mismatch (expected_chain_hash o) o.chain_hash ∷ [])
            ++ (if linked then [] else prev_mismatch ∷ []),
      )

  -- A document that is no receipt has no `receipt_hash`.
  unfoldable pub receipt_document_check : Document → Bool × List Problem
  receipt_document_check (ear_document ear) =
      if text_eq (compute_receipt_hash p ear.fields) ear.receipt_hash
      then (true, [])
      else (false, receipt_mismatch ∷ [])
  receipt_document_check (blob t) = (false, receipt_error ∷ [])
  receipt_document_check _ = (false, receipt_mismatch ∷ [])

  -- The third `try` block
  unfoldable pub receipt_check : Text → World → Bool × List Problem
  receipt_check operation_id w = elim (find_receipt operation_id w.db) [
    | none ↦ (false, receipt_missing ∷ [])
    | some row ↦ elim (evidence_get row.r2_receipt_key w.evidence) [
      | none ↦ (false, receipt_evidence_missing ∷ [])
      | some document ↦ receipt_document_check document
    ]
  ]

  unfoldable pub proof_check : MerkleTree → Text → Option Bool × List Problem
  proof_check tree leaf = elim (get_merkle_proof tree leaf) [
    | none ↦ (some false, merkle_unproved ∷ [])
    | some proof ↦ elim (verify_merkle_proof p.digest proof) [
      | none ↦ (none, [])
      | some valid ↦ (some valid, if valid then [] else merkle_failed ∷ [])
    ]
  ]

  unfoldable pub epoch_document_check : Epoch → Text → Document → Option Bool × List Problem
  epoch_document_check e leaf (epoch_document eer leaf_ops []) = (some false, merkle_missing ∷ [])
  epoch_document_check e leaf (epoch_document eer leaf_ops (leaves ∷ layers)) =
      if includes leaf leaves
      then proof_check
          (record {
            root = e.root_hash;
            leaves = leaves;
            leaf_ops = leaf_ops;
            layers = leaves ∷ layers;
          })
          leaf
      else (some false, merkle_missing ∷ [])
  epoch_document_check e leaf _ = (none, [])

  -- The inclusion in an epoch, which stays open as long as there is none.
  unfoldable pub merkle_check : Operation → Text → World → Option Bool × List Problem
  merkle_check o org_id w = elim (find? (is_epoch_of org_id o.created_at) w.db.epochs) [
    | none ↦ (none, [])
    | some e ↦ elim (evidence_get e.r2_epoch_key w.evidence) [
      | none ↦ (none, [])
      | some document ↦ epoch_document_check e o.chain_hash document
    ]
  ]

  unfoldable pub verify_document : Operation → Text → Document → World → Verification
  verify_document o org_id document w =
      let signature = signature_check document w.db in
      let chain = chain_check o w.db in
      let receipt = receipt_check o.operation_id w in
      let merkle = merkle_check o org_id w in
      record {
        valid = signature.0 && chain.0 && receipt.0;
        signature = signature.0;
        chain = chain.0;
        receipt = receipt.0;
        merkle = merkle.0;
        errors = signature.1 ++ (chain.1 ++ (receipt.1 ++ merkle.1));
      }

  unfoldable pub verify_parsed : Operation → Text → Document → World → Verification
  verify_parsed o org_id (blob t) w = unreadable evidence_unparsable
  verify_parsed o org_id document w = verify_document o org_id document w

  unfoldable pub verify_stored : Operation → Text → World → Verification
  verify_stored o org_id w = elim (present o.r2_payload_key) [
    | none ↦ unreadable no_payload_key
    | some key ↦ elim (evidence_get key w.evidence) [
      | none ↦ unreadable evidence_missing
      | some document ↦ verify_parsed o org_id document w
    ]
  ]

  -- verifyOperation
  unfoldable pub verify_operation : Text → Text → World → Result Verification
  verify_operation operation_id org_id w = elim (find_operation operation_id org_id w.db) [
    | none ↦ error (keyed 404 not_found "operation.notFound" (("id", text operation_id) ∷ []))
    | some o ↦ ok (verify_stored o org_id w)
  ]
