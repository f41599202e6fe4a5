-- ===== src/Operations/Submit.antt =====
-- Submission of an operation: packages/server/src/services/operation-submit.ts.
-- The part up to the database transaction (`prepare`) and the rest (`commit`) are apart, since
-- other requests run between the reads of the first and the write of the second.
use elydora_open_source.Prelude.{
  ℕ, ◌+◌, ◌/◌, Bool, true, false, none, some, [], ◌∷◌, ◌++◌, if◌then◌else◌,
}
use elydora_open_source.Prelude.Texts.{Text, codes}
use elydora_open_source.Json.Stringify.{stringify}
use elydora_open_source.Crypto.Utf8.{utf8_encode}
use elydora_open_source.Crypto.Platform.{
  Platform, sign_ed25519, compute_chain_hash, compute_receipt_hash,
}
use elydora_open_source.Model.Errors.{coded, Result, ok, error, fault, replay_detected}
use elydora_open_source.Model.Entities.{Operation, Receipt, Eor, ReceiptFields, Ear}
use elydora_open_source.Model.Tables.{
  latest, DbError, unique_violation, done, failed, operations_agent_id_seq_no_key,
}
use elydora_open_source.Model.Statements.{run_all, insert_operation, insert_receipt}
use elydora_open_source.Model.World.{
  Exec, lift, ◌>>=◌, eor_document, ear_document, evidence_put, cache_get, cache_put,
  operation_message,
}
use elydora_open_source.Operations.Eor.{RawEor, validate_eor_fields, elydora_kid}
use elydora_open_source.Operations.Checks.{check_eor, prev_hash_error}

-- What the process supplies: the time of arrival, two generated ids, the server's signing key, and
-- whether the queue takes the message.
pub record Request : Type 0 where
  pub received_at : ℕ
  pub queue_message_id : Text
  pub receipt_id : Text
  pub signing_key : Text
  pub queue_accepts : Bool

-- `nonce:${eor.org_id}:${eor.nonce}`
unfoldable pub nonce_key : Eor → Text
nonce_key e = codes "nonce:" ++ (e.org_id ++ (b':' ∷ e.nonce))

-- `${eor.org_id}/${eor.agent_id}/${eor.operation_id}`
unfoldable pub payload_key : Eor → Text
payload_key e = e.org_id ++ (b'/' ∷ (e.agent_id ++ (b'/' ∷ e.operation_id)))

-- `${eor.org_id}/${eor.agent_id}/receipts/${eor.operation_id}`
unfoldable pub receipt_key : Eor → Text
receipt_key e = e.org_id ++ (b'/' ∷ (e.agent_id ++ (codes "/receipts/" ++ e.operation_id)))

-- Math.ceil(eor.ttl_ms / 1000)
abbrev pub nonce_ttl_seconds : Eor → ℕ
nonce_ttl_seconds e = (e.ttl_ms + 999) / 1000

-- Step 2: a nonce that is there is refused, another is put in the cache. A value in the cache is
-- no empty text.
unfoldable pub check_nonce : ℕ → Eor → Exec (Unit {0})
check_nonce now e w = elim (cache_get now (nonce_key e) w.cache) [
  | some _ ↦ (error (coded 400 replay_detected), w)
  | none ↦ (
    ok tt,
    record w { cache = cache_put now (nonce_key e) (codes "1") (nonce_ttl_seconds e) w.cache },
  )
]

-- A submission that is ready for the database.
pub record Pending : Type 0 where
  pub operation : Operation
  pub receipt : Receipt
  pub ear : Ear

module _ (p : Platform) where
  -- Steps 7 and 8
  unfoldable pub build_operation : ℕ → Eor → ℕ → Operation
  build_operation received_at e seq_no = record {
    operation_id = e.operation_id;
    org_id = e.org_id;
    agent_id = e.agent_id;
    seq_no = seq_no;
    operation_type = e.operation_type;
    issued_at = e.issued_at;
    ttl_ms = e.ttl_ms;
    nonce = e.nonce;
    subject = stringify e.subject;
    action = stringify e.action;
    payload_hash = e.payload_hash;
    prev_chain_hash = e.prev_chain_hash;
    chain_hash = compute_chain_hash p e.prev_chain_hash e.payload_hash e.operation_id e.issued_at;
    agent_pubkey_kid = e.agent_pubkey_kid;
    signature = e.signature;
    r2_payload_key = some (payload_key e);
    created_at = received_at;
  }

  -- Step 11
  unfoldable pub build_receipt_fields : Request → Operation → ReceiptFields
  build_receipt_fields r o = record {
    receipt_version = codes "1.0";
    receipt_id = r.receipt_id;
    operation_id = o.operation_id;
    org_id = o.org_id;
    agent_id = o.agent_id;
    server_received_at = r.received_at;
    seq_no = o.seq_no;
    chain_hash = o.chain_hash;
    queue_message_id = r.queue_message_id;
  }

  -- Signing throws if the server's key does not import.
  unfoldable pub sign_receipt : Request → ReceiptFields → Result Ear
  sign_receipt r fields =
      let hash = compute_receipt_hash p fields in
      elim (sign_ed25519 p r.signing_key (utf8_encode hash)) [
        | none ↦ fault
        | some signature ↦ ok (record {
          fields = fields;
          receipt_hash = hash;
          elydora_kid = elydora_kid;
          elydora_signature = signature;
        })
      ]

  -- Steps 9 to 11: the envelope is stored before the receipt is signed, the receipt after.
  unfoldable pub store_evidence : Request → Eor → Operation → Exec Pending
  store_evidence r e o w =
      let stored = record w {
        evidence = evidence_put (payload_key e) (eor_document e) w.evidence;
      } in
      elim (sign_receipt r (build_receipt_fields r o)) [
        | ok ear ↦ (
          ok (record {
            operation = o;
            receipt = record {
              receipt_id = r.receipt_id;
              operation_id = e.operation_id;
              r2_receipt_key = receipt_key e;
              created_at = r.received_at;
            };
            ear = ear;
          }),
          record stored {
            evidence = evidence_put (receipt_key e) (ear_document ear) stored.evidence;
          },
        )
        | error x ↦ (error x, stored)
        | fault ↦ (fault, stored)
      ]

  -- Steps 1 to 11
  unfoldable pub prepare : Request → RawEor → Exec Pending
  prepare r raw = do
    e ← lift (validate_eor_fields raw r.received_at)
    _ ← check_nonce r.received_at e
    seq_no ← (λ w. (check_eor p e w.db, w))
    store_evidence r e (build_operation r.received_at e seq_no)

-- isSeqNoConflict
unfoldable pub is_seq_no_conflict : DbError → Bool
is_seq_no_conflict (unique_violation operations_agent_id_seq_no_key) = true
is_seq_no_conflict _ = false

-- Step 12 and the return: a conflict of sequence numbers is answered with the hash of the winner,
-- any other failure of the transaction is passed on. The message to the queue may be lost.
unfoldable pub commit : Request → Pending → Exec Ear
commit r s w = elim (run_all (insert_operation s.operation ∷ insert_receipt s.receipt ∷ []) w.db) [
  | failed x ↦
      if is_seq_no_conflict x
      then elim (latest s.operation.agent_id w.db.operations) [
        | none ↦ (fault, w)
        | some winner ↦ (error (prev_hash_error winner.chain_hash s.operation.prev_chain_hash), w)
      ]
      else (fault, w)
  | done db ↦ (
    ok s.ear,
    record w {
      db = db;
      queue =
          if r.queue_accepts
          then record {
            message_id = r.queue_message_id;
            body =
                operation_message s.operation.operation_id s.operation.org_id s.operation.agent_id;
          }
            ∷ w.queue
          else w.queue;
    },
  )
]

-- submitOperation, with no other request between its parts
unfoldable pub submit_operation : Platform → Request → RawEor → Exec Ear
submit_operation p r raw = do s ← prepare p r raw; commit r s
