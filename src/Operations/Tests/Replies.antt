-- ===== src/Operations/Tests/Replies.antt =====
-- What follows a submission: its verification, and its repetition.
use elydora_open_source.Samples.{open_platform, start, request}
use elydora_open_source.Prelude.{ℕ, All, ◌∷◌, ◌≡◌, refl, true, none, some, []}
use elydora_open_source.Prelude.Texts.{codes}
use elydora_open_source.Json.{null}
use elydora_open_source.Model.Errors.{Result, ok, error, fault}
use elydora_open_source.Model.Entities.{Operation}
use elydora_open_source.Model.Statements.{run_all, insert_operation, insert_receipt}
use elydora_open_source.Model.World.{World}
use elydora_open_source.Operations.Eor.{validate_eor_fields}
use elydora_open_source.Operations.Submit.{prepare, commit, is_seq_no_conflict}
use elydora_open_source.Model.Tables.{find_operation, find_receipt}
use elydora_open_source.Json.Stringify.{decimal, decimal_ℤ, join, quoted}
use elydora_open_source.Json.Canonical.{pairs}
use elydora_open_source.Prelude.Sorting.{sort_by}
use elydora_open_source.Prelude.Texts.{text_lt}
use elydora_open_source.Model.World.{evidence_get}
use elydora_open_source.Operations.Verify.{
  Verification, links_to, signature_by, signature_check, chain_check, receipt_document_check,
  receipt_check, merkle_check, verify_document, verify_parsed, verify_stored, verify_operation,
}
use elydora_open_source.Model.Entities.{Ear, Eor}
use elydora_open_source.Prelude.{arith}
use elydora_open_source.Operations.Submit.{submit_operation}
use elydora_open_source.Operations.Queries.{get_operation}
use elydora_open_source.Operations.Queries.Answered.{found_of, submitted_found}
use elydora_open_source.Operations.Verify.Submitted.{submitted_verifies}
use elydora_open_source.Model.Errors.{coded, replay_detected}
use elydora_open_source.Operations.Submit.{nonce_key}
use elydora_open_source.Model.World.{CacheEntry}
use elydora_open_source.Operations.Replay.{IsOther, replay_refused}
use elydora_open_source.Operations.Verify.Sound.{IsVerified, verify_operation_sound}
use elydora_open_source.Operations.Tests.{first, prepared, prepared-ok, run}

abbrev final : World
final = (commit request prepared (prepare open_platform request first start).1).1

abbrev verification : Verification
verification = record {
  valid = true;
  signature = true;
  chain = true;
  receipt = true;
  merkle = none;
  errors = [];
}

verifies : verify_operation open_platform (codes "x") (codes "o") final ≡ ok verification
unfolding run commit is_seq_no_conflict run_all insert_operation insert_receipt find_operation
    find_receipt evidence_get links_to signature_by signature_check chain_check
    receipt_document_check receipt_check merkle_check verify_document verify_parsed verify_stored
    verify_operation decimal decimal_ℤ join quoted pairs sort_by text_lt
verifies = refl

verify_operation_sound_example :
    (o : Operation) × (find_operation (codes "x") (codes "o") final.db ≡ some o)
    × IsVerified open_platform o final
verify_operation_sound_example =
    verify_operation_sound open_platform (codes "x") (codes "o") final verification verifies refl

abbrev acknowledged : Ear
acknowledged = prepared.ear

acknowledges : (submit_operation open_platform request first start).0 ≡ ok acknowledged
unfolding run commit is_seq_no_conflict run_all insert_operation insert_receipt submit_operation
acknowledges = refl

submitted_verifies_example :
    (v : Verification) × (verify_operation open_platform acknowledged.operation_id
        acknowledged.org_id
        (submit_operation open_platform request first start).1
      ≡ ok v)
    × (v.valid ≡ true)
submitted_verifies_example =
    submitted_verifies open_platform request first start acknowledged tt acknowledges

submitted_found_example :
    (e : Eor) × (n : ℕ) × (validate_eor_fields first request.received_at ≡ ok e)
    × (get_operation acknowledged.operation_id acknowledged.org_id
          (submit_operation open_platform request first start).1
        ≡ ok (found_of open_platform request e n))
submitted_found_example =
    submitted_found open_platform request first start acknowledged tt acknowledges

abbrev no_envelope : Eor
no_envelope = record {
  operation_id = [];
  org_id = [];
  agent_id = [];
  issued_at = 0;
  ttl_ms = 0;
  nonce = [];
  operation_type = [];
  subject = null;
  action = null;
  payload = null;
  payload_hash = [];
  prev_chain_hash = [];
  agent_pubkey_kid = [];
  signature = [];
}

abbrev envelope_or : Result Eor → Eor
envelope_or (ok e) = e
envelope_or (error x) = no_envelope
envelope_or fault = no_envelope

abbrev envelope : Eor
envelope = envelope_or (validate_eor_fields first 7)

validates : validate_eor_fields first 7 ≡ ok envelope
unfolding run
validates = refl

validates_again : validate_eor_fields first 500 ≡ ok envelope
unfolding run
validates_again = refl

-- The chain of the agent, as a worker puts it in the cache in between
abbrev chain_entry : CacheEntry
chain_entry = record { key = codes "chain:a:latest"; value = codes "{}"; expires_at = none }

abbrev later : World
later = record (prepare open_platform request first start).1 {
  cache = chain_entry ∷ (prepare open_platform request first start).1.cache;
}

apart : All (IsOther (nonce_key envelope)) (chain_entry ∷ [])
unfolding run
apart = (refl, tt)

lasts : envelope.ttl_ms ≡ 1000
unfolding run
lasts = refl

replay_refused_example :
    prepare open_platform (record request { received_at = 500 }) first later
    ≡ (error (coded 400 replay_detected), later)
replay_refused_example =
    replay_refused open_platform request (record request { received_at = 500 }) first first start
      later prepared envelope envelope (chain_entry ∷ []) prepared-ok validates validates_again refl
      refl apart refl (omega arith) (omega (arith, lasts))
