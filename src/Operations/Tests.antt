-- ===== src/Operations/Tests.antt =====
-- Runs of a submission over a platform whose keys all import and whose signatures all hold.
mod Replies
use elydora_open_source.Samples.{
  open_platform, empty_world, empty_database, active_agent, active_key, start, request,
}
use elydora_open_source.Prelude.{◌≡◌, refl, ◌%◌, true, none, some, [], ◌∷◌, length}
use elydora_open_source.Prelude.Texts.{codes, text_eq}
use elydora_open_source.Json.{pos, null, string, number, object, end}
use elydora_open_source.Json.Stringify.{stringify}
use elydora_open_source.Json.Canonical.{jcs_canonicalise}
use elydora_open_source.Crypto.Platform.{
  Platform, verify_ed25519_signature, sign_ed25519, wrap_seed_as_pkcs8, sha256_base64url,
  compute_chain_hash, compute_receipt_hash, receipt_json,
}
use elydora_open_source.Crypto.Base64.{base64url_encode, base64url_decode}
use elydora_open_source.Crypto.Utf8.{utf8_encode}
use elydora_open_source.Model.Errors.{Result, ok, error, fault}
use elydora_open_source.Model.Entities.{
  AgentStatus, KeyStatus, IntegrationType, Agent, AgentKey, Operation,
}
use elydora_open_source.Model.Tables.{latest, find_agent, find_key}
use elydora_open_source.Model.Statements.{run_all, insert_operation, insert_receipt}
use elydora_open_source.Model.World.{World, evidence_put, cache_get, cache_put}
use elydora_open_source.Operations.Eor.{
  RawEor, genesis_chain_hash, is_blank, required_string, supported_version, valid_nonce,
  valid_issued_at, valid_ttl, unexpired, valid_payload, validate_eor_fields, build_signable_eor,
}
use elydora_open_source.Operations.Checks.{
  check_agent, check_key, check_signature, check_prev_hash, check_eor,
}
use elydora_open_source.Operations.Submit.{
  Request, Pending, nonce_key, payload_key, receipt_key, check_nonce, build_operation,
  build_receipt_fields, sign_receipt, store_evidence, prepare, commit, is_seq_no_conflict,
}
use elydora_open_source.Operations.Interleaving.{
  begin, finish, Reach, here, next, IsConsistent, Reach-IsConsistent,
}
use elydora_open_source.Model.Tables.{find_operation, find_receipt}
use elydora_open_source.Json.Stringify.{decimal, decimal_ℤ, join, quoted}
use elydora_open_source.Json.Canonical.{pairs}
use elydora_open_source.Prelude.Sorting.{sort_by}
use elydora_open_source.Prelude.Texts.{text_lt}
use elydora_open_source.Model.World.{evidence_get}
use elydora_open_source.Operations.Verify.{
  Verification, links_to, signature_by, signature_check, chain_check, receipt_document_check,
  receipt_check, merkle_check, verify_document, verify_parsed, verify_stored, verify_operation,
}
use elydora_open_source.Model.Entities.{Ear, Eor}
use elydora_open_source.Prelude.{arith}
use elydora_open_source.Operations.Submit.{submit_operation}
use elydora_open_source.Operations.Verify.Submitted.{submitted_verifies}
use elydora_open_source.Model.Errors.{coded, replay_detected}
use elydora_open_source.Operations.Submit.{nonce_ttl_seconds}
use elydora_open_source.Operations.Replay.{replay_refused}
use elydora_open_source.Operations.Verify.Sound.{IsVerified, verify_operation_sound}

abbrev pub first : RawEor
first = record {
  op_version = string (codes "1.0");
  operation_id = string (codes "x");
  org_id = string (codes "o");
  agent_id = string (codes "a");
  issued_at = number (pos 5);
  ttl_ms = number (pos 1000);
  nonce = string (codes "n");
  operation_type = string (codes "t");
  subject = object end;
  action = object end;
  payload = null;
  payload_hash = string (codes "h");
  prev_chain_hash = string genesis_chain_hash;
  agent_pubkey_kid = string (codes "k");
  signature = string (codes "AQ");
}

abbrev nothing : Operation
nothing = record {
  operation_id = [];
  org_id = [];
  agent_id = [];
  seq_no = 0;
  operation_type = [];
  issued_at = 0;
  ttl_ms = 0;
  nonce = [];
  subject = none;
  action = none;
  payload_hash = [];
  prev_chain_hash = [];
  chain_hash = [];
  agent_pubkey_kid = [];
  signature = [];
  r2_payload_key = none;
  created_at = 0;
}

pub run : Unit {0}
unfolding verify_ed25519_signature sign_ed25519 wrap_seed_as_pkcs8 sha256_base64url
    compute_chain_hash compute_receipt_hash receipt_json base64url_encode base64url_decode
    utf8_encode jcs_canonicalise stringify text_eq latest find_agent find_key evidence_put cache_get
    cache_put is_blank required_string supported_version valid_nonce valid_issued_at valid_ttl
    unexpired valid_payload validate_eor_fields build_signable_eor check_agent check_key
    check_signature check_prev_hash check_eor nonce_key payload_key receipt_key check_nonce
    build_operation build_receipt_fields sign_receipt store_evidence prepare
run = tt

abbrev no_pending : Pending
no_pending = record {
  operation = nothing;
  receipt = record { receipt_id = []; operation_id = []; r2_receipt_key = []; created_at = 0 };
  ear = record {
    fields = record {
      receipt_version = [];
      receipt_id = [];
      operation_id = [];
      org_id = [];
      agent_id = [];
      server_received_at = 0;
      seq_no = 0;
      chain_hash = [];
      queue_message_id = [];
    };
    receipt_hash = [];
    elydora_kid = [];
    elydora_signature = [];
  };
}

abbrev pending_or : Result Pending → Pending
pending_or (ok s) = s
pending_or (error x) = no_pending
pending_or fault = no_pending

abbrev pub prepared : Pending
prepared = pending_or (prepare open_platform request first start).0

pub prepared-ok : (prepare open_platform request first start).0 ≡ ok prepared
unfolding run
prepared-ok = refl

first_number : prepared.operation.seq_no ≡ 1
unfolding run
first_number = refl

-- A submission that is prepared and then committed.
submitted :
    Reach open_platform
      (record { world = start; pending = [] })
      (record {
        world = (commit request prepared (prepare open_platform request first start).1).1;
        pending = [];
      })
submitted =
    next
      (next here
        (begin request first prepared (record { world = start; pending = [] }) prepared-ok))
      (finish request prepared [] [] (prepare open_platform request first start).1)

Reach-IsConsistent_example : IsConsistent open_platform (record {
  world = (commit request prepared (prepare open_platform request first start).1).1;
  pending = [];
})
Reach-IsConsistent_example =
    Reach-IsConsistent open_platform (record { chained = tt; ready = tt }) submitted

-- The two parts in a row store the operation.
committed_once :
    length (commit request prepared (prepare open_platform request first start).1).1.db.operations
    ≡ 1
unfolding run commit is_seq_no_conflict run_all insert_operation insert_receipt
committed_once = refl
