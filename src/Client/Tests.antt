-- ===== src/Client/Tests.antt =====
-- A client that submits one operation, and the theorems on it at this run.
use mathlib.Core.Path.{subst}
use elydora_open_source.Prelude.{All, ℕ, ◌≡◌, refl, true, Option, none, some, List, [], ◌∷◌, arith}
use elydora_open_source.Prelude.Texts.{Text, codes, text_eq, text_lt}
use elydora_open_source.Prelude.Sorting.{sort_by}
use elydora_open_source.Json.{null, object, end}
use elydora_open_source.Json.Stringify.{stringify, decimal, decimal_ℤ, join, quoted}
use elydora_open_source.Json.Canonical.{jcs_canonicalise, pairs}
use elydora_open_source.Crypto.Platform.{
  verify_ed25519_signature, sign_ed25519, wrap_seed_as_pkcs8, sha256_base64url, compute_chain_hash,
  compute_receipt_hash, receipt_json,
}
use elydora_open_source.Crypto.Base64.{base64url_encode, base64url_decode}
use elydora_open_source.Crypto.Base64.RoundTrip.{IsByte}
use elydora_open_source.Crypto.Utf8.{utf8_encode}
use elydora_open_source.Model.Errors.{Result, ok, error, fault}
use elydora_open_source.Model.Entities.{Eor, Ear}
use elydora_open_source.Model.Tables.{latest, find_agent, find_key}
use elydora_open_source.Model.Statements.{run_all, insert_operation, insert_receipt}
use elydora_open_source.Model.World.{evidence_put, cache_get, cache_put}
use elydora_open_source.Operations.Eor.{
  is_blank, required_string, supported_version, valid_nonce, valid_issued_at, valid_ttl, unexpired,
  valid_payload, validate_eor_fields, build_signable_eor,
}
use elydora_open_source.Operations.Checks.{
  check_agent, check_key, check_signature, check_prev_hash, check_eor, next_seq_no,
}
use elydora_open_source.Operations.Submit.{
  nonce_key, payload_key, receipt_key, check_nonce, build_operation, build_receipt_fields,
  sign_receipt, store_evidence, prepare, commit, is_seq_no_conflict, submit_operation,
}
use elydora_open_source.Client.Hashing.{
  canonical_json, member_texts, pkcs8_key, signable, hash_text, chain_hash_after,
  compute_payload_hash,
}
use elydora_open_source.Client.{
  ClientConfig, Client, NewOperation, zero_chain_hash, new_client, unsigned_eor, sign_with,
  create_operation,
}
use elydora_open_source.Client.InStep.{raw_of, IsInStep, accepted-IsInStep}
use elydora_open_source.Client.Checked.{created_checks}
use elydora_open_source.Samples.{open_platform, start, request, active_agent, active_key}

abbrev config : ClientConfig
config = record {
  org_id = codes "o";
  agent_id = codes "a";
  private_key = codes "AQ";
  base_url = none;
  ttl_ms = some 1000;
  max_retries = none;
  kid = some (codes "k");
}

abbrev operation : NewOperation
operation = record {
  operation_type = codes "t";
  subject = object end;
  action = object end;
  payload = null;
  operation_id = codes "x";
  nonce = codes "n";
  issued_at = 5;
}

abbrev no_bytes : Text → List ℕ
no_bytes _ = []

run : Unit {0}
unfolding canonical_json member_texts pkcs8_key signable hash_text chain_hash_after
    verify_ed25519_signature sign_ed25519 wrap_seed_as_pkcs8 sha256_base64url compute_chain_hash
    compute_receipt_hash receipt_json base64url_encode base64url_decode utf8_encode jcs_canonicalise
    stringify text_eq latest find_agent find_key evidence_put cache_get cache_put is_blank
    required_string supported_version valid_nonce valid_issued_at valid_ttl unexpired valid_payload
    validate_eor_fields build_signable_eor check_agent check_key check_signature check_prev_hash
    check_eor nonce_key payload_key receipt_key check_nonce build_operation build_receipt_fields
    sign_receipt store_evidence prepare commit is_seq_no_conflict run_all insert_operation
    insert_receipt submit_operation zero_chain_hash new_client compute_payload_hash unsigned_eor
    sign_with create_operation raw_of decimal decimal_ℤ join quoted pairs sort_by text_lt
run = tt

abbrev client : Client
client = new_client config

abbrev created_or : Option (Eor × Client) → Eor × Client
created_or none = (unsigned_eor open_platform operation client, client)
created_or (some made) = made

abbrev made : Eor × Client
made = created_or (create_operation open_platform no_bytes operation client)

creates : create_operation open_platform no_bytes operation client ≡ some (made.0, made.1)
unfolding run
creates = refl

abbrev no_ear : Ear
no_ear = record {
  fields = record {
    receipt_version = [];
    receipt_id = [];
    operation_id = [];
    org_id = [];
    agent_id = [];
    server_received_at = 0;
    seq_no = 0;
    chain_hash = [];
    queue_message_id = [];
  };
  receipt_hash = [];
  elydora_kid = [];
  elydora_signature = [];
}

abbrev ear_or : Result Ear → Ear
ear_or (ok e) = e
ear_or (error x) = no_ear
ear_or fault = no_ear

abbrev ear : Ear
ear = ear_or (submit_operation open_platform request (raw_of made.0) start).0

submits : (submit_operation open_platform request (raw_of made.0) start).0 ≡ ok ear
unfolding run
submits = refl

-- A client starts in step with a server that has no operation of its agent.
starts-IsInStep : IsInStep client start.db.operations
unfolding run
starts-IsInStep = refl

accepted-IsInStep_example :
    IsInStep made.1 (submit_operation open_platform request (raw_of made.0) start).1.db.operations
accepted-IsInStep_example =
    accepted-IsInStep open_platform no_bytes operation client made.1 made.0 request start ear tt
      creates submits

finds_agent : find_agent client.agent_id client.org_id start.db ≡ some active_agent
unfolding run
finds_agent = refl

finds_key : find_key client.kid client.agent_id start.db ≡ some active_key
unfolding run
finds_key = refl

decodes : base64url_decode active_key.public_key ≡ some (1 ∷ [])
unfolding run
decodes = refl

some-injective : (s t : List ℕ) → some s ≡ some t → s ≡ t
some-injective s t h = ground arith

one-IsByte :
    (m s : List ℕ)
    → open_platform.sign (pkcs8_key (no_bytes client.private_key)) m ≡ some s
    → All IsByte s × (open_platform.verify tt s m ≡ some true)
one-IsByte m s signed =
    let same : 1 ∷ [] ≡ s = some-injective (1 ∷ []) s signed in
    subst (λ (x : List ℕ). All IsByte x × (open_platform.verify tt x m ≡ some true)) same
      ((omega arith, tt), refl)

created_checks_example :
    check_eor open_platform made.0 start.db
    ≡ ok (next_seq_no (latest made.0.agent_id start.db.operations))
created_checks_example =
    created_checks open_platform no_bytes operation client made.1 made.0 start.db active_agent
      active_key (1 ∷ []) tt creates finds_agent refl finds_key refl decodes refl one-IsByte
      starts-IsInStep
