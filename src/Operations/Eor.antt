-- ===== src/Operations/Eor.antt =====
-- Validation and signed form of an EOR: packages/server/src/services/operation-eor.ts, with the
-- limits of shared/constants/limits.ts.
use elydora_open_source.Prelude.{
  ℕ, ◌+◌, ◌*◌, Bool, true, ◌&&◌, String, Option, none, some, List, [], ◌∷◌, ltb, ◌==◌,
  if◌then◌else◌, length,
}
use elydora_open_source.Prelude.Texts.{is_white, Text, text_eq, codes}
use elydora_open_source.Json.{
  Json, undefined, null, string, number, object, field, end, pos, negsuc, boolean, array,
}
use elydora_open_source.Json.Stringify.{stringify}
use elydora_open_source.Crypto.Utf8.{utf8_encode}
use elydora_open_source.Model.Errors.{
  AppError, keyed, coded, validation_error, ttl_expired, payload_too_large, Param, text, count,
  Result, ok, error, ◌>>=◌, ◌>>◌,
}
use elydora_open_source.Model.Entities.{Eor}

-- The request body as it comes: each field is any JSON value, or `undefined`.
pub record RawEor : Type 0 where
  pub op_version : Json
  pub operation_id : Json
  pub org_id : Json
  pub agent_id : Json
  pub issued_at : Json
  pub ttl_ms : Json
  pub nonce : Json
  pub operation_type : Json
  pub subject : Json
  pub action : Json
  pub payload : Json
  pub payload_hash : Json
  pub prev_chain_hash : Json
  pub agent_pubkey_kid : Json
  pub signature : Json

abbrev pub max_payload_size : ℕ
max_payload_size = 256 * 1024

abbrev pub max_ttl_ms : ℕ
max_ttl_ms = 300000

abbrev pub min_ttl_ms : ℕ
min_ttl_ms = 1000

abbrev pub max_nonce_length : ℕ
max_nonce_length = 64

-- GENESIS_CHAIN_HASH
abbrev pub genesis_chain_hash : Text
genesis_chain_hash = codes "AAAAAAAAAAAAAAAAAAAAAAAAAAAAAAAAAAAAAAAAAAA"

-- ELYDORA_KID
abbrev pub elydora_kid : Text
elydora_kid = codes "elydora-server-key-v1"

-- value.trim().length === 0
unfoldable pub is_blank : Text → Bool
unfolding is_white
is_blank [] = true
is_blank (c ∷ s) = is_white c && is_blank s

abbrev pub invalid : String → List (String × Param) → AppError
invalid key params = keyed 400 validation_error key params

-- One round of the loop over `requiredStrings`.
unfoldable pub required_string : String → Json → Result Text
required_string name (string s) =
    if is_blank s
    then error (invalid "operation.missingField" (("field", text (codes name)) ∷ []))
    else ok s
required_string name _ =
    error (invalid "operation.missingField" (("field", text (codes name)) ∷ []))

-- eor.op_version !== '1.0'
unfoldable pub supported_version : Json → Result (Unit {0})
supported_version (string v) =
    if text_eq v (codes "1.0")
    then ok tt
    else error (invalid "operation.unsupportedVersion" (("version", text v) ∷ []))
supported_version _ = error (invalid "operation.unsupportedVersion" [])

unfoldable pub valid_nonce : Text → Result (Unit {0})
valid_nonce nonce =
    if ltb max_nonce_length (length nonce)
    then error (invalid "operation.nonceTooLong" (("max", count max_nonce_length) ∷ []))
    else ok tt

unfoldable pub valid_issued_at : Json → Result ℕ
valid_issued_at (number (pos n)) =
    if n == 0 then error (invalid "operation.invalidIssuedAt" []) else ok n
valid_issued_at _ = error (invalid "operation.invalidIssuedAt" [])

unfoldable pub valid_ttl : Json → Result ℕ
valid_ttl (number (pos n)) =
    if ltb n min_ttl_ms
    then error (invalid "operation.ttlTooLow" (("min", count min_ttl_ms) ∷ []))
    else if ltb max_ttl_ms n
    then error (invalid "operation.ttlTooHigh" (("max", count max_ttl_ms) ∷ []))
    else ok n
valid_ttl (number (negsuc n)) =
    error (invalid "operation.ttlTooLow" (("min", count min_ttl_ms) ∷ []))
valid_ttl _ = error (invalid "operation.missingTtl" [])

unfoldable pub unexpired : ℕ → ℕ → ℕ → Result (Unit {0})
unexpired issued_at ttl_ms received_at =
    if ltb (issued_at + ttl_ms) received_at then error (coded 400 ttl_expired) else ok tt

-- The text whose size counts: a string is taken as it is.
abbrev payload_text : Json → Option Text
payload_text undefined = none
payload_text null = none
payload_text (string s) = some s
payload_text (boolean b) = stringify (boolean b)
payload_text (number n) = stringify (number n)
payload_text (array xs) = stringify (array xs)
payload_text (object fs) = stringify (object fs)

unfoldable pub valid_payload : Json → Result (Unit {0})
valid_payload payload = elim (payload_text payload) [
  | none ↦ ok tt
  | some t ↦
      if ltb max_payload_size (length (utf8_encode t))
      then error (coded 400 payload_too_large)
      else ok tt
]

-- validateEORFields. The source returns nothing and goes on with the fields at the types that the
-- checks have established; here these are the result.
unfoldable pub validate_eor_fields : RawEor → ℕ → Result Eor
validate_eor_fields e received_at = do
  supported_version e.op_version
  operation_id ← required_string "operation_id" e.operation_id
  org_id ← required_string "org_id" e.org_id
  agent_id ← required_string "agent_id" e.agent_id
  nonce ← required_string "nonce" e.nonce
  operation_type ← required_string "operation_type" e.operation_type
  payload_hash ← required_string "payload_hash" e.payload_hash
  prev_chain_hash ← required_string "prev_chain_hash" e.prev_chain_hash
  agent_pubkey_kid ← required_string "agent_pubkey_kid" e.agent_pubkey_kid
  signature ← required_string "signature" e.signature
  valid_nonce nonce
  issued_at ← valid_issued_at e.issued_at
  ttl_ms ← valid_ttl e.ttl_ms
  unexpired issued_at ttl_ms received_at
  valid_payload e.payload
  ok (record {
    operation_id = operation_id;
    org_id = org_id;
    agent_id = agent_id;
    issued_at = issued_at;
    ttl_ms = ttl_ms;
    nonce = nonce;
    operation_type = operation_type;
    subject = e.subject;
    action = e.action;
    payload = e.payload;
    payload_hash = payload_hash;
    prev_chain_hash = prev_chain_hash;
    agent_pubkey_kid = agent_pubkey_kid;
    signature = signature;
  })

-- buildSignableEOR
unfoldable pub build_signable_eor : Eor → Json
build_signable_eor e = object (
    field (codes "op_version") (string (codes "1.0")) (
      field (codes "operation_id") (string e.operation_id) (
        field (codes "org_id") (string e.org_id) (
          field (codes "agent_id") (string e.agent_id) (
            field (codes "issued_at") (number (pos e.issued_at)) (
              field (codes "ttl_ms") (number (pos e.ttl_ms)) (
                field (codes "nonce") (string e.nonce) (
                  field (codes "operation_type") (string e.operation_type) (
                    field (codes "subject") e.subject (
                      field (codes "action") e.action (
                        field (codes "payload") e.payload (
                          field (codes "payload_hash") (string e.payload_hash) (
                            field (codes "prev_chain_hash") (string e.prev_chain_hash) (
                              field (codes "agent_pubkey_kid") (string e.agent_pubkey_kid)
                                end))))))))))))))
