-- ===== src/Operations/Checks.antt =====
-- The tests of a submission that only read: steps 3 to 6 of
-- packages/server/src/services/operation-submit.ts.
use elydora_open_source.Prelude.{ℕ, ◌+◌, Option, none, some, [], ◌∷◌, if◌then◌else◌}
use elydora_open_source.Prelude.Texts.{Text, text_eq}
use elydora_open_source.Json.Canonical.{jcs_canonicalise}
use elydora_open_source.Crypto.Base64.{base64url_decode}
use elydora_open_source.Crypto.Utf8.{utf8_encode}
use elydora_open_source.Crypto.Platform.{Platform, verify_ed25519_signature}
use elydora_open_source.Model.Errors.{
  AppError, coded, keyed, text, Result, ok, error, fault, invalid_signature, unknown_agent,
  key_revoked, key_retired, agent_frozen, agent_revoked, prev_hash_mismatch, ◌>>=◌, ◌>>◌,
}
use elydora_open_source.Model.Entities.{AgentStatus, KeyStatus, AgentKey, Operation, Eor}
use elydora_open_source.Model.Tables.{Database, latest, find_agent, find_key}
use elydora_open_source.Operations.Eor.{build_signable_eor, genesis_chain_hash}

-- Step 3
abbrev agent_may_submit : AgentStatus → Result (Unit {0})
agent_may_submit AgentStatus.frozen = error (coded 403 agent_frozen)
agent_may_submit AgentStatus.revoked = error (keyed 403 agent_revoked "operation.agentRevoked" [])
agent_may_submit AgentStatus.active = ok tt

unfoldable pub check_agent : Eor → Database → Result (Unit {0})
check_agent e db = elim (find_agent e.agent_id e.org_id db) [
  | none ↦
      error (keyed 404 unknown_agent "operation.agentNotRegistered" (("id", text e.agent_id) ∷ []))
  | some a ↦ agent_may_submit a.status
]

-- Step 4
abbrev key_may_sign : AgentKey → Result AgentKey
key_may_sign k = elim k.status [
  | KeyStatus.revoked ↦ error (coded 403 key_revoked)
  | KeyStatus.retired ↦ error (keyed 403 key_retired "operation.keyRetired" [])
  | KeyStatus.active ↦ ok k
]

unfoldable pub check_key : Eor → Database → Result AgentKey
check_key e db = elim (find_key e.agent_pubkey_kid e.agent_id db) [
  | none ↦ error (
      keyed 400 invalid_signature "operation.keyNotFoundForAgent"
        (("kid", text e.agent_pubkey_kid) ∷ ("id", text e.agent_id) ∷ []))
  | some k ↦ key_may_sign k
]

-- Step 6: what the next operation of an agent follows.
abbrev pub expected_prev_hash : Option Operation → Text
expected_prev_hash none = genesis_chain_hash
expected_prev_hash (some o) = o.chain_hash

abbrev pub next_seq_no : Option Operation → ℕ
next_seq_no none = 1
next_seq_no (some o) = o.seq_no + 1

abbrev pub prev_hash_error : Text → Text → AppError
prev_hash_error expected actual =
    keyed 400 prev_hash_mismatch "operation.prevHashMismatch"
      (("expected", text expected) ∷ ("actual", text actual) ∷ [])

unfoldable pub check_prev_hash : Eor → Database → Result ℕ
check_prev_hash e db =
    let last = latest e.agent_id db.operations in
    if text_eq e.prev_chain_hash (expected_prev_hash last)
    then ok (next_seq_no last)
    else error (prev_hash_error (expected_prev_hash last) e.prev_chain_hash)

module _ (p : Platform) where
  -- Step 5: a text that does not decode, and a rejected verification, are no `AppError`.
  unfoldable pub check_signature : Eor → AgentKey → Result (Unit {0})
  check_signature e k =
      let bytes = utf8_encode (jcs_canonicalise (build_signable_eor e)) in
      elim (base64url_decode e.signature) [
        | none ↦ fault
        | some signature ↦ elim (base64url_decode k.public_key) [
          | none ↦ fault
          | some public_key ↦ elim (verify_ed25519_signature p public_key signature bytes) [
            | none ↦ fault
            | some valid ↦ if valid then ok tt else error (coded 400 invalid_signature)
          ]
        ]
      ]

  -- The tests in their order; the result is the next sequence number.
  unfoldable pub check_eor : Eor → Database → Result ℕ
  check_eor e db = do
    check_agent e db
    k ← check_key e db
    check_signature e k
    check_prev_hash e db
