-- ===== src/Client/Checked.antt =====
-- The server's tests let an operation of the client pass: createOperation of Client against steps 3
-- to 6 of submitOperation in Operations/Checks.
use mathlib.Core.Path.{subst}
use elydora_open_source.Prelude.{ℕ, ◌≡◌, sym, ap, ◌∙◌, some, List, arith, All, true}
use elydora_open_source.Prelude.Texts.{Text, eq_iff}
use elydora_open_source.Prelude.Throws.{>>=-eq-some}
use elydora_open_source.Json.Canonical.{jcs_canonicalise}
use elydora_open_source.Crypto.Base64.{base64url_encode, base64url_decode}
use elydora_open_source.Crypto.Base64.RoundTrip.{IsByte, decode-encode}
use elydora_open_source.Crypto.Utf8.{utf8_encode}
use elydora_open_source.Crypto.Platform.{Platform, verify_ed25519_signature}
use elydora_open_source.Model.Errors.{ok}
use elydora_open_source.Model.Entities.{AgentStatus, KeyStatus, Agent, AgentKey, Eor}
use elydora_open_source.Model.Tables.{Database, find_agent, find_key, latest}
use elydora_open_source.Operations.Eor.{build_signable_eor}
use elydora_open_source.Operations.Checks.{
  check_agent, check_key, check_signature, check_prev_hash, check_eor, next_seq_no,
  expected_prev_hash,
}
use elydora_open_source.Client.Hashing.{canonical_json, pkcs8_key, signable}
use elydora_open_source.Client.Hashing.Same.{canonical-same, signable-same}
use elydora_open_source.Client.{Client, NewOperation, unsigned_eor, sign_with, create_operation}
use elydora_open_source.Client.InStep.{IsInStep, create_operation-inv}

check_agent-active :
    (e : Eor) (db : Database) (a : Agent)
    → find_agent e.agent_id e.org_id db ≡ some a
    → a.status ≡ AgentStatus.active
    → check_agent e db ≡ ok tt
unfolding check_agent
check_agent-active e db a found active = ground arith

check_key-active :
    (e : Eor) (db : Database) (k : AgentKey)
    → find_key e.agent_pubkey_kid e.agent_id db ≡ some k
    → k.status ≡ KeyStatus.active
    → check_key e db ≡ ok k
unfolding check_key
check_key-active e db k found active = ground arith

check_prev_hash-expected :
    (e : Eor) (db : Database)
    → e.prev_chain_hash ≡ expected_prev_hash (latest e.agent_id db.operations)
    → check_prev_hash e db ≡ ok (next_seq_no (latest e.agent_id db.operations))
unfolding check_prev_hash
check_prev_hash-expected e db same =
    let equal =
      (eq_iff e.prev_chain_hash (expected_prev_hash (latest e.agent_id db.operations))).1 same in
    ground arith

some-injective : (s t : Text) → some s ≡ some t → s ≡ t
some-injective s t h = ground arith

module _ (p : Platform) where
  verify-holds :
      (public signature bytes : List ℕ) (key : p.PublicKey)
      → p.import_public public ≡ some key
      → p.verify key signature bytes ≡ some true
      → verify_ed25519_signature p public signature bytes ≡ some true
  unfolding verify_ed25519_signature
  verify-holds public signature bytes key i v = ground arith

  check_signature-holds :
      (e : Eor) (k : AgentKey) (signature public : List ℕ)
      → base64url_decode e.signature ≡ some signature
      → base64url_decode k.public_key ≡ some public
      → verify_ed25519_signature p public signature
          (utf8_encode (jcs_canonicalise (build_signable_eor e)))
        ≡ some true
      → check_signature p e k ≡ ok tt
  unfolding check_signature
  check_signature-holds e k signature public s q v = ground arith

  check_eor-passes :
      (e : Eor) (db : Database) (k : AgentKey) (n : ℕ)
      → check_agent e db ≡ ok tt
      → check_key e db ≡ ok k
      → check_signature p e k ≡ ok tt
      → check_prev_hash e db ≡ ok n
      → check_eor p e db ≡ ok n
  unfolding check_eor
  check_eor-passes e db k n a b c d = rw (a, b, c) d

  -- The server's tests pass for an operation that a client in step has created, with an active agent
  -- and an active key that verifies what the client's key signs.
  pub created_checks :
      (from_base64url : Text → List ℕ) (n : NewOperation) (c d : Client) (e : Eor)
      → (db : Database) (a : Agent) (k : AgentKey) (public : List ℕ) (key : p.PublicKey)
      → create_operation p from_base64url n c ≡ some (e, d)
      → find_agent c.agent_id c.org_id db ≡ some a
      → a.status ≡ AgentStatus.active
      → find_key c.kid c.agent_id db ≡ some k
      → k.status ≡ KeyStatus.active
      → base64url_decode k.public_key ≡ some public
      → p.import_public public ≡ some key
      → ((m s : List ℕ)
          → p.sign (pkcs8_key (from_base64url c.private_key)) m ≡ some s
          → All IsByte s × (p.verify key s m ≡ some true))
      → IsInStep c db.operations
      → check_eor p e db ≡ ok (next_seq_no (latest e.agent_id db.operations))
  unfolding unsigned_eor build_signable_eor sign_with
  created_checks from_base64url n c d e db a k public key h fa sa fk sk dk ik law st =
      let (signature, signed, made, moved) = create_operation-inv p from_base64url n c d e h in
      let bytes = utf8_encode (canonical_json (signable (unsigned_eor p n c))) in
      let same : bytes ≡ utf8_encode (jcs_canonicalise (build_signable_eor (unsigned_eor p n c))) =
        ap utf8_encode (
          canonical-same (signable (unsigned_eor p n c))
          ∙ ap jcs_canonicalise (signable-same (unsigned_eor p n c))) in
      let (raw, drawn, encoded) =
        >>=-eq-some (p.sign (pkcs8_key (from_base64url c.private_key)) bytes)
          (λ (s : List ℕ). some (base64url_encode s)) signature signed in
      let (are_bytes, verified) = law bytes raw drawn in
      let text : base64url_decode signature ≡ some raw =
        ap base64url_decode (sym (some-injective (base64url_encode raw) signature encoded))
        ∙ decode-encode raw are_bytes in
      subst (λ (x : Eor). check_eor p x db ≡ ok (next_seq_no (latest x.agent_id db.operations)))
        (sym made)
        (check_eor-passes (record (unsigned_eor p n c) { signature = signature }) db k
          (next_seq_no (latest c.agent_id db.operations))
          (check_agent-active (record (unsigned_eor p n c) { signature = signature }) db a fa sa)
          (check_key-active (record (unsigned_eor p n c) { signature = signature }) db k fk sk)
          (check_signature-holds (record (unsigned_eor p n c) { signature = signature }) k raw
            public text dk
            (ap (verify_ed25519_signature p public raw) (sym same)
              ∙ verify-holds public raw bytes key ik verified))
          (check_prev_hash-expected (record (unsigned_eor p n c) { signature = signature }) db st))
