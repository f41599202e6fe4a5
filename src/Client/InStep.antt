-- ===== src/Client/InStep.antt =====
-- The client and the server stay in step: createOperation of Client and submitOperation of
-- Operations/Submit.
use elydora_open_source.Prelude.{ℕ, ◌≡◌, refl, sym, ap, ◌∙◌, Option, some, List, arith}
use elydora_open_source.Prelude.Texts.{Text, codes}
use elydora_open_source.Prelude.Throws.{>>=-eq-some}
use elydora_open_source.Json.{string, number, pos}
use elydora_open_source.Crypto.Utf8.{utf8_encode}
use elydora_open_source.Crypto.Platform.{Platform}
use elydora_open_source.Model.Errors.{ok}
use elydora_open_source.Model.Entities.{Eor, Operation, Ear}
use elydora_open_source.Operations.Eor.{
  RawEor, validate_eor_fields, required_string, valid_issued_at, valid_ttl,
}
use elydora_open_source.Model.Tables.{latest}
use elydora_open_source.Model.World.{World}
use elydora_open_source.Operations.Checks.{expected_prev_hash}
use elydora_open_source.Operations.Submit.{Request, build_operation, submit_operation}
use elydora_open_source.Operations.Chain.{IsChained, latest-Extends}
use elydora_open_source.Operations.Accepted.{submit-IsAccepted}
use elydora_open_source.Client.Hashing.{canonical_json, signable, chain_hash_after}
use elydora_open_source.Client.Hashing.Same.{chain-same}
use elydora_open_source.Client.{Client, NewOperation, unsigned_eor, sign_with, create_operation}

-- The body of the request: the envelope as JSON.
unfoldable pub raw_of : Eor → RawEor
raw_of e = record {
  op_version = string (codes "1.0");
  operation_id = string e.operation_id;
  org_id = string e.org_id;
  agent_id = string e.agent_id;
  issued_at = number (pos e.issued_at);
  ttl_ms = number (pos e.ttl_ms);
  nonce = string e.nonce;
  operation_type = string e.operation_type;
  subject = e.subject;
  action = e.action;
  payload = e.payload;
  payload_hash = string e.payload_hash;
  prev_chain_hash = string e.prev_chain_hash;
  agent_pubkey_kid = string e.agent_pubkey_kid;
  signature = string e.signature;
}

validate-raw_of : (e d : Eor) (t : ℕ) → validate_eor_fields (raw_of e) t ≡ ok d → d ≡ e
unfolding validate_eor_fields raw_of required_string valid_issued_at valid_ttl
validate-raw_of e d t h = ground arith

-- The client continues from the latest operation of its agent.
abbrev pub IsInStep : Client → List Operation → Type 0
IsInStep c os = c.prev_chain_hash ≡ expected_prev_hash (latest c.agent_id os)

pair-eq :
    (e f : Eor) (c d : Client)
    → ◌≡◌ {A = Option (Eor × Client)} (some (e, c)) (some (f, d))
    → (e ≡ f) × (c ≡ d)
pair-eq e f c d h = (ground arith, ground arith)

module _ (p : Platform) (from_base64url : Text → List ℕ) where
  -- An operation that is created is the unsigned one with a signature of its canonical form.
  pub create_operation-inv :
      (n : NewOperation) (c d : Client) (e : Eor)
      → create_operation p from_base64url n c ≡ some (e, d)
      → (signature : Text) × (sign_with p from_base64url c.private_key
            (utf8_encode (canonical_json (signable (unsigned_eor p n c))))
          ≡ some signature)
        × (e ≡ record (unsigned_eor p n c) { signature = signature })
        × (d ≡ record c {
          prev_chain_hash =
              chain_hash_after p c.prev_chain_hash
                (unsigned_eor p n c).payload_hash
                (unsigned_eor p n c).operation_id
                (unsigned_eor p n c).issued_at;
        })
  unfolding create_operation
  create_operation-inv n c d e h =
      let bytes = utf8_encode (canonical_json (signable (unsigned_eor p n c))) in
      let moved = record c {
        prev_chain_hash =
            chain_hash_after p c.prev_chain_hash (unsigned_eor p n c).payload_hash
              (unsigned_eor p n c).operation_id (unsigned_eor p n c).issued_at;
      } in
      let (signature, signed, made) =
        >>=-eq-some (sign_with p from_base64url c.private_key bytes)
          (λ (s : Text). some (record (unsigned_eor p n c) { signature = s }, moved)) (e, d) h in
      let (same_e, same_d) =
        pair-eq (record (unsigned_eor p n c) { signature = signature }) e moved d made in
      (signature, signed, sym same_e, sym same_d)

  -- The hash that the client moves on to is that of the operation that the server builds.
  created-hash :
      (n : NewOperation) (c d : Client) (e : Eor) (t seq_no : ℕ)
      → create_operation p from_base64url n c ≡ some (e, d)
      → (d.prev_chain_hash ≡ (build_operation p t e seq_no).chain_hash)
        × (d.agent_id ≡ (build_operation p t e seq_no).agent_id)
  unfolding build_operation unsigned_eor
  created-hash n c d e t seq_no h =
      let (signature, signed, made, moved) = create_operation-inv n c d e h in
      rw (made, moved)
        (
          chain-same p c.prev_chain_hash (unsigned_eor p n c).payload_hash n.operation_id
              n.issued_at,
          refl,
        )

  -- After the server has accepted an operation of the client, the two are in step.
  pub accepted-IsInStep :
      (n : NewOperation) (c d : Client) (e : Eor) (r : Request) (w : World) (ear : Ear)
      → IsChained p w.db.operations
      → create_operation p from_base64url n c ≡ some (e, d)
      → (submit_operation p r (raw_of e) w).0 ≡ ok ear
      → IsInStep d (submit_operation p r (raw_of e) w).1.db.operations
  accepted-IsInStep n c d e r w ear chained created submitted =
      let (sent, seq_no, validated, a) = submit-IsAccepted p r (raw_of e) w ear chained submitted in
      let same : sent ≡ e = validate-raw_of e sent r.received_at validated in
      let built = build_operation p r.received_at sent seq_no in
      let (hash, agent) = created-hash n c d e r.received_at seq_no created in
      let last : latest built.agent_id (submit_operation p r (raw_of e) w).1.db.operations
          ≡ some built =
        ap (latest built.agent_id) a.added ∙ latest-Extends p built w.db.operations a.extends in
      let there = ap (λ (x : Eor). build_operation p r.received_at x seq_no) same in
      hash
      ∙ ap (λ (o : Operation). o.chain_hash) (sym there)
      ∙ ap expected_prev_hash (sym last)
      ∙ ap
          (λ (x : Text).
            expected_prev_hash (latest x (submit_operation p r (raw_of e) w).1.db.operations))
          (ap (λ (o : Operation). o.agent_id) there ∙ sym agent)
