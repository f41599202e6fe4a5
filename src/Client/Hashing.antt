-- ===== src/Client/Hashing.antt =====
-- What the Node client hashes and signs: sdks/node/src/crypto.ts, and the object literal
-- eorWithoutSig of sdks/node/src/client.ts. Same shows that it is what the server hashes.
--
-- `buffer.toString('base64url')` is Crypto/Base64's encoder, and `Buffer.from(data, 'utf-8')` is
-- Crypto/Utf8's.
pub mod Same
use elydora_open_source.Prelude.{ℕ, Option, none, some, List, [], ◌∷◌, ◌++◌}
use elydora_open_source.Prelude.Texts.{Text, codes}
use elydora_open_source.Prelude.Sorting.{sort_by}
use elydora_open_source.Json.{
  Json, undefined, null, boolean, number, string, array, object, pos, Elements, nil, cons, Fields,
  end, field,
}
use elydora_open_source.Json.Stringify.{decimal, decimal_ℤ, quoted, join, boolean_text}
use elydora_open_source.Crypto.Base64.{base64url_encode}
use elydora_open_source.Crypto.Utf8.{utf8_encode}
use elydora_open_source.Crypto.Platform.{Platform}
use elydora_open_source.Model.Entities.{Eor}

-- A key of an object with the text of its value; a value that is `undefined` has none.
pub record Member : Type 0 where
  pub key : Text
  pub text : Option Text

abbrev pub member_key : Member → Text
member_key m = m.key

-- The loop over the sorted keys
unfoldable pub member_texts : List Member → List Text
member_texts [] = []
member_texts (m ∷ ms) = elim m.text [
  | none ↦ member_texts ms
  | some t ↦ (quoted m.key ++ b':' ∷ t) ∷ member_texts ms
]

-- jcsCanonicalise of the client
unfoldable mutual
  pub canonical_json : Json → Text
  canonical_json undefined = codes "null"
  canonical_json null = codes "null"
  canonical_json (boolean b) = boolean_text b
  canonical_json (number n) = decimal_ℤ n
  canonical_json (string s) = quoted s
  canonical_json (array xs) = b'[' ∷ join (element_texts xs) ++ b']' ∷ []
  canonical_json (object fs) =
      b'{' ∷ join (member_texts (sort_by member_key (members fs))) ++ b'}' ∷ []

  pub element_texts : Elements → List Text
  element_texts nil = []
  element_texts (cons x xs) = canonical_json x ∷ element_texts xs

  pub members : Fields → List Member
  members end = []
  members (field k undefined fs) = record { key = k; text = none } ∷ members fs
  members (field k v fs) = record { key = k; text = some (canonical_json v) } ∷ members fs

-- PKCS8_ED25519_PREFIX
abbrev ed25519_prefix : List ℕ
ed25519_prefix =
    0x30 ∷ 0x2e ∷ 0x02 ∷ 0x01 ∷ 0x00 ∷ 0x30 ∷ 0x05 ∷ 0x06 ∷ 0x03 ∷ 0x2b ∷ 0x65 ∷ 0x70 ∷ 0x04 ∷ 0x22
    ∷ 0x04 ∷ 0x20 ∷ []

-- Buffer.concat([PKCS8_ED25519_PREFIX, seed])
unfoldable pub pkcs8_key : List ℕ → List ℕ
pkcs8_key seed = ed25519_prefix ++ seed

-- eorWithoutSig
unfoldable pub signable : Eor → Json
signable e = object (
    field (codes "op_version") (string (codes "1.0")) (
      field (codes "operation_id") (string e.operation_id) (
        field (codes "org_id") (string e.org_id) (
          field (codes "agent_id") (string e.agent_id) (
            field (codes "issued_at") (number (pos e.issued_at)) (
              field (codes "ttl_ms") (number (pos e.ttl_ms)) (
                field (codes "nonce") (string e.nonce) (
                  field (codes "operation_type") (string e.operation_type) (
                    field (codes "subject") e.subject (
                      field (codes "action") e.action (
                        field (codes "payload") e.payload (
                          field (codes "payload_hash") (string e.payload_hash) (
                            field (codes "prev_chain_hash") (string e.prev_chain_hash) (
                              field (codes "agent_pubkey_kid") (string e.agent_pubkey_kid)
                                end))))))))))))))

module _ (p : Platform) where
  -- sha256Base64url of a text
  unfoldable pub hash_text : Text → Text
  hash_text t = base64url_encode (p.digest (utf8_encode t))

  -- computeChainHash
  unfoldable pub chain_hash_after : Text → Text → Text → ℕ → Text
  chain_hash_after prev_chain_hash payload_hash operation_id issued_at = hash_text (
      prev_chain_hash
      ++ (b'|' ∷ (payload_hash ++ (b'|' ∷ (operation_id ++ (b'|' ∷ decimal issued_at))))))

  -- computePayloadHash
  unfoldable pub compute_payload_hash : Json → Text
  compute_payload_hash payload = hash_text (canonical_json payload)
