-- ===== src/Crypto/Platform.antt =====
-- The cryptographic functions of utils/crypto.ts over those of the platform (Web Crypto), which are
-- a parameter: `none` is a rejected promise.
use elydora_open_source.Prelude.{ℕ, Bool, false, Option, none, some, List, [], ◌∷◌, ◌++◌}
use elydora_open_source.Prelude.Texts.{Text, codes}
use elydora_open_source.Prelude.Throws.{◌>>=◌}
use elydora_open_source.Json.{Json, pos, object, field, end, string, number}
use elydora_open_source.Model.Entities.{ReceiptFields}
use elydora_open_source.Json.Stringify.{decimal}
use elydora_open_source.Json.Canonical.{jcs_canonicalise}
use elydora_open_source.Crypto.Base64.{base64url_encode, base64url_decode}
use elydora_open_source.Crypto.Utf8.{utf8_encode}

-- crypto.subtle. A private key is imported from its PKCS8 envelope when it is used.
pub record Platform : Type 1 where
  pub PublicKey : Type 0
  pub digest : List ℕ → List ℕ
  pub import_public : List ℕ → Option PublicKey
  pub verify : PublicKey → List ℕ → List ℕ → Option Bool
  pub sign : List ℕ → List ℕ → Option (List ℕ)

-- The envelope of a 32-byte Ed25519 seed.
abbrev pkcs8_prefix : List ℕ
pkcs8_prefix =
    0x30 ∷ 0x2e ∷ 0x02 ∷ 0x01 ∷ 0x00 ∷ 0x30 ∷ 0x05 ∷ 0x06 ∷ 0x03 ∷ 0x2b ∷ 0x65 ∷ 0x70 ∷ 0x04 ∷ 0x22
    ∷ 0x04 ∷ 0x20 ∷ []

-- wrapSeedAsPkcs8
unfoldable pub wrap_seed_as_pkcs8 : List ℕ → List ℕ
wrap_seed_as_pkcs8 seed = pkcs8_prefix ++ seed

-- The object literal of the receipt fields.
unfoldable pub receipt_json : ReceiptFields → Json
receipt_json r = object (
    field (codes "receipt_version") (string r.receipt_version) (
      field (codes "receipt_id") (string r.receipt_id) (
        field (codes "operation_id") (string r.operation_id) (
          field (codes "org_id") (string r.org_id) (
            field (codes "agent_id") (string r.agent_id) (
              field (codes "server_received_at") (number (pos r.server_received_at)) (
                field (codes "seq_no") (number (pos r.seq_no)) (
                  field (codes "chain_hash") (string r.chain_hash)
                    (field (codes "queue_message_id") (string r.queue_message_id) end)))))))))

module _ (p : Platform) where
  -- sha256Base64url of a text
  unfoldable pub sha256_base64url : Text → Text
  sha256_base64url s = base64url_encode (p.digest (utf8_encode s))

  -- verifyEd25519Signature: a key that is not imported gives `false`; what `verify` rejects with is
  -- passed on, since the promise is returned and not awaited.
  unfoldable pub verify_ed25519_signature : List ℕ → List ℕ → List ℕ → Option Bool
  verify_ed25519_signature public_key signature bytes = elim (p.import_public public_key) [
    | none ↦ some false
    | some key ↦ p.verify key signature bytes
  ]

  -- signEd25519
  unfoldable pub sign_ed25519 : Text → List ℕ → Option Text
  sign_ed25519 private_key bytes = do
    seed ← base64url_decode private_key
    signature ← p.sign (wrap_seed_as_pkcs8 seed) bytes
    some (base64url_encode signature)

  -- computeChainHash
  unfoldable pub compute_chain_hash : Text → Text → Text → ℕ → Text
  compute_chain_hash prev_chain_hash payload_hash operation_id issued_at = sha256_base64url (
      prev_chain_hash
      ++ (b'|' ∷ (payload_hash ++ (b'|' ∷ (operation_id ++ (b'|' ∷ decimal issued_at))))))

  -- computeReceiptHash
  unfoldable pub compute_receipt_hash : ReceiptFields → Text
  compute_receipt_hash r = sha256_base64url (jcs_canonicalise (receipt_json r))
