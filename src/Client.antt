-- ===== src/Client.antt =====
-- The Node client: sdks/node/src/client.ts (its state and createOperation) with crypto.ts.
-- What it hashes and signs is in Hashing; its Base64 decoder, Node's `Buffer.from`, is a parameter.
pub mod Hashing
pub mod InStep
pub mod Checked
pub mod Requests
pub mod Endpoints
mod Tests
use elydora_open_source.Prelude.{
  ℕ, Bool, true, false, ◌==◌, ◌&&◌, if◌then◌else◌, Option, none, some, List, [], ◌∷◌, ◌++◌,
  replicate,
}
use elydora_open_source.Prelude.Texts.{Text, codes}
use elydora_open_source.Prelude.Throws.{◌>>=◌}
use elydora_open_source.Json.{Json, undefined, null}
use elydora_open_source.Crypto.Base64.{base64url_encode}
use elydora_open_source.Crypto.Utf8.{utf8_encode}
use elydora_open_source.Crypto.Platform.{Platform}
use elydora_open_source.Model.Entities.{Eor}
use elydora_open_source.Client.Hashing.{
  canonical_json, pkcs8_key, signable, chain_hash_after, compute_payload_hash,
}

-- Fields that are missing take their defaults.
pub record ClientConfig : Type 0 where
  pub org_id : Text
  pub agent_id : Text
  pub private_key : Text
  pub base_url : Option Text
  pub ttl_ms : Option ℕ
  pub max_retries : Option ℕ
  pub kid : Option Text

pub record Client : Type 0 where
  pub org_id : Text
  pub agent_id : Text
  pub private_key : Text
  pub base_url : Text
  pub ttl_ms : ℕ
  pub max_retries : ℕ
  pub kid : Text
  pub prev_chain_hash : Text
  pub token : Option Text

abbrev or_default {ℓ} : {A : Type ℓ} → Option A → A → A
or_default none d = d
or_default (some a) d = a

abbrev is_empty : Text → Bool
is_empty [] = true
is_empty (c ∷ s) = false

-- s.replace(/\/+$/, '')
unfoldable pub without_slashes : Text → Text
without_slashes [] = []
without_slashes (c ∷ s) =
    let rest = without_slashes s in if c == 47 && is_empty rest then [] else c ∷ rest

abbrev default_base_url : Text
default_base_url = codes "https://api.elydora.com"

abbrev pub default_ttl_ms : ℕ
default_ttl_ms = 30000

abbrev pub default_max_retries : ℕ
default_max_retries = 3

-- ZERO_CHAIN_HASH
unfoldable pub zero_chain_hash : Text
zero_chain_hash = base64url_encode (replicate 32 0)

-- new ElydoraClient(config)
unfoldable pub new_client : ClientConfig → Client
unfolding without_slashes
new_client c = record {
  org_id = c.org_id;
  agent_id = c.agent_id;
  private_key = c.private_key;
  base_url = without_slashes (or_default c.base_url default_base_url);
  ttl_ms = or_default c.ttl_ms default_ttl_ms;
  max_retries = or_default c.max_retries default_max_retries;
  kid = or_default c.kid (c.agent_id ++ codes "-key-1");
  prev_chain_hash = zero_chain_hash;
  token = none;
}

unfoldable pub set_token : Text → Client → Client
set_token token c = record c { token = some token }

-- params.payload ?? null
abbrev or_null : Json → Json
or_null undefined = null
or_null v = v

-- Params of createOperation, with what the process supplies: an id, a nonce and the time.
pub record NewOperation : Type 0 where
  pub operation_type : Text
  pub subject : Json
  pub action : Json
  pub payload : Json
  pub operation_id : Text
  pub nonce : Text
  pub issued_at : ℕ

module _ (p : Platform) where
  -- eorWithoutSig, whose signature is still to come
  unfoldable pub unsigned_eor : NewOperation → Client → Eor
  unsigned_eor n c = record {
    operation_id = n.operation_id;
    org_id = c.org_id;
    agent_id = c.agent_id;
    issued_at = n.issued_at;
    ttl_ms = c.ttl_ms;
    nonce = n.nonce;
    operation_type = n.operation_type;
    subject = n.subject;
    action = n.action;
    payload = or_null n.payload;
    payload_hash = compute_payload_hash p (or_null n.payload);
    prev_chain_hash = c.prev_chain_hash;
    agent_pubkey_kid = c.kid;
    signature = [];
  }

-- `from_base64url` is Node's decoder.
module _ (p : Platform) (from_base64url : Text → List ℕ) where
  -- signEd25519
  unfoldable pub sign_with : Text → List ℕ → Option Text
  sign_with private_key bytes = do
    signature ← p.sign (pkcs8_key (from_base64url private_key)) bytes
    some (base64url_encode signature)

  -- createOperation: the chain advances if the signature is made.
  unfoldable pub create_operation : NewOperation → Client → Option (Eor × Client)
  create_operation n c =
      let e = unsigned_eor p n c in
      do
        signature ← sign_with c.private_key (utf8_encode (canonical_json (signable e)))
        some (
          record e { signature = signature },
          record c {
            prev_chain_hash =
                chain_hash_after p c.prev_chain_hash e.payload_hash e.operation_id e.issued_at;
          },
        )
