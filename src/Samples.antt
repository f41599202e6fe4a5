-- ===== src/Samples.antt =====
-- Concrete values that the tests of several components share: a platform whose keys all import and
-- whose signatures all hold, an empty state, and a row of each table.
use elydora_open_source.Prelude.{ℕ, ◌%◌, true, none, some, [], ◌∷◌, length}
use elydora_open_source.Prelude.Texts.{Text, codes}
use elydora_open_source.Crypto.Platform.{Platform}
use elydora_open_source.Model.Entities.{
  AgentStatus, KeyStatus, IntegrationType, Agent, AgentKey, Operation,
}
use elydora_open_source.Model.Tables.{Database}
use elydora_open_source.Model.World.{World}
use elydora_open_source.Operations.Submit.{Request}

abbrev pub open_platform : Platform
open_platform = record {
  PublicKey = Unit;
  digest = λ m. length m % 256 ∷ [];
  import_public = λ _. some tt;
  verify = λ _ _ _. some true;
  sign = λ _ _. some (1 ∷ []);
}

abbrev pub empty_database : Database
empty_database = record {
  organizations = codes "o" ∷ [];
  agents = [];
  agent_keys = [];
  operations = [];
  receipts = [];
  epochs = [];
  admin_events = [];
  exports = [];
  users = [];
  api_tokens = [];
}

abbrev pub empty_world : World
empty_world = record { db = empty_database; evidence = []; cache = []; queue = [] }

abbrev pub active_agent : Agent
active_agent = record {
  agent_id = codes "a";
  org_id = codes "o";
  display_name = codes "A";
  responsible_entity = codes "E";
  integration_type = IntegrationType.sdk;
  status = AgentStatus.active;
  created_at = 1;
  updated_at = 1;
}

abbrev pub active_key : AgentKey
active_key = record {
  kid = codes "k";
  agent_id = codes "a";
  public_key = codes "AQ";
  algorithm = codes "ed25519";
  status = KeyStatus.active;
  created_at = 1;
  retired_at = none;
}

-- An operation with an id, a time and a chain hash
abbrev pub operation_at : Text → ℕ → Text → Operation
operation_at operation_id created_at chain_hash = record {
  operation_id = operation_id;
  org_id = codes "o";
  agent_id = codes "a";
  seq_no = 1;
  operation_type = codes "t";
  issued_at = 5;
  ttl_ms = 1000;
  nonce = codes "n";
  subject = some (codes "{}");
  action = some (codes "{}");
  payload_hash = codes "h";
  prev_chain_hash = codes "g";
  chain_hash = chain_hash;
  agent_pubkey_kid = codes "k";
  signature = codes "AQ";
  r2_payload_key = none;
  created_at = created_at;
}

-- A world that knows the agent and its key
abbrev pub start : World
start = record empty_world {
  db = record empty_database { agents = active_agent ∷ []; agent_keys = active_key ∷ [] };
}

abbrev pub request : Request
request = record {
  received_at = 7;
  queue_message_id = codes "q";
  receipt_id = codes "r";
  signing_key = codes "AQ";
  queue_accepts = true;
}
