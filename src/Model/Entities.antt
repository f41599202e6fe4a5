-- ===== src/Model/Entities.antt =====
-- Entities and protocol records: packages/server/src/shared/types (enums.ts, entities.ts,
-- protocol.ts). Times are Unix milliseconds.
use elydora_open_source.Prelude.{ℕ, String, Option}
use elydora_open_source.Prelude.Texts.{Text}
use elydora_open_source.Json.{Json}

pub data AgentStatus : Type 0 where
  active frozen revoked : AgentStatus

pub data KeyStatus : Type 0 where
  active retired revoked : KeyStatus

pub data ExportStatus : Type 0 where
  queued running done failed : ExportStatus

pub data IntegrationType : Type 0 where
  augment claudecode cline codex copilot cursor droid gemini grok kimi : IntegrationType
  kirocli kiroide letta opencode qwen enterprise gui sdk other : IntegrationType

pub data RbacRole : Type 0 where
  org_owner security_admin compliance_auditor readonly_investigator : RbacRole
  integration_engineer : RbacRole

pub data AdminAction : Type 0 where
  agent_register agent_update agent_freeze agent_unfreeze agent_revoke agent_delete : AdminAction
  key_revoke export_create : AdminAction

pub record Agent : Type 0 where
  pub agent_id : Text
  pub org_id : Text
  pub display_name : Text
  pub responsible_entity : Text
  pub integration_type : IntegrationType
  pub status : AgentStatus
  pub created_at : ℕ
  pub updated_at : ℕ

pub record AgentKey : Type 0 where
  pub kid : Text
  pub agent_id : Text
  pub public_key : Text
  pub algorithm : Text
  pub status : KeyStatus
  pub created_at : ℕ
  pub retired_at : Option ℕ

-- `subject` and `action` are `undefined` where `JSON.stringify` gives that.
pub record Operation : Type 0 where
  pub operation_id : Text
  pub org_id : Text
  pub agent_id : Text
  pub seq_no : ℕ
  pub operation_type : Text
  pub issued_at : ℕ
  pub ttl_ms : ℕ
  pub nonce : Text
  pub subject : Option Text
  pub action : Option Text
  pub payload_hash : Text
  pub prev_chain_hash : Text
  pub chain_hash : Text
  pub agent_pubkey_kid : Text
  pub signature : Text
  pub r2_payload_key : Option Text
  pub created_at : ℕ

pub record Receipt : Type 0 where
  pub receipt_id : Text
  pub operation_id : Text
  pub r2_receipt_key : Text
  pub created_at : ℕ

pub record Epoch : Type 0 where
  pub epoch_id : Text
  pub org_id : Text
  pub start_time : ℕ
  pub end_time : ℕ
  pub root_hash : Option Text
  pub leaf_count : ℕ
  pub r2_epoch_key : Text
  pub created_at : ℕ

pub data UserStatus : Type 0 where
  active suspended : UserStatus

-- `org_id` is null for a user that has signed up and has no organization yet.
pub record User : Type 0 where
  pub user_id : Text
  pub org_id : Option Text
  pub email : Text
  pub display_name : Text
  pub role : RbacRole
  pub status : UserStatus
  pub created_at : ℕ
  pub updated_at : ℕ

-- Times of tokens are Unix seconds.
pub record ApiToken : Type 0 where
  pub token_id : Text
  pub user_id : Text
  pub org_id : Text
  pub token_hash : Text
  pub issued_at : ℕ
  pub expires_at : Option ℕ

-- `details` is the JSON text that is stored.
pub record AdminEvent : Type 0 where
  pub event_id : Text
  pub org_id : Text
  pub actor : Text
  pub action : AdminAction
  pub target_type : String
  pub target_id : Text
  pub details : Option Text
  pub created_at : ℕ

pub record Export : Type 0 where
  pub export_id : Text
  pub org_id : Text
  pub status : ExportStatus
  pub query_params : Text
  pub r2_export_key : Option Text
  pub created_at : ℕ
  pub completed_at : Option ℕ

-- An EOR whose fields have passed validation.
pub record Eor : Type 0 where
  pub operation_id : Text
  pub org_id : Text
  pub agent_id : Text
  pub issued_at : ℕ
  pub ttl_ms : ℕ
  pub nonce : Text
  pub operation_type : Text
  pub subject : Json
  pub action : Json
  pub payload : Json
  pub payload_hash : Text
  pub prev_chain_hash : Text
  pub agent_pubkey_kid : Text
  pub signature : Text

-- The receipt fields that `receipt_hash` covers.
pub record ReceiptFields : Type 0 where
  pub receipt_version : Text
  pub receipt_id : Text
  pub operation_id : Text
  pub org_id : Text
  pub agent_id : Text
  pub server_received_at : ℕ
  pub seq_no : ℕ
  pub chain_hash : Text
  pub queue_message_id : Text

pub record Ear : Type 0 where
  pub fields : ReceiptFields
  pub open fields use *
  pub receipt_hash : Text
  pub elydora_kid : Text
  pub elydora_signature : Text

-- `root_hash` is `undefined` for an empty tree.
pub record Eer : Type 0 where
  pub epoch_id : Text
  pub org_id : Text
  pub start_time : ℕ
  pub end_time : ℕ
  pub leaf_count : ℕ
  pub root_hash : Option Text
  pub hash_alg : Text
  pub signature_by_elydora : Text
