-- ===== src/Agents.antt =====
-- Agent lifecycle: packages/server/src/services/agent-service.ts and agent-integration.ts.
-- Every change of an agent goes into one transaction with its admin event.
pub mod Effects
pub mod Validation
pub mod Registration
mod Tests
use elydora_open_source.Prelude.{
  ℕ, Bool, true, false, ◌==◌, String, Option, none, some, List, [], ◌∷◌, ◌++◌, map, filter, find?,
  if◌then◌else◌, length,
}
use elydora_open_source.Prelude.Texts.{Text, text_eq, codes}
use elydora_open_source.Json.{Json, pos, string, number, object, field, end}
use elydora_open_source.Json.Stringify.{stringify}
use elydora_open_source.Crypto.Base64.{base64url_decode}
use elydora_open_source.Model.Errors.{
  AppError, keyed, validation_error, not_found, Param, text, count, Result, ok, error, fault,
}
use elydora_open_source.Model.Entities.{
  AgentStatus, KeyStatus, IntegrationType, Agent, AgentKey, AdminAction, AdminEvent, agent_register,
  agent_update, agent_freeze, agent_unfreeze, agent_delete, key_revoke,
}
use elydora_open_source.Model.Tables.{Database, find_agent, find_key, has_agent_id}
use elydora_open_source.Model.Statements.{
  Statement, insert_agent, insert_agent_key, insert_admin_event, set_agent_status,
  set_integration_type, set_key_status, delete_receipts_of, delete_operations_of, delete_keys_of,
  delete_agent_row,
}
use elydora_open_source.Model.World.{World, Exec, pure, raise, ◌>>=◌, batch}

-- The caller's organization and name, the time, and the generated id of the admin event.
pub record Call : Type 0 where
  pub now : ℕ
  pub event_id : Text
  pub org_id : Text
  pub actor : Text

-- INSERT INTO admin_events
unfoldable pub admin_event : Call → AdminAction → String → Text → Json → AdminEvent
admin_event c action target_type target_id details = record {
  event_id = c.event_id;
  org_id = c.org_id;
  actor = c.actor;
  action = action;
  target_type = target_type;
  target_id = target_id;
  details = stringify details;
  created_at = c.now;
}

abbrev pub reason_details : Text → Json
reason_details reason = object (field (codes "reason") (string reason) end)

abbrev pub agent_error : ℕ → String → Text → AppError
agent_error status key agent_id = keyed status validation_error key (("id", text agent_id) ∷ [])

-- The agent of the caller's organization, or 404.
unfoldable pub require_agent : Call → Text → Exec Agent
require_agent c agent_id w = elim (find_agent agent_id c.org_id w.db) [
  | none ↦ (error (keyed 404 not_found "agent.notFound" (("id", text agent_id) ∷ [])), w)
  | some a ↦ (ok a, w)
]

abbrev pub may_freeze : Text → AgentStatus → Result (Unit {0})
may_freeze agent_id AgentStatus.frozen = error (agent_error 409 "agent.alreadyFrozen" agent_id)
may_freeze agent_id AgentStatus.revoked =
    error (agent_error 409 "agent.permanentlyRevoked" agent_id)
may_freeze agent_id AgentStatus.active = ok tt

abbrev pub may_unfreeze : Text → AgentStatus → Result (Unit {0})
may_unfreeze agent_id AgentStatus.active = error (agent_error 409 "agent.notFrozen" agent_id)
may_unfreeze agent_id AgentStatus.revoked =
    error (agent_error 409 "agent.permanentlyRevokedCannotUnfreeze" agent_id)
may_unfreeze agent_id AgentStatus.frozen = ok tt

-- freezeAgent
unfoldable pub freeze_agent : Call → Text → Text → Exec Agent
freeze_agent c agent_id reason = do
  a ← require_agent c agent_id
  _ ← (λ w. (may_freeze agent_id a.status, w))
  _ ← batch (
      set_agent_status AgentStatus.frozen c.now agent_id
      ∷ insert_admin_event (admin_event c agent_freeze "agent" agent_id (reason_details reason))
      ∷ [])
  pure (record a { status = AgentStatus.frozen; updated_at = c.now })

-- unfreezeAgent
unfoldable pub unfreeze_agent : Call → Text → Text → Exec Agent
unfreeze_agent c agent_id reason = do
  a ← require_agent c agent_id
  _ ← (λ w. (may_unfreeze agent_id a.status, w))
  _ ← batch (
      set_agent_status AgentStatus.active c.now agent_id
      ∷ insert_admin_event (admin_event c agent_unfreeze "agent" agent_id (reason_details reason))
      ∷ [])
  pure (record a { status = AgentStatus.active; updated_at = c.now })

-- deleteAgent
unfoldable pub delete_agent : Call → Text → Exec (Unit {0})
delete_agent c agent_id = do
  a ← require_agent c agent_id
  batch (
      delete_receipts_of agent_id
      ∷ delete_operations_of agent_id
      ∷ delete_keys_of agent_id
      ∷ delete_agent_row agent_id c.org_id
      ∷ insert_admin_event (
          admin_event c agent_delete "agent" agent_id
            (object (field (codes "display_name") (string a.display_name) end)))
      ∷ [])

-- The key of the agent, or 404.
unfoldable pub require_key : Text → Text → Exec AgentKey
require_key kid agent_id w = elim (find_key kid agent_id w.db) [
  | none ↦ (
    error
        (keyed 404 not_found "agent.keyNotFound" (("kid", text kid) ∷ ("id", text agent_id) ∷ [])),
    w,
  )
  | some k ↦ (ok k, w)
]

abbrev pub may_revoke : Text → KeyStatus → Result (Unit {0})
may_revoke kid KeyStatus.revoked =
    error (keyed 409 validation_error "agent.keyAlreadyRevoked" (("kid", text kid) ∷ []))
may_revoke kid KeyStatus.retired = ok tt
may_revoke kid KeyStatus.active = ok tt

-- revokeKey
unfoldable pub revoke_key : Call → Text → Text → Text → Exec AgentKey
revoke_key c agent_id kid reason = do
  _ ← require_agent c agent_id
  k ← require_key kid agent_id
  _ ← (λ w. (may_revoke kid k.status, w))
  _ ← batch (
      set_key_status KeyStatus.revoked c.now kid
      ∷ insert_admin_event (
          admin_event c key_revoke "agent_key" kid (
            object (
              field (codes "agent_id") (string agent_id)
                (field (codes "reason") (string reason) end))))
      ∷ [])
  pure (record k { status = KeyStatus.revoked; retired_at = some c.now })
