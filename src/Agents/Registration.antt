-- ===== src/Agents/Registration.antt =====
-- Registration of an agent, its integration type and its lookup: registerAgent and getAgent of
-- packages/server/src/services/agent-service.ts, and agent-integration.ts.
pub mod Accepted
mod Tests
use elydora_open_source.Prelude.{
  ℕ, Bool, ◌==◌, String, Option, none, some, List, [], ◌∷◌, ◌++◌, map, filter, any, find?,
  if◌then◌else◌, length,
}
use elydora_open_source.Prelude.Texts.{Text, text_eq, codes}
use elydora_open_source.Json.{
  Json, pos, undefined, null, boolean, string, number, array, object, field, end,
}
use elydora_open_source.Model.Errors.{Result, ok, error, fault}
use elydora_open_source.Model.Entities.{
  AgentStatus, KeyStatus, IntegrationType, Agent, AgentKey, agent_register, agent_update,
}
use elydora_open_source.Model.Tables.{has_agent_id}
use elydora_open_source.Model.Statements.{
  Statement, insert_agent, insert_agent_key, insert_admin_event, set_integration_type,
}
use elydora_open_source.Model.World.{Exec, lift, pure, ◌>>=◌, batch}
use elydora_open_source.Agents.{Call, admin_event, require_agent}
use elydora_open_source.Agents.Validation.{
  integration_name, require_integration_type, RequestedKey, Registration, check_registration,
}

abbrev or_else : Option Text → Text → Text
or_else none t = t
or_else (some s) t = s

unfoldable pub new_agent : Call → Registration → IntegrationType → Agent
new_agent c body type = record {
  agent_id = body.agent_id;
  org_id = c.org_id;
  display_name = or_else body.display_name body.agent_id;
  responsible_entity = or_else body.responsible_entity [];
  integration_type = type;
  status = AgentStatus.active;
  created_at = c.now;
  updated_at = c.now;
}

unfoldable pub new_key : Call → Registration → RequestedKey → AgentKey
new_key c body k = record {
  kid = k.kid;
  agent_id = body.agent_id;
  public_key = k.public_key;
  algorithm = k.algorithm;
  status = KeyStatus.active;
  created_at = c.now;
  retired_at = none;
}

-- The details of the admin event of a registration
unfoldable pub registration_details : Agent → ℕ → Json
registration_details a key_count = object (
    field (codes "display_name") (string a.display_name) (
      field (codes "integration_type") (string (codes (integration_name a.integration_type)))
        (field (codes "key_count") (number (pos key_count)) end)))

unfoldable pub registration_statements : Call → Agent → List AgentKey → List Statement
registration_statements c a keys =
    insert_agent a
    ∷ (map insert_agent_key keys
        ++ (insert_admin_event (
              admin_event c agent_register "agent" a.agent_id
                (registration_details a (length keys)))
            ∷ []))

-- registerAgent
unfoldable pub register_agent : Call → Registration → Exec (Agent × List AgentKey)
register_agent c body = do
  type ← (λ w. (check_registration body w.db, w))
  let a = new_agent c body type
  let keys = map (new_key c body) body.keys
  _ ← batch (registration_statements c a keys)
  pure (a, keys)

-- updateAgentIntegrationType
unfoldable pub update_agent_integration_type : Call → Text → Json → Exec Agent
update_agent_integration_type c agent_id value = do
  type ← lift (require_integration_type value)
  a ← require_agent c agent_id
  _ ← batch (
      set_integration_type type c.now agent_id c.org_id
      ∷ insert_admin_event (
          admin_event c agent_update "agent" agent_id (
            object (
              field (codes "integration_type") (string (codes (integration_name type))) (
                field (codes "previous_integration_type")
                  (string (codes (integration_name a.integration_type))) end))))
      ∷ [])
  pure (record a { integration_type = type; updated_at = c.now })

-- getAgent
unfoldable pub get_agent : Call → Text → Exec (Agent × List AgentKey)
get_agent c agent_id = do
  a ← require_agent c agent_id
  (λ w. (ok (a, filter (λ (k : AgentKey). text_eq k.agent_id agent_id) w.db.agent_keys), w))
