-- ===== src/Agents/Registration/Tests.antt =====
-- A registration at a concrete world, and names of integration types.
use elydora_open_source.Samples.{empty_world}
use elydora_open_source.Prelude.{◌≡◌, refl, none, some, [], ◌∷◌, All}
use elydora_open_source.Prelude.Texts.{codes, text_eq}
use elydora_open_source.Json.{string, null}
use elydora_open_source.Json.Stringify.{stringify}
use elydora_open_source.Crypto.Base64.{base64url_decode}
use elydora_open_source.Model.Errors.{ok}
use elydora_open_source.Model.Entities.{AgentStatus, IntegrationType}
use elydora_open_source.Model.Tables.{find_agent}
use elydora_open_source.Model.Statements.{
  run_all, insert_agent, insert_agent_key, insert_admin_event,
}
use elydora_open_source.Model.World.{batch}
use elydora_open_source.Agents.{Call, admin_event}
use elydora_open_source.Agents.Validation.{
  Registration, require_integration_type, valid_key, valid_keys, some_keys, require_new,
  check_registration,
}
use elydora_open_source.Agents.Registration.{
  new_agent, new_key, registration_details, registration_statements, register_agent,
}
use elydora_open_source.Agents.Registration.Accepted.{IsEd25519, register_agent-accepted}

abbrev call : Call
call = record { now = 9; event_id = codes "v"; org_id = codes "o"; actor = codes "u" }

abbrev body : Registration
body = record {
  agent_id = codes "a";
  display_name = some (codes "A");
  responsible_entity = none;
  integration_type = string (codes "sdk");
  keys =
      record {
        kid = codes "k";
        public_key = codes "AAAAAAAAAAAAAAAAAAAAAAAAAAAAAAAAAAAAAAAAAAA";
        algorithm = codes "ed25519";
      }
      ∷ [];
}

run : Unit {0}
unfolding text_eq stringify base64url_decode find_agent run_all insert_agent insert_agent_key
    insert_admin_event batch admin_event require_integration_type valid_key valid_keys some_keys
    require_new check_registration new_agent new_key registration_details registration_statements
    register_agent
run = tt

registers :
    (register_agent call body empty_world).0
    ≡ ok (
      new_agent call body IntegrationType.sdk,
      new_key call body (record {
        kid = codes "k";
        public_key = codes "AAAAAAAAAAAAAAAAAAAAAAAAAAAAAAAAAAAAAAAAAAA";
        algorithm = codes "ed25519";
      })
          ∷ [],
    )
unfolding run
registers = refl

unnamed_type : require_integration_type (string (codes "")) ≡ require_integration_type null
unfolding run
unnamed_type = refl

register_agent-accepted_example :
    All IsEd25519 body.keys
    × ((new_agent call body IntegrationType.sdk).status ≡ AgentStatus.active)
    × ((new_agent call body IntegrationType.sdk).agent_id ≡ codes "a")
    × ((new_agent call body IntegrationType.sdk).org_id ≡ codes "o")
    × (find_agent
          (new_agent call body IntegrationType.sdk).agent_id
          (new_agent call body IntegrationType.sdk).org_id
          (register_agent call body empty_world).1.db
        ≡ some (new_agent call body IntegrationType.sdk))
register_agent-accepted_example =
    register_agent-accepted call body empty_world (new_agent call body IntegrationType.sdk)
      (new_key call body (record {
        kid = codes "k";
        public_key = codes "AAAAAAAAAAAAAAAAAAAAAAAAAAAAAAAAAAAAAAAAAAA";
        algorithm = codes "ed25519";
      })
        ∷ [])
      registers
