-- ===== src/Agents/Tests.antt =====
-- A frozen agent and a revoked key at work: the theorems of Agents/Effects at a concrete world.
use elydora_open_source.Samples.{empty_world, empty_database, active_agent, active_key}
use elydora_open_source.Prelude.{◌≡◌, refl, some, [], ◌∷◌}
use elydora_open_source.Prelude.Texts.{codes, text_eq}
use elydora_open_source.Json.{null, object, end}
use elydora_open_source.Json.Stringify.{stringify}
use elydora_open_source.Model.Errors.{ok, error, coded, agent_frozen, key_revoked}
use elydora_open_source.Model.Entities.{AgentStatus, KeyStatus, Eor}
use elydora_open_source.Model.Tables.{find_agent, find_key}
use elydora_open_source.Model.Statements.{
  run_all, set_agent_status, set_key_status, insert_admin_event,
}
use elydora_open_source.Model.World.{World, batch}
use elydora_open_source.Operations.Checks.{check_agent, check_key}
use elydora_open_source.Agents.{
  Call, admin_event, require_agent, require_key, freeze_agent, revoke_key,
}
use elydora_open_source.Agents.Effects.{frozen_agent_refused, revoked_key_refused}

abbrev before : World
before = record empty_world {
  db = record empty_database { agents = active_agent ∷ []; agent_keys = active_key ∷ [] };
}

abbrev call : Call
call = record { now = 9; event_id = codes "v"; org_id = codes "o"; actor = codes "u" }

abbrev envelope : Eor
envelope = record {
  operation_id = codes "x";
  org_id = codes "o";
  agent_id = codes "a";
  issued_at = 5;
  ttl_ms = 1000;
  nonce = codes "n";
  operation_type = codes "t";
  subject = object end;
  action = object end;
  payload = null;
  payload_hash = codes "h";
  prev_chain_hash = codes "g";
  agent_pubkey_kid = codes "k";
  signature = codes "AQ";
}

run : Unit {0}
unfolding text_eq find_agent find_key run_all set_agent_status set_key_status insert_admin_event
    batch admin_event require_agent require_key stringify freeze_agent revoke_key
run = tt

freezes :
    (freeze_agent call (codes "a") (codes "audit") before).0
    ≡ ok (record active_agent { status = AgentStatus.frozen; updated_at = 9 })
unfolding run
freezes = refl

frozen_agent_refused_example :
    check_agent envelope (freeze_agent call (codes "a") (codes "audit") before).1.db
    ≡ error (coded 403 agent_frozen)
frozen_agent_refused_example =
    frozen_agent_refused call (codes "audit") before
      (record active_agent { status = AgentStatus.frozen; updated_at = 9 }) envelope freezes refl

revokes :
    (revoke_key call (codes "a") (codes "k") (codes "leak") before).0
    ≡ ok (record active_key { status = KeyStatus.revoked; retired_at = some 9 })
unfolding run
revokes = refl

revoked_key_refused_example :
    check_key envelope (revoke_key call (codes "a") (codes "k") (codes "leak") before).1.db
    ≡ error (coded 403 key_revoked)
revoked_key_refused_example =
    revoked_key_refused call (codes "leak") before
      (record active_key { status = KeyStatus.revoked; retired_at = some 9 }) envelope revokes
