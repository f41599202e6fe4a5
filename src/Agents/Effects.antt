-- ===== src/Agents/Effects.antt =====
-- What the changes of Agents do to later submissions.
use mathlib.Core.Path.{subst}
use elydora_open_source.Prelude.{
  ℕ, ◌≡◌, ◌≢◌, refl, sym, inl, inr, none, some, List, [], ◌∷◌, arith, find?, Bool-cases,
}
use elydora_open_source.Prelude.Texts.{Text, text_eq}
use elydora_open_source.Model.Errors.{ok, error, coded, agent_frozen, key_revoked}
use elydora_open_source.Model.Entities.{AgentStatus, KeyStatus, Agent, AgentKey, Eor}
use elydora_open_source.Model.Tables.{
  Database, find_agent, find_key, is_agent, has_agent_id, is_key,
}
use elydora_open_source.Model.Statements.{
  update_where, set_agent_status, set_key_status, insert_admin_event,
}
use elydora_open_source.Model.World.{World, batch}
use elydora_open_source.Operations.Checks.{check_agent, check_key}
use elydora_open_source.Agents.{Call, require_agent, require_key, freeze_agent, revoke_key}

abbrev frozen_row : ℕ → Agent → Agent
frozen_row now a = record a { status = AgentStatus.frozen; updated_at = now }

abbrev revoked_row : ℕ → AgentKey → AgentKey
revoked_row now k = record k { status = KeyStatus.revoked; retired_at = some now }

freeze-agents :
    (c : Call) (id reason : Text) (w : World) (a : Agent)
    → (freeze_agent c id reason w).0 ≡ ok a
    → (freeze_agent c id reason w).1.db.agents
      ≡ update_where (has_agent_id id) (frozen_row c.now) w.db.agents
unfolding freeze_agent require_agent batch set_agent_status insert_admin_event
freeze-agents c id reason w a h = ground arith

freeze-found :
    (c : Call) (id reason : Text) (w : World) (a : Agent)
    → (freeze_agent c id reason w).0 ≡ ok a
    → find_agent id c.org_id w.db ≢ none
unfolding freeze_agent require_agent
freeze-found c id reason w a h = ground arith

revoke-keys :
    (c : Call) (id kid reason : Text) (w : World) (k : AgentKey)
    → (revoke_key c id kid reason w).0 ≡ ok k
    → (revoke_key c id kid reason w).1.db.agent_keys
      ≡ update_where (λ (j : AgentKey). text_eq j.kid kid) (revoked_row c.now) w.db.agent_keys
unfolding revoke_key require_agent require_key batch set_key_status insert_admin_event
revoke-keys c id kid reason w k h = ground arith

revoke-found :
    (c : Call) (id kid reason : Text) (w : World) (k : AgentKey)
    → (revoke_key c id kid reason w).0 ≡ ok k
    → find_key kid id w.db ≢ none
unfolding revoke_key require_agent require_key
revoke-found c id kid reason w k h = ground arith

-- The row that a query finds after the rows of one agent were frozen.
find-frozen :
    (now : ℕ) (id org : Text) (rows : List Agent)
    → find? (is_agent id org) rows ≢ none
    → (a : Agent) × (find? (is_agent id org) (update_where (has_agent_id id) (frozen_row now) rows)
        ≡ some (frozen_row now a))
find-frozen now id org [] h = absurd (h refl)
find-frozen now id org (a ∷ rows) h = elim (Bool-cases (text_eq a.agent_id id)) [
  | inr other ↦
      let rest : find? (is_agent id org) rows ≢ none = rw other at h in
      let (b, found) = find-frozen now id org rows rest in (b, rw (other, other) found)
  | inl mine ↦ elim (Bool-cases (text_eq a.org_id org)) [
    | inl here ↦ (a, ground arith)
    | inr elsewhere ↦
        let rest : find? (is_agent id org) rows ≢ none = ground arith in
        let (b, found) = find-frozen now id org rows rest in (b, ground arith)
  ]
]

find-revoked :
    (now : ℕ) (kid id : Text) (rows : List AgentKey)
    → find? (is_key kid id) rows ≢ none
    → (k : AgentKey) × (find?
          (is_key kid id)
          (update_where (λ (j : AgentKey). text_eq j.kid kid) (revoked_row now) rows)
        ≡ some (revoked_row now k))
find-revoked now kid id [] h = absurd (h refl)
find-revoked now kid id (k ∷ rows) h = elim (Bool-cases (text_eq k.kid kid)) [
  | inr other ↦
      let rest : find? (is_key kid id) rows ≢ none = rw other at h in
      let (b, found) = find-revoked now kid id rows rest in (b, rw (other, other) found)
  | inl mine ↦ elim (Bool-cases (text_eq k.agent_id id)) [
    | inl here ↦ (k, ground arith)
    | inr elsewhere ↦
        let rest : find? (is_key kid id) rows ≢ none = ground arith in
        let (b, found) = find-revoked now kid id rows rest in (b, ground arith)
  ]
]

check_agent-frozen :
    (now : ℕ) (e : Eor) (rows : List Agent) (b : Agent) (db : Database)
    → db.agents ≡ rows
    → find? (is_agent e.agent_id e.org_id) rows ≡ some (frozen_row now b)
    → check_agent e db ≡ error (coded 403 agent_frozen)
unfolding check_agent find_agent
check_agent-frozen now e rows b db same found =
    let here : find? (is_agent e.agent_id e.org_id) db.agents ≡ some (frozen_row now b) =
      subst (λ (rs : List Agent). find? (is_agent e.agent_id e.org_id) rs ≡ some (frozen_row now b))
        (sym same) found in
    ground arith

check_key-revoked :
    (now : ℕ) (e : Eor) (rows : List AgentKey) (b : AgentKey) (db : Database)
    → db.agent_keys ≡ rows
    → find? (is_key e.agent_pubkey_kid e.agent_id) rows ≡ some (revoked_row now b)
    → check_key e db ≡ error (coded 403 key_revoked)
unfolding check_key find_key
check_key-revoked now e rows b db same found =
    let here : find? (is_key e.agent_pubkey_kid e.agent_id) db.agent_keys
        ≡ some (revoked_row now b) =
      subst
        (λ (rs : List AgentKey).
          find? (is_key e.agent_pubkey_kid e.agent_id) rs ≡ some (revoked_row now b))
        (sym same) found in
    ground arith

-- After a freeze, every operation of the agent that names its organization is refused with
-- AGENT_FROZEN.
pub frozen_agent_refused :
    (c : Call) (reason : Text) (w : World) (a : Agent) (e : Eor)
    → (freeze_agent c e.agent_id reason w).0 ≡ ok a
    → c.org_id ≡ e.org_id
    → check_agent e (freeze_agent c e.agent_id reason w).1.db ≡ error (coded 403 agent_frozen)
unfolding find_agent
frozen_agent_refused c reason w a e h org =
    let there = freeze-found c e.agent_id reason w a h in
    let same = freeze-agents c e.agent_id reason w a h in
    let (b, found) = find-frozen c.now e.agent_id c.org_id w.db.agents there in
    let rows = update_where (has_agent_id e.agent_id) (frozen_row c.now) w.db.agents in
    check_agent-frozen c.now e rows b (freeze_agent c e.agent_id reason w).1.db same (
      subst (λ (o : Text). find? (is_agent e.agent_id o) rows ≡ some (frozen_row c.now b)) org
        found)

-- After the revocation of a key, every operation of its agent signed with it is refused with
-- KEY_REVOKED.
pub revoked_key_refused :
    (c : Call) (reason : Text) (w : World) (k : AgentKey) (e : Eor)
    → (revoke_key c e.agent_id e.agent_pubkey_kid reason w).0 ≡ ok k
    → check_key e (revoke_key c e.agent_id e.agent_pubkey_kid reason w).1.db
      ≡ error (coded 403 key_revoked)
unfolding find_key
revoked_key_refused c reason w k e h =
    let there = revoke-found c e.agent_id e.agent_pubkey_kid reason w k h in
    let (b, found) = find-revoked c.now e.agent_pubkey_kid e.agent_id w.db.agent_keys there in
    check_key-revoked c.now e
      (update_where (λ (j : AgentKey). text_eq j.kid e.agent_pubkey_kid) (revoked_row c.now)
        w.db.agent_keys)
      b (revoke_key c e.agent_id e.agent_pubkey_kid reason w).1.db
      (revoke-keys c e.agent_id e.agent_pubkey_kid reason w k h) found
