-- ===== src/Agents/Registration/Accepted.antt =====
-- What a registration that returns has established: registerAgent of Agents/Registration.
use mathlib.Core.Path.{subst}
use elydora_open_source.Prelude.{
  ℕ, ◌≡◌, refl, sym, ap, ◌∙◌, inl, inr, some, List, [], ◌∷◌, ◌++◌, map, arith, find?, length, All,
  Bool-cases, Option-cases,
}
use elydora_open_source.Prelude.Texts.{text_eq, codes, eq_refl, eq_iff}
use elydora_open_source.Crypto.Base64.{base64url_decode}
use elydora_open_source.Model.Errors.{Result, ok, error, fault}
use elydora_open_source.Model.Errors
use elydora_open_source.Model.Entities.{AgentStatus, Agent, AgentKey, AdminEvent, IntegrationType}
use elydora_open_source.Model.Tables.{Database, done, DbResult-cases, find_agent, is_agent}
use elydora_open_source.Model.Statements.{
  Statement, run_all, insert_agent, insert_agent_key, insert_admin_event,
}
use elydora_open_source.Model.World.{World, batch, >>=-eq-ok, ◌>>=◌, pure}
use elydora_open_source.Agents.{Call}
use elydora_open_source.Agents.Registration.{
  new_agent, new_key, registration_statements, register_agent,
}
use elydora_open_source.Agents.Validation.{
  Registration, RequestedKey, valid_key, valid_keys, some_keys, require_new,
  require_integration_type, check_registration,
}

-- A statement that leaves the agents alone when it succeeds.
abbrev Keeps : Statement → Type 0
Keeps s = (db db' : Database) → s db ≡ done db' → db'.agents ≡ db.agents

insert_agent_key-Keeps : (k : AgentKey) → Keeps (insert_agent_key k)
unfolding insert_agent_key
insert_agent_key-Keeps k db db' h = ground arith

insert_admin_event-Keeps : (e : AdminEvent) → Keeps (insert_admin_event e)
unfolding insert_admin_event
insert_admin_event-Keeps e db db' h = ground arith

run_all-Keeps : (ss : List Statement) → All Keeps ss → Keeps (run_all ss)
unfolding run_all
run_all-Keeps [] k db db' h = ground arith
run_all-Keeps (s ∷ ss) (k, ks) db db' h = elim (DbResult-cases (s db)) [
  | inl (next, e) ↦
      let rest : run_all ss next ≡ done db' = rw e at h in
      run_all-Keeps ss ks next db' rest ∙ k db next e
  | inr (x, e) ↦ absurd (ground arith)
]

registration-Keeps :
    (keys : List AgentKey) (e : AdminEvent)
    → All Keeps (map insert_agent_key keys ++ (insert_admin_event e ∷ []))
registration-Keeps [] e = (insert_admin_event-Keeps e, tt)
registration-Keeps (k ∷ keys) e = (insert_agent_key-Keeps k, registration-Keeps keys e)

-- An accepted key names Ed25519 and decodes to 32 bytes.
pub record IsEd25519 (k : RequestedKey) : Type 0 where
  pub named : k.algorithm ≡ codes "ed25519"
  pub decoded : List ℕ
  pub decodes : base64url_decode k.public_key ≡ some decoded
  pub sized : length decoded ≡ 32

valid_key-IsEd25519 : (k : RequestedKey) (u : Unit {0}) → valid_key k ≡ ok u → IsEd25519 k
unfolding valid_key
valid_key-IsEd25519 k u h = elim (Bool-cases (text_eq k.algorithm (codes "ed25519"))) [
  | inr other ↦ absurd (ground arith)
  | inl named ↦ elim (Option-cases (base64url_decode k.public_key)) [
    | inl undecoded ↦ absurd (ground arith)
    | inr (bytes, e) ↦ record {
      named = (eq_iff k.algorithm (codes "ed25519")).0 named;
      decoded = bytes;
      decodes = e;
      sized = ground arith;
    }
  ]
]

valid_keys-IsEd25519 :
    (ks : List RequestedKey) (u : Unit {0}) → valid_keys ks ≡ ok u → All IsEd25519 ks
unfolding valid_keys
valid_keys-IsEd25519 [] u h = tt
valid_keys-IsEd25519 (k ∷ ks) u h =
    let (v, a, b) = Errors.>>=-eq-ok (valid_key k) (λ _. valid_keys ks) u h in
    (valid_key-IsEd25519 k v a, valid_keys-IsEd25519 ks u b)

check_registration-keys :
    (body : Registration) (db : Database) (type : IntegrationType)
    → check_registration body db ≡ ok type
    → All IsEd25519 body.keys
unfolding check_registration
check_registration-keys body db type h =
    let k3 = λ (t : IntegrationType). Errors.◌>>◌ (valid_keys body.keys) (ok t) in
    let k2 = λ (t : IntegrationType). Errors.◌>>◌ (some_keys body.keys) (k3 t) in
    let k1 = λ (t : IntegrationType). Errors.◌>>◌ (require_new body.agent_id db) (k2 t) in
    let (t, a1, h1) = Errors.>>=-eq-ok (require_integration_type body.integration_type) k1 type h in
    let (u, a2, h2) = Errors.>>=-eq-ok (require_new body.agent_id db) (λ _. k2 t) type h1 in
    let (v, a3, h3) = Errors.>>=-eq-ok (some_keys body.keys) (λ _. k3 t) type h2 in
    let (x, a4, h4) = Errors.>>=-eq-ok (valid_keys body.keys) (λ _. ok t) type h3 in
    valid_keys-IsEd25519 body.keys x a4

batch-done :
    (ss : List Statement) (w : World) (u : Unit {0})
    → (batch ss w).0 ≡ ok u
    → (db : Database) × (run_all ss w.db ≡ done db) × (batch ss w ≡ (ok tt, record w { db = db }))
unfolding batch
batch-done ss w u h = elim (DbResult-cases (run_all ss w.db)) [
  | inl (db, e) ↦ (db, e, rw (e, batch) refl)
  | inr (x, e) ↦ absurd (ground arith)
]

-- The parts of a registration that returns.
record Registered (c : Call) (body : Registration) (w : World) (a : Agent) (ks : List AgentKey)
    : Type 0 where
  type : IntegrationType
  checked : check_registration body w.db ≡ ok type
  agent : a ≡ new_agent c body type
  db : Database
  ran : run_all (registration_statements c a ks) w.db ≡ done db
  world : (register_agent c body w).1.db ≡ db

pair-eq :
    (a b : Agent) (ks ls : List AgentKey)
    → ◌≡◌ {A = Result (Agent × List AgentKey)} (ok (a, ks)) (ok (b, ls))
    → (a ≡ b) × (ks ≡ ls)
pair-eq a b ks ls h = (ground arith, ground arith)

register_agent-Registered :
    (c : Call) (body : Registration) (w : World) (a : Agent) (ks : List AgentKey)
    → (register_agent c body w).0 ≡ ok (a, ks)
    → Registered c body w a ks
unfolding register_agent
register_agent-Registered c body w a ks h =
    let ss = λ (t : IntegrationType).
      registration_statements c (new_agent c body t) (map (new_key c body) body.keys) in
    let k2 = λ (t : IntegrationType) (u : Unit {0}).
      pure (new_agent c body t, map (new_key c body) body.keys) in
    let k1 = λ (t : IntegrationType). batch (ss t) >>= k2 t in
    let (type, checked, h1) =
      >>=-eq-ok (λ (v : World). (check_registration body v.db, v)) k1 w (a, ks) h in
    let (u, e2, h2) = >>=-eq-ok (batch (ss type)) (k2 type) w (a, ks) h1 in
    let (db, ran, same) = batch-done (ss type) w u e2 in
    let (agent, keys) = pair-eq (new_agent c body type) a (map (new_key c body) body.keys) ks h2 in
    record {
      type = type;
      checked = checked;
      agent = sym agent;
      db = db;
      ran =
          subst
            (λ (x : Agent × List AgentKey).
              run_all (registration_statements c x.0 x.1) w.db ≡ done db)
            (ap (λ (x : Agent). (x, map (new_key c body) body.keys)) agent
              ∙ ap (λ (y : List AgentKey). (a, y)) keys)
            ran;
      world = rw (checked, same) refl;
    }

insert_agent-agents :
    (a : Agent) (db db' : Database) → insert_agent a db ≡ done db' → db'.agents ≡ a ∷ db.agents
unfolding insert_agent
insert_agent-agents a db db' h = ground arith

run_all-registered :
    (a : Agent) (ss : List Statement) (db db' : Database)
    → All Keeps ss
    → run_all (insert_agent a ∷ ss) db ≡ done db'
    → db'.agents ≡ a ∷ db.agents
unfolding run_all
run_all-registered a ss db db' k h = elim (DbResult-cases (insert_agent a db)) [
  | inl (next, e) ↦
      let rest : run_all ss next ≡ done db' = rw (e, run_all) at h in
      run_all-Keeps ss k next db' rest ∙ insert_agent-agents a db next e
  | inr (x, e) ↦ absurd (ground arith)
]

registered-agents :
    (c : Call) (a : Agent) (ks : List AgentKey) (db db' : Database)
    → run_all (registration_statements c a ks) db ≡ done db'
    → db'.agents ≡ a ∷ db.agents
unfolding registration_statements
registered-agents c a ks db db' h = run_all-registered a _ db db' (registration-Keeps ks _) h

-- The first row is the one that a query for its ids finds.
find_agent-first :
    (a : Agent) (rows : List Agent) (db : Database)
    → db.agents ≡ a ∷ rows
    → find_agent a.agent_id a.org_id db ≡ some a
unfolding find_agent
find_agent-first a rows db e =
    subst (λ (rs : List Agent). find? (is_agent a.agent_id a.org_id) rs ≡ some a) (sym e)
      (rw (eq_refl a.agent_id, eq_refl a.org_id) refl)

-- A registration that returns has tested that every key names ed25519 and decodes to 32 bytes; the
-- queries for the agent's ids then find the agent that it answered with, which is active.
pub register_agent-accepted :
    (c : Call) (body : Registration) (w : World) (a : Agent) (ks : List AgentKey)
    → (register_agent c body w).0 ≡ ok (a, ks)
    → All IsEd25519 body.keys
      × (a.status ≡ AgentStatus.active)
      × (a.agent_id ≡ body.agent_id)
      × (a.org_id ≡ c.org_id)
      × (find_agent a.agent_id a.org_id (register_agent c body w).1.db ≡ some a)
unfolding new_agent
register_agent-accepted c body w a ks h =
    let r = register_agent-Registered c body w a ks h in
    let agents = registered-agents c a ks w.db r.db r.ran in
    (
      check_registration-keys body w.db r.type r.checked,
      ap (λ (x : Agent). x.status) r.agent,
      ap (λ (x : Agent). x.agent_id) r.agent,
      ap (λ (x : Agent). x.org_id) r.agent,
      find_agent-first a w.db.agents (register_agent c body w).1.db
          (ap (λ (d : Database). d.agents) r.world ∙ agents),
    )
