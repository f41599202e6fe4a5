-- ===== src/Model/Tables.antt =====
-- The tables of packages/server/migrations as the services query them, and what they enforce.
-- A table is a list of rows; no query of the services depends on the order of the rows.
use elydora_open_source.Prelude.{
  ◌≡◌, refl, ◌⊎◌, inl, inr, ℕ, Bool, ◌&&◌, Option, none, some, List, [], ◌∷◌, ltb, if◌then◌else◌,
  find?, ◌==◌,
}
use elydora_open_source.Prelude.Texts.{Text, text_eq}
use elydora_open_source.Model.Entities.{
  Agent, AgentKey, Operation, Receipt, Epoch, AdminEvent, Export, User, ApiToken,
}

pub record Database : Type 0 where
  pub organizations : List Text
  pub agents : List Agent
  pub agent_keys : List AgentKey
  pub operations : List Operation
  pub receipts : List Receipt
  pub epochs : List Epoch
  pub admin_events : List AdminEvent
  pub exports : List Export
  pub users : List User
  pub api_tokens : List ApiToken

-- The constraints that an INSERT of the services can violate.
pub data Constraint : Type 0 where
  agents_pkey agent_keys_pkey operations_pkey operations_agent_id_seq_no_key : Constraint
  receipts_pkey receipts_operation_id_key epochs_pkey admin_events_pkey exports_pkey : Constraint
  api_tokens_pkey api_tokens_token_hash_key : Constraint

pub data DbError : Type 0 where
  unique_violation : Constraint → DbError
  foreign_key_violation not_null_violation : DbError

pub data DbResult : Type 0 where
  done : Database → DbResult
  failed : DbError → DbResult

-- WHERE agent_id = ? AND org_id = ?
abbrev pub is_agent : Text → Text → Agent → Bool
is_agent agent_id org_id a = text_eq a.agent_id agent_id && text_eq a.org_id org_id

unfoldable pub find_agent : Text → Text → Database → Option Agent
find_agent agent_id org_id db = find? (is_agent agent_id org_id) db.agents

abbrev pub has_agent_id : Text → Agent → Bool
has_agent_id agent_id a = text_eq a.agent_id agent_id

-- WHERE kid = ? AND agent_id = ?
abbrev pub is_key : Text → Text → AgentKey → Bool
is_key kid agent_id k = text_eq k.kid kid && text_eq k.agent_id agent_id

unfoldable pub find_key : Text → Text → Database → Option AgentKey
find_key kid agent_id db = find? (is_key kid agent_id) db.agent_keys

-- WHERE operation_id = ? AND org_id = ?
abbrev pub is_operation : Text → Text → Operation → Bool
is_operation operation_id org_id o = text_eq o.operation_id operation_id && text_eq o.org_id org_id

unfoldable pub find_operation : Text → Text → Database → Option Operation
find_operation operation_id org_id db = find? (is_operation operation_id org_id) db.operations

-- WHERE agent_id = ? AND seq_no = ?
abbrev pub is_step : Text → ℕ → Operation → Bool
is_step agent_id seq_no o = text_eq o.agent_id agent_id && o.seq_no == seq_no

abbrev pub has_operation_id : Text → Operation → Bool
has_operation_id operation_id o = text_eq o.operation_id operation_id

-- The row of two with the larger `seq_no`.
abbrev pub later : Operation → Option Operation → Operation
later o none = o
later o (some q) = if ltb q.seq_no o.seq_no then o else q

-- WHERE agent_id = ? ORDER BY seq_no DESC LIMIT 1
unfoldable pub latest : Text → List Operation → Option Operation
latest agent_id [] = none
latest agent_id (o ∷ os) =
    let rest = latest agent_id os in
    if text_eq o.agent_id agent_id then some (later o rest) else rest

-- WHERE operation_id = ?
abbrev pub is_receipt : Text → Receipt → Bool
is_receipt operation_id r = text_eq r.operation_id operation_id

unfoldable pub find_receipt : Text → Database → Option Receipt
find_receipt operation_id db = find? (is_receipt operation_id) db.receipts

-- To split on the outcome of a statement.
pub DbResult-cases :
    (r : DbResult) → ((db : Database) × (r ≡ done db)) ⊎ ((x : DbError) × (r ≡ failed x))
DbResult-cases (done db) = inl (db, refl)
DbResult-cases (failed x) = inr (x, refl)
