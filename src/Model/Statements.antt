-- ===== src/Model/Statements.antt =====
-- The INSERT, UPDATE and DELETE statements of the services, with the constraints of the schema, and
-- the transaction of packages/server/src/adapters/postgres.ts that runs several of them.
use elydora_open_source.Prelude.{
  ℕ, Bool, true, false, not, ◌&&◌, ◌||◌, Option, none, some, List, [], ◌∷◌, if◌then◌else◌, filter,
  any,
}
use elydora_open_source.Prelude.Texts.{Text, text_eq}
use elydora_open_source.Model.Entities.{
  AgentStatus, KeyStatus, ExportStatus, IntegrationType, Agent, AgentKey, Operation, Receipt, Epoch,
  AdminEvent, Export, User, ApiToken,
}
use elydora_open_source.Model.Tables.{
  Database, agents_pkey, agent_keys_pkey, operations_pkey, operations_agent_id_seq_no_key,
  receipts_pkey, receipts_operation_id_key, admin_events_pkey, epochs_pkey, exports_pkey,
  api_tokens_pkey, api_tokens_token_hash_key, unique_violation, foreign_key_violation,
  not_null_violation, DbResult, done, failed, is_agent, has_agent_id, is_step, has_operation_id,
  is_receipt,
}

abbrev pub Statement : Type 0
Statement = Database → DbResult

-- The statements inside BEGIN and COMMIT, from the state that those before have left.
unfoldable pub run_all : List Statement → Statement
run_all [] db = done db
run_all (s ∷ ss) db = elim (s db) [ done db' ↦ run_all ss db' | failed e ↦ failed e ]

abbrev is_missing : Option Text → Bool
is_missing none = true
is_missing (some t) = false

-- The uniqueness of the primary key is tested before that of (agent_id, seq_no).
unfoldable pub insert_operation : Operation → Statement
insert_operation o db =
    if is_missing o.subject || is_missing o.action
    then failed not_null_violation
    else if any (has_operation_id o.operation_id) db.operations
    then failed (unique_violation operations_pkey)
    else if any (is_step o.agent_id o.seq_no) db.operations
    then failed (unique_violation operations_agent_id_seq_no_key)
    else if any (has_agent_id o.agent_id) db.agents
    then done (record db { operations = o ∷ db.operations })
    else failed foreign_key_violation

unfoldable pub insert_receipt : Receipt → Statement
insert_receipt r db =
    if any (λ (q : Receipt). text_eq q.receipt_id r.receipt_id) db.receipts
    then failed (unique_violation receipts_pkey)
    else if any (is_receipt r.operation_id) db.receipts
    then failed (unique_violation receipts_operation_id_key)
    else if any (has_operation_id r.operation_id) db.operations
    then done (record db { receipts = r ∷ db.receipts })
    else failed foreign_key_violation

unfoldable pub insert_agent : Agent → Statement
insert_agent a db =
    if any (has_agent_id a.agent_id) db.agents
    then failed (unique_violation agents_pkey)
    else if any (text_eq a.org_id) db.organizations
    then done (record db { agents = a ∷ db.agents })
    else failed foreign_key_violation

-- `kid` alone is the primary key.
unfoldable pub insert_agent_key : AgentKey → Statement
insert_agent_key k db =
    if any (λ (j : AgentKey). text_eq j.kid k.kid) db.agent_keys
    then failed (unique_violation agent_keys_pkey)
    else if any (has_agent_id k.agent_id) db.agents
    then done (record db { agent_keys = k ∷ db.agent_keys })
    else failed foreign_key_violation

unfoldable pub insert_admin_event : AdminEvent → Statement
insert_admin_event e db =
    if any (λ (d : AdminEvent). text_eq d.event_id e.event_id) db.admin_events
    then failed (unique_violation admin_events_pkey)
    else done (record db { admin_events = e ∷ db.admin_events })

unfoldable pub insert_epoch : Epoch → Statement
insert_epoch e db =
    if is_missing e.root_hash
    then failed not_null_violation
    else if any (λ (d : Epoch). text_eq d.epoch_id e.epoch_id) db.epochs
    then failed (unique_violation epochs_pkey)
    else done (record db { epochs = e ∷ db.epochs })

unfoldable pub insert_export : Export → Statement
insert_export x db =
    if any (λ (d : Export). text_eq d.export_id x.export_id) db.exports
    then failed (unique_violation exports_pkey)
    else done (record db { exports = x ∷ db.exports })

unfoldable pub insert_api_token : ApiToken → Statement
insert_api_token t db =
    if any (λ (s : ApiToken). text_eq s.token_id t.token_id) db.api_tokens
    then failed (unique_violation api_tokens_pkey)
    else if any (λ (s : ApiToken). text_eq s.token_hash t.token_hash) db.api_tokens
    then failed (unique_violation api_tokens_token_hash_key)
    else if any (λ (u : User). text_eq u.user_id t.user_id) db.users
        && any (text_eq t.org_id) db.organizations
    then done (record db { api_tokens = t ∷ db.api_tokens })
    else failed foreign_key_violation

-- A row that the WHERE clause selects is changed.
abbrev pub update_where {ℓ} : {A : Type ℓ} → (A → Bool) → (A → A) → List A → List A
update_where selects change [] = []
update_where selects change (x ∷ xs) =
    (if selects x then change x else x) ∷ update_where selects change xs

-- UPDATE agents SET status = ?, updated_at = ? WHERE agent_id = ?
unfoldable pub set_agent_status : AgentStatus → ℕ → Text → Statement
set_agent_status status now agent_id db = done (record db {
  agents =
      update_where (has_agent_id agent_id)
        (λ (a : Agent). record a { status = status; updated_at = now }) db.agents;
})

-- UPDATE agents SET integration_type = ?, updated_at = ? WHERE agent_id = ? AND org_id = ?
unfoldable pub set_integration_type : IntegrationType → ℕ → Text → Text → Statement
set_integration_type type now agent_id org_id db = done (record db {
  agents =
      update_where (is_agent agent_id org_id)
        (λ (a : Agent). record a { integration_type = type; updated_at = now }) db.agents;
})

-- UPDATE agent_keys SET status = ?, retired_at = ? WHERE kid = ?
unfoldable pub set_key_status : KeyStatus → ℕ → Text → Statement
set_key_status status now kid db = done (record db {
  agent_keys =
      update_where (λ (k : AgentKey). text_eq k.kid kid)
        (λ (k : AgentKey). record k { status = status; retired_at = some now }) db.agent_keys;
})

abbrev pub has_export_id : Text → Export → Bool
has_export_id export_id x = text_eq x.export_id export_id

-- UPDATE exports SET status = ? WHERE export_id = ?
unfoldable pub set_export_status : ExportStatus → Text → Statement
set_export_status status export_id db = done (record db {
  exports =
      update_where (has_export_id export_id) (λ (x : Export). record x { status = status })
        db.exports;
})

-- UPDATE exports SET status = ?, r2_export_key = ?, completed_at = ? WHERE export_id = ?
unfoldable pub set_export_file : ExportStatus → Text → ℕ → Text → Statement
set_export_file status key now export_id db = done (record db {
  exports =
      update_where (has_export_id export_id)
        (λ (x : Export). record x {
          status = status;
          r2_export_key = some key;
          completed_at = some now;
        })
        db.exports;
})

-- UPDATE exports SET status = ?, completed_at = ? WHERE export_id = ?
unfoldable pub set_export_end : ExportStatus → ℕ → Text → Statement
set_export_end status now export_id db = done (record db {
  exports =
      update_where (has_export_id export_id)
        (λ (x : Export). record x { status = status; completed_at = some now }) db.exports;
})

-- operation_id IN (SELECT operation_id FROM operations WHERE agent_id = ?)
abbrev pub of_agent : Text → Operation → Bool
of_agent agent_id o = text_eq o.agent_id agent_id

unfoldable pub delete_receipts_of : Text → Statement
delete_receipts_of agent_id db =
    let mine = filter (of_agent agent_id) db.operations in
    done (record db {
      receipts =
          filter (λ (r : Receipt). not (any (has_operation_id r.operation_id) mine)) db.receipts;
    })

-- A row that another table still refers to is not deleted.
unfoldable pub delete_operations_of : Text → Statement
delete_operations_of agent_id db =
    let mine = filter (of_agent agent_id) db.operations in
    if any (λ (r : Receipt). any (has_operation_id r.operation_id) mine) db.receipts
    then failed foreign_key_violation
    else done (record db {
      operations = filter (λ (o : Operation). not (of_agent agent_id o)) db.operations;
    })

unfoldable pub delete_keys_of : Text → Statement
delete_keys_of agent_id db = done (record db {
  agent_keys = filter (λ (k : AgentKey). not (text_eq k.agent_id agent_id)) db.agent_keys;
})

unfoldable pub delete_agent_row : Text → Text → Statement
delete_agent_row agent_id org_id db =
    if any (is_agent agent_id org_id) db.agents
      && (any (of_agent agent_id) db.operations
          || any (λ (k : AgentKey). text_eq k.agent_id agent_id) db.agent_keys)
    then failed foreign_key_violation
    else done
        (record db { agents = filter (λ (a : Agent). not (is_agent agent_id org_id a)) db.agents })
