-- ===== src/Operations/Committed.antt =====
-- What the last part of a submission does: `commit` of Operations/Submit taken apart.
use elydora_open_source.Prelude.{◌≡◌, ◌≢◌, refl, ◌⊎◌, inl, inr, false, [], ◌∷◌, arith, any}
use elydora_open_source.Model.Errors.{ok}
use elydora_open_source.Model.Entities.{Ear}
use elydora_open_source.Model.Tables.{
  DbResult, is_step, has_operation_id, Database, done, failed, DbError, DbResult-cases,
}
use elydora_open_source.Model.Statements.{run_all, insert_operation, insert_receipt}
use elydora_open_source.Model.World.{World}
use elydora_open_source.Operations.Submit.{Request, Pending, commit}

-- A transaction that goes through found the id and the number free, and added the operation.
pub record Inserted (s : Pending) (db db' : Database) : Type 0 where
  pub id_free : any (has_operation_id s.operation.operation_id) db.operations ≡ false
  pub number_free : any (is_step s.operation.agent_id s.operation.seq_no) db.operations ≡ false
  pub received_row : db'.receipts ≡ s.receipt ∷ db.receipts
  pub same_keys : db'.agent_keys ≡ db.agent_keys
  pub same_epochs : db'.epochs ≡ db.epochs
  pub added : db'.operations ≡ s.operation ∷ db.operations

insert-Inserted :
    (s : Pending) (db db' : Database)
    → run_all (insert_operation s.operation ∷ insert_receipt s.receipt ∷ []) db ≡ done db'
    → Inserted s db db'
unfolding run_all insert_operation insert_receipt
insert-Inserted s db db' h = ground arith

abbrev transaction : Pending → Database → DbResult
transaction s = run_all (insert_operation s.operation ∷ insert_receipt s.receipt ∷ [])

commit-failed :
    (r : Request) (s : Pending) (w : World) (x : DbError)
    → transaction s w.db ≡ failed x
    → (commit r s w).1 ≡ w
unfolding commit
commit-failed r s w x h = ground arith

pub commit-done :
    (r : Request) (s : Pending) (w : World) (db : Database)
    → transaction s w.db ≡ done db
    → ((commit r s w).0 ≡ ok s.ear)
      × ((commit r s w).1.db ≡ db)
      × ((commit r s w).1.evidence ≡ w.evidence)
unfolding commit
commit-done r s w db h = rw (h, commit) (refl, refl, refl)

-- A commit leaves the world as it is, or returns the receipt and has added the rows.
pub commit-cases :
    (r : Request) (s : Pending) (w : World)
    → ((commit r s w).1 ≡ w)
      ⊎ (((commit r s w).0 ≡ ok s.ear)
          × Inserted s w.db (commit r s w).1.db
          × ((commit r s w).1.evidence ≡ w.evidence))
commit-cases r s w = elim (DbResult-cases (transaction s w.db)) [
  | inr (x, failure) ↦ inl (commit-failed r s w x failure)
  | inl (db, success) ↦
      let (answer, state, evidence) = commit-done r s w db success in
      inr (answer, rw state (insert-Inserted s w.db db success), evidence)
]

commit-not_failed :
    (r : Request) (s : Pending) (w : World) (x : DbError) (ear : Ear)
    → transaction s w.db ≡ failed x
    → (commit r s w).0 ≢ ok ear
unfolding commit
commit-not_failed r s w x ear h answer = ground arith

-- A commit that returns has added the rows, and returns the receipt.
pub commit-Inserted :
    (r : Request) (s : Pending) (w : World) (ear : Ear)
    → (commit r s w).0 ≡ ok ear
    → (ear ≡ s.ear) × Inserted s w.db (commit r s w).1.db × ((commit r s w).1.evidence ≡ w.evidence)
commit-Inserted r s w ear h = elim (DbResult-cases (transaction s w.db)) [
  | inr (x, failure) ↦ absurd (commit-not_failed r s w x ear failure h)
  | inl (db, success) ↦
      let (answer, state, evidence) = commit-done r s w db success in
      let same : ear ≡ s.ear = ground arith in
      (same, rw state (insert-Inserted s w.db db success), evidence)
]
