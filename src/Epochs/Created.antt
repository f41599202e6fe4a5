-- ===== src/Epochs/Created.antt =====
-- What a creation of an epoch that returns has done: createEpoch of Epochs taken apart.
use mathlib.Core.Path.{subst}
use elydora_open_source.Prelude.{
  ℕ, ◌≡◌, ◌≢◌, refl, sym, ap, ◌∙◌, inl, inr, true, false, Option, none, some, List, [], ◌∷◌, map,
  arith, any, Bool-cases,
}
use elydora_open_source.Prelude.Texts.{Text}
use elydora_open_source.Crypto.Platform.{Platform}
use elydora_open_source.Merkle.{MerkleTree, build_merkle_tree}
use elydora_open_source.Model.Errors.{Result, ok}
use elydora_open_source.Model.Entities.{Operation, Epoch, Eer}
use elydora_open_source.Model.Tables.{Database, DbResult-cases, done}
use elydora_open_source.Model.Statements.{insert_epoch}
use elydora_open_source.Model.World.{
  World, epoch_document, evidence_put, execute, lift, pure, ◌>>=◌, >>=-eq-ok,
}
use elydora_open_source.Epochs.{
  Roll, is_window, chain_hash_of, operations_in, unsigned_eer, epoch_row, sign_eer, build_tree,
  store_epoch, roll_up, roll_up_some, create_epoch,
}

insert_epoch-epochs :
    (e : Epoch) (db db' : Database)
    → insert_epoch e db ≡ done db'
    → (db'.epochs ≡ e ∷ db.epochs) × (db'.operations ≡ db.operations)
unfolding insert_epoch
insert_epoch-epochs e db db' h = (ground arith, ground arith)

execute-insert :
    (e : Epoch) (w : World) (u : Unit {0})
    → (execute (insert_epoch e) w).0 ≡ ok u
    → ((execute (insert_epoch e) w).1.db.epochs ≡ e ∷ w.db.epochs)
      × ((execute (insert_epoch e) w).1.db.operations ≡ w.db.operations)
      × ((execute (insert_epoch e) w).1.evidence ≡ w.evidence)
unfolding execute
execute-insert e w u h = elim (DbResult-cases (insert_epoch e w.db)) [
  | inl (db, did) ↦ let (a, b) = insert_epoch-epochs e w.db db did in rw (did, execute) (a, b, refl)
  | inr (x, not) ↦ absurd (ground arith)
]

ok_row : (d e : Epoch) → ◌≡◌ {A = Result Epoch} (ok d) (ok e) → e ≡ d
ok_row d e h = ground arith

none_some : (e : Epoch) → ◌≢◌ {A = Result (Option Epoch)} (ok none) (ok (some e))
none_some e h = ground arith

ok_some : (d e : Epoch) → ◌≡◌ {A = Result (Option Epoch)} (ok (some d)) (ok (some e)) → d ≡ e
ok_some d e h = ground arith

module _ (p : Platform) where
  build_tree-inv :
      (ops : List Operation) (tree : MerkleTree)
      → build_tree p ops ≡ ok tree
      → build_merkle_tree p.digest
          (map chain_hash_of ops)
          (map (λ (o : Operation). o.operation_id) ops)
        ≡ some tree
  unfolding build_tree
  build_tree-inv ops tree h = ground arith

  -- The row, the tree and the document of a new epoch.
  pub record IsRolled (c : Roll) (org_id : Text) (start_time end_time : ℕ) (ops : List Operation)
      (w w' : World) (e : Epoch) : Type 0 where
    pub tree : MerkleTree
    pub eer : Eer
    pub built :
        build_merkle_tree p.digest
          (map chain_hash_of ops)
          (map (λ (o : Operation). o.operation_id) ops)
        ≡ some tree
    pub row : e ≡ epoch_row c org_id start_time end_time tree
    pub added : w'.db.epochs ≡ e ∷ w.db.epochs
    pub same_operations : w'.db.operations ≡ w.db.operations
    pub stored :
        w'.evidence
        ≡ evidence_put e.r2_epoch_key (epoch_document eer tree.leaf_ops tree.layers) w.evidence

  roll_up-IsRolled :
      (c : Roll) (org_id : Text) (s t : ℕ) (ops : List Operation) (w : World) (e : Epoch)
      → (roll_up p c org_id s t ops w).0 ≡ ok e
      → IsRolled c org_id s t ops w (roll_up p c org_id s t ops w).1 e
  unfolding roll_up store_epoch
  roll_up-IsRolled c org_id s t ops w e h =
      let row = epoch_row c org_id s t in
      let k4 = λ (tree : MerkleTree) (u : Unit {0}). pure (row tree) in
      let k3 =
        λ (tree : MerkleTree) (u : Unit {0}). execute (insert_epoch (row tree)) >>= k4 tree in
      let k2 = λ (tree : MerkleTree) (eer : Eer). store_epoch (row tree) eer tree >>= k3 tree in
      let k1 =
        λ (tree : MerkleTree). lift (sign_eer p c (unsigned_eer c org_id s t tree)) >>= k2 tree in
      let (tree, built, h1) = >>=-eq-ok (lift (build_tree p ops)) k1 w e h in
      let (eer, signed, h2) =
        >>=-eq-ok (lift (sign_eer p c (unsigned_eer c org_id s t tree))) (k2 tree) w e h1 in
      let (u, put, h3) = >>=-eq-ok (store_epoch (row tree) eer tree) (k3 tree) w e h2 in
      let w1 = (store_epoch (row tree) eer tree w).1 in
      let (v, inserted, h4) = >>=-eq-ok (execute (insert_epoch (row tree))) (k4 tree) w1 e h3 in
      let same : (roll_up p c org_id s t ops w).1 ≡ (execute (insert_epoch (row tree)) w1).1 =
        rw (built, signed, inserted) refl in
      let (rows, operations, evidence) = execute-insert (row tree) w1 v inserted in
      let is_row : e ≡ row tree = ok_row (row tree) e h4 in
      rw (same, is_row)
        (record {
          tree = tree;
          eer = eer;
          built = build_tree-inv ops tree built;
          row = refl;
          added = rows;
          same_operations = operations;
          stored = evidence;
        })

  roll_up_some-IsRolled :
      (c : Roll) (org_id : Text) (s t : ℕ) (ops : List Operation) (w : World) (e : Epoch)
      → (roll_up_some p c org_id s t ops w).0 ≡ ok (some e)
      → IsRolled c org_id s t ops w (roll_up_some p c org_id s t ops w).1 e
  unfolding roll_up_some
  roll_up_some-IsRolled c org_id s t [] w e h = absurd (ground arith)
  roll_up_some-IsRolled c org_id s t (o ∷ os) w e h =
      let k = λ (d : Epoch). pure (some d) in
      let (d, rolled, h1) = >>=-eq-ok (roll_up p c org_id s t (o ∷ os)) k w (some e) h in
      let same : d ≡ e = ok_some d e h1 in
      let final : (roll_up_some p c org_id s t (o ∷ os) w).1
          ≡ (roll_up p c org_id s t (o ∷ os) w).1 =
        rw rolled refl in
      subst (λ (v : World). IsRolled c org_id s t (o ∷ os) w v e) (sym final)
        (roll_up-IsRolled c org_id s t (o ∷ os) w e (rolled ∙ ap ok same))

  pub create_epoch-runs :
      (c : Roll) (org_id : Text) (s t : ℕ) (w : World)
      → any (is_window org_id s t) w.db.epochs ≡ false
      → create_epoch p c org_id s t w
        ≡ roll_up_some p c org_id s t (operations_in org_id s t w.db) w
  unfolding create_epoch
  create_epoch-runs c org_id s t w absent = rw absent refl

  -- A window that has an epoch is left alone.
  pub create_epoch-idle :
      (c : Roll) (org_id : Text) (s t : ℕ) (w : World)
      → any (is_window org_id s t) w.db.epochs ≡ true
      → create_epoch p c org_id s t w ≡ (ok none, w)
  unfolding create_epoch
  create_epoch-idle c org_id s t w there = rw there refl

  -- A creation that returns an epoch has rolled up the operations of a window that had none.
  pub create_epoch-IsRolled :
      (c : Roll) (org_id : Text) (s t : ℕ) (w : World) (e : Epoch)
      → (create_epoch p c org_id s t w).0 ≡ ok (some e)
      → (any (is_window org_id s t) w.db.epochs ≡ false)
        × IsRolled c org_id s t
            (operations_in org_id s t w.db)
            w
            (create_epoch p c org_id s t w).1
            e
  create_epoch-IsRolled c org_id s t w e h =
      elim (Bool-cases (any (is_window org_id s t) w.db.epochs)) [
        | inl there ↦ absurd (
            none_some e (
              ap (λ (z : Result (Option Epoch) × World). z.0)
                (sym (create_epoch-idle c org_id s t w there))
              ∙ h))
        | inr absent ↦
            let same = create_epoch-runs c org_id s t w absent in
            let ops = operations_in org_id s t w.db in
            (
              absent,
              rw same (
                  roll_up_some-IsRolled c org_id s t ops w e
                    (ap (λ (z : Result (Option Epoch) × World). z.0) (sym same) ∙ h)),
            )
      ]
