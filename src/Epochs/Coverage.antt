-- ===== src/Epochs/Coverage.antt =====
-- A created epoch proves the inclusion of the operations of its window: createEpoch of Epochs and
-- the Merkle part of verifyOperation of Operations/Verify.
use mathlib.Core.Path.{subst}
use elydora_open_source.Prelude.{
  ℕ, suc, zero, ◌≡◌, refl, sym, ap, ◌∙◌, inl, inr, Bool, true, Option, some, List, [], ◌∷◌, map,
  arith, any, filter, find?, get_elem?, length, Bool-cases,
}
use elydora_open_source.Prelude.Texts.{Text, text_eq, eq_refl}
use elydora_open_source.Prelude.Sorting.{any-sort_by}
use elydora_open_source.Crypto.Platform.{Platform}
use elydora_open_source.Merkle.{
  MerkleTree, MerkleProof, build_merkle_tree, includes, get_merkle_proof, verify_merkle_proof,
  leaf_hash,
}
use elydora_open_source.Merkle.Inclusion.{includes-sorted, inclusion, build-inv, sorted}
use elydora_open_source.Merkle.Layers.{build_layers-head}
use elydora_open_source.Model.Errors.{ok}
use elydora_open_source.Model.Entities.{Operation, Epoch, Eer}
use elydora_open_source.Model.World.{
  World, Document, Stored, epoch_document, evidence_get, evidence_put,
}
use elydora_open_source.Operations.Verify.{
  is_epoch_of, proof_check, epoch_document_check, merkle_check,
}
use elydora_open_source.Epochs.{
  Roll, in_window, chain_hash_of, operations_in, epoch_row, create_epoch,
}
use elydora_open_source.Epochs.Created.{create_epoch-IsRolled}

-- A selected operation's chain hash is among those of the selection.
filter-includes :
    (sel : Operation → Bool) (os : List Operation) (i : ℕ) (o : Operation)
    → get_elem? os i ≡ some o
    → sel o ≡ true
    → any (λ (q : Operation). text_eq q.chain_hash o.chain_hash) (filter sel os) ≡ true
filter-includes sel [] i o there h = absurd (ground arith)
filter-includes sel (q ∷ os) zero o there h =
    let same : q ≡ o = ground arith in rw same (rw h (ground (arith, eq_refl o.chain_hash)))
filter-includes sel (q ∷ os) (suc i) o there h =
    let rest = filter-includes sel os i o there h in
    elim (Bool-cases (sel q)) [ inl in' ↦ rw in' (ground (arith, rest)) | inr out ↦ rw out rest ]

any-map-hash :
    (t : Text) (os : List Operation)
    → includes t (map chain_hash_of os) ≡ any (λ (q : Operation). text_eq q.chain_hash t) os
any-map-hash t [] = refl
any-map-hash t (o ∷ os) = rw (any-map-hash t os) refl

operations_in-includes :
    (org_id : Text) (s t : ℕ) (w : World) (i : ℕ) (o : Operation)
    → get_elem? w.db.operations i ≡ some o
    → in_window org_id s t o ≡ true
    → includes o.chain_hash (map chain_hash_of (operations_in org_id s t w.db)) ≡ true
unfolding operations_in
operations_in-includes org_id s t w i o there h =
    any-map-hash o.chain_hash _
    ∙ any-sort_by chain_hash_of (λ (q : Operation). text_eq q.chain_hash o.chain_hash)
        (filter (in_window org_id s t) w.db.operations)
    ∙ filter-includes (in_window org_id s t) w.db.operations i o there h

-- The first layer of a tree is that of its leaves.
tree-layers :
    (digest : List ℕ → List ℕ) (hs ops : List Text) (tree : MerkleTree)
    → build_merkle_tree digest hs ops ≡ some tree
    → (rest : List (List Text)) × (tree.layers ≡ tree.leaves ∷ rest)
tree-layers digest hs ops tree h =
    let (layers, built, whole) = build-inv digest hs ops tree h in
    let (rest, first) =
      build_layers-head digest (suc (length (sorted digest hs ops)))
        (map leaf_hash (sorted digest hs ops)) layers built in
    (rest, rw whole first)

tree-includes :
    (digest : List ℕ → List ℕ) (hs ops : List Text) (tree : MerkleTree) (x : Text)
    → build_merkle_tree digest hs ops ≡ some tree
    → includes x hs ≡ true
    → includes x tree.leaves ≡ true
tree-includes digest hs ops tree x h there =
    let (layers, built, whole) = build-inv digest hs ops tree h in
    rw whole (includes-sorted x hs ops ∙ there)

evidence_get-put :
    (key : Text) (d : Document) (ss : List Stored)
    → evidence_get key (evidence_put key d ss) ≡ some d
unfolding evidence_get evidence_put
evidence_get-put key d ss = rw (eq_refl key) refl

module _ (p : Platform) where
  proof_check-valid :
      (tree : MerkleTree) (leaf : Text) (proof : MerkleProof)
      → get_merkle_proof tree leaf ≡ some proof
      → verify_merkle_proof p.digest proof ≡ some true
      → proof_check p tree leaf ≡ (some true, [])
  unfolding proof_check
  proof_check-valid tree leaf proof found valid = rw (found, valid, proof_check) refl

  document-valid :
      (e : Epoch) (leaf : Text) (eer : Eer) (tree : MerkleTree) (rest : List (List Text))
      → e.root_hash ≡ tree.root
      → tree.layers ≡ tree.leaves ∷ rest
      → includes leaf tree.leaves ≡ true
      → proof_check p tree leaf ≡ (some true, [])
      → epoch_document_check p e leaf (epoch_document eer tree.leaf_ops tree.layers)
        ≡ (some true, [])
  unfolding epoch_document_check
  document-valid e leaf eer tree rest root layers there valid =
      let tree_with = λ (r : Option Text) (ls : List (List Text)).
        proof_check p
          (record { root = r; leaves = tree.leaves; leaf_ops = tree.leaf_ops; layers = ls }) leaf in
      subst
        (λ (ls : List (List Text)).
          epoch_document_check p e leaf (epoch_document eer tree.leaf_ops ls) ≡ (some true, []))
        (sym layers)
        (rw there (
          ap (λ (r : Option Text). tree_with r (tree.leaves ∷ rest)) root
          ∙ ap (tree_with tree.root) (sym layers)
          ∙ valid))

  merkle_check-found :
      (o : Operation) (org_id : Text) (w : World) (e : Epoch) (d : Document)
      → find? (is_epoch_of org_id o.created_at) w.db.epochs ≡ some e
      → evidence_get e.r2_epoch_key w.evidence ≡ some d
      → merkle_check p o org_id w ≡ epoch_document_check p e o.chain_hash d
  unfolding merkle_check
  merkle_check-found o org_id w e d found there = rw (found, there, merkle_check) refl

  -- If createEpoch returns an epoch, the Merkle part of verifyOperation holds for every operation
  -- that stood in its window, in each later state in which the query for the operation's epoch
  -- finds this one and its document is kept.
  pub created_covers :
      (c : Roll) (org_id : Text) (s t : ℕ) (w v : World) (e : Epoch) (i : ℕ) (o : Operation)
      → (create_epoch p c org_id s t w).0 ≡ ok (some e)
      → get_elem? w.db.operations i ≡ some o
      → in_window org_id s t o ≡ true
      → find? (is_epoch_of org_id o.created_at) v.db.epochs ≡ some e
      → evidence_get e.r2_epoch_key v.evidence
        ≡ evidence_get e.r2_epoch_key (create_epoch p c org_id s t w).1.evidence
      → merkle_check p o org_id v ≡ (some true, [])
  unfolding epoch_row
  created_covers c org_id s t w v e i o h there inside found kept =
      let (absent, r) = create_epoch-IsRolled p c org_id s t w e h in
      let hs = map chain_hash_of (operations_in org_id s t w.db) in
      let ids = map (λ (q : Operation). q.operation_id) (operations_in org_id s t w.db) in
      let (rest, layers) = tree-layers p.digest hs ids r.tree r.built in
      let has = operations_in-includes org_id s t w i o there inside in
      let (proof, proved, leaf, root, valid) =
        inclusion p.digest hs ids r.tree o.chain_hash r.built has in
      let stored : evidence_get e.r2_epoch_key v.evidence
          ≡ some (epoch_document r.eer r.tree.leaf_ops r.tree.layers) =
        kept
        ∙ ap (evidence_get e.r2_epoch_key) r.stored
        ∙ evidence_get-put e.r2_epoch_key (epoch_document r.eer r.tree.leaf_ops r.tree.layers)
            w.evidence in
      merkle_check-found o org_id v e (epoch_document r.eer r.tree.leaf_ops r.tree.layers) found
        stored
      ∙ document-valid e o.chain_hash r.eer r.tree rest (ap (λ (x : Epoch). x.root_hash) r.row)
          layers (tree-includes p.digest hs ids r.tree o.chain_hash r.built has)
          (proof_check-valid r.tree o.chain_hash proof proved valid)
