-- ===== src/Merkle/Inclusion.antt =====
-- Inclusion proofs of utils/merkle.ts: every leaf of a built tree has a proof that verifies.
use elydora_open_source.Prelude.{
  ℕ, suc, ◌≡◌, refl, sym, ap, ◌∙◌, Bool, true, false, none, some, List, [], ◌∷◌, map, arith, length,
  get_elem?, last?, Bool-cases, inl, inr, any,
}
use elydora_open_source.Prelude.Texts.{Text, text_eq, eq_refl}
use elydora_open_source.Prelude.Sorting.{sort_by, any-sort_by}
use elydora_open_source.Prelude.Throws.{◌>>=◌, >>=-eq-some}
use elydora_open_source.Merkle.{
  Leaf, leaf_hash, leaf_op, paired, includes, MerkleTree, MerkleProof, index_of, proof_siblings,
  proof_directions, get_merkle_proof, build_layers, build_merkle_tree, verify_merkle_proof,
}
use elydora_open_source.Merkle.Layers.{index_of-get_elem?, build_layers-LeadsToRoot, LeadsToRoot}

-- The hashes of the paired leaves are the hashes that were given.
pub map-paired : (hs : List Text) (ops : List Text) → map leaf_hash (paired hs ops) ≡ hs
unfolding paired
map-paired [] ops = refl
map-paired (h ∷ hs) [] = ap (◌∷◌ h) (map-paired hs [])
map-paired (h ∷ hs) (o ∷ ops) = ap (◌∷◌ h) (map-paired hs ops)

any-map :
    (p : Text → Bool) (ls : List Leaf) → any p (map leaf_hash ls) ≡ any (λ l. p (leaf_hash l)) ls
any-map p [] = refl
any-map p (l ∷ ls) = rw (any-map p ls)

-- An index is found exactly for what the list includes.
index_of-includes :
    (x : Text) (ys : List Text) → includes x ys ≡ true → (i : ℕ) × (index_of x ys ≡ some i)
unfolding index_of
index_of-includes x [] h = cc
index_of-includes x (y ∷ ys) h = elim (Bool-cases (text_eq y x)) [
  | inl same ↦ (0, rw same)
  | inr other ↦
      let (i, found) = index_of-includes x ys (rw other at h) in (suc i, rw (other, found))
]

index_of-excludes : (x : Text) (ys : List Text) → includes x ys ≡ false → index_of x ys ≡ none
unfolding index_of
index_of-excludes x [] h = refl
index_of-excludes x (y ∷ ys) h = ground (arith, index_of-excludes x ys)

pub includes-sorted :
    (x : Text) (hs : List Text) (ops : List Text)
    → includes x (map leaf_hash (sort_by leaf_hash (paired hs ops))) ≡ includes x hs
includes-sorted x hs ops =
    any-map (λ y. text_eq y x) (sort_by leaf_hash (paired hs ops))
    ∙ any-sort_by leaf_hash (λ l. text_eq (leaf_hash l) x) (paired hs ops)
    ∙ sym (any-map (λ y. text_eq y x) (paired hs ops))
    ∙ ap (includes x) (map-paired hs ops)

module _ (digest : List ℕ → List ℕ) (hs : List Text) (ops : List Text) where
  abbrev pub sorted : List Leaf
  sorted = sort_by leaf_hash (paired hs ops)

  abbrev pub tree_of : List (List Text) → MerkleTree
  tree_of layers = record {
    root = last? layers >>= λ top. get_elem? top 0;
    leaves = map leaf_hash sorted;
    leaf_ops = map leaf_op sorted;
    layers = layers;
  }

  pub build-inv :
      (tree : MerkleTree)
      → build_merkle_tree digest hs ops ≡ some tree
      → (layers : List (List Text)) × (build_layers digest
            (suc (length sorted))
            (map leaf_hash sorted)
          ≡ some layers)
        × (tree ≡ tree_of layers)
  unfolding build_merkle_tree
  build-inv tree h =
      let (layers, built, whole) =
        >>=-eq-some (build_layers digest (suc (length sorted)) (map leaf_hash sorted))
          (λ layers. some (tree_of layers)) tree h in
      (layers, built, cc)

  -- The proof that `get_merkle_proof` writes for the leaf at an index.
  abbrev proof_at : List (List Text) → ℕ → Text → MerkleProof
  proof_at layers i leaf = record {
    leaf = leaf;
    siblings = proof_siblings layers i;
    directions = proof_directions layers i;
    root = last? layers >>= λ top. get_elem? top 0;
  }

  proof_at-verifies :
      (layers : List (List Text)) (i : ℕ) (leaf : Text)
      → LeadsToRoot digest layers i leaf
      → verify_merkle_proof digest (proof_at layers i leaf) ≡ some true
  unfolding verify_merkle_proof
  proof_at-verifies layers i leaf l =
      rw (l.recomputed, l.last_layer, l.first_node) (ap some (eq_refl l.node))

  -- Every hash that a tree was built from has a proof for the tree's root, and it verifies.
  pub inclusion :
      (tree : MerkleTree) (leaf : Text)
      → build_merkle_tree digest hs ops ≡ some tree
      → includes leaf hs ≡ true
      → (p : MerkleProof) × (get_merkle_proof tree leaf ≡ some p)
        × (p.leaf ≡ leaf)
        × (p.root ≡ tree.root)
        × (verify_merkle_proof digest p ≡ some true)
  unfolding get_merkle_proof
  inclusion tree leaf h there =
      let (layers, built, whole) = build-inv tree h in
      let (i, found) =
        index_of-includes leaf (map leaf_hash sorted) (rw (includes-sorted leaf hs ops) there) in
      let at_i = index_of-get_elem? leaf (map leaf_hash sorted) i found in
      let leads =
        build_layers-LeadsToRoot digest (suc (length sorted)) (map leaf_hash sorted) layers i leaf
          built at_i in
      rw whole (proof_at layers i leaf, rw found, refl, refl, proof_at-verifies layers i leaf leads)

  -- A text that the tree was not built from has no proof.
  pub exclusion :
      (tree : MerkleTree) (leaf : Text)
      → build_merkle_tree digest hs ops ≡ some tree
      → includes leaf hs ≡ false
      → get_merkle_proof tree leaf ≡ none
  unfolding get_merkle_proof
  exclusion tree leaf h absent =
      let (layers, built, whole) = build-inv tree h in
      rw whole (
        rw
          (index_of-excludes leaf (map leaf_hash sorted) (rw (includes-sorted leaf hs ops) absent)))
