-- ===== src/Merkle.antt =====
-- The Merkle tree of an epoch: packages/server/src/utils/merkle.ts.
-- `digest` is SHA-256 over bytes, the platform's. A step that throws returns `none`: decoding a
-- text that is no base64url, or a sibling that is `undefined`.
pub mod Layers
pub mod Inclusion
pub mod Totality
pub mod Order
pub mod Binding
mod Tests
use elydora_open_source.Prelude.{
  ℕ, zero, suc, ◌+◌, ◌-◌, ◌/◌, ◌%◌, Bool, true, false, Option, none, some, List, [], ◌∷◌, ◌++◌, map,
  leb, ◌==◌, if◌then◌else◌, length, get_elem?, last?, any,
}
use elydora_open_source.Prelude.Texts.{Text, text_eq}
use elydora_open_source.Prelude.Sorting.{sort_by}
use elydora_open_source.Prelude.Throws.{◌>>=◌}
use elydora_open_source.Crypto.Base64.{base64url_encode, base64url_decode}

-- `root` is `undefined` for a tree with no leaves.
pub record MerkleTree : Type 0 where
  pub root : Option Text
  pub leaves : List Text
  pub leaf_ops : List (Option Text)
  pub layers : List (List Text)

pub data Direction : Type 0 where
  left right : Direction

-- A sibling beyond its layer is `undefined`.
pub record MerkleProof : Type 0 where
  pub leaf : Text
  pub siblings : List (Option Text)
  pub directions : List Direction
  pub root : Option Text

pub record Leaf : Type 0 where
  pub hash : Text
  pub op_id : Option Text

-- `leafHashes.map((hash, i) => ({ hash, opId: operationIds[i]! }))`; a missing id is `undefined`
unfoldable pub paired : List Text → List Text → List Leaf
paired [] ops = []
paired (h ∷ hs) [] = record { hash = h; op_id = none } ∷ paired hs []
paired (h ∷ hs) (o ∷ os) = record { hash = h; op_id = some o } ∷ paired hs os

abbrev pub leaf_hash : Leaf → Text
leaf_hash l = l.hash

abbrev pub leaf_op : Leaf → Option Text
leaf_op l = l.op_id

-- leaves.includes(x)
abbrev pub includes : Text → List Text → Bool
includes x leaves = any (λ y. text_eq y x) leaves

-- If odd, the last node is doubled.
unfoldable pub padded : List Text → List Text
padded layer =
    if length layer % 2 == 0
    then layer
    else elim (last? layer) [ none ↦ layer | some last ↦ layer ++ last ∷ [] ]

-- The index of the first equal element.
unfoldable pub index_of : Text → List Text → Option ℕ
index_of x [] = none
index_of x (y ∷ ys) =
    let later = (do i ← index_of x ys; some (suc i)) in if text_eq y x then some 0 else later

unfoldable pub sibling_index : ℕ → ℕ
sibling_index index = if index % 2 == 0 then index + 1 else index - 1

unfoldable pub direction : ℕ → Direction
direction index = if index % 2 == 0 then right else left

-- The loop of `getMerkleProof`: all layers but the last.
unfoldable pub proof_siblings : List (List Text) → ℕ → List (Option Text)
unfolding sibling_index
proof_siblings [] index = []
proof_siblings (layer ∷ []) index = []
proof_siblings (layer ∷ next ∷ layers) index =
    get_elem? (padded layer) (sibling_index index) ∷ proof_siblings (next ∷ layers) (index / 2)

unfoldable pub proof_directions : List (List Text) → ℕ → List Direction
unfolding direction
proof_directions [] index = []
proof_directions (layer ∷ []) index = []
proof_directions (layer ∷ next ∷ layers) index =
    direction index ∷ proof_directions (next ∷ layers) (index / 2)

-- getMerkleProof
unfoldable pub get_merkle_proof : MerkleTree → Text → Option MerkleProof
get_merkle_proof tree leaf = do
  index ← index_of leaf tree.leaves
  some (record {
    leaf = leaf;
    siblings = proof_siblings tree.layers index;
    directions = proof_directions tree.layers index;
    root = tree.root;
  })

module _ (digest : List ℕ → List ℕ) where
  -- hashPair
  unfoldable pub hash_pair : Text → Text → Option Text
  hash_pair l r = do
    left_bytes ← base64url_decode l
    right_bytes ← base64url_decode r
    some (base64url_encode (digest (left_bytes ++ right_bytes)))

  -- The `for` loop of a layer of even length; a step past its end has no node to decode.
  unfoldable pub next_layer : List Text → Option (List Text)
  next_layer [] = some []
  next_layer (l ∷ []) = none
  next_layer (l ∷ r ∷ rest) = do h ← hash_pair l r; hs ← next_layer rest; some (h ∷ hs)

  -- The `while` loop: the layers from `current` up. With too little fuel the result is `none`.
  unfoldable pub build_layers : ℕ → List Text → Option (List (List Text))
  build_layers zero current = none
  build_layers (suc fuel) current =
      let above = (do
        next ← next_layer (padded current)
        layers ← build_layers fuel next
        some (current ∷ layers)) in
      if leb (length current) 1 then some (current ∷ []) else above

  -- buildMerkleTree; a last layer that is empty has no node 0
  unfoldable pub build_merkle_tree : List Text → List Text → Option MerkleTree
  build_merkle_tree leaf_hashes operation_ids =
      let sorted = sort_by leaf_hash (paired leaf_hashes operation_ids) in
      do
        layers ← build_layers (suc (length sorted)) (map leaf_hash sorted)
        some (record {
          root = last? layers >>= λ top. get_elem? top 0;
          leaves = map leaf_hash sorted;
          leaf_ops = map leaf_op sorted;
          layers = layers;
        })

  -- One round of the loop of `verifyMerkleProof`.
  unfoldable pub climb : Text → Option Text → Option Direction → Option Text
  climb current none d = none
  climb current (some sibling) (some left) = hash_pair sibling current
  climb current (some sibling) d = hash_pair current sibling

  unfoldable pub recompute : Text → List (Option Text) → List Direction → Option Text
  recompute current [] ds = some current
  recompute current (s ∷ ss) [] = do next ← climb current s none; recompute next ss []
  recompute current (s ∷ ss) (d ∷ ds) = do next ← climb current s (some d); recompute next ss ds

  -- verifyMerkleProof; `undefined` is no text, so a proof without a root does not verify
  unfoldable pub verify_merkle_proof : MerkleProof → Option Bool
  verify_merkle_proof proof = do
    current ← recompute proof.leaf proof.siblings proof.directions
    some (elim proof.root [ none ↦ false | some r ↦ text_eq current r ])
