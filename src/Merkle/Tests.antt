-- ===== src/Merkle/Tests.antt =====
-- Runs of the Merkle tree, and each of its theorems at a concrete input. The digests are functions
-- that are easy to follow: the length of the message, alone or in front of zeros.
use mathlib.Core.List.{Perm}
use mathlib.Core.List.Perm
use elydora_open_source.Prelude.{get_elem?}
use elydora_open_source.Prelude.{
  ℕ, ◌%◌, ◌≡◌, refl, true, false, Option, none, some, List, [], ◌∷◌, map, arith, length, replicate,
  All,
}
use elydora_open_source.Prelude.Texts.{Text, codes, text_eq, text_lt}
use elydora_open_source.Prelude.Sorting.{sort_by, insert_by, IsSorted}
use elydora_open_source.Crypto.Base64.{base64url_encode, base64url_decode}
use elydora_open_source.Crypto.Base64.RoundTrip.{IsByte, decode-encode}
use elydora_open_source.Merkle.{
  Leaf, leaf_hash, leaf_op, paired, MerkleTree, MerkleProof, right, build_merkle_tree, build_layers,
  next_layer, hash_pair, padded, get_merkle_proof, verify_merkle_proof, recompute, climb, includes,
}
use elydora_open_source.Merkle.Inclusion.{inclusion, exclusion}
use elydora_open_source.Merkle.Totality.{Decodes, build_total}
use elydora_open_source.Merkle.Order.{leaf_at, root_ignores_order, leaves_keep_ids}

decode-encode_example :
    base64url_decode (base64url_encode (1 ∷ 255 ∷ 62 ∷ 7 ∷ [])) ≡ some (1 ∷ 255 ∷ 62 ∷ 7 ∷ [])
decode-encode_example = decode-encode (1 ∷ 255 ∷ 62 ∷ 7 ∷ []) (omega arith)

abbrev short : List ℕ → List ℕ
short m = length m % 256 ∷ []

short-bytes : (m : List ℕ) → All IsByte (short m)
short-bytes m = (omega arith, tt)

abbrev hashes : List Text
hashes = codes "Bg" ∷ codes "AQ" ∷ codes "Aw" ∷ []

abbrev shuffled : List Text
shuffled = codes "AQ" ∷ codes "Bg" ∷ codes "Aw" ∷ []

abbrev ids : List Text
ids = codes "op-1" ∷ codes "op-2" ∷ codes "op-3" ∷ []

abbrev no_tree : MerkleTree
no_tree = record { root = none; leaves = []; leaf_ops = []; layers = [] }

abbrev tree_or : Option MerkleTree → MerkleTree
tree_or none = no_tree
tree_or (some t) = t

tree : Unit {0}
unfolding build_merkle_tree build_layers next_layer hash_pair padded paired sort_by insert_by
    text_lt text_eq base64url_encode base64url_decode verify_merkle_proof recompute climb
tree = tt

built : build_merkle_tree short hashes ids ≡ some (tree_or (build_merkle_tree short hashes ids))
unfolding tree
built = refl

built_shuffled :
    build_merkle_tree short shuffled ids ≡ some (tree_or (build_merkle_tree short shuffled ids))
unfolding tree
built_shuffled = refl

-- Three leaves in their order, their two parents and the root; the second leaf's id goes along.
layers_run :
    (tree_or (build_merkle_tree short hashes ids)).layers
    ≡ (codes "AQ" ∷ codes "Aw" ∷ codes "Bg" ∷ [])
      ∷ (codes "Ag" ∷ codes "Ag" ∷ [])
      ∷ (codes "Ag" ∷ [])
      ∷ []
unfolding tree
layers_run = refl

includes_run : includes (codes "Bg") hashes ≡ true
unfolding text_eq
includes_run = refl

excludes_run : includes (codes "BA") hashes ≡ false
unfolding text_eq
excludes_run = refl

inclusion_example :
    (p : MerkleProof) × (get_merkle_proof
        (tree_or (build_merkle_tree short hashes ids))
        (codes "Bg")
      ≡ some p)
    × (p.leaf ≡ codes "Bg")
    × (p.root ≡ (tree_or (build_merkle_tree short hashes ids)).root)
    × (verify_merkle_proof short p ≡ some true)
inclusion_example =
    inclusion short hashes ids (tree_or (build_merkle_tree short hashes ids)) (codes "Bg") built
      includes_run

exclusion_example :
    get_merkle_proof (tree_or (build_merkle_tree short hashes ids)) (codes "BA") ≡ none
exclusion_example =
    exclusion short hashes ids (tree_or (build_merkle_tree short hashes ids)) (codes "BA") built
      excludes_run

hashes-Decode : All Decodes hashes
unfolding base64url_decode
hashes-Decode = ((6 ∷ [], refl), ((1 ∷ [], refl), ((3 ∷ [], refl), tt)))

build_total_example :
    (t : MerkleTree) × (build_merkle_tree short hashes ids ≡ some t)
    × (length t.leaves ≡ length hashes)
    × (root : Text) × (t.root ≡ some root)
build_total_example = build_total short short-bytes hashes ids hashes-Decode (omega arith)

root_ignores_order_example :
    ((tree_or (build_merkle_tree short hashes ids)).leaves
      ≡ (tree_or (build_merkle_tree short shuffled ids)).leaves)
    × ((tree_or (build_merkle_tree short hashes ids)).layers
        ≡ (tree_or (build_merkle_tree short shuffled ids)).layers)
    × ((tree_or (build_merkle_tree short hashes ids)).root
        ≡ (tree_or (build_merkle_tree short shuffled ids)).root)
root_ignores_order_example =
    root_ignores_order short hashes shuffled ids ids (tree_or (build_merkle_tree short hashes ids))
      (tree_or (build_merkle_tree short shuffled ids)) built built_shuffled
      (Perm.swap (codes "AQ") (codes "Bg") (codes "Aw" ∷ []))

leaves_keep_ids_example :
    (given ls : List Leaf) × ((i : ℕ) → get_elem? given i ≡ leaf_at hashes ids i)
    × Perm ls given
    × IsSorted leaf_hash ls
    × ((tree_or (build_merkle_tree short hashes ids)).leaves ≡ map leaf_hash ls)
    × ((tree_or (build_merkle_tree short hashes ids)).leaf_ops ≡ map leaf_op ls)
leaves_keep_ids_example =
    leaves_keep_ids short hashes ids (tree_or (build_merkle_tree short hashes ids)) built

abbrev wide : List ℕ → List ℕ
wide m = length m % 256 ∷ replicate 31 0

-- Two texts of one byte: the spare bits of the second are dropped.
abbrev proof_of : Text → MerkleProof
proof_of leaf = record {
  leaf = leaf;
  siblings = some (codes "AQ") ∷ [];
  directions = right ∷ [];
  root = hash_pair wide leaf (codes "AQ");
}
