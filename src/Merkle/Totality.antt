-- ===== src/Merkle/Totality.antt =====
-- Building a tree of utils/merkle.ts from hashes that decode neither throws nor runs out of rounds.
use elydora_open_source.Prelude.{
  ℕ, zero, suc, ◌+◌, ◌%◌, ◌≡◌, refl, ap, ◌∙◌, false, none, some, List, [], ◌∷◌, ◌++◌, map, arith,
  leb, ◌==◌, length, get_elem?, last?, Bool-cases, Option-cases, inl, inr, ◌<◌, ◌≤◌, All,
  length-append, length-map, All-append,
}
use elydora_open_source.Prelude.Texts.{Text}
use elydora_open_source.Prelude.Sorting.{sort_by, length-sort_by, All-sort_by}
use elydora_open_source.Prelude.Throws.{◌>>=◌}
use elydora_open_source.Crypto.Base64.{base64url_encode, base64url_decode}
use elydora_open_source.Crypto.Base64.RoundTrip.{IsByte, decode-encode}
use elydora_open_source.Merkle.{
  Leaf, leaf_hash, leaf_op, paired, MerkleTree, padded, hash_pair, next_layer, build_layers,
  build_merkle_tree,
}
use elydora_open_source.Merkle.Layers.{build_layers-head}

-- A text that `base64urlDecode` takes.
abbrev pub Decodes : Text → Type 0
Decodes h = (bytes : List ℕ) × (base64url_decode h ≡ some bytes)

last-Decodes : (hs : List Text) (h : Text) → All Decodes hs → last? hs ≡ some h → Decodes h
last-Decodes [] h d e = cc
last-Decodes (x ∷ []) h (p, d) e = let same : x ≡ h = cc in rw (← same) p
last-Decodes (x ∷ y ∷ hs) h (p, d) e = last-Decodes (y ∷ hs) h d e

last?-none : (xs : List Text) → last? xs ≡ none → length xs ≡ 0
last?-none [] e = refl
last?-none (x ∷ []) e = cc
last?-none (x ∷ y ∷ xs) e = absurd (omega (arith, last?-none (y ∷ xs) e))

first_of : (xs : List Text) → 0 < length xs → (x : Text) × (get_elem? xs 0 ≡ some x)
first_of [] h = absurd (omega arith)
first_of (x ∷ xs) h = (x, refl)

padded-grows : (xs : List Text) → length xs ≤ length (padded xs)
unfolding padded
padded-grows xs = elim (Bool-cases (length xs % 2 == 0)) [
  | inl even ↦ rw even (omega arith)
  | inr odd ↦ elim (Option-cases (last? xs)) [
    | inl empty ↦ rw (odd, empty) (omega arith)
    | inr (x, found) ↦ rw (odd, found) (rw length-append (omega arith))
  ]
]

length-paired : (hs ops : List Text) → length (paired hs ops) ≡ length hs
unfolding paired
length-paired [] ops = refl
length-paired (h ∷ hs) [] = ap suc (length-paired hs [])
length-paired (h ∷ hs) (o ∷ ops) = ap suc (length-paired hs ops)

paired-Decodes :
    (hs ops : List Text) → All Decodes hs → All (λ l. Decodes (leaf_hash l)) (paired hs ops)
unfolding paired
paired-Decodes [] ops d = tt
paired-Decodes (h ∷ hs) [] (p, d) = (p, paired-Decodes hs [] d)
paired-Decodes (h ∷ hs) (o ∷ ops) (p, d) = (p, paired-Decodes hs ops d)

map-Decodes :
    (ls : List Leaf) → All (λ l. Decodes (leaf_hash l)) ls → All Decodes (map leaf_hash ls)
map-Decodes [] d = tt
map-Decodes (l ∷ ls) (p, d) = (p, map-Decodes ls d)

record IsPadded (xs : List Text) : Type 0 where
  even : length xs % 2 ≡ 0
  decodes : All Decodes xs

padded-IsPadded : (xs : List Text) → All Decodes xs → IsPadded (padded xs)
unfolding padded
padded-IsPadded xs d = elim (Bool-cases (length xs % 2 == 0)) [
  | inl even ↦ rw even (record { even = ground arith; decodes = d })
  | inr odd ↦ elim (Option-cases (last? xs)) [
    | inl empty ↦ absurd (ground (arith, last?-none xs empty))
    | inr (x, found) ↦
        rw (odd, found)
          (record {
            even = rw length-append (ground arith);
            decodes = All-append Decodes xs (x ∷ []) d (last-Decodes xs x d found, tt);
          })
  ]
]

length-padded : (xs : List Text) → length (padded xs) ≤ length xs + 1
unfolding padded
length-padded xs = elim (Bool-cases (length xs % 2 == 0)) [
  | inl even ↦ rw even (omega arith)
  | inr odd ↦ elim (Option-cases (last? xs)) [
    | inl empty ↦ rw (odd, empty) (omega arith)
    | inr (x, found) ↦ rw (odd, found) (rw length-append (omega arith))
  ]
]

module _ (digest : List ℕ → List ℕ) (digest-bytes : (m : List ℕ) → All IsByte (digest m)) where
  hash_pair-Decodes :
      (l r : Text)
      → Decodes l
      → Decodes r
      → (h : Text) × (hash_pair digest l r ≡ some h) × Decodes h
  unfolding hash_pair
  hash_pair-Decodes l r (ls, p) (rs, q) = (
    base64url_encode (digest (ls ++ rs)),
    rw (p, q),
    (digest (ls ++ rs), decode-encode (digest (ls ++ rs)) (digest-bytes (ls ++ rs))),
  )

  next_layer-total :
      (xs : List Text)
      → IsPadded xs
      → (nx : List Text) × (next_layer digest xs ≡ some nx)
        × All Decodes nx
        × (length nx + length nx ≡ length xs)
  unfolding next_layer
  next_layer-total [] p = ([], refl, tt, omega arith)
  next_layer-total (l ∷ []) p = absurd (omega (arith, p.even))
  next_layer-total (l ∷ r ∷ rest) p =
      let (h, hashed, dh) = hash_pair-Decodes l r p.decodes.0 p.decodes.1.0 in
      let (nx, below, dn, len) =
        next_layer-total rest (record { even = omega (arith, p.even); decodes = p.decodes.1.1 }) in
      (h ∷ nx, rw (hashed, below), (dh, dn), omega (arith, len))

  build_layers-cons :
      (fuel : ℕ) (current next : List Text) (layers : List (List Text))
      → leb (length current) 1 ≡ false
      → next_layer digest (padded current) ≡ some next
      → build_layers digest fuel next ≡ some layers
      → build_layers digest (suc fuel) current ≡ some (current ∷ layers)
  unfolding build_layers
  build_layers-cons fuel current next layers more hashed built = rw (more, hashed, built)

  -- The layers, and a last one that has a node.
  record LayeredFrom (fuel : ℕ) (current : List Text) : Type 0 where
    layers : List (List Text)
    top : List Text
    root : Text
    built : build_layers digest fuel current ≡ some layers
    last_layer : last? layers ≡ some top
    first_node : get_elem? top 0 ≡ some root

  build_layers-total :
      (fuel : ℕ) (current : List Text)
      → length current < fuel
      → 0 < length current
      → All Decodes current
      → LayeredFrom fuel current
  build_layers-total zero current h nonempty d = absurd (omega arith)
  build_layers-total (suc fuel) current h nonempty d = elim (Bool-cases (leb (length current) 1)) [
    | inl done ↦
        let (x, there) = first_of current nonempty in
        record {
          layers = current ∷ [];
          top = current;
          root = x;
          built = unfold build_layers in rw done;
          last_layer = refl;
          first_node = there;
        }
    | inr more ↦
        let (next, hashed, dn, len) =
          next_layer-total (padded current) (padded-IsPadded current d) in
        let big = padded-grows current in
        let rest =
          build_layers-total fuel next (ground (arith, length-padded current, len))
            (ground (arith, len, big)) dn in
        let (above, headed) = build_layers-head digest fuel next rest.layers rest.built in
        record {
          layers = current ∷ rest.layers;
          top = rest.top;
          root = rest.root;
          built = build_layers-cons fuel current next rest.layers more hashed rest.built;
          last_layer = rw headed (rw headed at rest.last_layer);
          first_node = rest.first_node;
        }
  ]

  -- From one or more hashes that decode, a tree is always built: it has a leaf for each of them, and
  -- a root.
  pub build_total :
      (hs ops : List Text)
      → All Decodes hs
      → 0 < length hs
      → (tree : MerkleTree) × (build_merkle_tree digest hs ops ≡ some tree)
        × (length tree.leaves ≡ length hs)
        × (root : Text) × (tree.root ≡ some root)
  unfolding build_merkle_tree
  build_total hs ops d nonempty =
      let sorted = sort_by leaf_hash (paired hs ops) in
      let len : length (map leaf_hash sorted) ≡ length hs =
        length-map leaf_hash sorted
        ∙ length-sort_by leaf_hash (paired hs ops)
        ∙ length-paired hs ops in
      let ls =
        build_layers-total (suc (length sorted)) (map leaf_hash sorted)
          (omega (arith, length-map leaf_hash sorted)) (omega (arith, len))
          (map-Decodes sorted (
            All-sort_by leaf_hash (λ l. Decodes (leaf_hash l)) (paired hs ops)
              (paired-Decodes hs ops d))) in
      (
        record {
          root = last? ls.layers >>= λ top. get_elem? top 0;
          leaves = map leaf_hash sorted;
          leaf_ops = map leaf_op sorted;
          layers = ls.layers;
        },
        rw ls.built,
        len,
        ls.root,
        rw (ls.last_layer, ls.first_node),
      )
