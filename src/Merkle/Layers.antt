-- ===== src/Merkle/Layers.antt =====
-- The layers of a tree of utils/merkle.ts: where a node's proof leads.
use elydora_open_source.Prelude.{
  ℕ, zero, suc, ◌/◌, ◌%◌, ◌≡◌, refl, ap, true, false, some, List, [], ◌∷◌, ◌++◌, arith, leb, ◌==◌,
  length, get_elem?, last?, Bool-cases, Option-cases, inl, inr,
}
use elydora_open_source.Prelude.Texts.{Text, text_eq, eq_iff}
use elydora_open_source.Prelude.Throws.{◌>>=◌, >>=-eq-some}
use elydora_open_source.Merkle.{
  padded, index_of, sibling_index, direction, proof_siblings, proof_directions, hash_pair,
  next_layer, build_layers, climb, recompute,
}

sibling_index-suc : (j : ℕ) → sibling_index (suc (suc j)) ≡ suc (suc (sibling_index j))
unfolding sibling_index
sibling_index-suc j = ground arith

direction-suc : (j : ℕ) → direction (suc (suc j)) ≡ direction j
unfolding direction
direction-suc j = ground arith

half-suc : (j : ℕ) → suc (suc j) / 2 ≡ suc (j / 2)
half-suc j = omega arith

get_elem?-append :
    (xs ys : List Text) (i : ℕ) (x : Text)
    → get_elem? xs i ≡ some x
    → get_elem? (xs ++ ys) i ≡ some x
get_elem?-append [] ys i x h = cc
get_elem?-append (z ∷ xs) ys zero x h = h
get_elem?-append (z ∷ xs) ys (suc i) x h = get_elem?-append xs ys i x h

-- Padding keeps every node where it is.
get_elem?-padded :
    (layer : List Text) (i : ℕ) (x : Text)
    → get_elem? layer i ≡ some x
    → get_elem? (padded layer) i ≡ some x
unfolding padded
get_elem?-padded layer i x h = elim (Bool-cases (length layer % 2 == 0)) [
  | inl even ↦ rw even h
  | inr odd ↦ elim (Option-cases (last? layer)) [
    | inl empty ↦ rw (odd, empty) h
    | inr (last, found) ↦ rw (odd, found) (get_elem?-append layer (last ∷ []) i x h)
  ]
]

pub index_of-get_elem? :
    (x : Text) (ys : List Text) (i : ℕ) → index_of x ys ≡ some i → get_elem? ys i ≡ some x
unfolding index_of
index_of-get_elem? x [] i h = cc
index_of-get_elem? x (y ∷ ys) i h = elim (Bool-cases (text_eq y x)) [
  | inl same ↦ let first : i ≡ 0 = ground arith in rw first (ap some ((eq_iff y x).0 same))
  | inr other ↦
      let later : (index_of x ys >>= λ j. some (suc j)) ≡ some i = rw other at h in
      let (j, found, shifted) = >>=-eq-some (index_of x ys) (λ j. some (suc j)) i later in
      let next : i ≡ suc j = cc in rw next (index_of-get_elem? x ys j found)
]

module _ (digest : List ℕ → List ℕ) where
  -- The node above a node, and the sibling that leads there.
  record Parent (xs nx : List Text) (i : ℕ) (x : Text) : Type 0 where
    sibling : Text
    parent : Text
    sibling_there : get_elem? xs (sibling_index i) ≡ some sibling
    parent_there : get_elem? nx (i / 2) ≡ some parent
    climbs : climb digest x (some sibling) (some (direction i)) ≡ some parent

  next_layer-cons :
      (l r : Text) (rest nx : List Text)
      → next_layer digest (l ∷ r ∷ rest) ≡ some nx
      → (h : Text) × (hs : List Text) × (hash_pair digest l r ≡ some h)
        × (next_layer digest rest ≡ some hs)
        × (nx ≡ h ∷ hs)
  unfolding next_layer
  next_layer-cons l r rest nx e =
      let (h, hashed, after) =
        >>=-eq-some (hash_pair digest l r) (λ a. next_layer digest rest >>= λ ps. some (a ∷ ps)) nx
          e in
      let (hs, found, built) =
        >>=-eq-some (next_layer digest rest) (λ ps. some (h ∷ ps)) nx after in
      (h, hs, hashed, found, cc)

  next_layer-Parent :
      (xs nx : List Text) (i : ℕ) (x : Text)
      → next_layer digest xs ≡ some nx
      → get_elem? xs i ≡ some x
      → Parent xs nx i x
  next_layer-Parent [] nx i x h e = cc
  next_layer-Parent (l ∷ []) nx i x h e = unfold next_layer in cc
  next_layer-Parent (l ∷ r ∷ rest) nx zero x h e =
      let (p, ps, hashed, below, built) = next_layer-cons l r rest nx h in
      let same : l ≡ x = cc in
      rw (built, ← same)
        (unfold sibling_index direction climb in
          record {
            sibling = r;
            parent = p;
            sibling_there = refl;
            parent_there = refl;
            climbs = hashed;
          })
  next_layer-Parent (l ∷ r ∷ rest) nx (suc zero) x h e =
      let (p, ps, hashed, below, built) = next_layer-cons l r rest nx h in
      let same : r ≡ x = cc in
      rw (built, ← same)
        (unfold sibling_index direction climb in
          record {
            sibling = l;
            parent = p;
            sibling_there = refl;
            parent_there = refl;
            climbs = hashed;
          })
  next_layer-Parent (l ∷ r ∷ rest) nx (suc (suc j)) x h e =
      let (p, ps, hashed, below, built) = next_layer-cons l r rest nx h in
      let ih = next_layer-Parent rest ps j x below e in
      record {
        sibling = ih.sibling;
        parent = ih.parent;
        sibling_there = rw (sibling_index-suc j) ih.sibling_there;
        parent_there = rw (built, half-suc j) ih.parent_there;
        climbs = rw (direction-suc j) ih.climbs;
      }

  -- A round of the `while` loop that returns has made the next layer.
  pub build_layers-step :
      (fuel : ℕ) (current : List Text) (layers : List (List Text))
      → build_layers digest (suc fuel) current ≡ some layers
      → leb (length current) 1 ≡ false
      → (next : List Text) × (above : List (List Text)) × (next_layer digest (padded current)
          ≡ some next)
        × (build_layers digest fuel next ≡ some above)
        × (layers ≡ current ∷ above)
  unfolding build_layers
  build_layers-step fuel current layers h more =
      let run : (next_layer digest (padded current) >>= λ next.
      build_layers digest fuel next >>= λ ls. some (current ∷ ls))
          ≡ some layers =
        rw more at h in
      let (next, hashed, after) =
        >>=-eq-some (next_layer digest (padded current))
          (λ next. build_layers digest fuel next >>= λ ls. some (current ∷ ls)) layers run in
      let (ls, built, whole) =
        >>=-eq-some (build_layers digest fuel next) (λ ls. some (current ∷ ls)) layers after in
      (next, ls, hashed, built, cc)

  -- It begins with the layer that it was given.
  pub build_layers-head :
      (fuel : ℕ) (current : List Text) (layers : List (List Text))
      → build_layers digest fuel current ≡ some layers
      → (rest : List (List Text)) × (layers ≡ current ∷ rest)
  build_layers-head zero current layers h = unfold build_layers in cc
  build_layers-head (suc fuel) current layers h = elim (Bool-cases (leb (length current) 1)) [
    | inl done ↦ ([], unfold build_layers in ground arith)
    | inr more ↦
        let (next, above, hashed, built, whole) = build_layers-step fuel current layers h more in
        (above, whole)
  ]

  -- What the proof of the node at an index leads to: the first node of the last layer.
  pub record LeadsToRoot (layers : List (List Text)) (i : ℕ) (x : Text) : Type 0 where
    pub top : List Text
    pub node : Text
    pub recomputed :
        recompute digest x (proof_siblings layers i) (proof_directions layers i) ≡ some node
    pub last_layer : last? layers ≡ some top
    pub first_node : get_elem? top 0 ≡ some node

  only_node :
      (current : List Text) (i : ℕ) (x : Text)
      → leb (length current) 1 ≡ true
      → get_elem? current i ≡ some x
      → get_elem? current 0 ≡ some x
  only_node [] i x h e = cc
  only_node (y ∷ []) zero x h e = e
  only_node (y ∷ []) (suc i) x h e = cc
  only_node (y ∷ z ∷ ys) i x h e = absurd (ground arith)

  LeadsToRoot-cons :
      (current next : List Text) (rest : List (List Text)) (i : ℕ) (x : Text)
      → (p : Parent (padded current) next i x) → LeadsToRoot (next ∷ rest) (i / 2) p.parent
      → LeadsToRoot (current ∷ next ∷ rest) i x
  unfolding recompute proof_siblings proof_directions
  LeadsToRoot-cons current next rest i x p l = record {
    top = l.top;
    node = l.node;
    recomputed = rw (p.sibling_there, p.climbs) l.recomputed;
    last_layer = l.last_layer;
    first_node = l.first_node;
  }

  pub build_layers-LeadsToRoot :
      (fuel : ℕ) (current : List Text) (layers : List (List Text)) (i : ℕ) (x : Text)
      → build_layers digest fuel current ≡ some layers
      → get_elem? current i ≡ some x
      → LeadsToRoot layers i x
  build_layers-LeadsToRoot zero current layers i x h e = unfold build_layers in cc
  build_layers-LeadsToRoot (suc fuel) current layers i x h e =
      elim (Bool-cases (leb (length current) 1)) [
        | inl done ↦
            let whole : layers ≡ current ∷ [] = unfold build_layers in ground arith in
            rw whole (
              unfold recompute proof_siblings proof_directions in
              record {
                top = current;
                node = x;
                recomputed = refl;
                last_layer = refl;
                first_node = only_node current i x done e;
              })
        | inr more ↦
            let (next, above, hashed, built, whole) =
              build_layers-step fuel current layers h more in
            let (rest, headed) = build_layers-head fuel next above built in
            let p =
              next_layer-Parent (padded current) next i x hashed (get_elem?-padded current i x e) in
            let ih =
              build_layers-LeadsToRoot fuel next above (i / 2) p.parent built p.parent_there in
            rw (whole, headed) (LeadsToRoot-cons current next rest i x p (rw headed at ih))
      ]
