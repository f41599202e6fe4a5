-- ===== src/Merkle/Order.antt =====
-- The tree of utils/merkle.ts does not depend on the order in which the hashes come.
use mathlib.Core.Logic.{∥∥₁_elim}
use mathlib.Core.List.{Perm, Permᴰ}
use native.Mathlib.Nat.{ℕ_set}
use elydora_open_source.Prelude.{Option, get_elem?, none}
use elydora_open_source.Prelude.{
  ℕ, ◌≡◌, refl, sym, ap, ◌∙◌, some, List, [], ◌∷◌, map, arith, length, length-map,
}
use elydora_open_source.Prelude.Texts.{Text, lt_asymm, lt_trans, lt_total}
use elydora_open_source.Prelude.Sorting.{
  insert_by, sort_by, IsSorted, sort_by-IsSorted, sort_by-perm,
}
use elydora_open_source.Merkle.{Leaf, leaf_hash, leaf_op, paired, MerkleTree, build_merkle_tree}
use elydora_open_source.Merkle.Inclusion.{build-inv, map-paired}

abbrev itself : Text → Text
itself t = t

Text-lists-set : IsSet (List Text)
Text-lists-set = hlevel ℕ_set

map-insert_by :
    (l : Leaf) (ls : List Leaf)
    → map leaf_hash (insert_by leaf_hash l ls) ≡ insert_by itself (leaf_hash l) (map leaf_hash ls)
unfolding insert_by
map-insert_by l [] = refl
map-insert_by l (m ∷ ls) = ground (arith, map-insert_by l ls)

map-sort_by :
    (ls : List Leaf) → map leaf_hash (sort_by leaf_hash ls) ≡ sort_by itself (map leaf_hash ls)
unfolding sort_by
map-sort_by [] = refl
map-sort_by (l ∷ ls) =
    map-insert_by l (sort_by leaf_hash ls) ∙ ap (insert_by itself l.hash) (map-sort_by ls)

insert_by_comm :
    (x y : Text) (zs : List Text)
    → insert_by itself x (insert_by itself y zs) ≡ insert_by itself y (insert_by itself x zs)
unfolding insert_by
insert_by_comm x y [] = ground (arith, lt_asymm x y, lt_total x y)
insert_by_comm x y (z ∷ zs) = ground (
  arith,
  insert_by_comm x y zs,
  lt_asymm x y,
  lt_total x y,
  lt_trans z x y,
  lt_trans z y x,
  lt_trans y z x,
  lt_trans x z y,
  lt_asymm z x,
  lt_asymm z y,
  lt_total z x,
  lt_total z y,
)

sort_by-Permᴰ : {xs ys : List Text} → Permᴰ xs ys → sort_by itself xs ≡ sort_by itself ys
unfolding sort_by
sort_by-Permᴰ Permᴰ.nil = refl
sort_by-Permᴰ (Permᴰ.cons {b} e p) = rw (e, sort_by-Permᴰ p)
sort_by-Permᴰ (Permᴰ.swap {a'} {b'} {l} e f) = rw (e, f) (insert_by_comm b' a' (sort_by itself l))
sort_by-Permᴰ (Permᴰ.trans p q) = sort_by-Permᴰ p ∙ sort_by-Permᴰ q

sort_by-perm_eq : (xs ys : List Text) → Perm xs ys → sort_by itself xs ≡ sort_by itself ys
sort_by-perm_eq xs ys p = ∥∥₁_elim p (Text-lists-set _ _) sort_by-Permᴰ

leaves_of :
    (hs ops : List Text) → map leaf_hash (sort_by leaf_hash (paired hs ops)) ≡ sort_by itself hs
leaves_of hs ops = map-sort_by (paired hs ops) ∙ ap (sort_by itself) (map-paired hs ops)

-- What stands at an index: the hash and the operation id there
abbrev pub leaf_at : List Text → List Text → ℕ → Option Leaf
leaf_at hs ops i = elim (get_elem? hs i) [
  | none ↦ none
  | some h ↦ some (record { hash = h; op_id = get_elem? ops i })
]

get_elem?-paired : (hs ops : List Text) (i : ℕ) → get_elem? (paired hs ops) i ≡ leaf_at hs ops i
unfolding paired
get_elem?-paired [] ops i = refl
get_elem?-paired (h ∷ hs) [] ℕ.zero = refl
get_elem?-paired (h ∷ hs) [] (ℕ.suc i) = get_elem?-paired hs [] i
get_elem?-paired (h ∷ hs) (o ∷ ops) ℕ.zero = refl
get_elem?-paired (h ∷ hs) (o ∷ ops) (ℕ.suc i) = get_elem?-paired hs ops i

module _ (digest : List ℕ → List ℕ) where
  -- Two trees built from the same hashes in any two orders, with any operation ids, have the same
  -- leaves, layers and root.
  pub root_ignores_order :
      (hs hs' ops ops' : List Text) (t t' : MerkleTree)
      → build_merkle_tree digest hs ops ≡ some t
      → build_merkle_tree digest hs' ops' ≡ some t'
      → Perm hs hs'
      → (t.leaves ≡ t'.leaves) × (t.layers ≡ t'.layers) × (t.root ≡ t'.root)
  root_ignores_order hs hs' ops ops' t t' h h' p =
      let (ls, built, whole) = build-inv digest hs ops t h in
      let (ls', built', whole') = build-inv digest hs' ops' t' h' in
      let sorted = sort_by leaf_hash (paired hs ops) in
      let sorted' = sort_by leaf_hash (paired hs' ops') in
      let same : map leaf_hash sorted ≡ map leaf_hash sorted' =
        leaves_of hs ops ∙ sort_by-perm_eq hs hs' p ∙ sym (leaves_of hs' ops') in
      let len : length sorted ≡ length sorted' =
        sym (length-map leaf_hash sorted) ∙ ap length same ∙ length-map leaf_hash sorted' in
      let runs : some ls ≡ some ls' = sym built ∙ rw (len, same) built' in
      let layers : ls ≡ ls' = cc in rw (whole, whole') (same, layers, rw layers)

  -- The leaves of a tree that buildMerkleTree returns are sorted by hash, and are the given hashes up to
  -- their order; beside each stands the operation id that came at the same index as the hash, or
  -- none where no id did.
  pub leaves_keep_ids :
      (hs ops : List Text) (t : MerkleTree)
      → build_merkle_tree digest hs ops ≡ some t
      → (given ls : List Leaf) × ((i : ℕ) → get_elem? given i ≡ leaf_at hs ops i)
        × Perm ls given
        × IsSorted leaf_hash ls
        × (t.leaves ≡ map leaf_hash ls)
        × (t.leaf_ops ≡ map leaf_op ls)
  leaves_keep_ids hs ops t h =
      let (layers, built, whole) = build-inv digest hs ops t h in
      rw whole (
        paired hs ops,
        sort_by leaf_hash (paired hs ops),
        get_elem?-paired hs ops,
        sort_by-perm leaf_hash (paired hs ops),
        sort_by-IsSorted leaf_hash (paired hs ops),
        refl,
        refl,
      )
