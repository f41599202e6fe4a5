-- ===== src/Audit/Order.antt =====
-- The order of the rows of the audit log: Audit.
use mathlib.Core.List.{Perm}
use mathlib.Core.List.Perm
use elydora_open_source.Prelude.{
  suc, length, ◌≡◌, refl, sym, ap, ◌∙◌, Bool, true, false, List, [], ◌∷◌, ◌++◌, filter,
  if◌then◌else◌, arith, All, All-right, Bool-cases, inl, inr,
}
use elydora_open_source.Prelude.Texts.{
  text_eq, text_lt, lt_irrefl, lt_trans, lt_total, lt_asymm, eq_complete,
}
use elydora_open_source.Model.Entities.{Operation}
use elydora_open_source.Audit.{newer, insert_row, newest_first}

newer_irrefl : (o : Operation) → newer o o ≡ false
newer_irrefl o = ground (arith, lt_irrefl o.operation_id)

newer_asymm : (o q : Operation) → newer o q ≡ true → newer q o ≡ false
newer_asymm o q h = ground (arith, lt_asymm q.operation_id o.operation_id)

newer_trans : (o q r : Operation) → newer o q ≡ true → newer q r ≡ true → newer o r ≡ true
newer_trans o q r h k = ground (arith, lt_trans r.operation_id q.operation_id o.operation_id)

abbrev pub Differ : Operation → Operation → Type 0
Differ o q = text_eq q.operation_id o.operation_id ≡ false

clash :
    (o q : Operation)
    → Differ o q
    → text_lt o.operation_id q.operation_id ≡ false
    → text_lt q.operation_id o.operation_id ≡ true
clash o q d h = elim (Bool-cases (text_lt q.operation_id o.operation_id)) [
  | inl t ↦ t
  | inr f ↦
      let same : text_eq q.operation_id o.operation_id ≡ true =
        eq_complete q.operation_id o.operation_id (lt_total q.operation_id o.operation_id f h) in
      cc
]

newer_total : (o q : Operation) → Differ o q → newer q o ≡ false → newer o q ≡ true
newer_total o q d h = ground (arith, clash o q d)

-- No two rows have one identifier, the primary key.
unfoldable pub AreDistinct : List Operation → Type 0
AreDistinct [] = Unit
AreDistinct (o ∷ os) = All (Differ o) os × AreDistinct os

-- Every row is newer than those behind it.
unfoldable pub IsNewestFirst : List Operation → Type 0
IsNewestFirst [] = Unit
IsNewestFirst (o ∷ os) = All (λ (r : Operation). newer o r ≡ true) os × IsNewestFirst os

pub All-filter :
    (P : Operation → Type 0) (p : Operation → Bool) (os : List Operation)
    → All P os
    → All P (filter p os)
All-filter P p [] h = tt
All-filter P p (o ∷ os) (k, h) = elim (Bool-cases (p o)) [
  | inl t ↦ rw t (k, All-filter P p os h)
  | inr f ↦ rw f (All-filter P p os h)
]

All-insert :
    (P : Operation → Type 0) (o : Operation) (qs : List Operation)
    → P o
    → All P qs
    → All P (insert_row o qs)
unfolding insert_row
All-insert P o [] k h = (k, tt)
All-insert P o (q ∷ qs) k (l, h) = elim (Bool-cases (newer q o)) [
  | inl t ↦ rw t (l, All-insert P o qs k h)
  | inr f ↦ rw f (k, (l, h))
]

pub All-newest : (P : Operation → Type 0) (os : List Operation) → All P os → All P (newest_first os)
unfolding newest_first
All-newest P [] h = tt
All-newest P (o ∷ os) (k, h) = All-insert P o (newest_first os) k (All-newest P os h)

-- A row that is newer than the first is newer than all.
newer_all :
    (o q : Operation) (qs : List Operation)
    → newer o q ≡ true
    → All (λ (r : Operation). newer q r ≡ true) qs
    → All (λ (r : Operation). newer o r ≡ true) qs
newer_all o q [] h k = tt
newer_all o q (r ∷ qs) h (l, k) = (newer_trans o q r h l, newer_all o q qs h k)

insert-IsNewestFirst :
    (o : Operation) (qs : List Operation)
    → All (Differ o) qs
    → IsNewestFirst qs
    → IsNewestFirst (insert_row o qs)
unfolding insert_row IsNewestFirst
insert-IsNewestFirst o [] d h = (tt, tt)
insert-IsNewestFirst o (q ∷ qs) (d, ds) (k, h) = elim (Bool-cases (newer q o)) [
  | inl t ↦
      rw t
        (All-insert (λ (r : Operation). newer q r ≡ true) o qs t k, insert-IsNewestFirst o qs ds h)
  | inr f ↦ let first = newer_total o q d f in rw f ((first, newer_all o q qs first k), (k, h))
]

pub newest_first-IsNewestFirst :
    (os : List Operation) → AreDistinct os → IsNewestFirst (newest_first os)
unfolding newest_first AreDistinct IsNewestFirst
newest_first-IsNewestFirst [] h = tt
newest_first-IsNewestFirst (o ∷ os) (d, h) =
    insert-IsNewestFirst o (newest_first os) (All-newest (Differ o) os d)
      (newest_first-IsNewestFirst os h)

insert-front :
    (o : Operation) (qs : List Operation)
    → All (λ (r : Operation). newer o r ≡ true) qs
    → insert_row o qs ≡ o ∷ qs
unfolding insert_row
insert-front o [] h = refl
insert-front o (q ∷ qs) (k, h) = rw (newer_asymm o q k) refl

abbrev kept : Bool → Operation → List Operation → List Operation
kept b o qs = if b then insert_row o qs else qs

filter-insert :
    (p : Operation → Bool) (o : Operation) (qs : List Operation)
    → All (Differ o) qs
    → IsNewestFirst qs
    → filter p (insert_row o qs) ≡ kept (p o) o (filter p qs)
unfolding insert_row IsNewestFirst
filter-insert p o [] d h = refl
filter-insert p o (q ∷ qs) (d, ds) (k, h) =
    let rest = filter-insert p o qs ds h in
    elim (Bool-cases (newer q o)) [
      | inl t ↦ elim (Bool-cases (p q)) [
        | inl pq ↦ elim (Bool-cases (p o)) [
          | inl po ↦ rw (t, pq, rest, po, t) refl
          | inr po ↦ rw (t, pq, rest, po) refl
        ]
        | inr pq ↦ rw (t, pq) rest
      ]
      | inr f ↦
          let first = newer_total o q d f in
          let behind_all = newer_all o q qs first k in
          elim (Bool-cases (p o)) [
            | inl po ↦
                rw (f, po)
                  (sym (
                    insert-front o (filter p (q ∷ qs)) (
                      All-filter (λ (r : Operation). newer o r ≡ true) p (q ∷ qs)
                        (first, behind_all))))
            | inr po ↦ rw (f, po) refl
          ]
    ]

pub filter-newest_first :
    (p : Operation → Bool) (os : List Operation)
    → AreDistinct os
    → filter p (newest_first os) ≡ newest_first (filter p os)
unfolding newest_first AreDistinct
filter-newest_first p [] h = refl
filter-newest_first p (o ∷ os) (d, h) =
    let inserted =
      filter-insert p o (newest_first os) (All-newest (Differ o) os d)
        (newest_first-IsNewestFirst os h) in
    let rest = filter-newest_first p os h in
    elim (Bool-cases (p o)) [
      | inl po ↦ rw (inserted, po, rest) refl
      | inr po ↦ rw (inserted, po) rest
    ]

all_newer :
    (l : Operation) (rs : List Operation)
    → All (λ (r : Operation). newer l r ≡ true) rs
    → filter (newer l) rs ≡ rs
all_newer l [] h = refl
all_newer l (r ∷ rs) (k, h) = rw (k, all_newer l rs h) refl

-- The rows behind a row of a sorted list
pub behind_row :
    (xs : List Operation) (l : Operation) (rs : List Operation)
    → IsNewestFirst (xs ++ l ∷ rs)
    → filter (newer l) (xs ++ l ∷ rs) ≡ rs
unfolding IsNewestFirst
behind_row [] l rs (k, h) = rw (newer_irrefl l) (all_newer l rs k)
behind_row (x ∷ xs) l rs (k, h) =
    let before_l = All-right (λ (r : Operation). newer x r ≡ true) xs (l ∷ rs) k in
    rw (newer_asymm x l before_l.0) (behind_row xs l rs h)

insert_row-perm : (o : Operation) (qs : List Operation) → Perm (insert_row o qs) (o ∷ qs)
unfolding insert_row
insert_row-perm o [] = Perm.refl (o ∷ [])
insert_row-perm o (q ∷ qs) = elim (Bool-cases (newer q o)) [
  | inl t ↦ rw t (Perm.trans (Perm.cons q (insert_row-perm o qs)) (Perm.swap o q qs))
  | inr f ↦ rw f (Perm.refl (o ∷ q ∷ qs))
]

pub newest_first-perm : (os : List Operation) → Perm (newest_first os) os
unfolding newest_first
newest_first-perm [] = Perm.refl []
newest_first-perm (o ∷ os) =
    Perm.trans (insert_row-perm o (newest_first os)) (Perm.cons o (newest_first-perm os))

length-insert_row :
    (o : Operation) (qs : List Operation) → length (insert_row o qs) ≡ suc (length qs)
unfolding insert_row
length-insert_row o [] = refl
length-insert_row o (q ∷ qs) = ground (arith, length-insert_row o qs)

pub length-newest_first : (os : List Operation) → length (newest_first os) ≡ length os
unfolding newest_first
length-newest_first [] = refl
length-newest_first (o ∷ os) =
    length-insert_row o (newest_first os) ∙ ap suc (length-newest_first os)
