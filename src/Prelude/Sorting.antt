-- ===== src/Prelude/Sorting.antt =====
-- `Array.prototype.sort` by a text key: a stable sort in the order of `<`.
use mathlib.Core.Path.{◌≡◌, refl, ap, ◌∙◌}
use Prim.Native.Nat.{suc}
use mathlib.Core.Logic.{inl, inr}
use mathlib.Core.Bool.{Bool, false}
use mathlib.Core.List.{List, [], ◌∷◌}
use mathlib.Core.List.{Perm}
use mathlib.Core.List.Perm
use elydora_open_source.Prelude.Tests.{if◌then◌else◌, Bool-cases}
use elydora_open_source.Prelude.Lists.{All, any, length}
use native.Mathlib.Omega.{arith}
use elydora_open_source.Prelude.Texts.{Text, text_lt, lt_asymm, lt_le_trans}

module _ {ℓ} {A : Type ℓ} (key : A → Text) where
  -- An element goes before those with an equal key: it stood before them.
  unfoldable pub insert_by : A → List A → List A
  insert_by x [] = x ∷ []
  insert_by x (y ∷ ys) = if text_lt (key y) (key x) then y ∷ insert_by x ys else x ∷ y ∷ ys

  unfoldable pub sort_by : List A → List A
  unfolding insert_by
  sort_by [] = []
  sort_by (x ∷ xs) = insert_by x (sort_by xs)

  -- No element stands behind one with a larger key.
  abbrev pub IsSorted : List A → Type ℓ
  IsSorted [] = Unit
  IsSorted (x ∷ xs) = All (λ y. text_lt (key y) (key x) ≡ false) xs × IsSorted xs

  All-insert_by : (P : A → Type 0) (x : A) (xs : List A) → P x → All P xs → All P (insert_by x xs)
  unfolding insert_by
  All-insert_by P x [] p h = (p, tt)
  All-insert_by P x (y ∷ ys) p (q, h) = elim (Bool-cases (text_lt (key y) (key x))) [
    | inl lt ↦ rw lt (q, All-insert_by P x ys p h)
    | inr ge ↦ rw ge (p, (q, h))
  ]

  -- What is behind the head of a sorted list is not below what the head is not below.
  below-All :
      (x y : A) (ys : List A)
      → text_lt (key y) (key x) ≡ false
      → All (λ z. text_lt (key z) (key y) ≡ false) ys
      → All (λ z. text_lt (key z) (key x) ≡ false) ys
  below-All x y [] h k = tt
  below-All x y (z ∷ zs) h (p, k) = (lt_le_trans (key x) (key y) (key z) h p, below-All x y zs h k)

  insert_by-IsSorted : (x : A) (xs : List A) → IsSorted xs → IsSorted (insert_by x xs)
  unfolding insert_by
  insert_by-IsSorted x [] h = (tt, tt)
  insert_by-IsSorted x (y ∷ ys) (p, h) = elim (Bool-cases (text_lt (key y) (key x))) [
    | inl lt ↦ rw lt (
      All-insert_by (λ z. text_lt (key z) (key y) ≡ false) x ys (lt_asymm (key y) (key x) lt) p,
      insert_by-IsSorted x ys h,
    )
    | inr ge ↦ rw ge ((ge, below-All x y ys ge p), (p, h))
  ]

  pub sort_by-IsSorted : (xs : List A) → IsSorted (sort_by xs)
  unfolding sort_by
  sort_by-IsSorted [] = tt
  sort_by-IsSorted (x ∷ xs) = insert_by-IsSorted x (sort_by xs) (sort_by-IsSorted xs)

  insert_by-perm : (x : A) (xs : List A) → Perm (insert_by x xs) (x ∷ xs)
  unfolding insert_by
  insert_by-perm x [] = Perm.refl (x ∷ [])
  insert_by-perm x (y ∷ ys) = elim (Bool-cases (text_lt (key y) (key x))) [
    | inl lt ↦ rw lt (Perm.trans (Perm.cons y (insert_by-perm x ys)) (Perm.swap x y ys))
    | inr ge ↦ rw ge (Perm.refl (x ∷ y ∷ ys))
  ]

  pub sort_by-perm : (xs : List A) → Perm (sort_by xs) xs
  unfolding sort_by
  sort_by-perm [] = Perm.refl []
  sort_by-perm (x ∷ xs) = Perm.trans (insert_by-perm x (sort_by xs)) (Perm.cons x (sort_by-perm xs))

  -- A sorted list is left as it is.
  insert_by_least :
      (x : A) (xs : List A)
      → All (λ y. text_lt (key y) (key x) ≡ false) xs
      → insert_by x xs ≡ x ∷ xs
  unfolding insert_by
  insert_by_least x [] h = refl
  insert_by_least x (y ∷ ys) (p, h) = rw p

  pub sort_by_sorted : (xs : List A) → IsSorted xs → sort_by xs ≡ xs
  unfolding sort_by
  sort_by_sorted [] h = refl
  sort_by_sorted (x ∷ xs) (p, h) = rw (sort_by_sorted xs h) (insert_by_least x xs p)

  any-insert_by : (p : A → Bool) (x : A) (xs : List A) → any p (insert_by x xs) ≡ any p (x ∷ xs)
  unfolding insert_by
  any-insert_by p x [] = refl
  any-insert_by p x (y ∷ ys) = ground (arith, any-insert_by p x ys)

  -- A test that some element passes does not see the order.
  pub any-sort_by : (p : A → Bool) (xs : List A) → any p (sort_by xs) ≡ any p xs
  unfolding sort_by
  any-sort_by p [] = refl
  any-sort_by p (x ∷ xs) = ground (arith, any-insert_by p x (sort_by xs), any-sort_by p xs)

  pub All-sort_by : (P : A → Type 0) (xs : List A) → All P xs → All P (sort_by xs)
  unfolding sort_by
  All-sort_by P [] h = tt
  All-sort_by P (x ∷ xs) (p, h) = All-insert_by P x (sort_by xs) p (All-sort_by P xs h)

  length-insert_by : (x : A) (xs : List A) → length (insert_by x xs) ≡ suc (length xs)
  unfolding insert_by
  length-insert_by x [] = refl
  length-insert_by x (y ∷ ys) = ground (arith, length-insert_by x ys)

  pub length-sort_by : (xs : List A) → length (sort_by xs) ≡ length xs
  unfolding sort_by
  length-sort_by [] = refl
  length-sort_by (x ∷ xs) = length-insert_by x (sort_by xs) ∙ ap suc (length-sort_by xs)
