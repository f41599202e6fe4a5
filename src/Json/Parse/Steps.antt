-- ===== src/Json/Parse/Steps.antt =====
-- One step of JSON.parse for each kind of value: Json/Parse.
use mathlib.Core.Path.{subst}
use elydora_open_source.Prelude.{
  ℕ, suc, ◌+◌, ◌≡◌, refl, sym, ap, ◌∙◌, true, false, Option, none, some, ◌∷◌, ◌++◌, arith, All,
}
use elydora_open_source.Prelude.Texts.{Text}
use elydora_open_source.Prelude.Throws.{◌>>=◌}
use elydora_open_source.Crypto.Utf8.Bytes.{IsUnit}
use elydora_open_source.Json.{
  pos, negsuc, Json, number, string, array, object, Elements, nil, cons, Fields, end, field,
}
use elydora_open_source.Json.Stringify.{decimal, quoted}
use elydora_open_source.Json.Stringify.Digits.{EndsNumber, parse-decimal, decimal-head}
use elydora_open_source.Json.Stringify.Quoted.{quoted-inv}
use elydora_open_source.Json.Parse.{
  skip_white, is_digit, plain, parse_natural, parse_string, has_key, kind_of, digit, negative,
  after, parse_value, parse_elements, parse_fields,
}

pub skip-digit : (c : ℕ) (r : Text) → is_digit c ≡ true → skip_white (c ∷ r) ≡ c ∷ r
unfolding skip_white
skip-digit c r h = ground arith

kind-digit : (c : ℕ) → is_digit c ≡ true → kind_of c ≡ digit
kind-digit c h = ground arith

-- A number at its first digit
value-digit :
    (fuel c : ℕ) (r : Text)
    → is_digit c ≡ true
    → parse_value (suc fuel) (c ∷ r)
      ≡ (parse_natural (c ∷ r) >>= λ (x : ℕ × Text). some (number (pos x.0), x.1))
unfolding parse_value skip_white
value-digit fuel c r h = rw (skip-digit c r h, parse_value, kind-digit c h) refl

pub value-decimal :
    (fuel n : ℕ) (rest : Text)
    → EndsNumber rest
    → parse_value (suc fuel) (decimal n ++ rest) ≡ some (number (pos n), rest)
value-decimal fuel n rest h =
    let (c, r, same, is) = decimal-head n in
    let shape : decimal n ++ rest ≡ c ∷ (r ++ rest) = ap (λ (t : Text). t ++ rest) same in
    ap (parse_value (suc fuel)) shape
    ∙ value-digit fuel c (r ++ rest) is
    ∙ ap (λ (m : Option (ℕ × Text)). m >>= λ (x : ℕ × Text). some (number (pos x.0), x.1))
        (ap parse_natural (sym shape) ∙ parse-decimal n rest h)

plus_one : (n : ℕ) → suc n ≡ n + 1
plus_one n = omega arith

pub value-negative :
    (fuel n : ℕ) (rest : Text)
    → EndsNumber rest
    → parse_value (suc fuel) (45 ∷ (decimal (n + 1) ++ rest)) ≡ some (number (negsuc n), rest)
unfolding parse_value skip_white
value-negative fuel n rest h = rw (parse-decimal (n + 1) rest h) (
    subst
      (λ (m : ℕ).
        ◌≡◌ {A = Option (Json × Text)} (some (number (negative m), rest))
          (some (number (negsuc n), rest)))
      (plus_one n) refl)

pub value-quoted :
    (fuel : ℕ) (s rest : Text)
    → All IsUnit s
    → parse_value (suc fuel) (quoted s ++ rest) ≡ some (string s, rest)
unfolding parse_value skip_white
value-quoted fuel s rest h =
    let (t, shape, scanned) = quoted-inv s rest h in
    ap (parse_value (suc fuel)) shape ∙ rw scanned refl

pub array-reads :
    (fuel : ℕ) (r rest : Text) (xs : Elements)
    → after 93 (skip_white r) ≡ none
    → parse_elements fuel r ≡ some (xs, rest)
    → parse_value (suc fuel) (91 ∷ r) ≡ some (array xs, rest)
unfolding parse_value skip_white
array-reads fuel r rest xs opens h = rw (opens, parse_value, h) refl

pub elements-last :
    (fuel : ℕ) (s rest : Text) (v : Json)
    → parse_value fuel s ≡ some (v, 93 ∷ rest)
    → parse_elements (suc fuel) s ≡ some (cons v nil, rest)
unfolding parse_elements skip_white
elements-last fuel s rest v h = rw (h, parse_elements) refl

pub elements-more :
    (fuel : ℕ) (s q rest : Text) (v : Json) (xs : Elements)
    → parse_value fuel s ≡ some (v, 44 ∷ q)
    → parse_elements fuel q ≡ some (xs, rest)
    → parse_elements (suc fuel) s ≡ some (cons v xs, rest)
unfolding parse_elements skip_white
elements-more fuel s q rest v xs h k = rw (h, parse_elements, k) refl

pub object-reads :
    (fuel : ℕ) (r rest : Text) (fs : Fields)
    → parse_fields fuel (34 ∷ r) ≡ some (fs, rest)
    → parse_value (suc fuel) (123 ∷ 34 ∷ r) ≡ some (object fs, rest)
unfolding parse_value skip_white
object-reads fuel r rest fs h = rw (h, parse_value) refl

pub fields-last :
    (fuel : ℕ) (t r rest k : Text) (v : Json)
    → parse_string plain t ≡ some (k, 58 ∷ r)
    → parse_value fuel r ≡ some (v, 125 ∷ rest)
    → parse_fields (suc fuel) (34 ∷ t) ≡ some (field k v end, rest)
unfolding parse_fields skip_white
fields-last fuel t r rest k v h g = rw (h, parse_fields, g) refl

pub fields-more :
    (fuel : ℕ) (t r q rest k : Text) (v : Json) (fs : Fields)
    → parse_string plain t ≡ some (k, 58 ∷ r)
    → parse_value fuel r ≡ some (v, 44 ∷ q)
    → parse_fields fuel q ≡ some (fs, rest)
    → has_key k fs ≡ false
    → parse_fields (suc fuel) (34 ∷ t) ≡ some (field k v fs, rest)
unfolding parse_fields skip_white
fields-more fuel t r q rest k v fs h g i new = rw (h, parse_fields, g, i, new) refl
