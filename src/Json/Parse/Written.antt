-- ===== src/Json/Parse/Written.antt =====
-- The texts that JSON.stringify writes, as rows of elements and lines of fields: Json/Stringify.
use elydora_open_source.Prelude.{
  append_assoc, ℕ, suc, ◌<◌, ◌≡◌, refl, sym, ap, ◌∙◌, true, false, none, some, List, [], ◌∷◌, ◌++◌,
  length, length-append, arith, All, ◌==◌,
}
use elydora_open_source.Prelude.Texts.{Text}
use elydora_open_source.Crypto.Utf8.Bytes.{IsUnit}
use elydora_open_source.Json.{
  pos, negsuc, Json, undefined, null, boolean, number, string, array, object, Elements, nil, cons,
  Fields, end, field,
}
use elydora_open_source.Json.Stringify.{
  stringify, stringify_elements, stringify_fields, join, or_null, with_field, decimal, decimal_ℤ,
  quoted,
}
use elydora_open_source.Json.Stringify.Digits.{decimal-head}
use elydora_open_source.Json.Stringify.Quoted.{quoted-inv}
use elydora_open_source.Json.Parse.{skip_white, is_digit, plain, parse_string, has_key, after}
use elydora_open_source.Json.Parse.Steps.{skip-digit}

-- A value without `undefined` whose texts are code units and whose keys stand once
unfoldable mutual
  pub IsWritable : Json → Type 0
  IsWritable undefined = ⊥
  IsWritable null = Unit
  IsWritable (boolean b) = Unit
  IsWritable (number n) = Unit
  IsWritable (string s) = All IsUnit s
  IsWritable (array xs) = AreWritable xs
  IsWritable (object fs) = HasFields fs

  pub AreWritable : Elements → Type 0
  AreWritable nil = Unit
  AreWritable (cons x xs) = IsWritable x × AreWritable xs

  pub HasFields : Fields → Type 0
  HasFields end = Unit
  HasFields (field k v fs) = All IsUnit k × (has_key k fs ≡ false) × IsWritable v × HasFields fs

-- JSON.stringify(v), for a value that has one
abbrev pub written : Json → Text
written v = elim (stringify v) [ none ↦ [] | some t ↦ t ]

-- The first character of a value is no white space and no closing bracket.
unfoldable pub StartsValue : Text → Type 0
StartsValue t = (rest : Text) → after 93 (skip_white (t ++ rest)) ≡ none

starts-digit : (c : ℕ) (r : Text) → is_digit c ≡ true → after 93 (skip_white (c ∷ r)) ≡ none
unfolding skip_white
starts-digit c r h =
    let not_bracket : (c == 93) ≡ false = ground arith in rw (skip-digit c r h, not_bracket) refl

decimal-StartsValue : (n : ℕ) → StartsValue (decimal n)
unfolding StartsValue
decimal-StartsValue n rest =
    let (c, r, same, is) = decimal-head n in
    ap (λ (t : Text). after 93 (skip_white (t ++ rest))) same ∙ starts-digit c (r ++ rest) is

quoted-StartsValue : (s : Text) → StartsValue (quoted s)
unfolding StartsValue quoted skip_white
quoted-StartsValue s rest = refl

written-StartsValue : (v : Json) → IsWritable v → StartsValue (written v)
unfolding StartsValue IsWritable stringify skip_white decimal_ℤ
written-StartsValue undefined w = absurd w
written-StartsValue null w = λ rest. refl
written-StartsValue (boolean true) w = λ rest. refl
written-StartsValue (boolean false) w = λ rest. refl
written-StartsValue (number (pos n)) w = decimal-StartsValue n
written-StartsValue (number (negsuc n)) w = λ rest. refl
written-StartsValue (string s) w = quoted-StartsValue s
written-StartsValue (array xs) w = λ rest. refl
written-StartsValue (object fs) w = λ rest. refl

-- The elements of an array, with the commas
abbrev pub row : Json → Elements → Text
row x nil = written x
row x (cons y ys) = written x ++ (44 ∷ row y ys)

or_null-written : (x : Json) → IsWritable x → or_null (stringify x) ≡ written x
unfolding stringify IsWritable
or_null-written undefined w = absurd w
or_null-written null w = refl
or_null-written (boolean b) w = refl
or_null-written (number n) w = refl
or_null-written (string s) w = refl
or_null-written (array xs) w = refl
or_null-written (object fs) w = refl

row-join :
    (x : Json) (xs : Elements)
    → IsWritable x
    → AreWritable xs
    → join (stringify_elements (cons x xs)) ≡ row x xs
unfolding stringify_elements join AreWritable
row-join x nil w ws = or_null-written x w
row-join x (cons y ys) w (wy, ws) =
    ap (λ (t : Text). t ++ (44 ∷ join (stringify_elements (cons y ys)))) (or_null-written x w)
    ∙ ap (λ (t : Text). written x ++ (44 ∷ t)) (row-join y ys wy ws)

abbrev pub entry : Text → Json → Text
entry k v = quoted k ++ (58 ∷ written v)

abbrev pub line : Text → Json → Fields → Text
line k v end = entry k v
line k v (field j u fs) = entry k v ++ (44 ∷ line j u fs)

with_field-written :
    (k : Text) (v : Json) (fs : List Text)
    → IsWritable v
    → with_field k (stringify v) fs ≡ entry k v ∷ fs
unfolding stringify IsWritable
with_field-written k undefined fs w = absurd w
with_field-written k null fs w = refl
with_field-written k (boolean b) fs w = refl
with_field-written k (number n) fs w = refl
with_field-written k (string s) fs w = refl
with_field-written k (array xs) fs w = refl
with_field-written k (object gs) fs w = refl

line-join :
    (k : Text) (v : Json) (fs : Fields)
    → IsWritable v
    → HasFields fs
    → join (stringify_fields (field k v fs)) ≡ line k v fs
unfolding stringify_fields join HasFields
line-join k v end w ws = ap join (with_field-written k v [] w)
line-join k v (field j u fs) w (units, new, wu, ws) =
    ap join (with_field-written k v (stringify_fields (field j u fs)) w)
    ∙ ap (λ (ts : List Text). join (entry k v ∷ ts))
        (with_field-written j u (stringify_fields fs) wu)
    ∙ ap (λ (t : Text). entry k v ++ (44 ∷ t))
        (ap join (sym (with_field-written j u (stringify_fields fs) wu)) ∙ line-join j u fs wu ws)

pub array-written :
    (x : Json) (xs : Elements)
    → IsWritable x
    → AreWritable xs
    → written (array (cons x xs)) ≡ 91 ∷ (row x xs ++ (93 ∷ []))
unfolding stringify
array-written x xs w ws = ap (λ (t : Text). 91 ∷ (t ++ (93 ∷ []))) (row-join x xs w ws)

pub object-written :
    (k : Text) (v : Json) (fs : Fields)
    → IsWritable v
    → HasFields fs
    → written (object (field k v fs)) ≡ 123 ∷ (line k v fs ++ (125 ∷ []))
unfolding stringify
object-written k v fs w ws = ap (λ (t : Text). 123 ∷ (t ++ (125 ∷ []))) (line-join k v fs w ws)

-- A text between two characters
enclosed-length : (c d : ℕ) (t : Text) → length (c ∷ (t ++ (d ∷ []))) ≡ suc (suc (length t))
enclosed-length c d t = let both = length-append t (d ∷ []) in omega (arith, both)

pub enclosed-append :
    (c d : ℕ) (t rest : Text) → (c ∷ (t ++ (d ∷ []))) ++ rest ≡ c ∷ (t ++ (d ∷ rest))
enclosed-append c d t rest = ap (λ (r : Text). c ∷ r) (append_assoc t (d ∷ []) rest)

pub row-StartsValue : (x : Json) (xs : Elements) → IsWritable x → StartsValue (row x xs)
unfolding StartsValue
row-StartsValue x nil w rest = written-StartsValue x w rest
row-StartsValue x (cons y ys) w rest =
    ap (λ (t : Text). after 93 (skip_white t)) (append_assoc (written x) (44 ∷ row y ys) rest)
    ∙ written-StartsValue x w ((44 ∷ row y ys) ++ rest)

pub array-length :
    (x : Json) (xs : Elements)
    → IsWritable x
    → AreWritable xs
    → length (written (array (cons x xs))) ≡ suc (suc (length (row x xs)))
array-length x xs w ws = ap length (array-written x xs w ws) ∙ enclosed-length 91 93 (row x xs)

pub object-length :
    (k : Text) (v : Json) (fs : Fields)
    → IsWritable v
    → HasFields fs
    → length (written (object (field k v fs))) ≡ suc (suc (length (line k v fs)))
object-length k v fs w ws =
    ap length (object-written k v fs w ws) ∙ enclosed-length 123 125 (line k v fs)

-- A field in front of another text: its quoted key, then its value.
pub entry-inv :
    (k : Text) (v : Json) (rest : Text)
    → All IsUnit k
    → (t : Text) × (entry k v ++ rest ≡ 34 ∷ t)
      × (parse_string plain t ≡ some (k, 58 ∷ (written v ++ rest)))
entry-inv k v rest units =
    let (t, shape, scanned) = quoted-inv k (58 ∷ (written v ++ rest)) units in
    (t, append_assoc (quoted k) (58 ∷ written v) rest ∙ shape, scanned)

pub entry-length : (k : Text) (v : Json) → length (written v) < length (entry k v)
entry-length k v = let both = length-append (quoted k) (58 ∷ written v) in omega (arith, both)

pub line-quote :
    (k : Text) (v : Json) (fs : Fields) (rest : Text)
    → All IsUnit k
    → (t : Text) × (line k v fs ++ rest ≡ 34 ∷ t)
line-quote k v end rest units = let (t, shape, scanned) = entry-inv k v rest units in (t, shape)
line-quote k v (field j u fs) rest units =
    let (t, shape, scanned) = entry-inv k v ((44 ∷ line j u fs) ++ rest) units in
    (t, append_assoc (entry k v) (44 ∷ line j u fs) rest ∙ shape)
