-- ===== src/Json/Parse/RoundTrip.antt =====
-- JSON.parse gives back what JSON.stringify has written: Json/Parse against Json/Stringify.
use elydora_open_source.Prelude.{
  append_assoc, append_nil, ℕ, zero, suc, ◌<◌, ◌≡◌, refl, sym, ap, ◌∙◌, Bool, true, false, Option,
  none, some, [], ◌∷◌, ◌++◌, length, length-append, arith, All,
}
use elydora_open_source.Prelude.Texts.{Text}
use elydora_open_source.Crypto.Utf8.Bytes.{IsUnit}
use elydora_open_source.Json.{
  ℤ, pos, negsuc, Json, undefined, null, boolean, number, string, array, object, Elements, nil,
  cons, Fields, end, field,
}
use elydora_open_source.Json.Stringify.{
  stringify, stringify_elements, stringify_fields, join, decimal_ℤ,
}
use elydora_open_source.Json.Stringify.Digits.{EndsNumber}
use elydora_open_source.Json.Parse.{
  skip_white, has_key, parse_value, parse_elements, parse_fields, parse,
}
use elydora_open_source.Json.Parse.Steps.{
  value-decimal, value-negative, value-quoted, array-reads, elements-last, elements-more,
  object-reads, fields-last, fields-more,
}
use elydora_open_source.Json.Parse.Written.{
  IsWritable, AreWritable, HasFields, written, StartsValue, row, entry, line, array-written,
  object-written, enclosed-append, row-StartsValue, array-length, object-length, entry-inv,
  entry-length, line-quote,
}

null-reads :
    (fuel : ℕ) (rest : Text) → parse_value (suc fuel) (written null ++ rest) ≡ some (null, rest)
unfolding parse_value skip_white stringify
null-reads fuel rest = refl

boolean-reads :
    (fuel : ℕ) (b : Bool) (rest : Text)
    → parse_value (suc fuel) (written (boolean b) ++ rest) ≡ some (boolean b, rest)
unfolding parse_value skip_white stringify
boolean-reads fuel true rest = refl
boolean-reads fuel false rest = refl

number-reads :
    (fuel : ℕ) (n : ℤ) (rest : Text)
    → EndsNumber rest
    → parse_value (suc fuel) (written (number n) ++ rest) ≡ some (number n, rest)
unfolding stringify decimal_ℤ
number-reads fuel (pos n) rest e = value-decimal fuel n rest e
number-reads fuel (negsuc n) rest e = value-negative fuel n rest e

string-reads :
    (fuel : ℕ) (s rest : Text)
    → All IsUnit s
    → parse_value (suc fuel) (written (string s) ++ rest) ≡ some (string s, rest)
unfolding stringify
string-reads fuel s rest h = value-quoted fuel s rest h

array_reads_row :
    (x : Json) (xs : Elements) (fuel : ℕ) (rest : Text)
    → IsWritable x
    → AreWritable xs
    → parse_elements fuel (row x xs ++ (93 ∷ rest)) ≡ some (cons x xs, rest)
    → parse_value (suc fuel) (written (array (cons x xs)) ++ rest) ≡ some (array (cons x xs), rest)
unfolding StartsValue
array_reads_row x xs fuel rest w ws h =
    ap (λ (t : Text). parse_value (suc fuel) (t ++ rest)) (array-written x xs w ws)
    ∙ ap (parse_value (suc fuel)) (enclosed-append 91 93 (row x xs) rest)
    ∙ array-reads fuel (row x xs ++ (93 ∷ rest)) rest (cons x xs)
        (row-StartsValue x xs w (93 ∷ rest)) h

array-nil-reads :
    (fuel : ℕ) (rest : Text)
    → parse_value (suc fuel) (written (array nil) ++ rest) ≡ some (array nil, rest)
unfolding parse_value skip_white stringify stringify_elements join
array-nil-reads fuel rest = refl

object-end-reads :
    (fuel : ℕ) (rest : Text)
    → parse_value (suc fuel) (written (object end) ++ rest) ≡ some (object end, rest)
unfolding parse_value skip_white stringify stringify_fields join
object-end-reads fuel rest = refl

fields_read_last :
    (k : Text) (v : Json) (fuel : ℕ) (rest : Text)
    → All IsUnit k
    → parse_value fuel (written v ++ (125 ∷ rest)) ≡ some (v, 125 ∷ rest)
    → parse_fields (suc fuel) (entry k v ++ (125 ∷ rest)) ≡ some (field k v end, rest)
fields_read_last k v fuel rest units h =
    let (t, shape, scanned) = entry-inv k v (125 ∷ rest) units in
    ap (parse_fields (suc fuel)) shape
    ∙ fields-last fuel t (written v ++ (125 ∷ rest)) rest k v scanned h

fields_read_more :
    (k : Text) (v : Json) (fs : Fields) (more : Text) (fuel : ℕ) (rest : Text)
    → All IsUnit k
    → has_key k fs ≡ false
    → parse_value fuel (written v ++ (44 ∷ more)) ≡ some (v, 44 ∷ more)
    → parse_fields fuel more ≡ some (fs, rest)
    → parse_fields (suc fuel) (entry k v ++ (44 ∷ more)) ≡ some (field k v fs, rest)
fields_read_more k v fs more fuel rest units new h g =
    let (t, shape, scanned) = entry-inv k v (44 ∷ more) units in
    ap (parse_fields (suc fuel)) shape
    ∙ fields-more fuel t (written v ++ (44 ∷ more)) more rest k v fs scanned h g new

object_reads_line :
    (k : Text) (v : Json) (fs : Fields) (fuel : ℕ) (rest : Text)
    → All IsUnit k
    → IsWritable v
    → HasFields fs
    → parse_fields fuel (line k v fs ++ (125 ∷ rest)) ≡ some (field k v fs, rest)
    → parse_value (suc fuel) (written (object (field k v fs)) ++ rest)
      ≡ some (object (field k v fs), rest)
object_reads_line k v fs fuel rest units w ws h =
    let (t, shape) = line-quote k v fs (125 ∷ rest) units in
    ap (λ (s : Text). parse_value (suc fuel) (s ++ rest)) (object-written k v fs w ws)
    ∙ ap (parse_value (suc fuel)) (enclosed-append 123 125 (line k v fs) rest)
    ∙ ap (λ (s : Text). parse_value (suc fuel) (123 ∷ s)) shape
    ∙ object-reads fuel t rest (field k v fs) (ap (parse_fields fuel) (sym shape) ∙ h)

-- Enough fuel for a text that stands before another.
mutual
  unfolding IsWritable AreWritable HasFields

  value-reads :
      (v : Json) (fuel : ℕ) (rest : Text)
      → IsWritable v
      → length (written v) < fuel
      → EndsNumber rest
      → parse_value fuel (written v ++ rest) ≡ some (v, rest)
  value-reads v zero rest w h e = absurd (omega arith)
  value-reads undefined (suc fuel) rest w h e = absurd w
  value-reads null (suc fuel) rest w h e = null-reads fuel rest
  value-reads (boolean b) (suc fuel) rest w h e = boolean-reads fuel b rest
  value-reads (number n) (suc fuel) rest w h e = number-reads fuel n rest e
  value-reads (string s) (suc fuel) rest w h e = string-reads fuel s rest w
  value-reads (array nil) (suc fuel) rest w h e = array-nil-reads fuel rest
  value-reads (array (cons x xs)) (suc fuel) rest (w, ws) h e =
      array_reads_row x xs fuel rest w ws
        (row-reads x xs fuel rest w ws (omega (arith, h, array-length x xs w ws)))
  value-reads (object end) (suc fuel) rest w h e = object-end-reads fuel rest
  value-reads (object (field k v fs)) (suc fuel) rest (units, new, w, ws) h e =
      object_reads_line k v fs fuel rest units w ws (
        line-reads k v fs fuel rest (units, new, w, ws)
          (omega (arith, h, object-length k v fs w ws)))

  row-reads :
      (x : Json) (xs : Elements) (fuel : ℕ) (rest : Text)
      → IsWritable x
      → AreWritable xs
      → suc (length (row x xs)) < fuel
      → parse_elements fuel (row x xs ++ (93 ∷ rest)) ≡ some (cons x xs, rest)
  row-reads x xs zero rest w ws h = absurd (omega arith)
  row-reads x nil (suc fuel) rest w ws h =
      elements-last fuel (written x ++ (93 ∷ rest)) rest x
        (value-reads x fuel (93 ∷ rest) w (omega (arith, h)) refl)
  row-reads x (cons y ys) (suc fuel) rest w (wy, ws) h =
      let both = length-append (written x) (44 ∷ row y ys) in
      ap (parse_elements (suc fuel)) (append_assoc (written x) (44 ∷ row y ys) (93 ∷ rest))
      ∙ elements-more fuel (written x ++ (44 ∷ (row y ys ++ (93 ∷ rest)))) (row y ys ++ (93 ∷ rest))
          rest x (cons y ys)
          (value-reads x fuel (44 ∷ (row y ys ++ (93 ∷ rest))) w (omega (arith, h, both)) refl)
          (row-reads y ys fuel rest wy ws (omega (arith, h, both)))

  line-reads :
      (k : Text) (v : Json) (fs : Fields) (fuel : ℕ) (rest : Text)
      → HasFields (field k v fs)
      → suc (length (line k v fs)) < fuel
      → parse_fields fuel (line k v fs ++ (125 ∷ rest)) ≡ some (field k v fs, rest)
  line-reads k v fs zero rest w h = absurd (omega arith)
  line-reads k v end (suc fuel) rest (units, new, w, ws) h =
      fields_read_last k v fuel rest units
        (value-reads v fuel (125 ∷ rest) w (omega (arith, h, entry-length k v)) refl)
  line-reads k v (field j u fs) (suc fuel) rest (units, new, w, ws) h =
      let both = length-append (entry k v) (44 ∷ line j u fs) in
      ap (parse_fields (suc fuel)) (append_assoc (entry k v) (44 ∷ line j u fs) (125 ∷ rest))
      ∙ fields_read_more k v (field j u fs) (line j u fs ++ (125 ∷ rest)) fuel rest units new
          (value-reads v fuel (44 ∷ (line j u fs ++ (125 ∷ rest))) w
            (omega (arith, h, both, entry-length k v)) refl)
          (line-reads j u fs fuel rest ws (omega (arith, h, both)))

-- JSON.parse gives back a value that JSON.stringify has written, if it has no `undefined`, its texts
-- are UTF-16 code units and its keys stand once.
pub parse-stringify : (v : Json) (t : Text) → IsWritable v → stringify v ≡ some t → parse t ≡ some v
unfolding parse skip_white
parse-stringify v t w h =
    let same : written v ≡ t = ap (λ (o : Option Text). elim o [ none ↦ [] | some s ↦ s ]) h in
    let reads = value-reads v (suc (length (written v))) [] w (omega arith) tt in
    let shown : parse_value (suc (length t)) t ≡ some (v, []) =
      ap (λ (s : Text). parse_value (suc (length s)) s) (sym same)
      ∙ ap (parse_value (suc (length (written v)))) (sym (append_nil (written v)))
      ∙ reads in
    rw (shown, parse) refl
