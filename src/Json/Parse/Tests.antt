-- ===== src/Json/Parse/Tests.antt =====
-- Texts that JSON.parse reads, and some that it refuses.
use elydora_open_source.Prelude.{◌≡◌, refl, true, arith, none, some, [], ◌∷◌}
use elydora_open_source.Prelude.Texts.{Text, codes, text_eq}
use elydora_open_source.Json.{
  Json, array, boolean, cons, end, field, negsuc, number, nil, object, string,
}
use elydora_open_source.Json.Stringify.{
  stringify, stringify_elements, stringify_fields, join, quoted, decimal, decimal_ℤ,
}
use elydora_open_source.Json.Parse.Written.{IsWritable, AreWritable, HasFields}
use elydora_open_source.Json.Parse.RoundTrip.{parse-stringify}
use elydora_open_source.Json.Parse.{
  skip_white, more_digits, parse_natural, parse_string, has_key, parse_value, parse_elements,
  parse_fields, parse,
}

run : Unit {0}
unfolding text_eq skip_white more_digits parse_natural parse_string has_key parse_value
    parse_elements parse_fields parse
run = tt

reads :
    parse (codes " {\"a\" : [1, -20 ,null],\"b\":\"x\\u0041\\n\", \"a\":true} ")
    ≡ some (
        object
          (field (codes "a") (boolean true) (field (codes "b") (string (120 ∷ 65 ∷ 10 ∷ [])) end)))
unfolding run
reads = refl

refuses_zero : parse (codes "01") ≡ none
unfolding run
refuses_zero = refl

refuses_rest : parse (codes "[1] 2") ≡ none
unfolding run
refuses_rest = refl

refuses_comma : parse (codes "[1,]") ≡ none
unfolding run
refuses_comma = refl

abbrev value : Json
value = object (
    field (codes "a") (array (cons (number (negsuc 1)) (cons (boolean true) nil)))
      (field (codes "b") (string (34 ∷ 0xd800 ∷ [])) end))

abbrev value_text : Text
value_text = codes "{\"a\":[-2,true],\"b\":\"\\\"\\ud800\"}"

writes : stringify value ≡ some value_text
unfolding stringify stringify_elements stringify_fields join quoted decimal decimal_ℤ
writes = refl

value-IsWritable : IsWritable value
unfolding IsWritable AreWritable HasFields has_key text_eq
value-IsWritable = (
  (omega arith, tt),
  refl,
  (tt, (tt, tt)),
  ((omega arith, tt), refl, (omega arith, (omega arith, tt)), tt),
)

reads_written : parse value_text ≡ some value
reads_written = parse-stringify value value_text value-IsWritable writes
