-- ===== src/Json/Stringify.antt =====
-- `JSON.stringify` of the platform, without spacing, and the decimal notation of numbers.
pub mod Digits
pub mod Quoted
pub mod Paired
use elydora_open_source.Prelude.{
  ℕ, zero, suc, ◌+◌, ◌-◌, ◌/◌, ◌%◌, Bool, true, false, ◌&&◌, ◌||◌, Option, none, some, List, [],
  ◌∷◌, ◌++◌, ltb, leb, ◌==◌, if◌then◌else◌,
}
use elydora_open_source.Prelude.Texts.{Text, codes}
use elydora_open_source.Json.{
  ℤ, pos, negsuc, Json, undefined, null, boolean, number, string, array, object, Elements, nil,
  cons, Fields, end, field,
}

-- The digits of a number, most significant first, in front of `after`; `fuel` above the number is
-- enough, since each round divides it by ten.
digits_from : ℕ → ℕ → Text → Text
digits_from zero n after = after
digits_from (suc fuel) n after =
    let more = digits_from fuel (n / 10) ((n % 10 + b'0') ∷ after) in
    if ltb n 10 then (n + b'0') ∷ after else more

unfoldable pub decimal : ℕ → Text
unfolding digits_from
decimal n = digits_from (suc n) n []

unfoldable pub decimal_ℤ : ℤ → Text
unfolding decimal
decimal_ℤ (pos n) = decimal n
decimal_ℤ (negsuc n) = b'-' ∷ decimal (n + 1)

hex_digit : ℕ → ℕ
hex_digit n = if ltb n 10 then n + b'0' else n - 10 + b'a'

-- \uXXXX
unicode_escape : ℕ → Text
unicode_escape c =
    b'\\'
    ∷ b'u'
    ∷ hex_digit (c / 4096 % 16)
    ∷ hex_digit (c / 256 % 16)
    ∷ hex_digit (c / 16 % 16)
    ∷ hex_digit (c % 16)
    ∷ []

is_high_surrogate : ℕ → Bool
is_high_surrogate c = leb 0xd800 c && leb c 0xdbff

is_low_surrogate : ℕ → Bool
is_low_surrogate c = leb 0xdc00 c && leb c 0xdfff

-- A code unit inside quotes; a lone surrogate is escaped.
escape_unit : ℕ → Text
escape_unit c =
    if c == b'"'
    then b'\\' ∷ b'"' ∷ []
    else if c == b'\\'
    then b'\\' ∷ b'\\' ∷ []
    else if c == 8
    then b'\\' ∷ b'b' ∷ []
    else if c == 9
    then b'\\' ∷ b't' ∷ []
    else if c == 10
    then b'\\' ∷ b'n' ∷ []
    else if c == 12
    then b'\\' ∷ b'f' ∷ []
    else if c == 13
    then b'\\' ∷ b'r' ∷ []
    else if ltb c 32 || is_high_surrogate c || is_low_surrogate c
    then unicode_escape c
    else c ∷ []

-- A surrogate pair is copied.
escaped : Text → Text
escaped [] = []
escaped (c ∷ []) = escape_unit c
escaped (c ∷ d ∷ s) =
    let pair = c ∷ d ∷ escaped s in
    let single = escape_unit c ++ escaped (d ∷ s) in
    if is_high_surrogate c && is_low_surrogate d then pair else single

unfoldable pub quoted : Text → Text
unfolding hex_digit unicode_escape is_high_surrogate is_low_surrogate escape_unit escaped
quoted s = b'"' ∷ escaped s ++ b'"' ∷ []

-- elements.join(',')
unfoldable pub join : List Text → Text
join [] = []
join (t ∷ []) = t
join (t ∷ u ∷ ts) = t ++ b',' ∷ join (u ∷ ts)

abbrev pub boolean_text : Bool → Text
boolean_text true = codes "true"
boolean_text false = codes "false"

-- `undefined` in an array is written as `null`, and as a field it is left out.
abbrev pub or_null : Option Text → Text
or_null none = codes "null"
or_null (some t) = t

abbrev pub with_field : Text → Option Text → List Text → List Text
with_field k none fs = fs
with_field k (some t) fs = (quoted k ++ b':' ∷ t) ∷ fs

unfoldable mutual
  -- JSON.stringify(value), which is `undefined` for `undefined`
  pub stringify : Json → Option Text
  stringify undefined = none
  stringify null = some (codes "null")
  stringify (boolean b) = some (boolean_text b)
  stringify (number n) = some (decimal_ℤ n)
  stringify (string s) = some (quoted s)
  stringify (array xs) = some (b'[' ∷ join (stringify_elements xs) ++ b']' ∷ [])
  stringify (object fs) = some (b'{' ∷ join (stringify_fields fs) ++ b'}' ∷ [])

  pub stringify_elements : Elements → List Text
  stringify_elements nil = []
  stringify_elements (cons x xs) = or_null (stringify x) ∷ stringify_elements xs

  pub stringify_fields : Fields → List Text
  stringify_fields end = []
  stringify_fields (field k v fs) = with_field k (stringify v) (stringify_fields fs)
