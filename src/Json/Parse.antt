-- ===== src/Json/Parse.antt =====
-- `JSON.parse` of the platform. A number with a fraction or an exponent does not parse, since numbers
-- are integers here; neither does the sign of -0 stay.
pub mod Steps
pub mod Written
pub mod RoundTrip
mod Tests
use elydora_open_source.Prelude.{
  ℕ, zero, suc, ◌+◌, ◌-◌, ◌*◌, Bool, true, false, ◌&&◌, ◌||◌, Option, none, some, List, [], ◌∷◌,
  ◌++◌, length, ltb, leb, ◌==◌, if◌then◌else◌,
}
use elydora_open_source.Prelude.Texts.{Text, codes, text_eq}
use elydora_open_source.Prelude.Throws.{◌>>=◌}
use elydora_open_source.Json.{
  lookup, ℤ, pos, negsuc, Json, undefined, null, boolean, number, string, array, object, Elements,
  nil, cons, Fields, end, field,
}

abbrev is_space : ℕ → Bool
is_space c = c == 32 || c == 9 || c == 10 || c == 13

unfoldable pub skip_white : Text → Text
skip_white [] = []
skip_white (c ∷ s) = elim (is_space c) [ true ↦ skip_white s | false ↦ c ∷ s ]

-- What follows a character, or a text.
abbrev pub after : ℕ → Text → Option Text
after c [] = none
after c (d ∷ s) = if d == c then some s else none

abbrev after_text : Text → Text → Option Text
after_text [] s = some s
after_text (c ∷ t) s = do rest ← after c s; after_text t rest

abbrev pub is_digit : ℕ → Bool
is_digit c = leb 48 c && leb c 57

-- The digits that follow a number, and the rest.
unfoldable pub more_digits : ℕ → Text → ℕ × Text
more_digits n [] = (n, [])
more_digits n (c ∷ s) = elim (is_digit c) [
  | true ↦ more_digits (n * 10 + (c - 48)) s
  | false ↦ (n, c ∷ s)
]

-- A number without a sign; nothing follows a leading zero.
unfoldable pub parse_natural : Text → Option (ℕ × Text)
parse_natural [] = none
parse_natural (c ∷ s) = elim (is_digit c) [
  | true ↦ elim (c == 48) [ true ↦ some (0, s) | false ↦ some (more_digits (c - 48) s) ]
  | false ↦ none
]

abbrev pub negative : ℕ → ℤ
negative zero = pos 0
negative (suc n) = negsuc n

-- The value of a hexadecimal digit
abbrev pub hex_value : ℕ → Option ℕ
hex_value c =
    if is_digit c
    then some (c - 48)
    else if leb 97 c && leb c 102
    then some (c - 87)
    else if leb 65 c && leb c 70
    then some (c - 55)
    else none

-- The character that `\` and a letter stand for, other than `u`.
abbrev escape_of : ℕ → Option ℕ
escape_of c =
    if c == 34 || c == 92 || c == 47
    then some c
    else if c == 98
    then some 8
    else if c == 116
    then some 9
    else if c == 110
    then some 10
    else if c == 102
    then some 12
    else if c == 114
    then some 13
    else none

abbrev pub with_unit : ℕ → Option (Text × Text) → Option (Text × Text)
with_unit c m = do (t, rest) ← m; some (c ∷ t, rest)

-- Where a string stands: at a character, after `\`, or after `\u` with so many digits to come.
pub data Scan : Type 0 where
  plain : Scan
  escape : Scan
  unicode : ℕ → ℕ → Scan

-- A string up to its closing quote
unfoldable pub parse_string : Scan → Text → Option (Text × Text)
parse_string mode [] = none
parse_string plain (c ∷ s) = elim (c == 34) [
  | true ↦ some ([], s)
  | false ↦ elim (c == 92) [
    | true ↦ parse_string escape s
    | false ↦ elim (ltb c 32) [ true ↦ none | false ↦ with_unit c (parse_string plain s) ]
  ]
]
parse_string escape (c ∷ s) = elim (c == 117) [
  | true ↦ parse_string (unicode 3 0) s
  | false ↦ elim (escape_of c) [ none ↦ none | some d ↦ with_unit d (parse_string plain s) ]
]
parse_string (unicode zero n) (c ∷ s) = elim (hex_value c) [
  | none ↦ none
  | some d ↦ with_unit (n * 16 + d) (parse_string plain s)
]
parse_string (unicode (suc k) n) (c ∷ s) = elim (hex_value c) [
  | none ↦ none
  | some d ↦ parse_string (unicode k (n * 16 + d)) s
]

unfoldable pub has_key : Text → Fields → Bool
has_key k end = false
has_key k (field j v fs) = text_eq j k || has_key k fs

abbrev without_key : Text → Fields → Fields
without_key k end = end
without_key k (field j v fs) =
    let rest = without_key k fs in if text_eq j k then rest else field j v rest

-- A key that stands again keeps its first place and takes its last value.
abbrev pub put_field : Text → Json → Fields → Fields
put_field k v fs = if has_key k fs then field k (lookup k fs) (without_key k fs) else field k v fs

pub data Kind : Type 0 where
  quote bracket brace minus digit letter_n letter_t letter_f other : Kind

abbrev pub kind_of : ℕ → Kind
kind_of c =
    if c == 34
    then quote
    else if c == 91
    then bracket
    else if c == 123
    then brace
    else if c == 45
    then minus
    else if is_digit c
    then digit
    else if c == 110
    then letter_n
    else if c == 116
    then letter_t
    else if c == 102
    then letter_f
    else other

-- Each call of another consumes a character, so that the length of the text is enough fuel.
unfoldable mutual
  pub parse_value : ℕ → Text → Option (Json × Text)
  parse_value zero s = none
  parse_value (suc fuel) s = elim (skip_white s) [
    | [] ↦ none
    | c ∷ r ↦ elim (kind_of c) [
      | quote ↦ (do (t, rest) ← parse_string plain r; some (string t, rest))
      | bracket ↦ elim (after 93 (skip_white r)) [
        | some rest ↦ some (array nil, rest)
        | none ↦ (do (xs, rest) ← parse_elements fuel r; some (array xs, rest))
      ]
      | brace ↦ elim (after 125 (skip_white r)) [
        | some rest ↦ some (object end, rest)
        | none ↦ (do (fs, rest) ← parse_fields fuel r; some (object fs, rest))
      ]
      | minus ↦ (do (n, rest) ← parse_natural r; some (number (negative n), rest))
      | digit ↦ (do (n, rest) ← parse_natural (c ∷ r); some (number (pos n), rest))
      | letter_n ↦ (do rest ← after_text (codes "ull") r; some (null, rest))
      | letter_t ↦ (do rest ← after_text (codes "rue") r; some (boolean true, rest))
      | letter_f ↦ (do rest ← after_text (codes "alse") r; some (boolean false, rest))
      | other ↦ none
    ]
  ]

  -- Elements up to the closing bracket
  pub parse_elements : ℕ → Text → Option (Elements × Text)
  parse_elements zero s = none
  parse_elements (suc fuel) s = elim (parse_value fuel s) [
    | none ↦ none
    | some (v, r) ↦ elim (skip_white r) [
      | [] ↦ none
      | c ∷ q ↦ elim (c == 44) [
        | true ↦ (do (xs, rest) ← parse_elements fuel q; some (cons v xs, rest))
        | false ↦ if c == 93 then some (cons v nil, q) else none
      ]
    ]
  ]

  -- Fields up to the closing brace
  pub parse_fields : ℕ → Text → Option (Fields × Text)
  parse_fields zero s = none
  parse_fields (suc fuel) s = elim (after 34 (skip_white s) >>= parse_string plain) [
    | none ↦ none
    | some (k, r) ↦ elim (after 58 (skip_white r) >>= parse_value fuel) [
      | none ↦ none
      | some (v, q) ↦ elim (skip_white q) [
        | [] ↦ none
        | c ∷ u ↦ elim (c == 44) [
          | true ↦ (do (fs, rest) ← parse_fields fuel u; some (put_field k v fs, rest))
          | false ↦ if c == 125 then some (field k v end, u) else none
        ]
      ]
    ]
  ]

abbrev whole : Json × Text → Option Json
whole (v, rest) = elim (skip_white rest) [ [] ↦ some v | c ∷ s ↦ none ]

-- JSON.parse(s): none if it throws
unfoldable pub parse : Text → Option Json
parse s = parse_value (suc (length s)) s >>= whole
