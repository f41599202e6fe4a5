-- ===== src/Audit/Cursors/RoundTrip.antt =====
-- A cursor is read back: Audit/Cursors.
use mathlib.Core.Path.{subst}
use elydora_open_source.Prelude.{
  ℕ, ◌+◌, ◌≡◌, refl, ap, ◌∙◌, Bool, true, false, if◌then◌else◌, ◌||◌, ltb, ◌&&◌, Bool-cases, inl,
  inr, append_assoc, some, [], ◌∷◌, ◌++◌, arith, All,
}
use elydora_open_source.Prelude.Texts.{Text, codes, text_eq}
use elydora_open_source.Json.{ℤ, pos, negsuc}
use elydora_open_source.Json.Stringify.{
  decimal, stringify, stringify_fields, join, quoted, decimal, decimal_ℤ,
}
use elydora_open_source.Json.Stringify.Digits.{decimal-digits}
use elydora_open_source.Json.Stringify.Paired.{
  IsSingle, ascii-IsSingle, singles-IsPaired, quoted-IsPaired,
}
use elydora_open_source.Json.Parse.{parse, has_key, is_digit}
use elydora_open_source.Json.Parse.Written.{IsWritable, HasFields}
use elydora_open_source.Json.Parse.RoundTrip.{parse-stringify}
use elydora_open_source.Crypto.Base64.RoundTrip.{decode-encode}
use elydora_open_source.Crypto.Utf8.{is_high, is_low, utf8_encode}
use elydora_open_source.Crypto.Utf8.Bytes.{IsUnit, all_units, units_of, utf8_encode-bytes}
use elydora_open_source.Crypto.Utf8.Decode.{utf8_decode}
use elydora_open_source.Crypto.Utf8.Decode.RoundTrip.{IsPaired}
use elydora_open_source.Crypto.Utf8.Decode.RoundTrip
use elydora_open_source.Audit.Cursors.{
  Cursor, cursor_json, cursor_text, encode_cursor, checked_cursor, decode_cursor,
}

written_cursor : (c : Cursor) → stringify (cursor_json c) ≡ some (cursor_text c)
unfolding stringify cursor_json
written_cursor c = refl

cursor-IsWritable : (c : Cursor) → All IsUnit c.id → IsWritable (cursor_json c)
unfolding cursor_json IsWritable HasFields has_key text_eq all_units
cursor-IsWritable c h =
    (units_of (codes "created_at") refl, refl, tt, (units_of (codes "id") refl, refl, h, tt))

checked : (c : Cursor) → checked_cursor (cursor_json c) ≡ some c
unfolding checked_cursor cursor_json text_eq
checked c = refl

-- What stands in front of the two values
abbrev first_key : Text
first_key = codes "{\"created_at\":"

abbrev second_key : Text
second_key = codes ",\"id\":"

abbrev rest_of : Cursor → Text
rest_of c =
    codes "\"created_at\":"
    ++ (decimal_ℤ c.created_at ++ (second_key ++ (quoted c.id ++ codes "}")))

abbrev written_text : Cursor → Text
written_text c = first_key ++ (decimal_ℤ c.created_at ++ (second_key ++ (quoted c.id ++ codes "}")))

first_quoted : quoted (codes "created_at") ≡ codes "\"created_at\""
unfolding quoted
first_quoted = refl

second_quoted : quoted (codes "id") ≡ codes "\"id\""
unfolding quoted
second_quoted = refl

text-shape : (c : Cursor) → cursor_text c ≡ written_text c
unfolding stringify cursor_json stringify_fields join
text-shape c =
    rw (first_quoted, second_quoted)
      (ap (λ (t : Text). first_key ++ t)
        (append_assoc (decimal_ℤ c.created_at) (second_key ++ quoted c.id) (codes "}")))

-- Characters of ASCII
all_ascii : Text → Bool
all_ascii [] = true
all_ascii (c ∷ s) = ltb c 0x80 && all_ascii s

ascii-singles : (s : Text) → all_ascii s ≡ true → All IsSingle s
unfolding all_ascii
ascii-singles [] h = tt
ascii-singles (c ∷ s) h = (ascii-IsSingle c (ground arith), ascii-singles s (ground arith))

digits-singles : (s : Text) → All (λ (c : ℕ). is_digit c ≡ true) s → All IsSingle s
digits-singles [] h = tt
digits-singles (c ∷ s) (p, h) = (ascii-IsSingle c (ground arith), digits-singles s h)

number-singles : (n : ℤ) → All IsSingle (decimal_ℤ n)
unfolding decimal_ℤ
number-singles (pos n) = digits-singles (decimal n) (decimal-digits n)
number-singles (negsuc n) =
    (ascii-IsSingle 45 (omega arith), digits-singles (decimal (n + 1)) (decimal-digits (n + 1)))

text-IsPaired : (c : Cursor) → All IsUnit c.id → IsPaired (written_text c)
unfolding all_ascii IsPaired
text-IsPaired c h =
    singles-IsPaired first_key
      (decimal_ℤ c.created_at ++ (second_key ++ (quoted c.id ++ codes "}")))
      (ascii-singles first_key refl)
      (singles-IsPaired (decimal_ℤ c.created_at) (second_key ++ (quoted c.id ++ codes "}"))
        (number-singles c.created_at)
        (singles-IsPaired second_key (quoted c.id ++ codes "}") (ascii-singles second_key refl) (
          quoted-IsPaired c.id (codes "}") h
            (singles-IsPaired (codes "}") [] (ascii-singles (codes "}") refl) tt))))

-- The two cases of a text that is paired
IsPaired-branch :
    (c d : ℕ) (s : Text) (b : Bool)
    → is_high c && is_low d ≡ b
    → IsPaired (c ∷ d ∷ s)
    → if b then IsPaired s else ((is_high c || is_low c ≡ false) × IsUnit c × IsPaired (d ∷ s))
unfolding IsPaired
IsPaired-branch c d s b e h =
    subst
      (λ (v : Bool).
        if v then IsPaired s else ((is_high c || is_low c ≡ false) × IsUnit c × IsPaired (d ∷ s)))
      e h

pair-units : (c d : ℕ) → is_high c && is_low d ≡ true → IsUnit c × IsUnit d
unfolding is_high is_low
pair-units c d h = (ground arith, ground arith)

-- Paired texts are texts of code units.
paired-units : (s : Text) → IsPaired s → All IsUnit s
unfolding IsPaired
paired-units [] h = tt
paired-units (c ∷ []) (p, h) = (h, tt)
paired-units (c ∷ d ∷ s) h =
    let after_one = paired-units (d ∷ s) in
    let after_pair = paired-units s in
    elim (Bool-cases (is_high c && is_low d)) [
      | inl pair ↦
          let (hc, hd) = pair-units c d pair in
          (hc, (hd, after_pair (IsPaired-branch c d s true pair h)))
      | inr one ↦ let (p, hc, k) = IsPaired-branch c d s false one h in (hc, after_one k)
    ]

text-decoded :
    (c : Cursor) → All IsUnit c.id → utf8_decode (utf8_encode (written_text c)) ≡ written_text c
text-decoded c h = RoundTrip.decode-encode 123 (rest_of c) (text-IsPaired c h) refl

-- decodeCursor reads the cursor that encodeCursor writes, whatever the time and for every identifier
-- of code units.
pub cursor-read : (c : Cursor) → All IsUnit c.id → decode_cursor (encode_cursor c) ≡ some c
unfolding decode_cursor encode_cursor
cursor-read c h =
    let paired = text-IsPaired c h in
    let bytes = utf8_encode-bytes (written_text c) (paired-units (written_text c) paired) in
    let parsed : parse (written_text c) ≡ some (cursor_json c) =
      parse-stringify (cursor_json c) (written_text c) (cursor-IsWritable c h)
        (written_cursor c ∙ ap some (text-shape c)) in
    rw (text-shape c, decode-encode (utf8_encode (written_text c)) bytes, text-decoded c h, parsed)
      (checked c)
