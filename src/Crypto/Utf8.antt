-- ===== src/Crypto/Utf8.antt =====
-- `TextEncoder` of the platform: UTF-16 code units to UTF-8 bytes; a lone surrogate is U+FFFD.
pub mod Bytes
pub mod Decode
use elydora_open_source.Prelude.{
  ℕ, ◌+◌, ◌-◌, ◌*◌, ◌/◌, ◌%◌, Bool, ◌&&◌, ◌||◌, List, [], ◌∷◌, ◌++◌, ltb, leb, if◌then◌else◌,
}
use elydora_open_source.Prelude.Texts.{Text}

unfoldable pub is_high : ℕ → Bool
is_high c = leb 0xd800 c && leb c 0xdbff

unfoldable pub is_low : ℕ → Bool
is_low c = leb 0xdc00 c && leb c 0xdfff

-- A code unit that is no half of a pair.
encode_unit : ℕ → List ℕ
encode_unit c =
    if ltb c 0x80
    then c ∷ []
    else if ltb c 0x800
    then (c / 64 + 0xc0) ∷ (c % 64 + 0x80) ∷ []
    else if is_high c || is_low c
    then 0xef ∷ 0xbf ∷ 0xbd ∷ []
    else (c / 4096 + 0xe0) ∷ (c / 64 % 64 + 0x80) ∷ (c % 64 + 0x80) ∷ []

encode_point : ℕ → List ℕ
encode_point p =
    (p / 262144 + 0xf0) ∷ (p / 4096 % 64 + 0x80) ∷ (p / 64 % 64 + 0x80) ∷ (p % 64 + 0x80) ∷ []

utf8_units : Text → List ℕ
utf8_units [] = []
utf8_units (c ∷ []) = encode_unit c
utf8_units (c ∷ d ∷ s) =
    let pair = encode_point ((c - 0xd800) * 1024 + (d - 0xdc00) + 0x10000) ++ utf8_units s in
    let single = encode_unit c ++ utf8_units (d ∷ s) in
    if is_high c && is_low d then pair else single

-- new TextEncoder().encode(s)
unfoldable pub utf8_encode : Text → List ℕ
unfolding is_high is_low encode_unit encode_point utf8_units
utf8_encode s = utf8_units s
