-- ===== src/Crypto/Utf8/Bytes.antt =====
-- What the encoder of Crypto/Utf8 puts out for UTF-16 code units.
use elydora_open_source.Prelude.{
  ℕ, ◌+◌, ◌-◌, ◌*◌, ◌<◌, ◌≡◌, ◌&&◌, ◌||◌, true, Bool, [], ◌∷◌, arith, All, All-append, ltb, ltb→lt,
  Bool-cases, inl, inr,
}
use elydora_open_source.Prelude.Texts.{Text}
use elydora_open_source.Crypto.Base64.RoundTrip.{IsByte}
use elydora_open_source.Crypto.Utf8.{
  is_high, is_low, encode_unit, encode_point, utf8_units, utf8_encode,
}

abbrev pub IsUnit : ℕ → Type 0
IsUnit c = c < 65536

unfoldable pub all_units : Text → Bool
all_units [] = true
all_units (c ∷ s) = ltb c 65536 && all_units s

pub units_of : (s : Text) → all_units s ≡ true → All IsUnit s
unfolding all_units
units_of [] h = tt
units_of (c ∷ s) h = (ground arith, units_of s (ground arith))

encode_unit-bytes : (c : ℕ) → IsUnit c → All IsByte (encode_unit c)
unfolding encode_unit is_high is_low
encode_unit-bytes c h = elim (Bool-cases (ltb c 0x80)) [
  | inl one ↦ rw one (omega (arith, ltb→lt c 0x80 one), tt)
  | inr more ↦ elim (Bool-cases (ltb c 0x800)) [
    | inl two ↦ rw (more, two) (omega (arith, ltb→lt c 0x800 two), (omega arith, tt))
    | inr many ↦ elim (Bool-cases (is_high c || is_low c)) [
      | inl half ↦ rw (more, many, half) (omega arith, (omega arith, (omega arith, tt)))
      | inr three ↦ rw (more, many, three) (omega arith, (omega arith, (omega arith, tt)))
    ]
  ]
]

encode_point-bytes : (p : ℕ) → p < 1114112 → All IsByte (encode_point p)
unfolding encode_point
encode_point-bytes p h = (omega arith, (omega arith, (omega arith, (omega arith, tt))))

pair_point :
    (c d : ℕ)
    → is_high c && is_low d ≡ true
    → (c - 0xd800) * 1024 + (d - 0xdc00) + 0x10000 < 1114112
unfolding is_high is_low
pair_point c d h = ground arith

utf8_units-bytes : (s : Text) → All IsUnit s → All IsByte (utf8_units s)
unfolding utf8_units
utf8_units-bytes [] h = tt
utf8_units-bytes (c ∷ []) (k, h) = encode_unit-bytes c k
utf8_units-bytes (c ∷ d ∷ s) (k, (l, h)) =
    let after_one = utf8_units-bytes (d ∷ s) (l, h) in
    let after_pair = utf8_units-bytes s h in
    elim (Bool-cases (is_high c && is_low d)) [
      | inl pair ↦ rw pair (
          All-append IsByte (encode_point ((c - 0xd800) * 1024 + (d - 0xdc00) + 0x10000))
            (utf8_units s)
            (encode_point-bytes ((c - 0xd800) * 1024 + (d - 0xdc00) + 0x10000)
              (pair_point c d pair))
            after_pair)
      | inr one ↦
          rw one (
            All-append IsByte (encode_unit c) (utf8_units (d ∷ s)) (encode_unit-bytes c k)
              after_one)
    ]

-- The encoding of UTF-16 code units consists of bytes.
pub utf8_encode-bytes : (s : Text) → All IsUnit s → All IsByte (utf8_encode s)
unfolding utf8_encode
utf8_encode-bytes s h = utf8_units-bytes s h
