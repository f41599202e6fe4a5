-- ===== src/Crypto/Utf8/Decode/RoundTrip.antt =====
-- What TextEncoder writes, TextDecoder reads: Crypto/Utf8 and Crypto/Utf8/Decode.
use elydora_open_source.Prelude.{
  ℕ, suc, ◌+◌, ◌-◌, ◌*◌, ◌/◌, ◌%◌, ◌≤◌, ◌<◌, ◌≡◌, refl, sym, ap, ◌∙◌, true, false, ◌&&◌, ◌||◌, List,
  [], ◌∷◌, ◌++◌, ltb, leb, ◌==◌, if◌then◌else◌, arith, ◌⊎◌, ==_iff, Bool-cases, inl, inr, ltb→lt,
  append_nil,
}
use elydora_open_source.Prelude.Texts.{Text}
use elydora_open_source.Crypto.Utf8.{
  is_high, is_low, encode_unit, encode_point, utf8_units, utf8_encode,
}
use elydora_open_source.Crypto.Utf8.Bytes.{IsUnit}
use elydora_open_source.Crypto.Utf8.Decode.{
  ascii, starts, lead_of, units_of, fresh, inside, decode, utf8_decode,
}

-- Surrogates stand in pairs only.
unfoldable pub IsPaired : Text → Type 0
IsPaired [] = Unit
IsPaired (c ∷ []) = (is_high c || is_low c ≡ false) × IsUnit c
IsPaired (c ∷ d ∷ s) =
    if is_high c && is_low d
    then IsPaired s
    else ((is_high c || is_low c ≡ false) × IsUnit c × IsPaired (d ∷ s))

ltb→ge : (a b : ℕ) → ltb a b ≡ false → b ≤ a
ltb→ge a b h = ground arith

decode-ascii : (c : ℕ) (bs : List ℕ) → c < 0x80 → decode fresh (c ∷ bs) ≡ c ∷ decode fresh bs
unfolding decode
decode-ascii c bs h = let kind : lead_of c ≡ ascii = ground arith in rw (kind, decode) refl

decode-starts :
    (b more bits low high : ℕ) (bs : List ℕ)
    → lead_of b ≡ starts more bits low high
    → decode fresh (b ∷ bs) ≡ decode (inside more bits low high) bs
unfolding decode
decode-starts b more bits low high bs kind = rw (kind, decode) refl

decode-last :
    (bits low high b : ℕ) (bs : List ℕ)
    → leb low b && leb b high ≡ true
    → decode (inside 0 bits low high) (b ∷ bs)
      ≡ units_of (bits * 64 + (b - 0x80)) ++ decode fresh bs
unfolding decode
decode-last bits low high b bs h = rw (h, decode) refl

decode-more :
    (more bits low high b : ℕ) (bs : List ℕ)
    → leb low b && leb b high ≡ true
    → decode (inside (suc more) bits low high) (b ∷ bs)
      ≡ decode (inside more (bits * 64 + (b - 0x80)) 0x80 0xbf) bs
unfolding decode
decode-more more bits low high b bs h = rw (h, decode) refl

within : (low b high : ℕ) → low ≤ b → b ≤ high → leb low b && leb b high ≡ true
within low b high h k = ground arith

units_of-one : (p : ℕ) → p < 0x10000 → units_of p ≡ p ∷ []
units_of-one p h = ground arith

lead-two : (x : ℕ) → 2 ≤ x → x < 32 → lead_of (x + 0xc0) ≡ starts 0 x 0x80 0xbf
lead-two x low high = ground arith

-- The bounds of a second byte
abbrev low_three : ℕ → ℕ
low_three x = if x == 0 then 0xa0 else 0x80

abbrev high_three : ℕ → ℕ
high_three x = if x == 13 then 0x9f else 0xbf

abbrev low_four : ℕ → ℕ
low_four x = if x == 0 then 0x90 else 0x80

abbrev high_four : ℕ → ℕ
high_four x = if x == 4 then 0x8f else 0xbf

lead-three : (x : ℕ) → x < 16 → lead_of (x + 0xe0) ≡ starts 1 x (low_three x) (high_three x)
lead-three x high = ground arith

lead-four : (x : ℕ) → x < 5 → lead_of (x + 0xf0) ≡ starts 2 x (low_four x) (high_four x)
lead-four x high = ground arith

three-low : (c : ℕ) → 0x800 ≤ c → low_three (c / 4096) ≤ c / 64 % 64 + 0x80
three-low c low = elim (Bool-cases (c / 4096 == 0)) [
  | inl first ↦
      let small : c / 4096 ≡ 0 = (==_iff (c / 4096) 0).0 first in
      rw first (omega (arith, small, low))
  | inr other ↦ rw other (omega arith)
]

no_surrogate : (c : ℕ) → is_high c || is_low c ≡ false → (c < 0xd800) ⊎ (0xe000 ≤ c)
unfolding is_high is_low
no_surrogate c h = ground arith

three-high : (c : ℕ) → is_high c || is_low c ≡ false → c / 64 % 64 + 0x80 ≤ high_three (c / 4096)
three-high c single = elim (Bool-cases (c / 4096 == 13)) [
  | inl this ↦
      let same : c / 4096 ≡ 13 = (==_iff (c / 4096) 13).0 this in
      elim (no_surrogate c single) [
        | inl below ↦ rw this (omega (arith, same, below))
        | inr above ↦ absurd (omega (arith, same, above))
      ]
  | inr other ↦ rw other (omega arith)
]

within-three :
    (c : ℕ)
    → 0x800 ≤ c
    → c < 0x10000
    → is_high c || is_low c ≡ false
    → leb (low_three (c / 4096)) (c / 64 % 64 + 0x80)
        && leb (c / 64 % 64 + 0x80) (high_three (c / 4096))
      ≡ true
within-three c low high single =
    within (low_three (c / 4096)) (c / 64 % 64 + 0x80) (high_three (c / 4096)) (three-low c low)
      (three-high c single)

four-low : (p : ℕ) → 0x10000 ≤ p → low_four (p / 262144) ≤ p / 4096 % 64 + 0x80
four-low p low = elim (Bool-cases (p / 262144 == 0)) [
  | inl first ↦
      let small : p / 262144 ≡ 0 = (==_iff (p / 262144) 0).0 first in
      rw first (omega (arith, small, low))
  | inr other ↦ rw other (omega arith)
]

four-high : (p : ℕ) → p < 0x110000 → p / 4096 % 64 + 0x80 ≤ high_four (p / 262144)
four-high p high = elim (Bool-cases (p / 262144 == 4)) [
  | inl last ↦
      let same : p / 262144 ≡ 4 = (==_iff (p / 262144) 4).0 last in
      rw last (omega (arith, same, high))
  | inr other ↦ rw other (omega arith)
]

within-four :
    (p : ℕ)
    → 0x10000 ≤ p
    → p < 0x110000
    → leb (low_four (p / 262144)) (p / 4096 % 64 + 0x80)
        && leb (p / 4096 % 64 + 0x80) (high_four (p / 262144))
      ≡ true
within-four p low high =
    within (low_four (p / 262144)) (p / 4096 % 64 + 0x80) (high_four (p / 262144)) (four-low p low)
      (four-high p high)

decode-two :
    (c : ℕ) (bs : List ℕ)
    → 0x80 ≤ c
    → c < 0x800
    → decode fresh ((c / 64 + 0xc0) ∷ (c % 64 + 0x80) ∷ bs) ≡ c ∷ decode fresh bs
decode-two c bs low high =
    let value : c / 64 * 64 + (c % 64 + 0x80 - 0x80) ≡ c = omega arith in
    decode-starts (c / 64 + 0xc0) 0 (c / 64) 0x80 0xbf ((c % 64 + 0x80) ∷ bs)
      (lead-two (c / 64) (omega arith) (omega arith))
    ∙ decode-last (c / 64) 0x80 0xbf (c % 64 + 0x80) bs
        (within 0x80 (c % 64 + 0x80) 0xbf (omega arith) (omega arith))
    ∙ ap (λ (p : ℕ). units_of p ++ decode fresh bs) value
    ∙ ap (λ (t : Text). t ++ decode fresh bs) (units_of-one c (omega arith))

decode-three :
    (c : ℕ) (bs : List ℕ)
    → 0x800 ≤ c
    → c < 0x10000
    → is_high c || is_low c ≡ false
    → decode fresh ((c / 4096 + 0xe0) ∷ (c / 64 % 64 + 0x80) ∷ (c % 64 + 0x80) ∷ bs)
      ≡ c ∷ decode fresh bs
decode-three c bs low high single =
    let x = c / 4096 in
    let y = c / 64 % 64 + 0x80 in
    let z = c % 64 + 0x80 in
    let value : (c / 4096 * 64 + (c / 64 % 64 + 0x80 - 0x80)) * 64 + (c % 64 + 0x80 - 0x80) ≡ c =
      omega arith in
    decode-starts (x + 0xe0) 1 x (low_three x) (high_three x) (y ∷ z ∷ bs)
      (lead-three (c / 4096) (omega arith))
    ∙ decode-more 0 x (low_three x) (high_three x) y (z ∷ bs) (within-three c low high single)
    ∙ decode-last (x * 64 + (y - 0x80)) 0x80 0xbf z bs
        (within 0x80 (c % 64 + 0x80) 0xbf (omega arith) (omega arith))
    ∙ ap (λ (p : ℕ). units_of p ++ decode fresh bs) value
    ∙ ap (λ (t : Text). t ++ decode fresh bs) (units_of-one c high)

decode-point :
    (p : ℕ) (bs : List ℕ)
    → 0x10000 ≤ p
    → p < 0x110000
    → decode fresh (encode_point p ++ bs) ≡ units_of p ++ decode fresh bs
unfolding encode_point
decode-point p bs low high =
    let x = p / 262144 in
    let y = p / 4096 % 64 + 0x80 in
    let z = p / 64 % 64 + 0x80 in
    let t = p % 64 + 0x80 in
    let value : ((p / 262144 * 64 + (p / 4096 % 64 + 0x80 - 0x80)) * 64
              + (p / 64 % 64 + 0x80 - 0x80))
            * 64
          + (p % 64 + 0x80 - 0x80)
        ≡ p =
      omega arith in
    decode-starts (x + 0xf0) 2 x (low_four x) (high_four x) (y ∷ z ∷ t ∷ bs)
      (lead-four (p / 262144) (omega arith))
    ∙ decode-more 1 x (low_four x) (high_four x) y (z ∷ t ∷ bs) (within-four p low high)
    ∙ decode-more 0 (x * 64 + (y - 0x80)) 0x80 0xbf z (t ∷ bs)
        (within 0x80 (p / 64 % 64 + 0x80) 0xbf (omega arith) (omega arith))
    ∙ decode-last ((x * 64 + (y - 0x80)) * 64 + (z - 0x80)) 0x80 0xbf t bs
        (within 0x80 (p % 64 + 0x80) 0xbf (omega arith) (omega arith))
    ∙ ap (λ (q : ℕ). units_of q ++ decode fresh bs) value

decode-unit :
    (c : ℕ) (bs : List ℕ)
    → is_high c || is_low c ≡ false
    → IsUnit c
    → decode fresh (encode_unit c ++ bs) ≡ c ∷ decode fresh bs
unfolding encode_unit
decode-unit c bs single h = elim (Bool-cases (ltb c 0x80)) [
  | inl one ↦ rw one (decode-ascii c bs (ltb→lt c 0x80 one))
  | inr more ↦ elim (Bool-cases (ltb c 0x800)) [
    | inl two ↦ rw (more, two) (decode-two c bs (ltb→ge c 0x80 more) (ltb→lt c 0x800 two))
    | inr many ↦ rw (more, many, single) (decode-three c bs (ltb→ge c 0x800 many) h single)
  ]
]

pair-range :
    (c d : ℕ)
    → is_high c && is_low d ≡ true
    → (0xd800 ≤ c) × (c ≤ 0xdbff) × (0xdc00 ≤ d) × (d ≤ 0xdfff)
unfolding is_high is_low
pair-range c d h = ground arith

units_of-two :
    (p : ℕ)
    → 0x10000 ≤ p
    → units_of p ≡ (0xd800 + (p - 0x10000) / 1024) ∷ (0xdc00 + (p - 0x10000) % 1024) ∷ []
units_of-two p h = let big : ltb p 0x10000 ≡ false = ground arith in rw big refl

pair-units :
    (c d : ℕ)
    → is_high c && is_low d ≡ true
    → units_of ((c - 0xd800) * 1024 + (d - 0xdc00) + 0x10000) ≡ c ∷ d ∷ []
pair-units c d h =
    let (c_low, c_high, d_low, d_high) = pair-range c d h in
    let v = (c - 0xd800) * 1024 + (d - 0xdc00) + 0x10000 in
    let high : 0xd800 + ((c - 0xd800) * 1024 + (d - 0xdc00) + 0x10000 - 0x10000) / 1024 ≡ c =
      omega (arith, c_low, c_high, d_low, d_high) in
    let low : 0xdc00 + ((c - 0xd800) * 1024 + (d - 0xdc00) + 0x10000 - 0x10000) % 1024 ≡ d =
      omega (arith, c_low, c_high, d_low, d_high) in
    units_of-two v (omega arith)
    ∙ ap (λ (x : ℕ). x ∷ (0xdc00 + (v - 0x10000) % 1024) ∷ []) high
    ∙ ap (λ (x : ℕ). c ∷ x ∷ []) low

pair-bounds :
    (c d : ℕ)
    → is_high c && is_low d ≡ true
    → (0x10000 ≤ (c - 0xd800) * 1024 + (d - 0xdc00) + 0x10000)
      × ((c - 0xd800) * 1024 + (d - 0xdc00) + 0x10000 < 0x110000)
pair-bounds c d h =
    let (c_low, c_high, d_low, d_high) = pair-range c d h in
    (omega arith, omega (arith, c_low, c_high, d_low, d_high))

decode-units : (s : Text) → IsPaired s → decode fresh (utf8_units s) ≡ s
unfolding IsPaired utf8_units decode
decode-units [] h = refl
decode-units (c ∷ []) (single, h) =
    ap (decode fresh) (sym (append_nil (encode_unit c))) ∙ decode-unit c [] single h
decode-units (c ∷ d ∷ s) h = elim (Bool-cases (is_high c && is_low d)) [
  | inl pair ↦
      let (low, high) = pair-bounds c d pair in
      rw pair (
        decode-point ((c - 0xd800) * 1024 + (d - 0xdc00) + 0x10000) (utf8_units s) low high
        ∙ ap (λ (t : Text). t ++ decode fresh (utf8_units s)) (pair-units c d pair)
        ∙ ap (λ (t : Text). c ∷ d ∷ t) (decode-units s (rw pair at h)))
  | inr other ↦
      let (single, unit, rest) = rw other at h in
      rw other (
        decode-unit c (utf8_units (d ∷ s)) single unit
        ∙ ap (λ (t : Text). c ∷ t) (decode-units (d ∷ s) rest))
]

-- A text whose surrogates stand in pairs is read back, if it does not begin with a byte order mark.
pub decode-encode :
    (c : ℕ) (s : Text)
    → IsPaired (c ∷ s)
    → (c == 0xfeff) ≡ false
    → utf8_decode (utf8_encode (c ∷ s)) ≡ c ∷ s
unfolding utf8_decode utf8_encode
decode-encode c s h plain = rw (decode-units (c ∷ s) h, plain) refl
