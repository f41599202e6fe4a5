-- ===== src/Identifiers/Layout.antt =====
-- What an identifier shows: Identifiers.
use elydora_open_source.Prelude.{
  ℕ, ◌+◌, ◌-◌, ◌*◌, ◌/◌, ◌%◌, ◌^◌, ◌≤◌, ◌<◌, ◌≡◌, refl, ap, ◌∙◌, List, [], ◌∷◌, ◌++◌, ltb, leb,
  if◌then◌else◌, arith, All, take, drop, get_elem?, length, some, Bool-cases, inl, inr,
}
use elydora_open_source.Prelude.Texts.{Text}
use elydora_open_source.Identifiers.{
  high32, low16, with_version, with_variant, uuid_bytes, radix_digit, hex_byte, hex_text,
  format_uuid, generate_uuid_v7,
}

-- The value of a hexadecimal digit
abbrev digit_value : ℕ → ℕ
digit_value c = if leb b'a' c then c - 87 else c - 48

abbrev value_from : ℕ → Text → ℕ
value_from n [] = n
value_from n (c ∷ s) = value_from (n * 16 + digit_value c) s

-- The time that an identifier shows: its first twelve digits
unfoldable pub time_of : Text → ℕ
time_of u = value_from 0 (take 8 u ++ take 4 (drop 9 u))

digit_value-radix_digit : (d : ℕ) → d < 16 → digit_value (radix_digit d) ≡ d
digit_value-radix_digit d h = ground arith

abbrev bytes_value : ℕ → List ℕ → ℕ
bytes_value n [] = n
bytes_value n (b ∷ bs) = bytes_value (n * 256 + b) bs

hex_byte-digits : (b : ℕ) → hex_byte b ≡ radix_digit (b / 16) ∷ radix_digit (b % 16) ∷ []
unfolding hex_byte
hex_byte-digits b = elim (Bool-cases (ltb b 16)) [
  | inl small ↦
      let high : b / 16 ≡ 0 = ground arith in
      let low : b % 16 ≡ b = ground arith in rw (small, high, low) refl
  | inr large ↦ rw large refl
]

digits_of : List ℕ → Text
digits_of [] = []
digits_of (b ∷ bs) = radix_digit (b / 16) ∷ radix_digit (b % 16) ∷ digits_of bs

hex_text-digits : (bs : List ℕ) → hex_text bs ≡ digits_of bs
unfolding hex_text digits_of
hex_text-digits [] = refl
hex_text-digits (b ∷ bs) = rw (hex_byte-digits b, hex_text-digits bs) refl

-- The digits of one byte
value_from-byte :
    (n b : ℕ) (t : Text)
    → b < 256
    → value_from n (radix_digit (b / 16) ∷ radix_digit (b % 16) ∷ t) ≡ value_from (n * 256 + b) t
value_from-byte n b t h =
    let first = digit_value-radix_digit (b / 16) (ground arith) in
    let second = digit_value-radix_digit (b % 16) (ground arith) in
    let same : (n * 16 + b / 16) * 16 + b % 16 ≡ n * 256 + b = omega arith in
    rw (first, second) (ap (λ (k : ℕ). value_from k t) same)

value_from-bytes :
    (n : ℕ) (bs : List ℕ)
    → All (λ (b : ℕ). b < 256) bs
    → value_from n (digits_of bs) ≡ bytes_value n bs
unfolding digits_of
value_from-bytes n [] h = refl
value_from-bytes n (b ∷ bs) (k, h) =
    value_from-byte n b (digits_of bs) k ∙ value_from-bytes (n * 256 + b) bs h

abbrev time_bytes : ℕ → List ℕ
time_bytes now =
    high32 now / 0x1000000 % 256
    ∷ high32 now / 0x10000 % 256
    ∷ high32 now / 0x100 % 256
    ∷ high32 now % 256
    ∷ low16 now / 0x100 % 256
    ∷ low16 now % 256
    ∷ []

below : (now : ℕ) → All (λ (b : ℕ). b < 256) (time_bytes now)
below now =
    (omega arith, (omega arith, (omega arith, (omega arith, (omega arith, (omega arith, tt))))))

four_bytes :
    (x : ℕ)
    → x < 0x100000000
    → (((0 + x / 0x1000000 % 256) * 256 + x / 0x10000 % 256) * 256 + x / 0x100 % 256) * 256
        + x % 256
      ≡ x
four_bytes x h = omega arith

two_bytes : (n y : ℕ) → y < 0x10000 → (n * 256 + y / 0x100 % 256) * 256 + y % 256 ≡ n * 0x10000 + y
two_bytes n y h = omega arith

time_bytes_value : (now : ℕ) → now < 2 ^ 48 → bytes_value 0 (time_bytes now) ≡ now
time_bytes_value now h =
    let high = four_bytes (high32 now) (omega arith) in
    let low = two_bytes (high32 now) (low16 now) (omega arith) in
    let whole : high32 now * 0x10000 + low16 now ≡ now = omega arith in
    ap (λ (x : ℕ). (x * 256 + low16 now / 0x100 % 256) * 256 + low16 now % 256) high ∙ low ∙ whole

time_digits :
    (now : ℕ) (random : ℕ → ℕ)
    → take 8 (generate_uuid_v7 now random) ++ take 4 (drop 9 (generate_uuid_v7 now random))
      ≡ digits_of (time_bytes now)
unfolding generate_uuid_v7 format_uuid uuid_bytes digits_of
time_digits now random = rw (hex_text-digits (uuid_bytes now random)) refl

version_digit : (r : ℕ) → radix_digit (with_version r / 16) ≡ b'7'
version_digit r = let seven : (r % 16 + 0x70) / 16 ≡ 7 = omega arith in rw seven refl

variant_digit : (r : ℕ) → with_variant r / 16 ≡ 8 + r % 64 / 16
variant_digit r = omega arith

-- An identifier that is generated before the millisecond 2^48 has 36 characters and shows its time, in
-- milliseconds, as its first twelve digits, behind them the version 7, and then a digit from 8 to b
-- for the variant; the random bytes are any.
pub generated-layout :
    (now : ℕ) (random : ℕ → ℕ)
    → now < 2 ^ 48
    → (time_of (generate_uuid_v7 now random) ≡ now)
      × (length (generate_uuid_v7 now random) ≡ 36)
      × (get_elem? (generate_uuid_v7 now random) 14 ≡ some b'7')
      × (d : ℕ) × (8 ≤ d)
      × (d < 12)
      × (get_elem? (generate_uuid_v7 now random) 19 ≡ some (radix_digit d))
unfolding generate_uuid_v7 format_uuid uuid_bytes digits_of time_of
generated-layout now random h = (
  ap (value_from 0) (time_digits now random)
      ∙ value_from-bytes 0 (time_bytes now) (below now)
      ∙ time_bytes_value now h,
  rw (hex_text-digits (uuid_bytes now random)) refl,
  rw (hex_text-digits (uuid_bytes now random)) (ap some (version_digit (random 6))),
  8 + random 8 % 64 / 16,
  omega arith,
  omega arith,
  rw (hex_text-digits (uuid_bytes now random))
      (ap (λ (d : ℕ). some (radix_digit d)) (variant_digit (random 8))),
)
