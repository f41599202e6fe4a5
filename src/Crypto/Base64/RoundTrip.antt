-- ===== src/Crypto/Base64/RoundTrip.antt =====
-- Decoding what the encoder of utils/crypto.ts writes gives the bytes back.
use elydora_open_source.Prelude.{
  ℕ, zero, suc, ◌+◌, ◌*◌, ◌/◌, ◌%◌, ◌<◌, ◌≡◌, refl, true, false, Option, some, List, [], ◌∷◌, ◌++◌,
  map, arith, ◌==◌, length, All, Bool-cases, inl, inr,
}
use elydora_open_source.Prelude.Texts.{Text}
use elydora_open_source.Prelude.Throws.{◌>>=◌}
use elydora_open_source.Crypto.Base64.{
  letter, value, btoa, is_space, strip, drop_padding, groups, atob, from_url, to_url, trim_padding,
  pad, base64url_encode, base64url_decode,
}

letter-value : (n : ℕ) → n < 64 → value (letter n) ≡ some n
unfolding letter value
letter-value n h = ground arith

letter-from_url : (n : ℕ) → n < 64 → from_url (to_url (letter n)) ≡ letter n
unfolding letter from_url to_url
letter-from_url n h = ground arith

letter-is_space : (n : ℕ) → n < 64 → is_space (letter n) ≡ false
unfolding letter is_space
letter-is_space n h = ground arith

letter-ne-pad : (n : ℕ) → n < 64 → (letter n == b'=') ≡ false
unfolding letter
letter-ne-pad n h = ground arith

to_url-ne-pad : (n : ℕ) → n < 64 → (to_url (letter n) == b'=') ≡ false
unfolding letter to_url
to_url-ne-pad n h = ground arith

-- A letter in front is kept by the encoder's trimming.
trim-cons : (c : ℕ) (s : Text) → (c == b'=') ≡ false → trim_padding (c ∷ s) ≡ c ∷ trim_padding s
unfolding trim_padding
trim-cons c s h = ground arith

strip-cons : (n : ℕ) (s : Text) → n < 64 → strip (letter n ∷ s) ≡ letter n ∷ strip s
unfolding strip
strip-cons n s h = rw (letter-is_space n h)

drop-cons :
    (c d e f : ℕ) (s : Text)
    → (e == b'=') ≡ false
    → (f == b'=') ≡ false
    → drop_padding (c ∷ d ∷ e ∷ f ∷ s) ≡ c ∷ d ∷ e ∷ f ∷ drop_padding s
unfolding drop_padding
drop-cons c d e f [] p q = ground arith
drop-cons c d e f (g ∷ []) p q = ground arith
drop-cons c d e f (g ∷ h ∷ s) p q = refl

pad-cons : (fuel c d e f : ℕ) (s : Text) → pad fuel (c ∷ d ∷ e ∷ f ∷ s) ≡ c ∷ d ∷ e ∷ f ∷ pad fuel s
unfolding pad
pad-cons zero c d e f s = refl
pad-cons (suc fuel) c d e f s =
    let same : (suc (suc (suc (suc (length s)))) % 4 == 0) ≡ (length s % 4 == 0) = ground arith in
    rw same (elim (Bool-cases (length s % 4 == 0)) [
      | inl whole ↦ rw whole
      | inr rest ↦ rw rest (pad-cons fuel c d e f (s ++ b'=' ∷ []))
    ])

-- The decoder after `from_url`.
decode : Text → Option (List ℕ)
decode s = atob (pad 3 s)

-- What a decoded group of four letters puts in front of the rest.
front : ℕ → ℕ → ℕ → ℕ → List ℕ → Option (List ℕ)
front x y z w rest = some ((x * 4 + y / 16) ∷ (y % 16 * 16 + z / 4) ∷ (z % 4 * 64 + w) ∷ rest)

module _ (x y z w : ℕ) (hx : x < 64) (hy : y < 64) (hz : z < 64) (hw : w < 64) where
  groups-cons :
      (s : Text)
      → groups (letter x ∷ letter y ∷ letter z ∷ letter w ∷ s) ≡ (groups s >>= front x y z w)
  unfolding groups front
  groups-cons s =
      rw (letter-value x hx, letter-value y hy, letter-value z hz, letter-value w hw) refl

  strip-four :
      (s : Text)
      → strip (letter x ∷ letter y ∷ letter z ∷ letter w ∷ s)
        ≡ letter x ∷ letter y ∷ letter z ∷ letter w ∷ strip s
  strip-four s = rw (
    strip-cons x (letter y ∷ letter z ∷ letter w ∷ s) hx,
    strip-cons y (letter z ∷ letter w ∷ s) hy,
    strip-cons z (letter w ∷ s) hz,
    strip-cons w s hw,
  )

  atob-cons :
      (s : Text) → atob (letter x ∷ letter y ∷ letter z ∷ letter w ∷ s) ≡ (atob s >>= front x y z w)
  unfolding atob
  atob-cons s = elim (Bool-cases (length (strip s) % 4 == 0)) [
    | inl whole ↦
        let same : (suc (suc (suc (suc (length (strip s))))) % 4 == 0) ≡ true = ground arith in
        rw
          (
            strip-four s,
            same,
            whole,
            drop-cons (letter x) (letter y) (letter z) (letter w) (strip s) (letter-ne-pad z hz)
                (letter-ne-pad w hw),
          )
          (groups-cons (drop_padding (strip s)))
    | inr part ↦
        let same : (suc (suc (suc (suc (length (strip s))))) % 4 == 0) ≡ false = ground arith in
        rw (strip-four s, same, part) (groups-cons (strip s))
  ]

  decode-cons :
      (s : Text)
      → decode (letter x ∷ letter y ∷ letter z ∷ letter w ∷ s) ≡ (decode s >>= front x y z w)
  unfolding decode
  decode-cons s =
      rw (pad-cons 3 (letter x) (letter y) (letter z) (letter w) s) (atob-cons (pad 3 s))

-- What the decoder sees of an encoded list: the letters, with no padding.
plain : List ℕ → Text
plain bytes = map from_url (trim_padding (map to_url (btoa bytes)))

abbrev pub IsByte : ℕ → Type 0
IsByte b = b < 256

plain-cons :
    (x y z w : ℕ) (s : Text)
    → x < 64
    → y < 64
    → z < 64
    → w < 64
    → map from_url (trim_padding (map to_url (letter x ∷ letter y ∷ letter z ∷ letter w ∷ s)))
      ≡ letter x ∷ letter y ∷ letter z ∷ letter w ∷ map from_url (trim_padding (map to_url s))
plain-cons x y z w s hx hy hz hw =
    let rest = map to_url s in
    rw (
      trim-cons (to_url (letter x))
          (to_url (letter y) ∷ to_url (letter z) ∷ to_url (letter w) ∷ rest) (to_url-ne-pad x hx),
      trim-cons (to_url (letter y)) (to_url (letter z) ∷ to_url (letter w) ∷ rest)
          (to_url-ne-pad y hy),
      trim-cons (to_url (letter z)) (to_url (letter w) ∷ rest) (to_url-ne-pad z hz),
      trim-cons (to_url (letter w)) rest (to_url-ne-pad w hw),
      letter-from_url x hx,
      letter-from_url y hy,
      letter-from_url z hz,
      letter-from_url w hw,
    )

two_letters :
    (x y : ℕ) → x < 64 → y < 64 → decode (letter x ∷ letter y ∷ []) ≡ some ((x * 4 + y / 16) ∷ [])
unfolding decode atob pad
two_letters x y hx hy =
    rw (strip-cons x (letter y ∷ b'=' ∷ b'=' ∷ []) hx, strip-cons y (b'=' ∷ b'=' ∷ []) hy)
      (unfold strip is_space drop_padding groups in rw (letter-value x hx, letter-value y hy))

three_letters :
    (x y z : ℕ)
    → x < 64
    → y < 64
    → z < 64
    → decode (letter x ∷ letter y ∷ letter z ∷ [])
      ≡ some ((x * 4 + y / 16) ∷ (y % 16 * 16 + z / 4) ∷ [])
unfolding decode atob pad
three_letters x y z hx hy hz =
    rw
      (
        strip-cons x (letter y ∷ letter z ∷ b'=' ∷ []) hx,
        strip-cons y (letter z ∷ b'=' ∷ []) hy,
        strip-cons z (b'=' ∷ []) hz,
      )
      (unfold strip is_space drop_padding groups in
        rw (letter-ne-pad z hz, letter-value x hx, letter-value y hy, letter-value z hz))

trim_two : trim_padding (to_url b'=' ∷ to_url b'=' ∷ []) ≡ []
unfolding trim_padding to_url
trim_two = refl

trim_one : trim_padding (to_url b'=' ∷ []) ≡ []
unfolding trim_padding to_url
trim_one = refl

url_two :
    (x y : ℕ)
    → x < 64
    → y < 64
    → map from_url (trim_padding (map to_url (letter x ∷ letter y ∷ b'=' ∷ b'=' ∷ [])))
      ≡ letter x ∷ letter y ∷ []
url_two x y hx hy = rw (
  trim-cons (to_url (letter x)) (to_url (letter y) ∷ to_url b'=' ∷ to_url b'=' ∷ [])
      (to_url-ne-pad x hx),
  trim-cons (to_url (letter y)) (to_url b'=' ∷ to_url b'=' ∷ []) (to_url-ne-pad y hy),
  trim_two,
  letter-from_url x hx,
  letter-from_url y hy,
)

url_three :
    (x y z : ℕ)
    → x < 64
    → y < 64
    → z < 64
    → map from_url (trim_padding (map to_url (letter x ∷ letter y ∷ letter z ∷ b'=' ∷ [])))
      ≡ letter x ∷ letter y ∷ letter z ∷ []
url_three x y z hx hy hz = rw (
  trim-cons (to_url (letter x)) (to_url (letter y) ∷ to_url (letter z) ∷ to_url b'=' ∷ [])
      (to_url-ne-pad x hx),
  trim-cons (to_url (letter y)) (to_url (letter z) ∷ to_url b'=' ∷ []) (to_url-ne-pad y hy),
  trim-cons (to_url (letter z)) (to_url b'=' ∷ []) (to_url-ne-pad z hz),
  trim_one,
  letter-from_url x hx,
  letter-from_url y hy,
  letter-from_url z hz,
)

one_byte : (a : ℕ) → a < 256 → decode (plain (a ∷ [])) ≡ some (a ∷ [])
unfolding plain btoa
one_byte a h =
    rw
      (
        url_two (a / 4) (a % 4 * 16) (omega arith) (omega arith),
        two_letters (a / 4) (a % 4 * 16) (omega arith) (omega arith),
      )
      (ground arith)

two_bytes : (a b : ℕ) → a < 256 → b < 256 → decode (plain (a ∷ b ∷ [])) ≡ some (a ∷ b ∷ [])
unfolding plain btoa
two_bytes a b h k =
    rw
      (
        url_three (a / 4) (a % 4 * 16 + b / 16) (b % 16 * 4) (omega arith) (omega arith)
            (omega arith),
        three_letters (a / 4) (a % 4 * 16 + b / 16) (b % 16 * 4) (omega arith) (omega arith)
            (omega arith),
      )
      (ground arith)

decode-plain : (bytes : List ℕ) → All IsByte bytes → decode (plain bytes) ≡ some bytes
unfolding plain btoa front
decode-plain [] h = unfold decode atob pad strip drop_padding groups trim_padding in refl
decode-plain (a ∷ []) (p, h) = one_byte a p
decode-plain (a ∷ b ∷ []) (p, (q, h)) = two_bytes a b p q
decode-plain (a ∷ b ∷ c ∷ rest) (p, (q, (r, h))) =
    rw
      (
        plain-cons (a / 4) (a % 4 * 16 + b / 16) (b % 16 * 4 + c / 64) (c % 64) (btoa rest)
            (omega arith) (omega arith) (omega arith) (omega arith),
        decode-cons (a / 4) (a % 4 * 16 + b / 16) (b % 16 * 4 + c / 64) (c % 64) (omega arith)
            (omega arith) (omega arith) (omega arith) (plain rest),
        decode-plain rest h,
      )
      (ground arith)

-- Decoding the base64url text of a list of bytes gives the list back.
pub decode-encode :
    (bytes : List ℕ) → All IsByte bytes → base64url_decode (base64url_encode bytes) ≡ some bytes
unfolding base64url_decode base64url_encode decode plain
decode-encode bytes h = decode-plain bytes h
