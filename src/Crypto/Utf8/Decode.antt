-- ===== src/Crypto/Utf8/Decode.antt =====
-- `TextDecoder` of the platform: UTF-8 bytes to UTF-16 code units. A sequence that is no character
-- becomes U+FFFD, and a byte order mark in front is left out.
pub mod RoundTrip
use elydora_open_source.Prelude.{
  ℕ, zero, suc, ◌+◌, ◌-◌, ◌*◌, ◌/◌, ◌%◌, Bool, true, false, ◌&&◌, List, [], ◌∷◌, ◌++◌, ltb, leb,
  ◌==◌, if◌then◌else◌,
}
use elydora_open_source.Prelude.Texts.{Text}

-- What a first byte is: a character, the start of one with so many bytes to come after the next, the
-- bits so far and the bounds of the next byte, or an error.
pub data Lead : Type 0 where
  ascii : Lead
  starts : (more bits low high : ℕ) → Lead
  bad : Lead

abbrev pub lead_of : ℕ → Lead
lead_of b =
    if ltb b 0x80
    then ascii
    else if ltb b 0xc2
    then bad
    else if ltb b 0xe0
    then starts 0 (b - 0xc0) 0x80 0xbf
    else if b == 0xe0
    then starts 1 0 0xa0 0xbf
    else if b == 0xed
    then starts 1 13 0x80 0x9f
    else if ltb b 0xf0
    then starts 1 (b - 0xe0) 0x80 0xbf
    else if b == 0xf0
    then starts 2 0 0x90 0xbf
    else if b == 0xf4
    then starts 2 4 0x80 0x8f
    else if ltb b 0xf4
    then starts 2 (b - 0xf0) 0x80 0xbf
    else bad

-- The units of a character
abbrev pub units_of : ℕ → Text
units_of p =
    if ltb p 0x10000
    then p ∷ []
    else (0xd800 + (p - 0x10000) / 1024) ∷ (0xdc00 + (p - 0x10000) % 1024) ∷ []

pub data Mode : Type 0 where
  fresh : Mode
  inside : (more bits low high : ℕ) → Mode

unfoldable pub decode : Mode → List ℕ → Text
decode fresh [] = []
decode (inside more bits low high) [] = 0xfffd ∷ []
decode fresh (b ∷ bs) = elim (lead_of b) [
  | ascii ↦ b ∷ decode fresh bs
  | starts more bits low high ↦ decode (inside more bits low high) bs
  | bad ↦ 0xfffd ∷ decode fresh bs
]
decode (inside more bits low high) (b ∷ bs) = elim (leb low b && leb b high) [
  | true ↦ elim more [
    | zero ↦ units_of (bits * 64 + (b - 0x80)) ++ decode fresh bs
    | suc m ↦ decode (inside m (bits * 64 + (b - 0x80)) 0x80 0xbf) bs
  ]
  | false ↦ elim (lead_of b) [
    | ascii ↦ 0xfffd ∷ b ∷ decode fresh bs
    | starts more' bits' low' high' ↦ 0xfffd ∷ decode (inside more' bits' low' high') bs
    | bad ↦ 0xfffd ∷ 0xfffd ∷ decode fresh bs
  ]
]

abbrev without_mark : Text → Text
without_mark [] = []
without_mark (c ∷ s) = if c == 0xfeff then s else c ∷ s

-- new TextDecoder().decode(bytes)
unfoldable pub utf8_decode : List ℕ → Text
utf8_decode bs = without_mark (decode fresh bs)
