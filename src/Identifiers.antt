-- ===== src/Identifiers.antt =====
-- Time-ordered identifiers: packages/server/src/utils/uuid.ts.
--
-- The bytes of crypto.getRandomValues are a function of their place. `&`, `|` and `>>>` by constants
-- are written with division and remainder; they act on bytes and on numbers below 2^48.
pub mod Layout
mod Tests
use elydora_open_source.Prelude.{
  ℕ, ◌+◌, ◌-◌, ◌/◌, ◌%◌, List, [], ◌∷◌, ◌++◌, ltb, if◌then◌else◌, take, drop,
}
use elydora_open_source.Prelude.Texts.{Text}

-- high32 and low16
abbrev pub high32 : ℕ → ℕ
high32 now = now / 0x10000

abbrev pub low16 : ℕ → ℕ
low16 now = now % 0x10000

-- (b & 0x0f) | 0x70
abbrev pub with_version : ℕ → ℕ
with_version b = b % 16 + 0x70

-- (b & 0x3f) | 0x80
abbrev pub with_variant : ℕ → ℕ
with_variant b = b % 64 + 0x80

-- The bytes that are formatted
unfoldable pub uuid_bytes : ℕ → (ℕ → ℕ) → List ℕ
uuid_bytes now random =
    high32 now / 0x1000000 % 256
    ∷ high32 now / 0x10000 % 256
    ∷ high32 now / 0x100 % 256
    ∷ high32 now % 256
    ∷ low16 now / 0x100 % 256
    ∷ low16 now % 256
    ∷ with_version (random 6)
    ∷ random 7
    ∷ with_variant (random 8)
    ∷ random 9
    ∷ random 10
    ∷ random 11
    ∷ random 12
    ∷ random 13
    ∷ random 14
    ∷ random 15
    ∷ []

abbrev pub radix_digit : ℕ → ℕ
radix_digit n = if ltb n 10 then n + b'0' else n - 10 + b'a'

-- b.toString(16).padStart(2, '0') of a byte
unfoldable pub hex_byte : ℕ → Text
hex_byte b =
    if ltb b 16 then b'0' ∷ radix_digit b ∷ [] else radix_digit (b / 16) ∷ radix_digit (b % 16) ∷ []

unfoldable pub hex_text : List ℕ → Text
hex_text [] = []
hex_text (b ∷ bs) = hex_byte b ++ hex_text bs

abbrev slice : ℕ → ℕ → Text → Text
slice start end t = take (end - start) (drop start t)

-- formatUUID
unfoldable pub format_uuid : List ℕ → Text
format_uuid bytes =
    let hex = hex_text bytes in
    slice 0 8 hex
    ++ (b'-' ∷ slice 8 12 hex)
    ++ (b'-' ∷ slice 12 16 hex)
    ++ (b'-' ∷ slice 16 20 hex)
    ++ (b'-' ∷ slice 20 32 hex)

-- generateUUIDv7
unfoldable pub generate_uuid_v7 : ℕ → (ℕ → ℕ) → Text
generate_uuid_v7 now random = format_uuid (uuid_bytes now random)
