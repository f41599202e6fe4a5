-- ===== src/Crypto/Base64.antt =====
-- base64url (RFC 4648 section 5) over byte lists, as utils/crypto.ts computes it from `btoa` and
-- `atob`: the encoder drops the padding and swaps two letters, the decoder undoes both.
-- `atob` and `btoa` are the platform's; `atob` throws (`none`) on a character outside its alphabet,
-- on a group of one character, and on misplaced padding.
pub mod RoundTrip
use elydora_open_source.Prelude.{
  ℕ, zero, suc, ◌+◌, ◌-◌, ◌*◌, ◌/◌, ◌%◌, Bool, ◌&&◌, ◌||◌, Option, none, some, List, [], ◌∷◌, ◌++◌,
  map, ltb, leb, ◌==◌, if◌then◌else◌, length,
}
use elydora_open_source.Prelude.Texts.{Text}
use elydora_open_source.Prelude.Throws.{◌>>=◌}

-- The letter of a six-bit value in the standard alphabet.
letter : ℕ → ℕ
letter n =
    if ltb n 26
    then n + b'A'
    else if ltb n 52
    then n - 26 + b'a'
    else if ltb n 62
    then n - 52 + b'0'
    else if n == 62
    then b'+'
    else b'/'

-- The six-bit value of a letter.
value : ℕ → Option ℕ
value c =
    if leb b'A' c && leb c b'Z'
    then some (c - b'A')
    else if leb b'a' c && leb c b'z'
    then some (c - b'a' + 26)
    else if leb b'0' c && leb c b'9'
    then some (c - b'0' + 52)
    else if c == b'+'
    then some 62
    else if c == b'/'
    then some 63
    else none

-- The platform's `btoa` over bytes.
btoa : List ℕ → Text
btoa [] = []
btoa (a ∷ []) = letter (a / 4) ∷ letter (a % 4 * 16) ∷ b'=' ∷ b'=' ∷ []
btoa (a ∷ b ∷ []) = letter (a / 4) ∷ letter (a % 4 * 16 + b / 16) ∷ letter (b % 16 * 4) ∷ b'=' ∷ []
btoa (a ∷ b ∷ c ∷ rest) =
    letter (a / 4)
    ∷ letter (a % 4 * 16 + b / 16)
    ∷ letter (b % 16 * 4 + c / 64)
    ∷ letter (c % 64)
    ∷ btoa rest

-- `atob` drops ASCII white space.
is_space : ℕ → Bool
is_space c = c == 9 || c == 10 || c == 12 || c == 13 || c == 32

strip : Text → Text
strip [] = []
strip (c ∷ s) = let rest = strip s in if is_space c then rest else c ∷ rest

-- One or two `=` at the end are padding.
drop_padding : Text → Text
drop_padding [] = []
drop_padding (c ∷ []) = if c == b'=' then [] else c ∷ []
drop_padding (c ∷ d ∷ []) = if d == b'=' then if c == b'=' then [] else c ∷ [] else c ∷ d ∷ []
drop_padding (c ∷ d ∷ e ∷ s) = c ∷ drop_padding (d ∷ e ∷ s)

-- Each group of four letters is three bytes; the spare bits of the last group are dropped.
groups : Text → Option (List ℕ)
groups [] = some []
groups (c ∷ []) = none
groups (c ∷ d ∷ []) = do x ← value c; y ← value d; some ((x * 4 + y / 16) ∷ [])
groups (c ∷ d ∷ e ∷ []) = do
  x ← value c
  y ← value d
  z ← value e
  some ((x * 4 + y / 16) ∷ (y % 16 * 16 + z / 4) ∷ [])
groups (c ∷ d ∷ e ∷ f ∷ s) = do
  x ← value c
  y ← value d
  z ← value e
  w ← value f
  rest ← groups s
  some ((x * 4 + y / 16) ∷ (y % 16 * 16 + z / 4) ∷ (z % 4 * 64 + w) ∷ rest)

-- The platform's `atob`.
atob : Text → Option (List ℕ)
atob t = let s = strip t in groups (if length s % 4 == 0 then drop_padding s else s)

-- `.replace(/-/g, '+').replace(/_/g, '/')`, a letter at a time
from_url : ℕ → ℕ
from_url c = if c == b'-' then b'+' else if c == b'_' then b'/' else c

-- `.replace(/\+/g, '-').replace(/\//g, '_')`
to_url : ℕ → ℕ
to_url c = if c == b'+' then b'-' else if c == b'/' then b'_' else c

-- `.replace(/=+$/, '')`
trim_padding : Text → Text
trim_padding [] = []
trim_padding (c ∷ s) = elim (trim_padding s) [
  | [] ↦ if c == b'=' then [] else c ∷ []
  | d ∷ r ↦ c ∷ d ∷ r
]

-- The loop `while (base64.length % 4 !== 0) base64 += '='`; three rounds are enough.
pad : ℕ → Text → Text
pad zero s = s
pad (suc fuel) s = let more = pad fuel (s ++ b'=' ∷ []) in if length s % 4 == 0 then s else more

-- base64urlEncode
unfoldable pub base64url_encode : List ℕ → Text
unfolding letter btoa to_url trim_padding
base64url_encode bytes = trim_padding (map to_url (btoa bytes))

-- base64urlDecode
unfoldable pub base64url_decode : Text → Option (List ℕ)
unfolding value is_space strip drop_padding groups atob from_url pad
base64url_decode input = atob (pad 3 (map from_url input))
