-- ===== src/Worker/Stamps.antt =====
-- Requests to a time-stamping authority: packages/server/src/utils/tsa.ts.
use elydora_open_source.Prelude.{
  ℕ, Bool, true, false, ◌&&◌, ◌||◌, leb, ◌==◌, Option, none, some, List, [], ◌∷◌, ◌++◌,
  if◌then◌else◌, length,
}
use elydora_open_source.Prelude.Texts.{Text, codes}

abbrev pub default_tsa_url : Text
default_tsa_url = codes "http://timestamp.sectigo.com"

-- Everything before the hash
abbrev pub request_prefix : List ℕ
request_prefix =
    0x30 ∷ 0x39 ∷ 0x02 ∷ 0x01 ∷ 0x01 ∷ 0x30 ∷ 0x31 ∷ 0x30 ∷ 0x0d ∷ 0x06 ∷ 0x09 ∷ 0x60 ∷ 0x86 ∷ 0x48
    ∷ 0x01 ∷ 0x65 ∷ 0x03 ∷ 0x04 ∷ 0x02 ∷ 0x01 ∷ 0x05 ∷ 0x00 ∷ 0x04 ∷ 0x20 ∷ []

-- certReq = TRUE
abbrev pub request_suffix : List ℕ
request_suffix = 0x01 ∷ 0x01 ∷ 0xff ∷ []

-- buildTimeStampReq
unfoldable pub build_time_stamp_req : List ℕ → Option (List ℕ)
build_time_stamp_req hash =
    if length hash == 32 then some (request_prefix ++ (hash ++ request_suffix)) else none

-- An answer of the authority; a header that is missing is none.
pub record TsaReply : Type 0 where
  pub status : ℕ
  pub content_type : Option Text
  pub body : List ℕ

-- From a URL and a body; none if fetch throws.
abbrev pub Authority : Type 0
Authority = Text → List ℕ → Option TsaReply

abbrev starts_with : Text → Text → Bool
starts_with [] s = true
starts_with (c ∷ t) [] = false
starts_with (c ∷ t) (d ∷ s) = c == d && starts_with t s

-- s.includes(t)
unfoldable pub includes : Text → Text → Bool
includes t [] = starts_with t []
includes t (c ∷ s) = starts_with t (c ∷ s) || includes t s

abbrev header_or_empty : Option Text → Text
header_or_empty none = []
header_or_empty (some t) = t

-- The tests of an answer
unfoldable pub token_of : TsaReply → Option (List ℕ)
token_of r =
    if leb 200 r.status && leb r.status 299
    then (if includes (codes "application/timestamp-reply") (header_or_empty r.content_type)
        then some r.body
        else none)
    else none

-- requestTimestamp
unfoldable pub request_timestamp : Authority → Text → List ℕ → Option (List ℕ)
request_timestamp fetch url hash = elim (build_time_stamp_req hash) [
  | none ↦ none
  | some body ↦ elim (fetch url body) [ none ↦ none | some r ↦ token_of r ]
]
