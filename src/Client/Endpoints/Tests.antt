-- ===== src/Client/Endpoints/Tests.antt =====
-- Paths of requests with identifiers that hold a slash, a space and a pair of surrogates.
use elydora_open_source.Prelude.{◌≡◌, refl, none, some, [], ◌∷◌, arith}
use elydora_open_source.Prelude.Texts.{Text, codes}
use elydora_open_source.Crypto.Utf8.{utf8_encode}
use elydora_open_source.Client.Endpoints.{encode_uri_component, get_agent, freeze_agent, path_of}
use elydora_open_source.Client.Endpoints.Segments.{Agree, path_of-Agree}

run : Unit {0}
unfolding utf8_encode encode_uri_component path_of
run = tt

escapes :
    path_of (freeze_agent (codes "../a b") (codes "r"))
    ≡ some (codes "/v1/agents/..%2Fa%20b/freeze")
unfolding run
escapes = refl

escapes_pair : path_of (get_agent (0xd83d ∷ 0xde00 ∷ [])) ≡ some (codes "/v1/agents/%F0%9F%98%80")
unfolding run
escapes_pair = refl

refuses_half : path_of (get_agent (0xd83d ∷ [])) ≡ none
unfolding run
refuses_half = refl

-- Dots stay, and fetch takes such a segment for a step in the path.
keeps_dots : path_of (freeze_agent (codes "..") (codes "r")) ≡ some (codes "/v1/agents/../freeze")
unfolding run
keeps_dots = refl

freezes : path_of (freeze_agent (codes "a/") (codes "r")) ≡ some (codes "/v1/agents/a%2F/freeze")
unfolding run
freezes = refl

path_of-Agree_example :
    (other : Text) × (path_of (freeze_agent (codes "x") (codes "r")) ≡ some other)
    × Agree (some (codes "a/")) (codes "/v1/agents/a%2F/freeze") other
path_of-Agree_example =
    path_of-Agree (freeze_agent (codes "a/") (codes "r")) (codes "/v1/agents/a%2F/freeze")
      (omega arith, (omega arith, tt)) freezes
