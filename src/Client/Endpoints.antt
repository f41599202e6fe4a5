-- ===== src/Client/Endpoints.antt =====
-- The requests of the Node client's methods, in sdks/node/src/client.ts: method, path and body.
--
-- An identifier becomes a segment of the path by `encodeURIComponent`, which throws on half of a
-- surrogate pair. integration-types.ts has the test of integration types.
pub mod Segments
mod Tests
use elydora_open_source.Prelude.{
  ℕ, ◌+◌, ◌/◌, ◌%◌, Bool, ◌&&◌, ◌||◌, Option, none, some, List, [], ◌∷◌, ◌++◌, ◌==◌, ltb, leb,
  if◌then◌else◌, any, true, false,
}
use elydora_open_source.Prelude.Texts.{Text, codes}
use elydora_open_source.Prelude.Throws.{◌>>=◌}
use elydora_open_source.Json.{
  member, Json, Fields, Elements, nil, cons, array, undefined, null, string, number, pos, object,
  end, field,
}
use elydora_open_source.Json.Stringify.{decimal}
use elydora_open_source.Crypto.Utf8.{is_high, is_low, utf8_encode}
use elydora_open_source.Agents.Validation.{integration_types, is_named}
use elydora_open_source.Client.{Client}
use elydora_open_source.Client.Requests.{
  Method, get, post, patch, delete, Outcome, Exchange, HttpRequest, request,
}

-- The characters that encodeURIComponent keeps.
abbrev pub is_unreserved : ℕ → Bool
is_unreserved c =
    (leb 65 c && leb c 90)
    || (leb 97 c && leb c 122)
    || (leb 48 c && leb c 57)
    || any (λ (k : ℕ). k == c) (codes "-_.!~*'()")

abbrev pub hex_digit : ℕ → ℕ
hex_digit d = if ltb d 10 then 48 + d else 55 + d

abbrev pub percent : List ℕ → Text
percent [] = []
percent (b ∷ bs) = codes "%" ++ (hex_digit (b / 16) ∷ hex_digit (b % 16) ∷ percent bs)

-- encodeURIComponent(s)
unfoldable pub encode_uri_component : Text → Option Text
encode_uri_component [] = some []
encode_uri_component (c ∷ []) =
    if is_unreserved c
    then some (c ∷ [])
    else if is_high c || is_low c
    then none
    else some (percent (utf8_encode (c ∷ [])))
encode_uri_component (c ∷ d ∷ s) =
    let after_pair = encode_uri_component s in
    let after_one = encode_uri_component (d ∷ s) in
    if is_unreserved c
    then (do rest ← after_one; some (c ∷ rest))
    else if is_high c && is_low d
    then (do rest ← after_pair; some (percent (utf8_encode (c ∷ d ∷ [])) ++ rest))
    else if is_high c || is_low c
    then none
    else (do rest ← after_one; some (percent (utf8_encode (c ∷ [])) ++ rest))

-- The methods that go through `request`, with their arguments.
pub data Endpoint : Type 0 where
  get_me : Endpoint
  issue_api_token : Option ℕ → Endpoint
  rotate_api_token : Endpoint
  register_agent : Json → Endpoint
  get_agent : Text → Endpoint
  update_agent : Text → Json → Endpoint
  freeze_agent : Text → Text → Endpoint
  list_agents : Endpoint
  unfreeze_agent : Text → Text → Endpoint
  delete_agent : Text → Endpoint
  revoke_key : Text → Text → Text → Endpoint
  submit_operation : Json → Endpoint
  get_operation : Text → Endpoint
  verify_operation : Text → Endpoint
  query_audit : Json → Endpoint
  list_epochs : Endpoint
  get_epoch : Text → Endpoint
  create_export : Json → Endpoint
  list_exports : Endpoint
  get_export : Text → Endpoint
  list_webhooks : Endpoint
  register_webhook : Text → List Text → Text → Endpoint
  delete_webhook : Text → Endpoint
  list_members : Endpoint
  list_admin_events : Option ℕ → Endpoint

abbrev pub method_of : Endpoint → Method
method_of get_me = get
method_of (issue_api_token ttl) = post
method_of rotate_api_token = post
method_of (register_agent body) = post
method_of (get_agent a) = get
method_of (update_agent a type) = patch
method_of (freeze_agent a reason) = post
method_of list_agents = get
method_of (unfreeze_agent a reason) = post
method_of (delete_agent a) = delete
method_of (revoke_key a kid reason) = post
method_of (submit_operation eor) = post
method_of (get_operation o) = get
method_of (verify_operation o) = post
method_of (query_audit params) = post
method_of list_epochs = get
method_of (get_epoch e) = get
method_of (create_export params) = post
method_of list_exports = get
method_of (get_export e) = get
method_of list_webhooks = get
method_of (register_webhook url events secret) = post
method_of (delete_webhook w) = delete
method_of list_members = get
method_of (list_admin_events limit) = get

-- limit ? `?limit=${limit}` : ''
abbrev pub limit_query : Option ℕ → Text
limit_query none = []
limit_query (some n) = if n == 0 then [] else codes "?limit=" ++ decimal n

unfoldable pub path_of : Endpoint → Option Text
path_of get_me = some (codes "/v1/auth/me")
path_of (issue_api_token ttl) = some (codes "/v1/auth/token")
path_of rotate_api_token = some (codes "/v1/auth/rotate")
path_of (register_agent body) = some (codes "/v1/agents/register")
path_of (get_agent a) = do s ← encode_uri_component a; some (codes "/v1/agents/" ++ s)
path_of (update_agent a type) = do s ← encode_uri_component a; some (codes "/v1/agents/" ++ s)
path_of (freeze_agent a reason) = do
  s ← encode_uri_component a
  some (codes "/v1/agents/" ++ (s ++ codes "/freeze"))
path_of list_agents = some (codes "/v1/agents")
path_of (unfreeze_agent a reason) = do
  s ← encode_uri_component a
  some (codes "/v1/agents/" ++ (s ++ codes "/unfreeze"))
path_of (delete_agent a) = do s ← encode_uri_component a; some (codes "/v1/agents/" ++ s)
path_of (revoke_key a kid reason) = do
  s ← encode_uri_component a
  some (codes "/v1/agents/" ++ (s ++ codes "/revoke"))
path_of (submit_operation eor) = some (codes "/v1/operations")
path_of (get_operation o) = do s ← encode_uri_component o; some (codes "/v1/operations/" ++ s)
path_of (verify_operation o) = do
  s ← encode_uri_component o
  some (codes "/v1/operations/" ++ (s ++ codes "/verify"))
path_of (query_audit params) = some (codes "/v1/audit/query")
path_of list_epochs = some (codes "/v1/epochs")
path_of (get_epoch e) = do s ← encode_uri_component e; some (codes "/v1/epochs/" ++ s)
path_of (create_export params) = some (codes "/v1/exports")
path_of list_exports = some (codes "/v1/exports")
path_of (get_export e) = do s ← encode_uri_component e; some (codes "/v1/exports/" ++ s)
path_of list_webhooks = some (codes "/v1/webhooks")
path_of (register_webhook url events secret) = some (codes "/v1/webhooks")
path_of (delete_webhook w) = do s ← encode_uri_component w; some (codes "/v1/webhooks/" ++ s)
path_of list_members = some (codes "/v1/members")
path_of (list_admin_events limit) = some (codes "/v1/admin/events" ++ limit_query limit)

abbrev reason_body : Text → Json
reason_body reason = object (field (codes "reason") (string reason) end)

-- ttlSeconds ?? null
abbrev ttl_json : Option ℕ → Json
ttl_json none = null
ttl_json (some n) = number (pos n)

abbrev strings : List Text → Elements
strings [] = nil
strings (s ∷ ss) = cons (string s) (strings ss)

abbrev pub body_of : Endpoint → Json
body_of (issue_api_token ttl) = object (field (codes "ttl_seconds") (ttl_json ttl) end)
body_of rotate_api_token = object end
body_of (register_agent body) = body
body_of (update_agent a type) = object (field (codes "integration_type") type end)
body_of (freeze_agent a reason) = reason_body reason
body_of (unfreeze_agent a reason) = reason_body reason
body_of (revoke_key a kid reason) =
    object (field (codes "kid") (string kid) (field (codes "reason") (string reason) end))
body_of (submit_operation eor) = eor
body_of (verify_operation o) = object end
body_of (query_audit params) = params
body_of (create_export params) = params
body_of (register_webhook url events secret) = object (
    field (codes "endpoint_url") (string url) (
      field (codes "events") (array (strings events)) (field (codes "secret") (string secret) end)))
body_of _ = undefined

-- assertIntegrationType
abbrev pub is_integration_type : Json → Bool
is_integration_type (string s) = any (is_named s) integration_types
is_integration_type _ = false

-- What the method asserts of its arguments before it sends anything.
abbrev pub asserted : Endpoint → Bool
asserted (register_agent body) = is_integration_type (member (codes "integration_type") body)
asserted (update_agent a type) = is_integration_type type
asserted _ = true

-- A call of the method: none if it throws before it sends anything.
unfoldable pub call : Client → (HttpRequest → ℕ → Outcome) → Endpoint → Option Exchange
call c server e = do
  path ← if asserted e then path_of e else none
  some (request c server (method_of e) path (body_of e))
