-- ===== src/Access.antt =====
-- Who calls: packages/server/src/services/api-token-service.ts, middleware/auth.ts and rbac.ts, and
-- the route of routes/auth.ts that issues a token.
--
-- Better Auth looks up sessions; what it answers is a parameter.
pub mod Tokens
pub mod Roles
mod Tests
use elydora_open_source.Prelude.{
  ℕ, ◌+◌, ◌*◌, ◌/◌, ◌%◌, Bool, true, false, ◌&&◌, not, Option, none, some, List, [], ◌∷◌, ◌++◌,
  find?, ltb, leb, ◌==◌, if◌then◌else◌,
}
use elydora_open_source.Prelude.Texts.{Text, codes, text_eq, trim}
use elydora_open_source.Json.{Json, ℤ, undefined, null, number, pos, negsuc}
use elydora_open_source.Crypto.Base64.{base64url_encode}
use elydora_open_source.Crypto.Utf8.{utf8_encode}
use elydora_open_source.Crypto.Platform.{Platform}
use elydora_open_source.Model.Errors.{
  AppError, keyed, validation_error, unauthorized, forbidden, Result, ok, error, fault,
}
use elydora_open_source.Model.Entities.{
  RbacRole, org_owner, security_admin, compliance_auditor, readonly_investigator,
  integration_engineer, UserStatus, User, ApiToken,
}
use elydora_open_source.Model.Tables.{Database}
use elydora_open_source.Model.Statements.{insert_api_token}
use elydora_open_source.Model.World.{World, Exec, execute, lift, pure, ◌>>=◌}

abbrev hex_digit : ℕ → ℕ
hex_digit d = if ltb d 10 then 48 + d else 87 + d

-- digest('hex')
abbrev hex : List ℕ → Text
hex [] = []
hex (b ∷ bs) = hex_digit (b / 16) ∷ hex_digit (b % 16) ∷ hex bs

abbrev pub role_name : RbacRole → Text
role_name org_owner = codes "org_owner"
role_name security_admin = codes "security_admin"
role_name compliance_auditor = codes "compliance_auditor"
role_name readonly_investigator = codes "readonly_investigator"
role_name integration_engineer = codes "integration_engineer"

-- AuthenticatedApiToken
pub record Authenticated : Type 0 where
  pub token_id : Text
  pub user_id : Text
  pub org_id : Text
  pub role : RbacRole

abbrev is_active : UserStatus → Bool
is_active UserStatus.active = true
is_active UserStatus.suspended = false

abbrev pub has_user_id : Text → User → Bool
has_user_id user_id u = text_eq u.user_id user_id

-- row.expires_at !== null && row.expires_at <= nowSeconds
abbrev pub is_expired : ℕ → Option ℕ → Bool
is_expired now none = false
is_expired now (some t) = leb t now

-- row.user_org_id === row.org_id
abbrev pub is_org : Option Text → Text → Bool
is_org none org_id = false
is_org (some o) org_id = text_eq o org_id

-- The tests of a row of the join
unfoldable pub admit : ℕ → ApiToken → User → Option Authenticated
admit now t u =
    if is_expired now t.expires_at
    then none
    else if is_active u.status && is_org u.org_id t.org_id
    then some
        (record { token_id = t.token_id; user_id = t.user_id; org_id = t.org_id; role = u.role })
    else none

-- What is issued, with the token itself.
pub record Issued : Type 0 where
  pub token : Text
  pub token_id : Text
  pub expires_at : Option ℕ

-- What the process supplies: the time in milliseconds, a generated id and 32 random bytes.
pub record Issue : Type 0 where
  pub now : ℕ
  pub token_id : Text
  pub random : List ℕ

-- ttlSeconds === null ? null : nowSeconds + ttlSeconds
abbrev pub expiry_after : ℕ → Option ℕ → Option ℕ
expiry_after now_seconds none = none
expiry_after now_seconds (some ttl) = some (now_seconds + ttl)

abbrev pub issued : Issue → Option ℕ → Issued
issued c ttl = record {
  token = base64url_encode c.random;
  token_id = c.token_id;
  expires_at = expiry_after (c.now / 1000) ttl;
}

module _ (p : Platform) where
  unfoldable pub hash_token : Text → Text
  hash_token token = hex (p.digest (utf8_encode token))

  -- The row of the join, which has one user for a token.
  unfoldable pub find_token : Text → Database → Option (ApiToken × User)
  find_token raw db =
      elim (find? (λ (t : ApiToken). text_eq t.token_hash (hash_token raw)) db.api_tokens) [
        | none ↦ none
        | some t ↦ elim (find? (has_user_id t.user_id) db.users) [
          | none ↦ none
          | some u ↦ some (t, u)
        ]
      ]

  -- authenticateApiToken, at a time in milliseconds
  unfoldable pub authenticate_api_token : ℕ → Text → Database → Option Authenticated
  authenticate_api_token now raw db = elim (find_token raw db) [
    | none ↦ none
    | some (t, u) ↦ admit (now / 1000) t u
  ]

  unfoldable pub token_row : Issue → Text → Text → Option ℕ → ApiToken
  token_row c user_id org_id ttl = record {
    token_id = c.token_id;
    user_id = user_id;
    org_id = org_id;
    token_hash = hash_token (base64url_encode c.random);
    issued_at = c.now / 1000;
    expires_at = expiry_after (c.now / 1000) ttl;
  }

  -- issueApiToken
  unfoldable pub issue_api_token : Issue → Text → Text → Option ℕ → Exec Issued
  issue_api_token c user_id org_id ttl = do
    _ ← execute (insert_api_token (token_row c user_id org_id ttl))
    pure (issued c ttl)

pub data TokenType : Type 0 where
  api session : TokenType

-- What the middleware sets for the handlers. A role that a session names is any text.
pub record Caller : Type 0 where
  pub org_id : Text
  pub role : Text
  pub actor : Text
  pub auth_token_type : TokenType

pub record SessionUser : Type 0 where
  pub id : Text
  pub org_id : Option Text
  pub role : Option Text

-- What getSession does: it throws, finds no session, or finds a user.
pub data SessionLookup : Type 0 where
  rejected : SessionLookup
  no_session : SessionLookup
  found : SessionUser → SessionLookup

abbrev or_text : Option Text → Text → Text
or_text none d = d
or_text (some t) d = t

abbrev pub of_token : Authenticated → Caller
of_token a = record {
  org_id = a.org_id;
  role = role_name a.role;
  actor = a.user_id;
  auth_token_type = api;
}

abbrev pub of_session : SessionLookup → Result Caller
of_session rejected = error (keyed 401 unauthorized "auth.invalidSession" [])
of_session no_session = error (keyed 401 unauthorized "auth.invalidSession" [])
of_session (found u) = ok (record {
  org_id = or_text u.org_id [];
  role = or_text u.role (codes "readonly_investigator");
  actor = u.id;
  auth_token_type = session;
})

-- authHeader.startsWith('Bearer ') ? authHeader.slice(7).trim() : ''
unfoldable pub bearer_token : Text → Text
bearer_token (a ∷ b ∷ c ∷ d ∷ e ∷ f ∷ g ∷ rest) =
    if text_eq (a ∷ b ∷ c ∷ d ∷ e ∷ f ∷ g ∷ []) (codes "Bearer ") then trim rest else []
bearer_token _ = []

module _ (p : Platform) (get_session : Text → SessionLookup) where
  abbrev token_caller : ℕ → Text → Database → Option Authenticated
  token_caller now [] db = none
  token_caller now (c ∷ s) db = authenticate_api_token p now (c ∷ s) db

  -- authMiddleware: a token of the API first, then a session. An empty header is missing.
  unfoldable pub authenticate : ℕ → Option Text → Database → Result Caller
  authenticate now (some (c ∷ s)) db = elim (token_caller now (bearer_token (c ∷ s)) db) [
    | some a ↦ ok (of_token a)
    | none ↦ of_session (get_session (c ∷ s))
  ]
  authenticate now _ db = error (keyed 401 unauthorized "auth.missingHeader" [])

-- ROLE_LEVEL
abbrev pub role_level : RbacRole → ℕ
role_level readonly_investigator = 10
role_level integration_engineer = 20
role_level compliance_auditor = 30
role_level security_admin = 40
role_level org_owner = 50

abbrev pub roles : List RbacRole
roles =
    org_owner ∷ security_admin ∷ compliance_auditor ∷ readonly_investigator ∷ integration_engineer
    ∷ []

abbrev reaches : Option RbacRole → RbacRole → Bool
reaches none required = false
reaches (some r) required = leb (role_level required) (role_level r)

-- ROLE_LEVEL[userRole] >= ROLE_LEVEL[requiredRole]: a text that names no role has no level, and no
-- comparison with it holds.
unfoldable pub has_minimum_role : Text → RbacRole → Bool
has_minimum_role role required =
    reaches (find? (λ (r : RbacRole). text_eq (role_name r) role) roles) required

abbrev pub refuse_role : Text → RbacRole → Result (Unit {0})
refuse_role [] minimum = error (keyed 401 unauthorized "rbac.noRole" [])
refuse_role (c ∷ s) minimum =
    if has_minimum_role (c ∷ s) minimum
    then ok tt
    else error (keyed 403 forbidden "rbac.insufficientPermissions" [])

-- requireRole
unfoldable pub require_role : RbacRole → Caller → Result (Unit {0})
require_role minimum c = refuse_role c.role minimum

abbrev pub max_ttl_seconds : ℕ
max_ttl_seconds = 31536000

-- The lifetime of a request for a token
unfoldable pub valid_ttl_seconds : Json → Result (Option ℕ)
valid_ttl_seconds undefined = ok none
valid_ttl_seconds null = ok none
valid_ttl_seconds (number (pos n)) =
    if ltb 0 n && leb n max_ttl_seconds
    then ok (some n)
    else error (keyed 400 validation_error "auth.ttlMustBePositive" [])
valid_ttl_seconds (number (negsuc n)) =
    error (keyed 400 validation_error "auth.ttlMustBePositive" [])
valid_ttl_seconds _ = error (keyed 400 validation_error "auth.ttlMustBeNumber" [])

abbrev pub session_only : Caller → Result (Unit {0})
session_only c = elim c.auth_token_type [
  | session ↦ ok tt
  | api ↦ error (keyed 400 validation_error "auth.issueRequiresSession" [])
]

abbrev pub some_organization : Text → Result (Unit {0})
some_organization [] = error (keyed 409 validation_error "auth.organizationRequiredForApiToken" [])
some_organization (c ∷ s) = ok tt

-- POST /v1/auth/token, after the middleware
unfoldable pub issue_route : Platform → Issue → Json → Caller → Exec Issued
issue_route p c ttl_seconds caller = do
  _ ← lift (session_only caller)
  ttl ← lift (valid_ttl_seconds ttl_seconds)
  _ ← lift (some_organization caller.org_id)
  issue_api_token p c caller.actor caller.org_id ttl
