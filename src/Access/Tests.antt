-- ===== src/Access/Tests.antt =====
-- A token of a user, and the theorems at it.
use elydora_open_source.Prelude.{
  arith, ℕ, ◌+◌, ◌≡◌, ◌≢◌, ◌≤◌, ◌<◌, refl, none, some, [], ◌∷◌, find?, ◌↔◌,
}
use elydora_open_source.Prelude.Texts.{codes, text_eq, trim_start, trim_end}
use elydora_open_source.Json.{number, pos}
use elydora_open_source.Crypto.Base64.{base64url_encode}
use elydora_open_source.Crypto.Utf8.{utf8_encode}
use elydora_open_source.Model.Errors.{ok, error, keyed, forbidden}
use elydora_open_source.Model.Entities.{
  UserStatus, User, security_admin, compliance_auditor, integration_engineer,
}
use elydora_open_source.Model.Statements.{insert_api_token}
use elydora_open_source.Model.World.{World, execute}
use elydora_open_source.Access.{
  has_user_id, Issue, Issued, issued, hash_token, find_token, admit, authenticate_api_token,
  token_row, issue_api_token, bearer_token, authenticate, Caller, session, rejected, of_token,
  has_minimum_role, require_role, valid_ttl_seconds, issue_route, max_ttl_seconds,
}
use elydora_open_source.Access.Tokens.{entitled, issued_authenticates, expired_refused}
use elydora_open_source.Access.Roles.{HasLevel, require_role_iff, issue_route-IsBounded}
use elydora_open_source.Samples.{open_platform, empty_world, empty_database}

abbrev user : User
user = record {
  user_id = codes "u";
  org_id = some (codes "o");
  email = codes "e";
  display_name = codes "U";
  role = security_admin;
  status = UserStatus.active;
  created_at = 1;
  updated_at = 1;
}

abbrev before : World
before = record empty_world { db = record empty_database { users = user ∷ [] } }

abbrev issue : Issue
issue = record { now = 5000; token_id = codes "t"; random = 1 ∷ 2 ∷ [] }

abbrev token : Issued
token = issued issue (some 10)

run : Unit {0}
unfolding text_eq trim_start trim_end base64url_encode utf8_encode insert_api_token execute
    hash_token find_token admit authenticate_api_token token_row issue_api_token bearer_token
    authenticate has_minimum_role require_role valid_ttl_seconds issue_route
run = tt

issues : (issue_api_token open_platform issue (codes "u") (codes "o") (some 10) before).0 ≡ ok token
unfolding run
issues = refl

abbrev after : World
after = (issue_api_token open_platform issue (codes "u") (codes "o") (some 10) before).1

finds : find? (has_user_id (codes "u")) after.db.users ≡ some user
unfolding run
finds = refl

issued_authenticates_example :
    authenticate_api_token open_platform 14999 token.token after.db
    ≡ some (entitled (codes "t") (codes "u") (codes "o") security_admin)
issued_authenticates_example =
    issued_authenticates open_platform issue (codes "u") (codes "o") (some 10) before token 14999
      after.db user issues refl finds refl refl refl

expired_refused_example : authenticate_api_token open_platform 15000 token.token after.db ≡ none
expired_refused_example =
    expired_refused open_platform issue (codes "u") (codes "o") 10 before token 15000 after.db user
      issues refl finds (omega arith)

abbrev caller : Caller
caller = record {
  org_id = codes "o";
  role = codes "security_admin";
  actor = codes "u";
  auth_token_type = session;
}

require_role_iff_example :
    (require_role compliance_auditor caller ≡ ok tt) ↔ HasLevel compliance_auditor caller.role
require_role_iff_example = require_role_iff compliance_auditor caller

-- A role that the server does not know has no level.
refuses_unknown :
    require_role integration_engineer (record caller { role = codes "admin" })
    ≡ error (keyed 403 forbidden "rbac.insufficientPermissions" [])
unfolding run
refuses_unknown = refl

authenticates_bearer :
    authenticate open_platform (λ h. rejected) 14999 (some (codes "Bearer  AQI ")) after.db
    ≡ ok (of_token (entitled (codes "t") (codes "u") (codes "o") security_admin))
unfolding run
authenticates_bearer = refl

routes : (issue_route open_platform issue (number (pos 10)) caller before).0 ≡ ok token
unfolding run
routes = refl

issue_route-IsBounded_example :
    (caller.auth_token_type ≡ session)
    × (caller.org_id ≢ [])
    × ((t : ℕ) → token.expires_at ≡ some t → (5 < t) × (t ≤ 5 + max_ttl_seconds))
issue_route-IsBounded_example =
    issue_route-IsBounded open_platform issue (number (pos 10)) caller before token routes
