-- ===== src/Access/Roles.antt =====
-- What the middleware of Access guarantees to the handlers behind it.
use mathlib.Core.Path.{subst}
use elydora_open_source.Prelude.{
  List, ap, sym, ◌∙◌, ltb, ◌&&◌, if◌then◌else◌, ◌↔◌, ℕ, ◌+◌, ◌/◌, ◌≤◌, ◌<◌, ◌≡◌, ◌≢◌, refl, Option,
  none, some, [], ◌∷◌, arith, leb, leb→le, find?, Option-cases, inl, inr, Bool-cases, true, false,
}
use elydora_open_source.Prelude.Texts.{Text, text_eq, eq_iff}
use elydora_open_source.Json.{number, pos, Json}
use elydora_open_source.Access.Tokens.{issue-adds}
use elydora_open_source.Crypto.Platform.{Platform}
use elydora_open_source.Model.Errors.{
  AppError, keyed, validation_error, unauthorized, Result, ok, error,
}
use elydora_open_source.Model.Entities.{
  RbacRole, org_owner, security_admin, compliance_auditor, readonly_investigator,
  integration_engineer,
}
use elydora_open_source.Model.World.{World, lift, ◌>>=◌, >>=-eq-ok}
use elydora_open_source.Access.{
  role_name, role_level, roles, has_minimum_role, Caller, refuse_role, require_role, session,
  valid_ttl_seconds, max_ttl_seconds, Issue, Issued, expiry_after, issue_api_token, session_only,
  some_organization, issue_route,
}

some-injective : (q r : RbacRole) → some q ≡ some r → q ≡ r
some-injective q r h = ground arith

clash : false ≡ true → ⊥
clash h = cc

le→leb : (a b : ℕ) → a ≤ b → leb a b ≡ true
le→leb a b h = ground arith

find-named :
    (role : Text) (rs : List RbacRole) (r : RbacRole)
    → find? (λ (q : RbacRole). text_eq (role_name q) role) rs ≡ some r
    → role_name r ≡ role
find-named role [] r h = cc
find-named role (q ∷ rs) r h = elim (Bool-cases (text_eq (role_name q) role)) [
  | inl this ↦
      let same : q ≡ r = some-injective q r (rw this at h) in
      subst (λ (x : RbacRole). role_name x ≡ role) same ((eq_iff (role_name q) role).0 this)
  | inr other ↦ find-named role rs r (rw other at h)
]

finds-role :
    (r : RbacRole) → find? (λ (q : RbacRole). text_eq (role_name q) (role_name r)) roles ≡ some r
unfolding text_eq
finds-role org_owner = refl
finds-role security_admin = refl
finds-role compliance_auditor = refl
finds-role readonly_investigator = refl
finds-role integration_engineer = refl

-- A role of at least the level of another
abbrev pub HasLevel : RbacRole → Text → Type 0
HasLevel minimum role = (r : RbacRole) × (role_name r ≡ role) × (role_level minimum ≤ role_level r)

minimum_sound :
    (role : Text) (minimum : RbacRole)
    → has_minimum_role role minimum ≡ true
    → HasLevel minimum role
unfolding has_minimum_role
minimum_sound role minimum h =
    elim (Option-cases (find? (λ (q : RbacRole). text_eq (role_name q) role) roles)) [
      | inl absent ↦ absurd (clash (rw absent at h))
      | inr (r, found) ↦ (
        r,
        find-named role roles r found,
        leb→le (role_level minimum) (role_level r) (rw found at h),
      )
    ]

minimum_complete :
    (minimum r : RbacRole)
    → role_level minimum ≤ role_level r
    → has_minimum_role (role_name r) minimum ≡ true
unfolding has_minimum_role
minimum_complete minimum r h = rw (finds-role r) (le→leb (role_level minimum) (role_level r) h)

error_ok : (x : AppError) → ◌≡◌ {A = Result (Unit {0})} (error x) (ok tt) → ⊥
error_ok x h = cc

refuse_sound :
    (role : Text) (minimum : RbacRole)
    → refuse_role role minimum ≡ ok tt
    → has_minimum_role role minimum ≡ true
refuse_sound [] minimum h = absurd (error_ok (keyed 401 unauthorized "rbac.noRole" []) h)
refuse_sound (c ∷ s) minimum h = ground arith

refuse_complete :
    (minimum r : RbacRole)
    → role_level minimum ≤ role_level r
    → refuse_role (role_name r) minimum ≡ ok tt
refuse_complete minimum org_owner h = rw (minimum_complete minimum org_owner h) refl
refuse_complete minimum security_admin h = rw (minimum_complete minimum security_admin h) refl
refuse_complete minimum compliance_auditor h =
    rw (minimum_complete minimum compliance_auditor h) refl
refuse_complete minimum readonly_investigator h =
    rw (minimum_complete minimum readonly_investigator h) refl
refuse_complete minimum integration_engineer h =
    rw (minimum_complete minimum integration_engineer h) refl

-- The handlers behind requireRole run for the callers whose role has at least the level required.
pub require_role_iff :
    (minimum : RbacRole) (c : Caller) → (require_role minimum c ≡ ok tt) ↔ HasLevel minimum c.role
unfolding require_role
require_role_iff minimum c = (
  (λ h. minimum_sound c.role minimum (refuse_sound c.role minimum h)),
  (λ (r, name, level).
      subst (λ (x : Text). refuse_role x minimum ≡ ok tt) name (refuse_complete minimum r level)),
)

negative :
    (v n : ℕ)
    → ◌≡◌ {A = Result (Option ℕ)}
        (if ltb 0 v && leb v max_ttl_seconds
          then ok (some v)
          else error (keyed 400 validation_error "auth.ttlMustBePositive" []))
        (ok (some n))
    → (0 < n) × (n ≤ max_ttl_seconds)
negative v n h = ground arith

ttl-bounds :
    (v : Json) (n : ℕ) → valid_ttl_seconds v ≡ ok (some n) → (0 < n) × (n ≤ max_ttl_seconds)
unfolding valid_ttl_seconds
ttl-bounds (number (pos v)) n h = negative v n h
ttl-bounds v n h = ground arith

expiry-bounds :
    (now : ℕ) (ttl : Option ℕ) (t : ℕ)
    → ((n : ℕ) → ttl ≡ some n → (0 < n) × (n ≤ max_ttl_seconds))
    → expiry_after now ttl ≡ some t
    → (now < t) × (t ≤ now + max_ttl_seconds)
expiry-bounds now none t h e = cc
expiry-bounds now (some n) t h e =
    let (low, high) = h n refl in
    let same : now + n ≡ t = ground arith in (omega (arith, same, low), omega (arith, same, high))

session-only : (c : Caller) → session_only c ≡ ok tt → c.auth_token_type ≡ session
session-only c h = ground arith

some-organization : (o : Text) → some_organization o ≡ ok tt → o ≢ []
some-organization [] h = absurd (ground arith)
some-organization (c ∷ s) h = λ e. cc

-- A token is issued to a session with an organization only, and expires within a year if it does.
pub issue_route-IsBounded :
    (p : Platform) (c : Issue) (v : Json) (caller : Caller) (w : World) (i : Issued)
    → (issue_route p c v caller w).0 ≡ ok i
    → (caller.auth_token_type ≡ session)
      × (caller.org_id ≢ [])
      × ((t : ℕ)
          → i.expires_at ≡ some t
          → (c.now / 1000 < t) × (t ≤ c.now / 1000 + max_ttl_seconds))
unfolding issue_route
issue_route-IsBounded p c v caller w i h =
    let issue =
      λ (ttl : Option ℕ) (u : Unit {0}). issue_api_token p c caller.actor caller.org_id ttl in
    let k2 = λ (ttl : Option ℕ). lift (some_organization caller.org_id) >>= issue ttl in
    let k1 = λ (u : Unit {0}). lift (valid_ttl_seconds v) >>= k2 in
    let (u, by_session, h1) = >>=-eq-ok (lift (session_only caller)) k1 w i h in
    let (ttl, lifetime, h2) = >>=-eq-ok (lift (valid_ttl_seconds v)) k2 w i h1 in
    let (x, organized, h3) =
      >>=-eq-ok (lift (some_organization caller.org_id)) (issue ttl) w i h2 in
    let (given, added) = issue-adds p c caller.actor caller.org_id ttl w i h3 in
    (
      session-only caller by_session,
      some-organization caller.org_id organized,
      λ t expires.
          expiry-bounds (c.now / 1000) ttl t
            (λ n is. ttl-bounds v n (lifetime ∙ ap (λ (o : Option ℕ). ok o) is))
            (ap (λ (j : Issued). j.expires_at) (sym given) ∙ expires),
    )
