-- ===== src/Client/Endpoints/Segments.antt =====
-- An identifier stays within one segment of the path that Client/Endpoints builds.
use mathlib.Core.Path.{subst}
use elydora_open_source.Prelude.{
  ℕ, ◌/◌, ◌%◌, ◌<◌, ◌≡◌, ◌≢◌, refl, ap, ◌∙◌, append_nil, sym, ◌&&◌, ◌||◌, Option, none, some, List,
  [], ◌∷◌, ◌++◌, arith, All, All-append, true, Bool-cases, inl, inr,
}
use elydora_open_source.Prelude.Texts.{Text, codes}
use elydora_open_source.Prelude.Throws.{◌>>=◌, >>=-eq-some}
use elydora_open_source.Crypto.Utf8.Bytes.{IsUnit, utf8_encode-bytes}
use elydora_open_source.Crypto.Utf8.{is_high, is_low, utf8_encode}
use elydora_open_source.Client.Endpoints.{
  is_unreserved, hex_digit, percent, encode_uri_component, path_of, Endpoint, get_me,
  issue_api_token, rotate_api_token, register_agent, get_agent, update_agent, freeze_agent,
  list_agents, unfreeze_agent, delete_agent, revoke_key, submit_operation, get_operation,
  verify_operation, query_audit, list_epochs, get_epoch, create_export, list_exports, get_export,
  list_webhooks, register_webhook, delete_webhook, list_members, list_admin_events,
}

none_eq_some : (t : Text) → none ≡ some t → ⊥
none_eq_some t h = cc

-- A printable ASCII character other than `/`, `?` and `#`.
abbrev pub IsPlain : ℕ → Type 0
IsPlain c = (32 < c) × (c < 127) × (c ≢ 47) × (c ≢ 63) × (c ≢ 35)

unreserved-IsPlain : (c : ℕ) → is_unreserved c ≡ true → IsPlain c
unreserved-IsPlain c h = ground arith

hex-IsPlain : (d : ℕ) → d < 16 → IsPlain (hex_digit d)
hex-IsPlain d h = ground arith

percent-IsPlain : (bs : List ℕ) → All (λ (b : ℕ). b < 256) bs → All IsPlain (percent bs)
percent-IsPlain [] h = tt
percent-IsPlain (b ∷ bs) (k, h) = (
  ground arith,
  (hex-IsPlain (b / 16) (omega arith), (hex-IsPlain (b % 16) (omega arith), percent-IsPlain bs h)),
)

some-eq : (s t : Text) → some s ≡ some t → s ≡ t
some-eq s t e = ground arith

-- A character or a pair of them before the rest.
IsPlain-then :
    (front : Text) (m : Option Text) (t : Text)
    → All IsPlain front
    → ((rest : Text) → m ≡ some rest → All IsPlain rest)
    → (m >>= (λ (rest : Text). some (front ++ rest))) ≡ some t
    → All IsPlain t
IsPlain-then front m t h k e =
    let (rest, there, same) = >>=-eq-some m (λ (rest : Text). some (front ++ rest)) t e in
    subst (All IsPlain) (some-eq (front ++ rest) t same)
      (All-append IsPlain front rest h (k rest there))

-- What encodeURIComponent gives has no character that ends a segment of a path.
pub encode-IsPlain : (s t : Text) → All IsUnit s → encode_uri_component s ≡ some t → All IsPlain t
unfolding encode_uri_component
encode-IsPlain [] t h e = subst (All IsPlain) (some-eq [] t e) tt
encode-IsPlain (c ∷ []) t (k, h) e = elim (Bool-cases (is_unreserved c)) [
  | inl kept ↦
      subst (All IsPlain) (some-eq (c ∷ []) t (rw kept at e)) (unreserved-IsPlain c kept, tt)
  | inr other ↦ elim (Bool-cases (is_high c || is_low c)) [
    | inl half ↦ absurd (none_eq_some t (rw (other, half) at e))
    | inr whole ↦
        subst (All IsPlain) (some-eq (percent (utf8_encode (c ∷ []))) t (rw (other, whole) at e))
          (percent-IsPlain (utf8_encode (c ∷ [])) (utf8_encode-bytes (c ∷ []) (k, tt)))
  ]
]
encode-IsPlain (c ∷ d ∷ s) t (k, (l, h)) e =
    let after_one =
      λ (r : Text) (q : encode_uri_component (d ∷ s) ≡ some r). encode-IsPlain (d ∷ s) r (l, h) q in
    let after_pair = λ (r : Text) (q : encode_uri_component s ≡ some r). encode-IsPlain s r h q in
    elim (Bool-cases (is_unreserved c)) [
      | inl kept ↦
          IsPlain-then (c ∷ []) (encode_uri_component (d ∷ s)) t (unreserved-IsPlain c kept, tt)
            after_one (rw kept at e)
      | inr other ↦ elim (Bool-cases (is_high c && is_low d)) [
        | inl pair ↦
            IsPlain-then (percent (utf8_encode (c ∷ d ∷ []))) (encode_uri_component s) t
              (percent-IsPlain (utf8_encode (c ∷ d ∷ []))
                (utf8_encode-bytes (c ∷ d ∷ []) (k, (l, tt))))
              after_pair (rw (other, pair) at e)
        | inr single ↦ elim (Bool-cases (is_high c || is_low c)) [
          | inl half ↦ absurd (none_eq_some t (rw (other, single, half) at e))
          | inr whole ↦
              IsPlain-then (percent (utf8_encode (c ∷ []))) (encode_uri_component (d ∷ s)) t
                (percent-IsPlain (utf8_encode (c ∷ [])) (utf8_encode-bytes (c ∷ []) (k, tt)))
                after_one (rw (other, single, whole) at e)
        ]
      ]
    ]

-- The identifier of a method that has one in its path
abbrev pub id_of : Endpoint → Option Text
id_of (get_agent a) = some a
id_of (update_agent a type) = some a
id_of (freeze_agent a reason) = some a
id_of (unfreeze_agent a reason) = some a
id_of (delete_agent a) = some a
id_of (revoke_key a kid reason) = some a
id_of (get_operation o) = some o
id_of (verify_operation o) = some o
id_of (get_epoch e) = some e
id_of (get_export e) = some e
id_of (delete_webhook w) = some w
id_of _ = none

-- The same call for another identifier
abbrev pub renamed : Text → Endpoint → Endpoint
renamed id (get_agent a) = get_agent id
renamed id (update_agent a type) = update_agent id type
renamed id (freeze_agent a reason) = freeze_agent id reason
renamed id (unfreeze_agent a reason) = unfreeze_agent id reason
renamed id (delete_agent a) = delete_agent id
renamed id (revoke_key a kid reason) = revoke_key id kid reason
renamed id (get_operation o) = get_operation id
renamed id (verify_operation o) = verify_operation id
renamed id (get_epoch e) = get_epoch id
renamed id (get_export e) = get_export id
renamed id (delete_webhook w) = delete_webhook id
renamed id e = e

abbrev pub AreUnits : Option Text → Type 0
AreUnits none = Unit
AreUnits (some t) = All IsUnit t

-- Two paths agree; or they agree but for one place, where the second has the text x and the first has
-- the escaped identifier, in which no character ends a segment.
abbrev pub Agree : Option Text → Text → Text → Type 0
Agree none path other = path ≡ other
Agree (some id) path other =
    (before segment after : Text) × (encode_uri_component id ≡ some segment)
    × (path ≡ before ++ (segment ++ after))
    × (other ≡ before ++ (codes "x" ++ after))
    × All IsPlain segment

-- What stands behind an identifier: nothing, or the name of an action
segment-Agree :
    (id before after path : Text)
    → All IsUnit id
    → (encode_uri_component id >>= (λ (s : Text). some (before ++ (s ++ after)))) ≡ some path
    → Agree (some id) path (before ++ (codes "x" ++ after))
segment-Agree id before after path h e =
    let (segment, there, same) =
      >>=-eq-some (encode_uri_component id) (λ (s : Text). some (before ++ (s ++ after))) path e in
    (
      before,
      segment,
      after,
      there,
      sym (some-eq (before ++ (segment ++ after)) path same),
      refl,
      encode-IsPlain id segment h there,
    )

last-Agree :
    (id before path : Text)
    → All IsUnit id
    → (encode_uri_component id >>= (λ (s : Text). some (before ++ s))) ≡ some path
    → Agree (some id) path (before ++ codes "x")
last-Agree id before path h e =
    let (segment, there, same) =
      >>=-eq-some (encode_uri_component id) (λ (s : Text). some (before ++ s)) path e in
    (
      before,
      segment,
      [],
      there,
      sym (some-eq (before ++ segment) path same)
          ∙ ap (λ (t : Text). before ++ t) (sym (append_nil segment)),
      refl,
      encode-IsPlain id segment h there,
    )

-- Whatever the identifier of a call is, of code units, the path that the client asks for is that of
-- the same call for the identifier x, with the escaped identifier in the place of x; no character of
-- it ends a segment. Dots are not escaped.
pub path_of-Agree :
    (e : Endpoint) (path : Text)
    → AreUnits (id_of e)
    → path_of e ≡ some path
    → (other : Text) × (path_of (renamed (codes "x") e) ≡ some other) × Agree (id_of e) path other
unfolding path_of encode_uri_component
path_of-Agree (get_agent a) path h e = (_, refl, last-Agree a (codes "/v1/agents/") path h e)
path_of-Agree (update_agent a type) path h e =
    (_, refl, last-Agree a (codes "/v1/agents/") path h e)
path_of-Agree (freeze_agent a reason) path h e =
    (_, refl, segment-Agree a (codes "/v1/agents/") (codes "/freeze") path h e)
path_of-Agree (unfreeze_agent a reason) path h e =
    (_, refl, segment-Agree a (codes "/v1/agents/") (codes "/unfreeze") path h e)
path_of-Agree (delete_agent a) path h e = (_, refl, last-Agree a (codes "/v1/agents/") path h e)
path_of-Agree (revoke_key a kid reason) path h e =
    (_, refl, segment-Agree a (codes "/v1/agents/") (codes "/revoke") path h e)
path_of-Agree (get_operation o) path h e =
    (_, refl, last-Agree o (codes "/v1/operations/") path h e)
path_of-Agree (verify_operation o) path h e =
    (_, refl, segment-Agree o (codes "/v1/operations/") (codes "/verify") path h e)
path_of-Agree (get_epoch i) path h e = (_, refl, last-Agree i (codes "/v1/epochs/") path h e)
path_of-Agree (get_export i) path h e = (_, refl, last-Agree i (codes "/v1/exports/") path h e)
path_of-Agree (delete_webhook w) path h e = (_, refl, last-Agree w (codes "/v1/webhooks/") path h e)
path_of-Agree get_me path h e = (path, e, refl)
path_of-Agree (issue_api_token ttl) path h e = (path, e, refl)
path_of-Agree rotate_api_token path h e = (path, e, refl)
path_of-Agree (register_agent body) path h e = (path, e, refl)
path_of-Agree list_agents path h e = (path, e, refl)
path_of-Agree (submit_operation eor) path h e = (path, e, refl)
path_of-Agree (query_audit params) path h e = (path, e, refl)
path_of-Agree list_epochs path h e = (path, e, refl)
path_of-Agree (create_export params) path h e = (path, e, refl)
path_of-Agree list_exports path h e = (path, e, refl)
path_of-Agree list_webhooks path h e = (path, e, refl)
path_of-Agree (register_webhook url events secret) path h e = (path, e, refl)
path_of-Agree list_members path h e = (path, e, refl)
path_of-Agree (list_admin_events limit) path h e = (path, e, refl)
