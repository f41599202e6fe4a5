-- ===== src/Access/Tokens.antt =====
-- The life of an API token: it authenticates its user from its issue until it expires.
use elydora_open_source.Prelude.{
  ℕ, ◌+◌, ◌≤◌, ◌/◌, ◌≡◌, refl, sym, ap, ◌∙◌, inl, inr, true, false, Option, none, some, List, ◌∷◌,
  arith, find?,
}
use elydora_open_source.Prelude.Texts.{Text, text_eq, eq_refl, eq_complete}
use elydora_open_source.Crypto.Platform.{Platform}
use elydora_open_source.Model.Errors.{Result, ok}
use elydora_open_source.Model.Entities.{RbacRole, UserStatus, User, ApiToken}
use elydora_open_source.Model.Tables.{Database, DbResult-cases, done}
use elydora_open_source.Model.Statements.{insert_api_token}
use elydora_open_source.Model.World.{World, execute, pure, >>=-eq-ok}
use elydora_open_source.Access.{
  Authenticated, has_user_id, is_expired, admit, Issued, Issue, issued, hash_token, find_token,
  authenticate_api_token, token_row, issue_api_token,
}

insert-tokens :
    (t : ApiToken) (db db' : Database)
    → insert_api_token t db ≡ done db'
    → (db'.api_tokens ≡ t ∷ db.api_tokens) × (db'.users ≡ db.users)
unfolding insert_api_token
insert-tokens t db db' h = (ground arith, ground arith)

ok_issued : (i j : Issued) → ◌≡◌ {A = Result Issued} (ok i) (ok j) → i ≡ j
ok_issued i j h = ground arith

execute-tokens :
    (t : ApiToken) (w : World) (u : Unit {0})
    → (execute (insert_api_token t) w).0 ≡ ok u
    → (execute (insert_api_token t) w).1.db.api_tokens ≡ t ∷ w.db.api_tokens
unfolding execute
execute-tokens t w u h = elim (DbResult-cases (insert_api_token t w.db)) [
  | inl (db, did) ↦ let (rows, users) = insert-tokens t w.db db did in rw (did, execute) rows
  | inr (x, not) ↦ absurd (ground arith)
]

-- Who a token speaks for
abbrev pub entitled : Text → Text → Text → RbacRole → Authenticated
entitled token_id user org role = record {
  token_id = token_id;
  user_id = user;
  org_id = org;
  role = role;
}

admit-live :
    (now : ℕ) (t : ApiToken) (u : User)
    → is_expired now t.expires_at ≡ false
    → u.status ≡ UserStatus.active
    → u.org_id ≡ some t.org_id
    → admit now t u ≡ some (entitled t.token_id t.user_id t.org_id u.role)
unfolding admit
admit-live now t u live active member = ground (arith, eq_refl t.org_id)

admit-late :
    (now : ℕ) (t : ApiToken) (u : User) → is_expired now t.expires_at ≡ true → admit now t u ≡ none
unfolding admit
admit-late now t u late = rw late refl

found-first :
    (t : ApiToken) (rows : List ApiToken) (hash : Text)
    → text_eq t.token_hash hash ≡ true
    → find? (λ (s : ApiToken). text_eq s.token_hash hash) (t ∷ rows) ≡ some t
found-first t rows hash same = ground arith

module _ (p : Platform) where
  -- What an issue that succeeds gives and adds.
  pub issue-adds :
      (c : Issue) (user org : Text) (ttl : Option ℕ) (w : World) (i : Issued)
      → (issue_api_token p c user org ttl w).0 ≡ ok i
      → (i ≡ issued c ttl)
        × ((issue_api_token p c user org ttl w).1.db.api_tokens
            ≡ token_row p c user org ttl ∷ w.db.api_tokens)
  unfolding issue_api_token
  issue-adds c user org ttl w i h =
      let act = execute (insert_api_token (token_row p c user org ttl)) in
      let (u, inserted, given) = >>=-eq-ok act (λ (v : Unit {0}). pure (issued c ttl)) w i h in
      let same : (issue_api_token p c user org ttl w).1 ≡ (act w).1 = rw inserted refl in
      (
        sym (ok_issued (issued c ttl) i given),
        rw same (execute-tokens (token_row p c user org ttl) w u inserted),
      )

  find_token-first :
      (raw : Text) (db : Database) (t : ApiToken) (rows : List ApiToken) (u : User)
      → db.api_tokens ≡ t ∷ rows
      → text_eq t.token_hash (hash_token p raw) ≡ true
      → find? (has_user_id t.user_id) db.users ≡ some u
      → find_token p raw db ≡ some (t, u)
  unfolding find_token
  find_token-first raw db t rows u tokens same finds =
      let first : find? (λ (s : ApiToken). text_eq s.token_hash (hash_token p raw)) db.api_tokens
          ≡ some t =
        ap (find? (λ (s : ApiToken). text_eq s.token_hash (hash_token p raw))) tokens
        ∙ found-first t rows (hash_token p raw) same in
      ground arith

  authenticate-found :
      (now : ℕ) (raw : Text) (db : Database) (t : ApiToken) (u : User)
      → find_token p raw db ≡ some (t, u)
      → authenticate_api_token p now raw db ≡ admit (now / 1000) t u
  unfolding authenticate_api_token
  authenticate-found now raw db t u h = rw (h, authenticate_api_token) refl

  -- A token that was issued is found with its user, and tested as the row that was added.
  issued-admit :
      (c : Issue) (user org : Text) (ttl : Option ℕ) (w : World) (i : Issued)
      → (now : ℕ) (db : Database) (u : User) → (issue_api_token p c user org ttl w).0 ≡ ok i
      → db.api_tokens ≡ (issue_api_token p c user org ttl w).1.db.api_tokens
      → find? (has_user_id user) db.users ≡ some u
      → authenticate_api_token p now i.token db ≡ admit (now / 1000) (token_row p c user org ttl) u
  unfolding token_row
  issued-admit c user org ttl w i now db u h tokens finds =
      let (given, added) = issue-adds c user org ttl w i h in
      let row = token_row p c user org ttl in
      let hash : hash_token p i.token ≡ row.token_hash =
        ap (λ (j : Issued). hash_token p j.token) given in
      authenticate-found now i.token db row u (
        find_token-first i.token db row w.db.api_tokens u (tokens ∙ added)
          (eq_complete row.token_hash (hash_token p i.token) (sym hash)) finds)

  -- A token that was issued authenticates its user, while its row is there and before it expires, if
  -- the user is active and still in the organization.
  pub issued_authenticates :
      (c : Issue) (user org : Text) (ttl : Option ℕ) (w : World) (i : Issued)
      → (now : ℕ) (db : Database) (u : User) → (issue_api_token p c user org ttl w).0 ≡ ok i
      → db.api_tokens ≡ (issue_api_token p c user org ttl w).1.db.api_tokens
      → find? (has_user_id user) db.users ≡ some u
      → is_expired (now / 1000) i.expires_at ≡ false
      → u.status ≡ UserStatus.active
      → u.org_id ≡ some org
      → authenticate_api_token p now i.token db ≡ some (entitled i.token_id user org u.role)
  unfolding token_row
  issued_authenticates c user org ttl w i now db u h tokens finds live active member =
      let (given, added) = issue-adds c user org ttl w i h in
      issued-admit c user org ttl w i now db u h tokens finds
      ∙ admit-live (now / 1000) (token_row p c user org ttl) u
          (ap (λ (j : Issued). is_expired (now / 1000) j.expires_at) (sym given) ∙ live) active
          member
      ∙ ap (λ (j : Issued). some (entitled j.token_id user org u.role)) (sym given)

  -- A token that was issued for a number of seconds authenticates nobody from that many whole seconds
  -- after the second of its issue on, in each state that has the tokens of the time of its issue and
  -- its user.
  pub expired_refused :
      (c : Issue) (user org : Text) (ttl : ℕ) (w : World) (i : Issued)
      → (now : ℕ) (db : Database) (u : User) → (issue_api_token p c user org (some ttl) w).0 ≡ ok i
      → db.api_tokens ≡ (issue_api_token p c user org (some ttl) w).1.db.api_tokens
      → find? (has_user_id user) db.users ≡ some u
      → c.now / 1000 + ttl ≤ now / 1000
      → authenticate_api_token p now i.token db ≡ none
  unfolding token_row
  expired_refused c user org ttl w i now db u h tokens finds late =
      issued-admit c user org (some ttl) w i now db u h tokens finds
      ∙ admit-late (now / 1000) (token_row p c user org (some ttl)) u (ground arith)
