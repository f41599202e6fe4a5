-- ===== src/Audit/Isolated.antt =====
-- What a page of the audit log may hold: Audit.
use mathlib.Core.Path.{subst}
use elydora_open_source.Prelude.{
  ℕ, zero, suc, ◌≤◌, ◌≡◌, ap, Bool, true, ◌&&◌, ltb, Option, none, some, List, [], ◌∷◌, filter,
  take, length, arith, All, Bool-cases, inl, inr,
}
use elydora_open_source.Prelude.Texts.{Text, eq_iff}
use elydora_open_source.Json.{ℤ, pos, negsuc}
use elydora_open_source.Model.Errors.{Result, ok, ◌>>=◌, >>=-eq-ok}
use elydora_open_source.Model.Entities.{Operation}
use elydora_open_source.Model.Tables.{Database}
use elydora_open_source.Audit.{
  AuditQuery, AuditPage, max_query_limit, clamped, time_bound, matches, behind_cursor, newest_first,
  requested_cursor, page_of, fetch_page, query_audit,
}
use elydora_open_source.Audit.Cursors.{Cursor}
use elydora_open_source.Audit.Order.{All-newest}

abbrev IsOwn : Text → Operation → Type 0
IsOwn org_id o = o.org_id ≡ org_id

filter-All :
    (P : Operation → Type 0) (p : Operation → Bool) (os : List Operation)
    → ((o : Operation) → p o ≡ true → P o)
    → All P (filter p os)
filter-All P p [] f = tt
filter-All P p (o ∷ os) f = elim (Bool-cases (p o)) [
  | inl t ↦ rw t (f o t, filter-All P p os f)
  | inr t ↦ rw t (filter-All P p os f)
]

All-take : (P : Operation → Type 0) (n : ℕ) (os : List Operation) → All P os → All P (take n os)
All-take P zero os h = tt
All-take P (suc n) [] h = tt
All-take P (suc n) (o ∷ os) (k, h) = (k, All-take P n os h)

length-take : (n : ℕ) (os : List Operation) → length (take n os) ≤ n
length-take zero os = omega arith
length-take (suc n) [] = omega arith
length-take (suc n) (o ∷ os) = omega (arith, length-take n os)

clamped_max : (l : Option ℤ) → clamped l ≤ max_query_limit
clamped_max none = omega arith
clamped_max (some (pos n)) = ground arith
clamped_max (some (negsuc n)) = omega arith

abbrev IsBounded : (Operation → Type 0) → AuditPage → Type 0
IsBounded P page = (length page.operations ≤ max_query_limit) × All P page.operations

page_of-IsBounded :
    (P : Operation → Type 0) (n total : ℕ) (rows : List Operation)
    → n ≤ max_query_limit
    → All P rows
    → IsBounded P (page_of n total rows)
unfolding page_of
page_of-IsBounded P n total rows h k = elim (Bool-cases (ltb n (length rows))) [
  | inl more ↦ rw more (omega (arith, h, length-take n rows), All-take P n rows k)
  | inr few ↦ rw few (ground arith, k)
]

fetch_page-IsBounded :
    (q : AuditQuery) (org_id : Text) (s e : Option ℕ) (c : Option Cursor) (db : Database)
    → IsBounded (IsOwn org_id) (fetch_page q org_id s e c db)
unfolding fetch_page
fetch_page-IsBounded q org_id s e c db =
    let test = λ (o : Operation). matches q org_id s e o && behind_cursor c o in
    page_of-IsBounded (IsOwn org_id) (clamped q.limit)
      (length (filter (matches q org_id s e) db.operations))
      (take (suc (clamped q.limit)) (newest_first (filter test db.operations)))
      (clamped_max q.limit)
      (All-take (IsOwn org_id) (suc (clamped q.limit)) (newest_first (filter test db.operations)) (
        All-newest (IsOwn org_id) (filter test db.operations) (
          filter-All (IsOwn org_id) test db.operations
            (λ o h. (eq_iff o.org_id org_id).0 (ground arith)))))

-- The rest of queryAudit, behind its first and its second test
abbrev from_cursor : AuditQuery → Text → Database → Option ℕ → Option ℕ → Result AuditPage
from_cursor q org_id db s e = requested_cursor q.cursor >>= (λ c. ok (fetch_page q org_id s e c db))

abbrev until_page : AuditQuery → Text → Database → Option ℕ → Result AuditPage
until_page q org_id db s =
    time_bound "audit.invalidEndTime" q.end_time >>= (λ e. from_cursor q org_id db s e)

abbrev value_or : AuditPage → Result AuditPage → AuditPage
value_or page (ok p) = p
value_or page _ = page

-- Every page that queryAudit returns, whatever is asked, has at most MAX_QUERY_LIMIT operations, and
-- all of them are of the organization of the caller.
pub query_audit-IsBounded :
    (q : AuditQuery) (org_id : Text) (db : Database) (page : AuditPage)
    → query_audit q org_id db ≡ ok page
    → (length page.operations ≤ max_query_limit)
      × All (λ (o : Operation). o.org_id ≡ org_id) page.operations
unfolding query_audit
query_audit-IsBounded q org_id db page h =
    let (s, hs, h1) =
      >>=-eq-ok (time_bound "audit.invalidStartTime" q.start_time) (λ s. until_page q org_id db s)
        page h in
    let (e, he, h2) =
      >>=-eq-ok (time_bound "audit.invalidEndTime" q.end_time) (λ e. from_cursor q org_id db s e)
        page h1 in
    let (c, hc, h3) =
      >>=-eq-ok (requested_cursor q.cursor) (λ c. ok (fetch_page q org_id s e c db)) page h2 in
    subst (IsBounded (IsOwn org_id)) (ap (value_or page) h3)
      (fetch_page-IsBounded q org_id s e c db)
