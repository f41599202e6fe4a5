-- ===== src/Audit/Following.antt =====
-- A client that follows the cursors of the audit log: Audit.
use mathlib.Core.Path.{subst}
use mathlib.Core.List.{Perm}
use elydora_open_source.Json.Parse.{parse, parse_value, skip_white}
use elydora_open_source.Crypto.Base64.{base64url_decode}
use elydora_open_source.Crypto.Utf8.Decode.{utf8_decode, decode}
use elydora_open_source.Prelude.{
  ℕ, zero, suc, ◌-◌, ◌≤◌, ◌<◌, ◌≡◌, refl, sym, ap, ◌∙◌, Bool, true, false, ◌&&◌, ltb, leb, Option,
  none, some, List, [], ◌∷◌, ◌++◌, filter, take, last?, length, length-append, append_assoc, arith,
  All, All-right, Bool-cases, inl, inr,
}
use elydora_open_source.Prelude.Texts.{Text}
use elydora_open_source.Json.{ℤ, pos, negsuc}
use elydora_open_source.Model.Errors.{Result, ok, fault, ◌>>=◌}
use elydora_open_source.Model.Entities.{Operation}
use elydora_open_source.Model.Tables.{Database}
use elydora_open_source.Crypto.Utf8.Bytes.{IsUnit}
use elydora_open_source.Audit.{
  AuditQuery, clamped, time_bound, matches, behind_cursor, newer, newest_first, requested_cursor,
  cursor_of, page_of, fetch_page, query_audit,
}
use elydora_open_source.Audit.Cursors.{Cursor, encode_cursor, decode_cursor, checked_cursor}
use elydora_open_source.Audit.Cursors.RoundTrip.{cursor-read}
use elydora_open_source.Audit.Order.{
  AreDistinct, IsNewestFirst, Differ, All-filter, All-newest, newest_first-IsNewestFirst,
  filter-newest_first, behind_row, length-newest_first, newest_first-perm,
}

-- A page, and what the next ones hold
abbrev onwards :
    List Operation → Option Text → (Text → Result (List Operation)) → Result (List Operation)
onwards page none next = ok page
onwards page (some t) next = next t >>= (λ rest. ok (page ++ rest))

-- The client asks again with each cursor that it is given; `fuel` bounds its requests.
unfoldable pub follow : ℕ → AuditQuery → Text → Database → Result (List Operation)
follow zero q org_id db = fault
follow (suc fuel) q org_id db = query_audit q org_id db >>= (λ page.
    onwards page.operations page.cursor (λ t. follow fuel (record q { cursor = some t }) org_id db))

-- The rows of a query in the order of the log
abbrev pub listed : AuditQuery → Text → Option ℕ → Option ℕ → Database → List Operation
listed q org_id s e db = newest_first (filter (matches q org_id s e) db.operations)

abbrev rows_behind :
    AuditQuery → Text → Option ℕ → Option ℕ → Option Cursor → Database → List Operation
rows_behind q org_id s e c db =
    newest_first
      (filter (λ (o : Operation). matches q org_id s e o && behind_cursor c o) db.operations)

clamped-suc : (l : Option ℤ) → clamped l ≡ suc (clamped l - 1)
clamped-suc none = refl
clamped-suc (some (pos n)) = ground arith
clamped-suc (some (negsuc n)) = refl

take_all : (n : ℕ) (rs : List Operation) → length rs ≤ n → take (suc n) rs ≡ rs
take_all n [] h = refl
take_all zero (r ∷ rs) h = absurd (omega arith)
take_all (suc n) (r ∷ rs) h = ap (λ (t : List Operation). r ∷ t) (take_all n rs (omega (arith, h)))

last_page :
    (n total : ℕ) (rs : List Operation)
    → length rs ≤ n
    → page_of n total (take (suc n) rs)
      ≡ record { operations = rs; cursor = none; total_count = total }
unfolding page_of
last_page n total rs h =
    let short : ltb n (length rs) ≡ false = ground arith in rw (take_all n rs h, short) refl

-- How a page with more behind it splits the rows
abbrev Split : ℕ → List Operation → Type 0
Split n rs =
    (ys : List Operation) × (l : Operation) × (rest : List Operation) × (rs ≡ ys ++ l ∷ rest)
    × (take n (take (suc n) rs) ≡ ys ++ l ∷ [])
    × (length (take (suc n) rs) ≡ suc n)

Split-rows : (n : ℕ) (rs : List Operation) → suc n < length rs → Split (suc n) rs
Split-rows n [] h = absurd (omega arith)
Split-rows zero (r ∷ []) h = absurd (omega arith)
Split-rows zero (r ∷ x ∷ rs) h = ([], r, x ∷ rs, refl, refl, refl)
Split-rows (suc n) (r ∷ rs) h =
    let (ys, l, rest, whole, page, full) = Split-rows n rs (omega (arith, h)) in
    (
      r ∷ ys,
      l,
      rest,
      ap (λ (t : List Operation). r ∷ t) whole,
      ap (λ (t : List Operation). r ∷ t) page,
      ap suc full,
    )

last-append : (ys : List Operation) (l : Operation) → last? (ys ++ l ∷ []) ≡ some l
last-append [] l = refl
last-append (y ∷ []) l = refl
last-append (y ∷ z ∷ ys) l = last-append (z ∷ ys) l

full_page :
    (n total : ℕ) (rs ys : List Operation) (l : Operation)
    → take n (take (suc n) rs) ≡ ys ++ l ∷ []
    → length (take (suc n) rs) ≡ suc n
    → page_of n total (take (suc n) rs) ≡ record {
      operations = ys ++ l ∷ [];
      cursor = some (encode_cursor (cursor_of l));
      total_count = total;
    }
unfolding page_of
full_page n total rs ys l h k =
    let more : ltb n (length (take (suc n) rs)) ≡ true = ground arith in
    rw (more, h, last-append ys l) refl

empty_cursor : decode_cursor [] ≡ none
unfolding decode_cursor base64url_decode parse parse_value skip_white utf8_decode decode
    checked_cursor
empty_cursor = refl

-- The cursor of a row is accepted.
accepted_cursor :
    (t : Text) (c : Cursor) → decode_cursor t ≡ some c → requested_cursor (some t) ≡ ok (some c)
accepted_cursor [] c h = let nothing : none ≡ some c = sym empty_cursor ∙ h in cc
accepted_cursor (x ∷ t) c h = rw (h, requested_cursor) refl

row_cursor :
    (l : Operation)
    → All IsUnit l.operation_id
    → requested_cursor (some (encode_cursor (cursor_of l))) ≡ ok (some (cursor_of l))
row_cursor l h =
    accepted_cursor (encode_cursor (cursor_of l)) (cursor_of l) (cursor-read (cursor_of l) h)

filter-filter :
    (p r : Operation → Bool) (os : List Operation)
    → filter (λ (o : Operation). p o && r o) os ≡ filter r (filter p os)
filter-filter p r [] = refl
filter-filter p r (o ∷ os) = elim (Bool-cases (p o)) [
  | inl t ↦ elim (Bool-cases (r o)) [
    | inl u ↦ rw (t, u) (ap (λ (t : List Operation). o ∷ t) (filter-filter p r os))
    | inr u ↦ rw (t, u) (filter-filter p r os)
  ]
  | inr t ↦ rw t (filter-filter p r os)
]

filter-AreDistinct :
    (p : Operation → Bool) (os : List Operation) → AreDistinct os → AreDistinct (filter p os)
unfolding AreDistinct
filter-AreDistinct p [] h = tt
filter-AreDistinct p (o ∷ os) (d, h) = elim (Bool-cases (p o)) [
  | inl t ↦ rw t (All-filter (Differ o) p os d, filter-AreDistinct p os h)
  | inr t ↦ rw t (filter-AreDistinct p os h)
]

sized_page :
    (total : ℕ) (rs ys : List Operation) (l : Operation) (limit n : ℕ)
    → limit ≡ n
    → take n (take (suc n) rs) ≡ ys ++ l ∷ []
    → length (take (suc n) rs) ≡ suc n
    → page_of limit total (take (suc limit) rs) ≡ record {
      operations = ys ++ l ∷ [];
      cursor = some (encode_cursor (cursor_of l));
      total_count = total;
    }
sized_page total rs ys l limit n same page full = rw same (full_page n total rs ys l page full)

-- The rows behind the cursor of a row are those that stand behind it.
rows_after :
    (q : AuditQuery) (org_id : Text) (s e : Option ℕ) (db : Database) (xs : List Operation)
    (l : Operation) (rest : List Operation)
    → AreDistinct db.operations
    → listed q org_id s e db ≡ xs ++ l ∷ rest
    → rows_behind q org_id s e (some (cursor_of l)) db ≡ rest
rows_after q org_id s e db xs l rest d h =
    let matching = filter (matches q org_id s e) db.operations in
    let distinct = filter-AreDistinct (matches q org_id s e) db.operations d in
    let sorted = subst IsNewestFirst h (newest_first-IsNewestFirst matching distinct) in
    ap newest_first (filter-filter (matches q org_id s e) (newer l) db.operations)
    ∙ sym (filter-newest_first (newer l) matching distinct)
    ∙ ap (filter (newer l)) h
    ∙ behind_row xs l rest sorted

-- Following a cursor gives the rows behind it.
following :
    (fuel : ℕ) (q : AuditQuery) (org_id : Text) (s e : Option ℕ) (c : Option Cursor) (db : Database)
    (xs rs : List Operation)
    → AreDistinct db.operations
    → All (λ (o : Operation). All IsUnit o.operation_id) (listed q org_id s e db)
    → time_bound "audit.invalidStartTime" q.start_time ≡ ok s
    → time_bound "audit.invalidEndTime" q.end_time ≡ ok e
    → requested_cursor q.cursor ≡ ok c
    → listed q org_id s e db ≡ xs ++ rs
    → rows_behind q org_id s e c db ≡ rs
    → length rs < fuel
    → follow fuel q org_id db ≡ ok rs
unfolding follow query_audit fetch_page
following zero q org_id s e c db xs rs d u hs he hc whole rows h = absurd (omega arith)
following (suc fuel) q org_id s e c db xs rs d u hs he hc whole rows h =
    let total = length (filter (matches q org_id s e) db.operations) in
    let limit = clamped q.limit in
    elim (Bool-cases (leb (length rs) limit)) [
      | inl few ↦ rw (hs, he, hc, rows, last_page limit total rs (ground arith)) refl
      | inr many ↦
          let n = limit - 1 in
          let same : limit ≡ suc n = clamped-suc q.limit in
          let (ys, l, rest, split, page, full) = Split-rows n rs (ground arith) in
          let there : listed q org_id s e db ≡ (xs ++ ys) ++ l ∷ rest =
            whole
            ∙ ap (λ (t : List Operation). xs ++ t) split
            ∙ sym (append_assoc xs ys (l ∷ rest)) in
          let units =
            All-right (λ (o : Operation). All IsUnit o.operation_id) (xs ++ ys) (l ∷ rest)
              (subst (All (λ (o : Operation). All IsUnit o.operation_id)) there u) in
          let next =
            following fuel (record q { cursor = some (encode_cursor (cursor_of l)) }) org_id s e
              (some (cursor_of l)) db ((xs ++ ys) ++ (l ∷ [])) rest d u hs he (row_cursor l units.0)
              (there ∙ sym (append_assoc (xs ++ ys) (l ∷ []) rest))
              (rows_after q org_id s e db (xs ++ ys) l rest d there)
              (omega (
                arith,
                h,
                ap (λ (t : List Operation). length t) split,
                length-append ys (l ∷ rest),
              )) in
          let shown = sized_page total rs ys l limit (suc n) same page full in
          rw (hs, he, hc, rows, shown, next)
            (ap (λ (t : List Operation). ok t) (append_assoc ys (l ∷ []) rest ∙ sym split))
    ]

filter-all :
    (p : Operation → Bool) (os : List Operation)
    → filter (λ (o : Operation). p o && true) os ≡ filter p os
filter-all p [] = refl
filter-all p (o ∷ os) = elim (Bool-cases (p o)) [
  | inl t ↦ rw t (ap (λ (t : List Operation). o ∷ t) (filter-all p os))
  | inr t ↦ rw t (filter-all p os)
]

abbrev pub HaveUnits : List Operation → Type 0
HaveUnits os = All (λ (o : Operation). All IsUnit o.operation_id) os

-- A client that begins without a cursor, with time bounds that are accepted, and asks again with
-- each cursor until it is given none receives every row of its query exactly once, newest first, in
-- at most one request more than there are such rows; the identifiers of the rows differ and are
-- texts of code units.
pub follow_pages :
    (fuel : ℕ) (q : AuditQuery) (org_id : Text) (s e : Option ℕ) (db : Database)
    → AreDistinct db.operations
    → HaveUnits db.operations
    → time_bound "audit.invalidStartTime" q.start_time ≡ ok s
    → time_bound "audit.invalidEndTime" q.end_time ≡ ok e
    → q.cursor ≡ none
    → length (filter (matches q org_id s e) db.operations) < fuel
    → (rows : List Operation) × (follow fuel q org_id db ≡ ok rows)
      × IsNewestFirst rows
      × Perm rows (filter (matches q org_id s e) db.operations)
follow_pages fuel q org_id s e db d u hs he hc h =
    let m = matches q org_id s e in
    let matching = filter m db.operations in
    (
      listed q org_id s e db,
      following fuel q org_id s e none db [] (listed q org_id s e db) d
          (All-newest (λ (o : Operation). All IsUnit o.operation_id) matching
            (All-filter (λ (o : Operation). All IsUnit o.operation_id) m db.operations u))
          hs he (rw hc refl) refl (ap newest_first (filter-all m db.operations))
          (omega (arith, h, length-newest_first matching)),
      newest_first-IsNewestFirst matching (filter-AreDistinct m db.operations d),
      newest_first-perm matching,
    )
