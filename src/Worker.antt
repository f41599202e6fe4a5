-- ===== src/Worker.antt =====
-- The worker of the queue: packages/server/src/worker.ts, with utils/tsa.ts in Stamps.
--
-- How a file is written (JSON.stringify with indentation, or the PDF of utils/pdf.ts; both may throw),
-- what the database takes a bound value of another type for, which statements fail, and what the
-- time-stamping authority answers are parameters.
pub mod Stamps
pub mod Attempts
pub mod Endings
pub mod Outcomes
pub mod Queries
pub mod Wanted
pub mod Exported
pub mod Anchored
pub mod Files
mod Tests
use elydora_open_source.Prelude.{
  ℕ, Bool, true, false, ◌&&◌, ◌||◌, leb, ltb, ◌==◌, Option, none, some, List, [], ◌∷◌, ◌++◌, find?,
  filter, if◌then◌else◌, length,
}
use elydora_open_source.Prelude.Texts.{Text, codes, text_eq}
use elydora_open_source.Json.{
  Json, ℤ, undefined, null, boolean, number, string, pos, negsuc, object, end, field, member,
}
use elydora_open_source.Json.Stringify.{stringify}
use elydora_open_source.Json.Parse.{parse}
use elydora_open_source.Crypto.Base64.{base64url_encode, base64url_decode}
use elydora_open_source.Model.Errors.{Result, ok, error, fault}
use elydora_open_source.Model.Entities.{ExportStatus, Operation}
use elydora_open_source.Model.Tables.{Database, has_operation_id}
use elydora_open_source.Model.Statements.{
  Statement, set_export_status, set_export_file, set_export_end,
}
use elydora_open_source.Model.World.{
  World, Exec, Document, blob, anchor_document, Message, operation_message, export_message,
  tsa_message, execute, lift, pure, ◌>>=◌, evidence_put, cache_put,
}
use elydora_open_source.Worker.Stamps.{Authority, default_tsa_url, request_timestamp}

-- The parameters of an export, as JSON.parse gives their fields.
pub record Query : Type 0 where
  pub start_time : Json
  pub end_time : Json
  pub agent_id : Json
  pub operation_type : Json
  pub format : Json

pub record ExportFile : Type 0 where
  pub export_id : Text
  pub org_id : Text
  pub generated_at : ℕ
  pub query : Query
  pub operations : List Operation

-- The fields of what JSON.parse gives: null has none, and reading them throws.
unfoldable pub read_query : Json → Option Query
read_query null = none
read_query undefined = none
read_query v = some (record {
  start_time = member (codes "start_time") v;
  end_time = member (codes "end_time") v;
  agent_id = member (codes "agent_id") v;
  operation_type = member (codes "operation_type") v;
  format = member (codes "format") v;
})

-- What the database takes a bound value for that has another type than its column; none is an error.
pub record Coercion : Type 0 where
  pub to_time : Json → Option ℤ
  pub to_text : Json → Option Text

abbrev pub bound_time : Coercion → Json → Option ℤ
bound_time k (number n) = some n
bound_time k v = k.to_time v

abbrev pub bound_text : Coercion → Json → Option Text
bound_text k (string s) = some s
bound_text k v = k.to_text v

-- if (v)
abbrev pub is_truthy : Json → Bool
is_truthy undefined = false
is_truthy null = false
is_truthy (boolean b) = b
is_truthy (number (pos n)) = ltb 0 n
is_truthy (string []) = false
is_truthy _ = true

abbrev filter_of : Bool → Option Text → Option (Option Text)
filter_of false bound = some none
filter_of true none = none
filter_of true (some t) = some (some t)

-- The condition on a column that is added for a field that is truthy
abbrev pub bound_filter : Coercion → Json → Option (Option Text)
bound_filter k v = filter_of (is_truthy v) (bound_text k v)

abbrev pub passes : Option Text → Text → Bool
passes none t = true
passes (some f) t = text_eq t f

-- created_at >= ?
abbrev pub from : ℤ → ℕ → Bool
from (pos s) t = leb s t
from (negsuc n) t = true

-- created_at <= ?
abbrev pub until : ℤ → ℕ → Bool
until (pos e) t = leb t e
until (negsuc n) t = false

-- The conditions of the WHERE clause
abbrev pub selects : Text → ℤ → ℤ → Option Text → Option Text → Operation → Bool
selects org_id s e agent type o =
    text_eq o.org_id org_id
    && from s o.created_at
    && until e o.created_at
    && passes agent o.agent_id
    && passes type o.operation_type

insert_by_time : Operation → List Operation → List Operation
insert_by_time o [] = o ∷ []
insert_by_time o (q ∷ qs) =
    let rest = insert_by_time o qs in if ltb q.created_at o.created_at then q ∷ rest else o ∷ q ∷ qs

-- ORDER BY created_at ASC
unfoldable pub by_time : List Operation → List Operation
unfolding insert_by_time
by_time [] = []
by_time (o ∷ os) = insert_by_time o (by_time os)

abbrev rows_for :
    Text
    → Option ℤ
    → Option ℤ
    → Option (Option Text)
    → Option (Option Text)
    → List Operation
    → Option (List Operation)
rows_for org_id (some s) (some e) (some agent) (some type) rows =
    some (by_time (filter (selects org_id s e agent type) rows))
rows_for org_id _ _ _ _ rows = none

-- The rows of the query, or none if the database refuses a value that is bound.
unfoldable pub operations_for : Coercion → Text → Query → Database → Option (List Operation)
operations_for k org_id q db =
    rows_for org_id (bound_time k q.start_time) (bound_time k q.end_time)
      (bound_filter k q.agent_id) (bound_filter k q.operation_type) db.operations

-- What the process and the services supply to a job: the times at which it builds and ends, whether
-- the database runs its statements and the store takes the file, and what the database makes of
-- bound values.
pub record Attempt : Type 0 where
  pub built_at : ℕ
  pub ended_at : ℕ
  pub marks_running : Bool
  pub reads : Bool
  pub store_accepts : Bool
  pub marks_done : Bool
  pub marks_failed : Bool
  pub coercion : Coercion

-- `exports/${org_id}/${export_id}`
unfoldable pub export_key : Text → Text → Text
export_key org_id export_id = codes "exports/" ++ (org_id ++ (b'/' ∷ export_id))

abbrev pub is_empty : Text → Bool
is_empty [] = true
is_empty (c ∷ s) = false

-- evidence.put
unfoldable pub store : Bool → Text → Document → Exec (Unit {0})
store accepts key d w =
    if accepts then (ok tt, record w { evidence = evidence_put key d w.evidence }) else (fault, w)

-- An UPDATE, which the database runs or refuses
unfoldable pub update : Bool → Statement → Exec (Unit {0})
update accepts s w = if accepts then execute s w else (fault, w)

abbrev thrown : Result (Unit {0}) → Result (Unit {0}) → Result (Unit {0})
thrown (ok u) r = r
thrown x r = x

-- A catch block that runs an action and throws again, if the action does not throw
abbrev pub on_failure : Exec (Unit {0}) → Result (Unit {0}) → World → Result (Unit {0}) × World
on_failure handler (ok u) w = (ok u, w)
on_failure handler (error e) w = (thrown (handler w).0 (error e), (handler w).1)
on_failure handler fault w = (thrown (handler w).0 fault, (handler w).1)

-- JSON.parse of the parameters, which throws
abbrev pub parsed_query : Option Json → Result Query
parsed_query none = fault
parsed_query (some v) = elim (read_query v) [ none ↦ fault | some q ↦ ok q ]

-- The time of the cache entry of a chain, in seconds
abbrev chain_ttl_seconds : ℕ
chain_ttl_seconds = 86400

-- JSON.stringify({ chain_hash, seq_no })
unfoldable pub chain_text : Operation → Option Text
chain_text o = stringify (
    object (
      field (codes "chain_hash") (string o.chain_hash)
        (field (codes "seq_no") (number (pos o.seq_no)) end)))

abbrev text_or_empty : Option Text → Text
text_or_empty none = []
text_or_empty (some t) = t

-- `chain:${operation.agent_id}:latest`
unfoldable pub chain_key : Operation → Text
chain_key o = codes "chain:" ++ (o.agent_id ++ codes ":latest")

-- processOperation
unfoldable pub process_operation : ℕ → Text → Text → Exec (Unit {0})
process_operation now operation_id org_id w =
    if is_empty operation_id || is_empty org_id
    then (fault, w)
    else elim (find? (has_operation_id operation_id) w.db.operations) [
      | none ↦ (fault, w)
      | some o ↦ (
        ok tt,
        record w {
          cache =
              cache_put now (chain_key o) (text_or_empty (chain_text o)) chain_ttl_seconds w.cache;
        },
      )
    ]

abbrev pub or_fault {ℓ} : {A : Type ℓ} → Option A → Result A
or_fault none = fault
or_fault (some a) = ok a

-- The query of the try block
unfoldable pub read_rows : Attempt → Text → Query → Exec (List Operation)
read_rows a org_id q w =
    (if a.reads then or_fault (operations_for a.coercion org_id q w.db) else fault, w)

abbrev pub file_of : Attempt → Text → Text → Query → List Operation → ExportFile
file_of a export_id org_id q operations = record {
  export_id = export_id;
  org_id = org_id;
  generated_at = a.built_at;
  query = q;
  operations = operations;
}

-- `render` writes the file, or throws.
module _ (render : ExportFile → Option Text) where
  -- The try block
  unfoldable pub write_export : Attempt → Text → Text → Text → Exec (Unit {0})
  write_export a export_id org_id query_params = do
    q ← lift (parsed_query (parse query_params))
    operations ← read_rows a org_id q
    text ← lift (or_fault (render (file_of a export_id org_id q operations)))
    _ ← store a.store_accepts (export_key org_id export_id) (blob text)
    update a.marks_done
        (set_export_file ExportStatus.done (export_key org_id export_id) a.ended_at export_id)

  abbrev pub guarded_export : Attempt → Text → Text → Text → Exec (Unit {0})
  guarded_export a export_id org_id query_params w =
      let tried = write_export a export_id org_id query_params w in
      on_failure (update a.marks_failed (set_export_end ExportStatus.failed a.ended_at export_id))
        tried.0 tried.1

  unfoldable pub run_export : Attempt → Text → Text → Text → Exec (Unit {0})
  run_export a export_id org_id query_params = do
    _ ← update a.marks_running (set_export_status ExportStatus.running export_id)
    guarded_export a export_id org_id query_params

  -- processExport
  unfoldable pub process_export : Attempt → Text → Text → Text → Exec (Unit {0})
  process_export a export_id org_id query_params w =
      if is_empty export_id || is_empty org_id || is_empty query_params
      then (fault, w)
      else run_export a export_id org_id query_params w

-- `${r2_epoch_key}/tsa-anchor`
unfoldable pub anchor_path : Text → Text
anchor_path r2_epoch_key = r2_epoch_key ++ codes "/tsa-anchor"

abbrev pub url_or_default : Option Text → Text
url_or_default none = default_tsa_url
url_or_default (some u) = u

module _ (fetch : Authority) (tsa_url : Option Text) where
  -- The token for a hash: none if the hash does not decode or the request fails.
  unfoldable pub stamp : Text → Option (List ℕ)
  stamp root_hash = elim (base64url_decode root_hash) [
    | none ↦ none
    | some bytes ↦ request_timestamp fetch (url_or_default tsa_url) bytes
  ]

  -- processTSA
  unfoldable pub process_tsa : Attempt → Option Text → Text → Exec (Unit {0})
  process_tsa a (some (c ∷ s)) (k ∷ key) w = elim (stamp (c ∷ s)) [
    | none ↦ (fault, w)
    | some token ↦
        store a.store_accepts (anchor_path (k ∷ key))
          (anchor_document (record {
            tsa_token = some (base64url_encode token);
            tsa_url = some (url_or_default tsa_url);
            anchored_at = some a.built_at;
          }))
          w
  ]
  process_tsa a root_hash key w = (fault, w)

  -- processJob
  unfoldable pub process_job : (ExportFile → Option Text) → Attempt → Message → Exec (Unit {0})
  process_job render a (operation_message operation_id org_id agent_id) =
      process_operation a.built_at operation_id org_id
  process_job render a (export_message export_id org_id query_params) =
      process_export render a export_id org_id query_params
  process_job render a (tsa_message epoch_id org_id root_hash r2_epoch_key) =
      process_tsa a root_hash r2_epoch_key
