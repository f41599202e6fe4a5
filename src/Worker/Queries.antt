-- ===== src/Worker/Queries.antt =====
-- The query of an export on its way from createExport to the worker: Exports/Requests and Worker.
use elydora_open_source.Prelude.{ℕ, ◌≡◌, refl, false, Option, none, some, arith, All}
use elydora_open_source.Prelude.Texts.{Text, codes, text_eq}
use elydora_open_source.Crypto.Utf8.Bytes.{all_units, units_of, IsUnit}
use elydora_open_source.Json.{Json, undefined, string, number, pos}
use elydora_open_source.Json.Stringify.{stringify}
use elydora_open_source.Json.Parse.{parse, has_key}
use elydora_open_source.Json.Parse.Written.{IsWritable, HasFields}
use elydora_open_source.Json.Parse.RoundTrip.{parse-stringify}
use elydora_open_source.Model.Errors.{ok}
use elydora_open_source.Exports.{text_or_empty}
use elydora_open_source.Exports.Requests.{
  ExportRequest, Format, json, pdf, format_name, Checked, check_request, query_json, or_null,
}
use elydora_open_source.Worker.{is_empty, Query, read_query, parsed_query}

-- A filter of a request that is left out is undefined.
abbrev pub filter_json : Option Text → Json
filter_json none = undefined
filter_json (some t) = string t

-- A request with fields of the types that the API documents.
abbrev pub requested : ℕ → ℕ → Option Text → Option Text → Format → ExportRequest
requested s t agent type f = record {
  start_time = number (pos s);
  end_time = number (pos t);
  agent_id = filter_json agent;
  operation_type = filter_json type;
  format = string (format_name f);
}

abbrev pub checked : ℕ → ℕ → Format → Checked
checked s t f = record { start_time = s; end_time = t; format = f }

abbrev pub query : ℕ → ℕ → Option Text → Option Text → Format → Query
query s t agent type f = record {
  start_time = number (pos s);
  end_time = number (pos t);
  agent_id = or_null (filter_json agent);
  operation_type = or_null (filter_json type);
  format = string (format_name f);
}

pub check_requested :
    (s t : ℕ) (agent type : Option Text) (f : Format) (q : Checked)
    → check_request (requested s t agent type f) ≡ ok q
    → q ≡ checked s t f
unfolding check_request text_eq
check_requested s t agent type json q h = ground arith
check_requested s t agent type pdf q h = ground arith

read_requested :
    (s t : ℕ) (agent type : Option Text) (f : Format)
    → read_query (query_json (requested s t agent type f) (checked s t f))
      ≡ some (query s t agent type f)
unfolding read_query query_json text_eq
read_requested s t none none f = refl
read_requested s t none (some o) f = refl
read_requested s t (some a) none f = refl
read_requested s t (some a) (some o) f = refl

-- The code units of a filter
abbrev pub AreUnits : Option Text → Type 0
AreUnits none = Unit
AreUnits (some t) = All IsUnit t

filter-IsWritable : (o : Option Text) → AreUnits o → IsWritable (or_null (filter_json o))
unfolding IsWritable
filter-IsWritable none h = tt
filter-IsWritable (some t) h = h

format-IsWritable : (f : Format) → IsWritable (string (format_name f))
unfolding IsWritable all_units
format-IsWritable json = units_of (codes "json") refl
format-IsWritable pdf = units_of (codes "pdf") refl

query-IsWritable :
    (s t : ℕ) (agent type : Option Text) (f : Format)
    → AreUnits agent
    → AreUnits type
    → IsWritable (query_json (requested s t agent type f) (checked s t f))
unfolding query_json IsWritable HasFields has_key text_eq all_units
query-IsWritable s t agent type f a o = (
  units_of (codes "start_time") refl,
  refl,
  tt,
  (
    units_of (codes "end_time") refl,
    refl,
    tt,
    (
      units_of (codes "agent_id") refl,
      refl,
      filter-IsWritable agent a,
      (
        units_of (codes "operation_type") refl,
        refl,
        filter-IsWritable type o,
        (units_of (codes "format") refl, refl, format-IsWritable f, tt),
      ),
    ),
  ),
)

-- The text that createExport stores and sends
abbrev pub query_text : ℕ → ℕ → Option Text → Option Text → Format → Text
query_text s t agent type f =
    text_or_empty (stringify (query_json (requested s t agent type f) (checked s t f)))

written_query :
    (s t : ℕ) (agent type : Option Text) (f : Format)
    → stringify (query_json (requested s t agent type f) (checked s t f))
      ≡ some (query_text s t agent type f)
unfolding stringify query_json
written_query s t agent type f = refl

parsed_some :
    (m : Option Json) (v : Json) (q : Query)
    → m ≡ some v
    → read_query v ≡ some q
    → parsed_query m ≡ ok q
parsed_some m v q h k = ground arith

-- The worker reads the query that was asked for.
pub query_text-parsed :
    (s t : ℕ) (agent type : Option Text) (f : Format)
    → AreUnits agent
    → AreUnits type
    → parsed_query (parse (query_text s t agent type f)) ≡ ok (query s t agent type f)
query_text-parsed s t agent type f a o =
    parsed_some (parse (query_text s t agent type f))
      (query_json (requested s t agent type f) (checked s t f)) (query s t agent type f)
      (parse-stringify (query_json (requested s t agent type f) (checked s t f))
        (query_text s t agent type f) (query-IsWritable s t agent type f a o)
        (written_query s t agent type f))
      (read_requested s t agent type f)

pub query_text-given :
    (s t : ℕ) (agent type : Option Text) (f : Format)
    → is_empty (query_text s t agent type f) ≡ false
unfolding stringify query_json
query_text-given s t agent type f = refl
