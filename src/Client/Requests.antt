-- ===== src/Client/Requests.antt =====
-- The request loop of the Node client: request, isIdempotent and handleResponse of
-- sdks/node/src/client.ts, with ElydoraError of errors.ts.
--
-- The server is a function from the number of the attempt to what fetch gives. Methods are those that
-- the client calls `request` with.
pub mod Retries
mod Tests
use elydora_open_source.Prelude.{
  ℕ, zero, suc, ◌*◌, ◌^◌, ◌-◌, Bool, true, false, ◌&&◌, ◌||◌, not, Option, none, some, List, [],
  ◌∷◌, ◌++◌, ◌==◌, leb, if◌then◌else◌,
}
use elydora_open_source.Prelude.Texts.{Text, codes, text_eq}
use elydora_open_source.Json.{
  member, Json, Fields, ℤ, undefined, null, boolean, number, string, end, field, object, pos,
}
use elydora_open_source.Json.Stringify.{stringify, decimal}
use elydora_open_source.Client.{Client}

pub data Method : Type 0 where
  get : Method
  post : Method
  patch : Method
  delete : Method

-- IDEMPOTENT_METHODS.has(method.toUpperCase())
unfoldable pub is_idempotent : Method → Bool
is_idempotent get = true
is_idempotent post = false
is_idempotent patch = false
is_idempotent delete = true

-- A body that does not parse as JSON is none.
pub record Response : Type 0 where
  pub status : ℕ
  pub status_text : Text
  pub retry_after : Option Text
  pub body : Option Json

pub data Outcome : Type 0 where
  replied : Response → Outcome
  failed : Outcome

-- The fields of the error that the server sends are not checked.
pub record ElydoraError : Type 0 where
  pub status_code : ℕ
  pub code : Json
  pub message : Json
  pub request_id : Json
  pub details : Json

-- What the caller gets: a value, an ElydoraError, or another error.
pub data Reply : Type 0 where
  returned : Json → Reply
  refused : ElydoraError → Reply
  threw : Reply

abbrev truthy : Json → Bool
truthy undefined = false
truthy null = false
truthy (boolean b) = b
truthy (number (pos zero)) = false
truthy (string []) = false
truthy _ = true

-- errorBody?.error
abbrev error_member : Option Json → Json
error_member none = undefined
error_member (some v) = member (codes "error") v

unfoldable pub error_of : Response → ElydoraError
error_of r =
    let e = error_member r.body in
    if truthy e
    then record {
      status_code = r.status;
      code = member (codes "code") e;
      message = member (codes "message") e;
      request_id = member (codes "request_id") e;
      details = member (codes "details") e;
    }
    else record {
      status_code = r.status;
      code = string (codes "INTERNAL_ERROR");
      message = string (codes "HTTP " ++ (decimal r.status ++ (codes ": " ++ r.status_text)));
      request_id = string (codes "unknown");
      details = undefined;
    }

-- res.ok
abbrev pub is_ok : ℕ → Bool
is_ok status = leb 200 status && leb status 299

abbrev parsed_or_throw : Option Json → Reply
parsed_or_throw none = threw
parsed_or_throw (some v) = returned v

-- handleResponse
unfoldable pub handle_response : Response → Reply
handle_response r =
    if is_ok r.status
    then if r.status == 204 then returned undefined else parsed_or_throw r.body
    else refused (error_of r)

-- The time that the client sleeps: its own, or the seconds that a Retry-After header names.
pub data Delay : Type 0 where
  backoff : ℕ → Delay
  seconds_of : Text → Delay

-- Math.min(1000 * 2 ** attempt, 10_000)
abbrev pub backoff_ms : ℕ → ℕ
backoff_ms attempt = if leb (1000 * 2 ^ attempt) 10000 then 1000 * 2 ^ attempt else 10000

-- retryAfter ? parseInt(retryAfter, 10) * 1000 : Math.min(1000 * 2 ** attempt, 10_000)
abbrev delay_after : ℕ → Option Text → Delay
delay_after attempt (some (c ∷ s)) = seconds_of (c ∷ s)
delay_after attempt _ = backoff (backoff_ms attempt)

pub data Round : Type 0 where
  ended : Reply → Round
  again : Delay → Round

-- res.status === 429 || res.status >= 500
abbrev pub is_busy : ℕ → Bool
is_busy status = status == 429 || leb 500 status

-- The catch block, after what handleResponse or fetch threw.
unfoldable pub caught : Bool → ℕ → Reply → Round
caught may_retry attempt (returned v) = ended (returned v)
caught may_retry attempt (refused e) = ended (refused e)
caught may_retry attempt threw =
    if may_retry then again (backoff (backoff_ms attempt)) else ended threw

-- The body of the loop; `may_retry` is attempt < maxRetries && isIdempotent(method).
unfoldable pub round : Bool → ℕ → Outcome → Round
round may_retry attempt failed = caught may_retry attempt threw
round may_retry attempt (replied r) =
    if may_retry && is_busy r.status
    then again (delay_after attempt r.retry_after)
    else caught may_retry attempt (handle_response r)

-- The reply, how often the request was sent, and the sleeps in between.
pub record Exchange : Type 0 where
  pub reply : Reply
  pub sends : ℕ
  pub waits : List Delay

-- The error after the loop.
abbrev pub gave_up : Exchange
gave_up = record { reply = threw; sends = 0; waits = [] }

abbrev pub proceed : Round → Exchange → Exchange
proceed (ended r) rest = record { reply = r; sends = 1; waits = [] }
proceed (again d) rest = record {
  reply = rest.reply;
  sends = suc rest.sends;
  waits = d ∷ rest.waits;
}

-- The loop from an attempt on, with `left` = maxRetries - attempt.
unfoldable pub attempts : Method → (ℕ → Outcome) → ℕ → ℕ → Exchange
attempts method fetch zero attempt = proceed (round false attempt (fetch attempt)) gave_up
attempts method fetch (suc left) attempt =
    proceed (round (is_idempotent method) attempt (fetch attempt))
      (attempts method fetch left (suc attempt))

pub record HttpRequest : Type 0 where
  pub method : Method
  pub url : Text
  pub headers : List (Text × Text)
  pub body : Option Text

-- if (this.token) headers['Authorization'] = `Bearer ${this.token}`
abbrev pub authorization : Option Text → List (Text × Text)
authorization (some (c ∷ s)) = (codes "Authorization", codes "Bearer " ++ (c ∷ s)) ∷ []
authorization _ = []

abbrev content_type : Json → List (Text × Text)
content_type undefined = []
content_type _ = (codes "Content-Type", codes "application/json") ∷ []

-- body !== undefined ? JSON.stringify(body) : undefined
abbrev body_text : Json → Option Text
body_text v = stringify v

unfoldable pub build_request : Client → Method → Text → Json → HttpRequest
build_request c method path body = record {
  method = method;
  url = c.base_url ++ path;
  headers =
      (codes "Accept", codes "application/json") ∷ (authorization c.token ++ content_type body);
  body = body_text body;
}

-- request: what is sent, against a server that may look at the request.
unfoldable pub request : Client → (HttpRequest → ℕ → Outcome) → Method → Text → Json → Exchange
request c server method path body =
    attempts method (server (build_request c method path body)) c.max_retries 0
