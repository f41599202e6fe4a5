-- ===== src/Client/Requests/Tests.antt =====
-- Requests of a client to a server that is busy once, and the theorems at these.
use elydora_open_source.Prelude.{
  ℕ, zero, suc, ◌≡◌, ◌<◌, refl, true, false, none, some, [], ◌∷◌, arith,
}
use elydora_open_source.Prelude.Texts.{codes}
use elydora_open_source.Json.{undefined, null}
use elydora_open_source.Json.Stringify.{decimal}
use elydora_open_source.Client.{Client, zero_chain_hash}
use elydora_open_source.Client.Requests.{
  get, post, is_idempotent, Response, Outcome, replied, error_of, handle_response, returned,
  backoff, caught, round, attempts, HttpRequest, build_request, request,
}
use elydora_open_source.Client.Requests.Retries.{answer, is_retryable, request-first, request-once}

abbrev client : Client
client = record {
  org_id = codes "o";
  agent_id = codes "a";
  private_key = codes "AQ";
  base_url = codes "https://x";
  ttl_ms = 1000;
  max_retries = 3;
  kid = codes "k";
  prev_chain_hash = zero_chain_hash;
  token = none;
}

abbrev busy : Response
busy = record { status = 503; status_text = []; retry_after = none; body = none }

abbrev fine : Response
fine = record { status = 200; status_text = []; retry_after = none; body = some null }

abbrev server : HttpRequest → ℕ → Outcome
server r zero = replied busy
server r (suc n) = replied fine

run : Unit {0}
unfolding is_idempotent decimal error_of handle_response caught round attempts build_request request
run = tt

waits_once :
    request client server get (codes "/v1/agents") undefined
    ≡ record { reply = returned null; sends = 2; waits = backoff 1000 ∷ [] }
unfolding run
waits_once = refl

idempotent : is_idempotent get ≡ true
unfolding run
idempotent = refl

not_idempotent : is_idempotent post ≡ false
unfolding run
not_idempotent = refl

retries_first :
    (j : ℕ)
    → j < 1
    → is_retryable (server (build_request client get (codes "/v1/agents") undefined) j) ≡ true
retries_first zero h = refl
retries_first (suc j) h = absurd (omega arith)

stops : is_retryable (replied fine) ≡ false
unfolding run
stops = refl

request-first_example :
    ((request client server get (codes "/v1/agents") undefined).reply ≡ answer (replied fine))
    × ((request client server get (codes "/v1/agents") undefined).sends ≡ 2)
request-first_example =
    request-first client server get (codes "/v1/agents") undefined 1 idempotent retries_first
      (omega arith) (λ h. stops)

request-once_example :
    request client server post (codes "/v1/operations") null
    ≡ record { reply = answer (replied busy); sends = 1; waits = [] }
request-once_example = request-once client server post (codes "/v1/operations") null not_idempotent
