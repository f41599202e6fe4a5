-- ===== src/Client/Requests/Retries.antt =====
-- What the retries of Client/Requests come to: which answer is given, and how often a request is sent.
use mathlib.Core.Path.{subst}
use elydora_open_source.Prelude.{
  ◌∙◌, ◌==◌, ==_iff, ℕ, zero, suc, ◌+◌, ◌≤◌, ◌<◌, ◌≡◌, refl, Bool, true, false, ◌||◌, [], arith,
  length, All, Bool-cases, inl, inr, ap,
}
use elydora_open_source.Prelude.Texts.{Text}
use elydora_open_source.Json.{Json}
use elydora_open_source.Client.{Client}
use elydora_open_source.Client.Requests.{
  Method, is_idempotent, Outcome, replied, failed, Reply, returned, refused, threw, handle_response,
  Delay, backoff, seconds_of, backoff_ms, ended, again, is_busy, caught, round, Exchange, attempts,
  HttpRequest, delay_after, proceed, build_request, request,
}

-- What an attempt that is not followed by another gives.
abbrev pub answer : Outcome → Reply
answer failed = threw
answer (replied r) = handle_response r

abbrev is_thrown : Reply → Bool
is_thrown threw = true
is_thrown _ = false

-- An outcome after which the client tries again: no response, a busy server, or a broken body.
abbrev pub is_retryable : Outcome → Bool
is_retryable failed = true
is_retryable (replied r) = is_busy r.status || is_thrown (handle_response r)

true_eq_false : true ≡ false → ⊥
true_eq_false h = cc

caught-last : (k : ℕ) (x : Reply) → caught false k x ≡ ended x
unfolding caught
caught-last k (returned v) = refl
caught-last k (refused e) = refl
caught-last k threw = refl

-- Where no retry is left, or none is allowed, the answer ends the loop.
round-last : (k : ℕ) (o : Outcome) → round false k o ≡ ended (answer o)
unfolding round
round-last k failed = caught-last k threw
round-last k (replied r) = caught-last k (handle_response r)

caught-returns : (k : ℕ) (x : Reply) → is_thrown x ≡ false → caught true k x ≡ ended x
unfolding caught
caught-returns k (returned v) h = refl
caught-returns k (refused e) h = refl
caught-returns k threw h = cc

round-final : (k : ℕ) (o : Outcome) → is_retryable o ≡ false → round true k o ≡ ended (answer o)
unfolding round
round-final k failed h = cc
round-final k (replied r) h = elim (Bool-cases (is_busy r.status)) [
  | inl busy ↦ absurd (true_eq_false (rw busy at h))
  | inr idle ↦ rw idle (caught-returns k (handle_response r) (rw idle at h))
]

caught-retries :
    (k : ℕ) (x : Reply) → is_thrown x ≡ true → caught true k x ≡ again (backoff (backoff_ms k))
unfolding caught
caught-retries k (returned v) h = cc
caught-retries k (refused e) h = cc
caught-retries k threw h = refl

round-retries :
    (k : ℕ) (o : Outcome) → is_retryable o ≡ true → (d : Delay) × (round true k o ≡ again d)
unfolding round
round-retries k failed h = (backoff (backoff_ms k), caught-retries k threw refl)
round-retries k (replied r) h = elim (Bool-cases (is_busy r.status)) [
  | inl busy ↦ rw busy (delay_after k r.retry_after, refl)
  | inr idle ↦ rw idle (backoff (backoff_ms k), caught-retries k (handle_response r) (rw idle at h))
]

-- The last attempt, and one after which the loop ends.
attempts-last :
    (m : Method) (fetch : ℕ → Outcome) (k : ℕ)
    → attempts m fetch 0 k ≡ record { reply = answer (fetch k); sends = 1; waits = [] }
unfolding attempts
attempts-last m fetch k = rw (round-last k (fetch k)) refl

attempts-ends :
    (m : Method) (fetch : ℕ → Outcome) (left k : ℕ)
    → is_idempotent m ≡ true
    → is_retryable (fetch k) ≡ false
    → attempts m fetch (suc left) k ≡ record { reply = answer (fetch k); sends = 1; waits = [] }
unfolding attempts
attempts-ends m fetch left k idem final = rw (idem, round-final k (fetch k) final) refl

attempts-goes_on :
    (m : Method) (fetch : ℕ → Outcome) (left k : ℕ)
    → is_idempotent m ≡ true
    → is_retryable (fetch k) ≡ true
    → (d : Delay) × (attempts m fetch (suc left) k
        ≡ proceed (again d) (attempts m fetch left (suc k)))
unfolding attempts
attempts-goes_on m fetch left k idem retry =
    let (d, same) = round-retries k (fetch k) retry in (d, rw (idem, same) refl)

-- The attempts from number k on end with number n.
abbrev EndsAt : ℕ → ℕ → (ℕ → Outcome) → Exchange → Type 0
EndsAt k n fetch x = (x.reply ≡ answer (fetch n)) × (x.sends + k ≡ suc n)

attempts-EndsAt :
    (m : Method) (fetch : ℕ → Outcome) (left k n : ℕ)
    → is_idempotent m ≡ true
    → ((j : ℕ) → k ≤ j → j < n → is_retryable (fetch j) ≡ true)
    → k ≤ n
    → n ≤ left + k
    → (n < left + k → is_retryable (fetch n) ≡ false)
    → EndsAt k n fetch (attempts m fetch left k)
attempts-EndsAt m fetch zero k n idem retry low high final =
    let same : k ≡ n = omega arith in
    subst (λ (x : ℕ). EndsAt k x fetch (attempts m fetch 0 k)) same
      (rw (attempts-last m fetch k) (refl, omega arith))
attempts-EndsAt m fetch (suc left) k n idem retry low high final = elim (Bool-cases (k == n)) [
  | inl equal ↦
      let same : k ≡ n = (==_iff k n).0 equal in
      let stops : is_retryable (fetch k) ≡ false =
        ap (λ (x : ℕ). is_retryable (fetch x)) same ∙ final (omega arith) in
      subst (λ (x : ℕ). EndsAt k x fetch (attempts m fetch (suc left) k)) same
        (rw (attempts-ends m fetch left k idem stops) (refl, omega arith))
  | inr later ↦
      let less : k < n = ground arith in
      let (d, same) = attempts-goes_on m fetch left k idem (retry k (omega arith) less) in
      let (reply, sends) =
        attempts-EndsAt m fetch left (suc k) n idem (λ j h i. retry j (omega arith) i) (omega arith)
          (omega arith) (λ h. final (omega arith)) in
      rw same (reply, omega (arith, sends))
]

-- An idempotent request answers with the first outcome that the client does not retry, or the last
-- one that it may have, and is sent that often.
pub request-first :
    (c : Client) (server : HttpRequest → ℕ → Outcome) (m : Method) (path : Text) (body : Json)
    (n : ℕ)
    → is_idempotent m ≡ true
    → ((j : ℕ) → j < n → is_retryable (server (build_request c m path body) j) ≡ true)
    → n ≤ c.max_retries
    → (n < c.max_retries → is_retryable (server (build_request c m path body) n) ≡ false)
    → ((request c server m path body).reply ≡ answer (server (build_request c m path body) n))
      × ((request c server m path body).sends ≡ suc n)
unfolding request
request-first c server m path body n idem retry high final =
    let (reply, sends) =
      attempts-EndsAt m (server (build_request c m path body)) c.max_retries 0 n idem
        (λ j h i. retry j i) (omega arith) (omega arith) (λ h. final (omega arith)) in
    (reply, omega (arith, sends))

attempts-once :
    (m : Method) (fetch : ℕ → Outcome) (left k : ℕ)
    → is_idempotent m ≡ false
    → attempts m fetch left k ≡ record { reply = answer (fetch k); sends = 1; waits = [] }
attempts-once m fetch zero k other = attempts-last m fetch k
attempts-once m fetch (suc left) k other =
    unfold attempts in rw (other, round-last k (fetch k)) refl

-- A request that is not idempotent is sent once, whatever becomes of it, and its outcome is the answer.
pub request-once :
    (c : Client) (server : HttpRequest → ℕ → Outcome) (m : Method) (path : Text) (body : Json)
    → is_idempotent m ≡ false
    → request c server m path body
      ≡ record { reply = answer (server (build_request c m path body) 0); sends = 1; waits = [] }
unfolding request
request-once c server m path body other =
    attempts-once m (server (build_request c m path body)) c.max_retries 0 other

-- A time of its own that the client sleeps is from one to ten seconds.
abbrev pub IsShort : Delay → Type 0
IsShort (backoff t) = (1000 ≤ t) × (t ≤ 10000)
IsShort (seconds_of s) = Unit

-- The sleeps are one fewer than the sends, which are at most one more than the retries.
abbrev pub IsBounded : ℕ → Exchange → Type 0
IsBounded left x = (suc (length x.waits) ≡ x.sends) × (x.sends ≤ suc left) × All IsShort x.waits
