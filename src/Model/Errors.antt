-- ===== src/Model/Errors.antt =====
-- Errors of the API: packages/server/src/middleware/error-handler.ts and shared/types/enums.ts.
use elydora_open_source.Prelude.{◌≡◌, refl, ◌⊎◌, inl, inr, ℕ, String, Option, none, some, List, []}
use elydora_open_source.Prelude.Texts.{Text}

pub data ErrorCode : Type 0 where
  invalid_signature unknown_agent key_revoked key_retired agent_frozen agent_revoked : ErrorCode
  ttl_expired replay_detected prev_hash_mismatch payload_too_large rate_limited : ErrorCode
  internal_error unauthorized forbidden not_found validation_error : ErrorCode

pub data Param : Type 0 where
  text : Text → Param
  count : ℕ → Param

-- The fields that every construction sets; `key` is the message's, with its parameters.
pub record AppError : Type 0 where
  pub status_code : ℕ
  pub error_code : ErrorCode
  pub key : Option String
  pub params : List (String × Param)

-- new AppError(status, code)
abbrev pub coded : ℕ → ErrorCode → AppError
coded status code = record { status_code = status; error_code = code; key = none; params = [] }

-- new AppError(status, code, { key, params })
abbrev pub keyed : ℕ → ErrorCode → String → List (String × Param) → AppError
keyed status code key params = record {
  status_code = status;
  error_code = code;
  key = some key;
  params = params;
}

-- `fault` is an exception that is no `AppError`.
pub data Result {ℓ} (A : Type ℓ) : Type ℓ where
  ok : A → Result A
  error : AppError → Result A
  fault : Result A

infixl 5 ◌>>=◌ ◌>>◌
abbrev pub ◌>>=◌ {ℓ κ} : {A : Type ℓ} {B : Type κ} → Result A → (A → Result B) → Result B
ok a >>= f = f a
error e >>= f = error e
fault >>= f = fault

abbrev pub ◌>>◌ {ℓ} : {B : Type ℓ} → Result (Unit {0}) → Result B → Result B
m >> k = m >>= λ _. k

-- The status that `globalErrorHandler` answers with, and its error code.
abbrev pub response {ℓ} : {A : Type ℓ} → ℕ → Result A → ℕ × Option ErrorCode
response success (ok a) = (success, none)
response success (error e) = (e.status_code, some e.error_code)
response success fault = (500, some internal_error)

-- To split on an outcome.
pub Result-cases {ℓ} :
    {A : Type ℓ} (r : Result A)
    → ((a : A) × (r ≡ ok a)) ⊎ (((x : AppError) × (r ≡ error x)) ⊎ (r ≡ fault))
Result-cases (ok a) = inl (a, refl)
Result-cases (error x) = inr (inl (x, refl))
Result-cases fault = inr (inr refl)

-- Inversion of a chain that returns.
pub >>=-eq-ok {ℓ κ} :
    {A : Type ℓ} {B : Type κ} (m : Result A) (f : A → Result B) (b : B)
    → (m >>= f) ≡ ok b
    → (a : A) × (m ≡ ok a) × (f a ≡ ok b)
>>=-eq-ok (ok a) f b h = (a, refl, h)
>>=-eq-ok (error e) f b h = cc
>>=-eq-ok fault f b h = cc
