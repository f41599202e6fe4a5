-- ===== src/Agents/Validation.antt =====
-- The tests of a registration: requireIntegrationType of
-- packages/server/src/services/agent-integration.ts and the first part of registerAgent of
-- agent-service.ts.
use elydora_open_source.Prelude.{
  ℕ, Bool, ◌==◌, String, Option, none, some, List, [], ◌∷◌, ◌++◌, any, find?, if◌then◌else◌, length,
}
use elydora_open_source.Prelude.Texts.{Text, text_eq, codes}
use elydora_open_source.Json.{Json, string}
use elydora_open_source.Crypto.Base64.{base64url_decode}
use elydora_open_source.Model.Errors.{
  AppError, keyed, validation_error, Param, text, count, Result, ok, error, ◌>>◌, ◌>>=◌,
}
use elydora_open_source.Model.Entities.{
  IntegrationType, augment, claudecode, cline, codex, copilot, cursor, droid, gemini, grok, kimi,
  kirocli, kiroide, letta, opencode, qwen, enterprise, gui, sdk, other,
}
use elydora_open_source.Model.Tables.{Database, has_agent_id}

-- INTEGRATION_TYPES
abbrev pub integration_types : List IntegrationType
integration_types =
    augment ∷ claudecode ∷ cline ∷ codex ∷ copilot ∷ cursor ∷ droid ∷ gemini ∷ grok ∷ kimi ∷ kirocli
    ∷ kiroide ∷ letta ∷ opencode ∷ qwen ∷ enterprise ∷ gui ∷ sdk ∷ other ∷ []

abbrev pub integration_name : IntegrationType → String
integration_name augment = "augment"
integration_name claudecode = "claudecode"
integration_name cline = "cline"
integration_name codex = "codex"
integration_name copilot = "copilot"
integration_name cursor = "cursor"
integration_name droid = "droid"
integration_name gemini = "gemini"
integration_name grok = "grok"
integration_name kimi = "kimi"
integration_name kirocli = "kirocli"
integration_name kiroide = "kiroide"
integration_name letta = "letta"
integration_name opencode = "opencode"
integration_name qwen = "qwen"
integration_name enterprise = "enterprise"
integration_name gui = "gui"
integration_name sdk = "sdk"
integration_name other = "other"

abbrev pub is_named : Text → IntegrationType → Bool
is_named value type = text_eq (codes (integration_name type)) value

-- INTEGRATION_TYPES.join(', ')
abbrev join_names : List IntegrationType → Text
join_names [] = []
join_names (t ∷ []) = codes (integration_name t)
join_names (t ∷ u ∷ ts) = codes (integration_name t) ++ (codes ", " ++ join_names (u ∷ ts))

abbrev pub refused : ℕ → String → List (String × Param) → AppError
refused status key params = keyed status validation_error key params

-- requireIntegrationType
unfoldable pub require_integration_type : Json → Result IntegrationType
require_integration_type (string []) = error (refused 400 "agent.missingIntegrationType" [])
require_integration_type (string (c ∷ value)) =
    elim (find? (is_named (c ∷ value)) integration_types) [
      | some type ↦ ok type
      | none ↦ error (
          refused 400 "agent.invalidIntegrationType"
            (("value", text (c ∷ value)) ∷ ("valid", text (join_names integration_types)) ∷ []))
    ]
require_integration_type _ = error (refused 400 "agent.missingIntegrationType" [])

pub record RequestedKey : Type 0 where
  pub kid : Text
  pub public_key : Text
  pub algorithm : Text

-- `keys` that are missing are none.
pub record Registration : Type 0 where
  pub agent_id : Text
  pub display_name : Option Text
  pub responsible_entity : Option Text
  pub integration_type : Json
  pub keys : List RequestedKey

-- One round of the loop over the keys.
unfoldable pub valid_key : RequestedKey → Result (Unit {0})
valid_key k =
    if text_eq k.algorithm (codes "ed25519")
    then elim (base64url_decode k.public_key) [
      | none ↦ error (refused 400 "agent.invalidPublicKeyEncoding" (("kid", text k.kid) ∷ []))
      | some bytes ↦
          if length bytes == 32
          then ok tt
          else error (
              refused 400 "agent.invalidPublicKeyLength" (
                ("kid", text k.kid)
                ∷ ("expected", count 32)
                ∷ ("actual", count (length bytes))
                ∷ []))
    ]
    else error (refused 400 "agent.unsupportedAlgorithm" (("algorithm", text k.algorithm) ∷ []))

unfoldable pub valid_keys : List RequestedKey → Result (Unit {0})
valid_keys [] = ok tt
valid_keys (k ∷ ks) = valid_key k >> valid_keys ks

unfoldable pub some_keys : List RequestedKey → Result (Unit {0})
some_keys [] = error (refused 400 "agent.atLeastOneKey" [])
some_keys (k ∷ ks) = ok tt

-- No agent of any organization has the id.
unfoldable pub require_new : Text → Database → Result (Unit {0})
require_new agent_id db =
    if any (has_agent_id agent_id) db.agents
    then error (refused 409 "agent.alreadyExists" (("id", text agent_id) ∷ []))
    else ok tt

-- The tests in their order; the result is the integration type.
unfoldable pub check_registration : Registration → Database → Result IntegrationType
check_registration body db = do
  type ← require_integration_type body.integration_type
  require_new body.agent_id db
  some_keys body.keys
  valid_keys body.keys
  ok type
