-- ===== src/Operations/Queries.antt =====
-- The lookup of one operation: getOperation of packages/server/src/services/operation-service.ts.
pub mod Answered
use elydora_open_source.Prelude.{Option, none, some, [], ◌∷◌}
use elydora_open_source.Prelude.Texts.{Text, codes}
use elydora_open_source.Json.{Json, undefined, null, member}
use elydora_open_source.Json.Parse.{parse}
use elydora_open_source.Model.Errors.{keyed, not_found, text, Result, ok, error}
use elydora_open_source.Model.Entities.{Operation, Receipt}
use elydora_open_source.Model.Tables.{find_operation, find_receipt}
use elydora_open_source.Model.World.{World, Document, eor_document, blob, evidence_get}
use elydora_open_source.Operations.Verify.{present}

pub record Found : Type 0 where
  pub operation : Operation
  pub receipt : Option Receipt
  pub payload : Json

-- ?? undefined
abbrev pub or_undefined : Json → Json
or_undefined null = undefined
or_undefined v = v

-- The payload of a document; what is no JSON has none.
abbrev pub payload_in : Document → Json
payload_in (eor_document e) = or_undefined e.payload
payload_in (blob t) = elim (parse t) [
  | none ↦ undefined
  | some v ↦ or_undefined (member (codes "payload") v)
]
payload_in _ = undefined

unfoldable pub payload_of : Operation → World → Json
payload_of o w = elim (present o.r2_payload_key) [
  | none ↦ undefined
  | some key ↦ elim (evidence_get key w.evidence) [
    | none ↦ undefined
    | some document ↦ payload_in document
  ]
]

-- getOperation
unfoldable pub get_operation : Text → Text → World → Result Found
get_operation operation_id org_id w = elim (find_operation operation_id org_id w.db) [
  | none ↦ error (keyed 404 not_found "operation.notFound" (("id", text operation_id) ∷ []))
  | some o ↦
      ok (record {
        operation = o;
        receipt = find_receipt operation_id w.db;
        payload = payload_of o w;
      })
]
