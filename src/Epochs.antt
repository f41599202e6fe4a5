-- ===== src/Epochs.antt =====
-- Epochs: packages/server/src/services/epoch-service.ts.
pub mod Created
pub mod Coverage
pub mod Scheduler
mod Tests
use elydora_open_source.Prelude.{
  ℕ, Bool, ◌==◌, ◌&&◌, Option, none, some, List, [], ◌∷◌, ◌++◌, map, filter, find?, any, ltb, leb,
  if◌then◌else◌, length,
}
use elydora_open_source.Prelude.Texts.{Text, text_eq, codes}
use elydora_open_source.Prelude.Sorting.{sort_by}
use elydora_open_source.Json.{Json, undefined, pos, string, number, object, field, end}
use elydora_open_source.Json.Canonical.{jcs_canonicalise}
use elydora_open_source.Crypto.Utf8.{utf8_encode}
use elydora_open_source.Crypto.Platform.{Platform, sign_ed25519}
use elydora_open_source.Merkle.{MerkleTree, build_merkle_tree}
use elydora_open_source.Model.Errors.{keyed, not_found, text, Result, ok, error, fault}
use elydora_open_source.Model.Entities.{Operation, Epoch, Eer}
use elydora_open_source.Model.Tables.{Database}
use elydora_open_source.Model.Statements.{insert_epoch}
use elydora_open_source.Model.World.{
  World, Exec, Anchor, Document, eor_document, ear_document, epoch_document, anchor_document, blob,
  evidence_get, evidence_put, execute, pure, lift, ◌>>=◌,
}

-- WHERE org_id = ? AND start_time = ? AND end_time = ?
abbrev pub is_window : Text → ℕ → ℕ → Epoch → Bool
is_window org_id start_time end_time e =
    text_eq e.org_id org_id && e.start_time == start_time && e.end_time == end_time

-- WHERE org_id = ? AND created_at >= ? AND created_at < ?
abbrev pub in_window : Text → ℕ → ℕ → Operation → Bool
in_window org_id start_time end_time o =
    text_eq o.org_id org_id && leb start_time o.created_at && ltb o.created_at end_time

abbrev pub chain_hash_of : Operation → Text
chain_hash_of o = o.chain_hash

-- ORDER BY chain_hash ASC
unfoldable pub operations_in : Text → ℕ → ℕ → Database → List Operation
operations_in org_id start_time end_time db =
    sort_by chain_hash_of (filter (in_window org_id start_time end_time) db.operations)

-- What the process supplies: the time of the insertion, a generated id and the server's key.
pub record Roll : Type 0 where
  pub now : ℕ
  pub epoch_id : Text
  pub signing_key : Text

abbrev pub root_json : Option Text → Json
root_json none = undefined
root_json (some t) = string t

-- The record as it is signed, with an empty signature.
unfoldable pub eer_json : Eer → Json
eer_json e = object (
    field (codes "epoch_id") (string e.epoch_id) (
      field (codes "org_id") (string e.org_id) (
        field (codes "start_time") (number (pos e.start_time)) (
          field (codes "end_time") (number (pos e.end_time)) (
            field (codes "leaf_count") (number (pos e.leaf_count)) (
              field (codes "root_hash") (root_json e.root_hash) (
                field (codes "hash_alg") (string e.hash_alg)
                  (field (codes "signature_by_elydora") (string e.signature_by_elydora) end))))))))

unfoldable pub unsigned_eer : Roll → Text → ℕ → ℕ → MerkleTree → Eer
unsigned_eer c org_id start_time end_time tree = record {
  epoch_id = c.epoch_id;
  org_id = org_id;
  start_time = start_time;
  end_time = end_time;
  leaf_count = length tree.leaves;
  root_hash = tree.root;
  hash_alg = codes "sha256";
  signature_by_elydora = [];
}

-- `epochs/${orgId}/${epochId}`
unfoldable pub epoch_key : Text → Text → Text
epoch_key org_id epoch_id = codes "epochs/" ++ (org_id ++ (b'/' ∷ epoch_id))

unfoldable pub epoch_row : Roll → Text → ℕ → ℕ → MerkleTree → Epoch
epoch_row c org_id start_time end_time tree = record {
  epoch_id = c.epoch_id;
  org_id = org_id;
  start_time = start_time;
  end_time = end_time;
  root_hash = tree.root;
  leaf_count = length tree.leaves;
  r2_epoch_key = epoch_key org_id c.epoch_id;
  created_at = c.now;
}

-- Step 6
unfoldable pub store_epoch : Epoch → Eer → MerkleTree → Exec (Unit {0})
store_epoch row eer tree w = (
  ok tt,
  record w {
    evidence =
        evidence_put row.r2_epoch_key (epoch_document eer tree.leaf_ops tree.layers) w.evidence;
  },
)

module _ (p : Platform) where
  -- Step 5
  unfoldable pub sign_eer : Roll → Eer → Result Eer
  sign_eer c e = elim (sign_ed25519 p c.signing_key (utf8_encode (jcs_canonicalise (eer_json e)))) [
    | none ↦ fault
    | some signature ↦ ok (record e { signature_by_elydora = signature })
  ]

  -- Step 3: a hash that does not decode is no `AppError`.
  unfoldable pub build_tree : List Operation → Result MerkleTree
  build_tree ops =
      elim (build_merkle_tree p.digest (map chain_hash_of ops)
        (map (λ (o : Operation). o.operation_id) ops)) [ none ↦ fault | some tree ↦ ok tree ]

  -- Steps 3 to 7: the document is stored before the row is inserted.
  unfoldable pub roll_up : Roll → Text → ℕ → ℕ → List Operation → Exec Epoch
  roll_up c org_id start_time end_time ops = do
    tree ← lift (build_tree ops)
    eer ← lift (sign_eer c (unsigned_eer c org_id start_time end_time tree))
    _ ← store_epoch (epoch_row c org_id start_time end_time tree) eer tree
    _ ← execute (insert_epoch (epoch_row c org_id start_time end_time tree))
    pure (epoch_row c org_id start_time end_time tree)

  unfoldable pub roll_up_some : Roll → Text → ℕ → ℕ → List Operation → Exec (Option Epoch)
  roll_up_some c org_id start_time end_time [] = pure none
  roll_up_some c org_id start_time end_time (o ∷ os) = do
    e ← roll_up c org_id start_time end_time (o ∷ os)
    pure (some e)

  -- createEpoch: nothing for a window that has an epoch, or that has no operations
  unfoldable pub create_epoch : Roll → Text → ℕ → ℕ → Exec (Option Epoch)
  create_epoch c org_id start_time end_time w =
      if any (is_window org_id start_time end_time) w.db.epochs
      then (ok none, w)
      else roll_up_some c org_id start_time end_time (operations_in org_id start_time end_time w.db)
          w

-- `${epoch.r2_epoch_key}/tsa-anchor`
unfoldable pub anchor_key : Epoch → Text
anchor_key e = e.r2_epoch_key ++ codes "/tsa-anchor"

-- An anchor counts if it has a token; what is no anchor, or does not parse, has none.
unfoldable pub anchor_of : Document → Option Anchor
anchor_of (anchor_document a) = elim a.tsa_token [
  | none ↦ none
  | some [] ↦ none
  | some (c ∷ s) ↦ some a
]
anchor_of (eor_document e) = none
anchor_of (ear_document e) = none
anchor_of (epoch_document e ops layers) = none
anchor_of (blob t) = none

-- WHERE epoch_id = ? AND org_id = ?
abbrev pub is_epoch : Text → Text → Epoch → Bool
is_epoch epoch_id org_id e = text_eq e.epoch_id epoch_id && text_eq e.org_id org_id

-- getEpoch
unfoldable pub get_epoch : Text → Text → World → Result (Epoch × Option Anchor)
get_epoch epoch_id org_id w = elim (find? (is_epoch epoch_id org_id) w.db.epochs) [
  | none ↦ error (keyed 404 not_found "epoch.notFound" (("id", text epoch_id) ∷ []))
  | some e ↦ elim (evidence_get (anchor_key e) w.evidence) [
    | none ↦ ok (e, none)
    | some document ↦ ok (e, anchor_of document)
  ]
]
