-- ===== src/Worker/Tests.antt =====
-- An export and a time-stamp on concrete data, and the theorems at these.
use elydora_open_source.Prelude.{
  Option, arith, ℕ, ◌≡◌, ◌⊎◌, refl, true, false, none, some, List, [], ◌∷◌, ◌++◌, find?, replicate,
  length, get_elem?,
}
use elydora_open_source.Prelude.Texts.{Text, codes, text_eq}
use elydora_open_source.Json.Stringify.{stringify, decimal, decimal_ℤ, join, quoted}
use elydora_open_source.Json.Parse.{parse}
use elydora_open_source.Crypto.Base64.{base64url_encode, base64url_decode}
use elydora_open_source.Model.Errors.{Result, ok, fault}
use elydora_open_source.Model.Entities.{ExportStatus, Epoch}
use elydora_open_source.Model.Statements.{insert_export, insert_admin_event}
use elydora_open_source.Model.World.{World, export_message, blob, execute, evidence_put}
use elydora_open_source.Agents.{Call, admin_event}
use elydora_open_source.Epochs.{is_epoch, get_epoch}
use elydora_open_source.Exports.{Supply, export_row, send, create_export}
use elydora_open_source.Exports.Requests.{json, check_request, query_json}
use elydora_open_source.Worker.{
  parsed_query, is_empty, process_job, ExportFile, Attempt, export_key, process_export, process_tsa,
}
use elydora_open_source.Worker.Stamps.{
  Authority, request_prefix, request_suffix, includes, token_of, build_time_stamp_req,
  request_timestamp,
}
use elydora_open_source.Worker.Attempts.{IsFile}
use elydora_open_source.Worker.Outcomes.{IsLeftAs, OfExport, IsFiled, process_export-ends}
use elydora_open_source.Worker.Queries.{requested, query, query_text, query_text-parsed}
use elydora_open_source.Worker.Anchored.{anchor, stamped_answered, build_time_stamp_req-length}
use elydora_open_source.Worker.Files.{KeepsFiles}
use elydora_open_source.Worker.Files.Jobs.{here, next, requests, works, Reach-KeepsFiles}
use elydora_open_source.Samples.{empty_world, empty_database, operation_at}

abbrev before : World
before = record empty_world {
  db = record empty_database {
    operations =
        operation_at (codes "x") 2 (codes "Bg") ∷ operation_at (codes "y") 9 (codes "AQ") ∷ [];
  };
}

abbrev caller : Call
caller = record { now = 5; event_id = codes "e"; org_id = codes "o"; actor = codes "u" }

abbrev supply : Supply
supply = record { export_id = codes "x"; message_id = codes "m"; queue_accepts = true }

abbrev attempt : Attempt
attempt = record {
  built_at = 7;
  ended_at = 8;
  marks_running = true;
  reads = true;
  store_accepts = true;
  marks_done = true;
  marks_failed = true;
  coercion = record { to_time = λ _. none; to_text = λ _. none };
}

abbrev render : ExportFile → Option Text
render f = some f.export_id

run : Unit {0}
unfolding text_eq stringify decimal decimal_ℤ join quoted base64url_encode base64url_decode
    insert_export insert_admin_event execute admin_event export_row send create_export check_request
    query_json includes token_of build_time_stamp_req request_timestamp
run = tt

abbrev params : Text
params = query_text 1 3 none none json

query_text-parsed_example :
    parsed_query (parse (query_text 1 3 (some (codes "a")) none json))
    ≡ ok (query 1 3 (some (codes "a")) none json)
query_text-parsed_example = query_text-parsed 1 3 (some (codes "a")) none json (omega arith, tt) tt

abbrev after : World
after = (create_export caller supply (requested 1 3 none none json) before).1

-- Another operation arrives before the job runs.
abbrev later : World
later = record after {
  db = record after.db {
    operations = operation_at (codes "z") 3 (codes "Aw") ∷ after.db.operations;
  };
}

abbrev ended : Result (Unit {0}) × World
ended = process_export render attempt (codes "x") (codes "o") (codes "{}") before

process_export-ends_example :
    ((ended.0 ≡ ok tt)
      × OfExport (codes "x") (IsFiled (export_key (codes "o") (codes "x"))) ended.1
      × (t : Text) × IsFile render attempt (codes "x") (codes "o") (codes "{}") before.db t
      × (ended.1.evidence
          ≡ evidence_put (export_key (codes "o") (codes "x")) (blob t) before.evidence))
    ⊎ (((ended.0 ≡ fault)
          × IsLeftAs ExportStatus.failed render attempt
              (codes "x")
              (codes "o")
              (codes "{}")
              before
              ended.1)
        ⊎ (((ended.0 ≡ fault)
              × (attempt.marks_failed ≡ false)
              × IsLeftAs ExportStatus.running render attempt
                  (codes "x")
                  (codes "o")
                  (codes "{}")
                  before
                  ended.1)
            ⊎ ((attempt.marks_running ≡ false) × (ended ≡ (fault, before)))))
process_export-ends_example =
    process_export-ends render attempt (codes "x") (codes "o") (codes "{}") before refl

abbrev root : Text
root = codes "AAAAAAAAAAAAAAAAAAAAAAAAAAAAAAAAAAAAAAAAAAA"

abbrev epoch : Epoch
epoch = record {
  epoch_id = codes "i";
  org_id = codes "o";
  start_time = 0;
  end_time = 300000;
  root_hash = some root;
  leaf_count = 1;
  r2_epoch_key = codes "epochs/o/i";
  created_at = 1;
}

abbrev with_epoch : World
with_epoch = record empty_world { db = record empty_database { epochs = epoch ∷ [] } }

abbrev authority : Authority
authority url body = some (record {
  status = 200;
  content_type = some (codes "application/timestamp-reply");
  body = 7 ∷ [];
})

decodes : base64url_decode root ≡ some (replicate 32 0)
unfolding run
decodes = refl

stamps :
    request_timestamp authority (codes "http://timestamp.sectigo.com") (replicate 32 0)
    ≡ some (7 ∷ [])
unfolding run
stamps = refl

finds : find? (is_epoch (codes "i") (codes "o")) with_epoch.db.epochs ≡ some epoch
unfolding run
finds = refl

not_empty : is_empty (base64url_encode (7 ∷ [])) ≡ false
unfolding run
not_empty = refl

stamped_answered_example :
    get_epoch
      (codes "i")
      (codes "o")
      (process_tsa authority none attempt (some root) (codes "epochs/o/i") with_epoch).1
    ≡ ok (epoch, some (anchor attempt none (7 ∷ [])))
stamped_answered_example =
    stamped_answered authority none attempt (codes "i") (codes "o") root epoch (replicate 32 0)
      (7 ∷ []) with_epoch finds refl refl refl decodes stamps not_empty refl

abbrev stamp_request : List ℕ
stamp_request = request_prefix ++ (replicate 32 0 ++ request_suffix)

builds : build_time_stamp_req (replicate 32 0) ≡ some stamp_request
unfolding run
builds = refl

build_time_stamp_req-length_example :
    (length stamp_request ≡ 59) × (get_elem? stamp_request 1 ≡ some 57)
build_time_stamp_req-length_example =
    build_time_stamp_req-length (replicate 32 0) stamp_request builds

abbrev created : World
created = (create_export caller supply (requested 1 3 none none json) before).1

abbrev worked : World
worked =
    (process_job authority none render attempt (export_message (codes "x") (codes "o") params)
      created).1

Reach-KeepsFiles_example : KeepsFiles worked
Reach-KeepsFiles_example =
    Reach-KeepsFiles authority none render before worked
      (next (next here (requests caller supply (requested 1 3 none none json)))
        (works attempt (export_message (codes "x") (codes "o") params)))
      tt
