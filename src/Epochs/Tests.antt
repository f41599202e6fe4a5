-- ===== src/Epochs/Tests.antt =====
-- An epoch over two operations, a run of the scheduler, and the theorems at these.
use elydora_open_source.Prelude.{
  ℕ, ◌+◌, ◌%◌, ◌≤◌, ◌<◌, ◌≡◌, refl, true, Option, none, some, List, [], ◌∷◌, arith, length, find?,
}
use elydora_open_source.Prelude.Texts.{Text, codes, text_eq, text_lt}
use elydora_open_source.Prelude.Sorting.{sort_by, insert_by}
use elydora_open_source.Json.Stringify.{stringify, decimal, decimal_ℤ, join, quoted}
use elydora_open_source.Json.Canonical.{jcs_canonicalise, pairs}
use elydora_open_source.Crypto.Base64.{base64url_encode, base64url_decode}
use elydora_open_source.Crypto.Utf8.{utf8_encode}
use elydora_open_source.Crypto.Platform.{sign_ed25519, wrap_seed_as_pkcs8}
use elydora_open_source.Merkle.{
  build_merkle_tree, build_layers, next_layer, hash_pair, padded, paired,
}
use elydora_open_source.Model.Errors.{Result, ok, error, fault}
use elydora_open_source.Model.Entities.{Epoch}
use elydora_open_source.Model.Statements.{insert_epoch}
use elydora_open_source.Model.World.{World, execute, evidence_put, evidence_get}
use elydora_open_source.Operations.Verify.{merkle_check, is_epoch_of}
use elydora_open_source.Epochs.{
  Roll, operations_in, eer_json, unsigned_eer, epoch_key, epoch_row, sign_eer, build_tree,
  store_epoch, roll_up, roll_up_some, create_epoch,
}
use elydora_open_source.Epochs.Coverage.{created_covers}
use elydora_open_source.Epochs.Scheduler.{
  epoch_interval_ms, epoch_start, epoch_end, distinct, orgs_in, Supply, announce, schedule_org,
  schedule_orgs, run_epoch_creation,
}
use elydora_open_source.Epochs.Scheduler.Tiling.{
  window_bounds, IsTiled, one_epoch_covers, run_epoch_creation-IsTiled,
}
use elydora_open_source.Samples.{open_platform, empty_world, empty_database, operation_at}

abbrev filled : World
filled = record empty_world {
  db = record empty_database {
    operations =
        operation_at (codes "x") 300001 (codes "Bg")
        ∷ operation_at (codes "y") 300002 (codes "AQ")
        ∷ [];
  };
}

abbrev roll : Roll
roll = record { now = 600007; epoch_id = codes "i"; signing_key = codes "AQ" }

run : Unit {0}
unfolding text_eq text_lt sort_by insert_by stringify decimal decimal_ℤ join quoted jcs_canonicalise
    pairs base64url_encode base64url_decode utf8_encode sign_ed25519 wrap_seed_as_pkcs8
    build_merkle_tree build_layers next_layer hash_pair padded paired insert_epoch execute
    evidence_put evidence_get operations_in eer_json unsigned_eer epoch_key epoch_row sign_eer
    build_tree store_epoch roll_up roll_up_some create_epoch epoch_start epoch_end distinct orgs_in
    announce schedule_org schedule_orgs run_epoch_creation
run = tt

abbrev no_epoch : Epoch
no_epoch = record {
  epoch_id = [];
  org_id = [];
  start_time = 0;
  end_time = 0;
  root_hash = none;
  leaf_count = 0;
  r2_epoch_key = [];
  created_at = 0;
}

abbrev epoch_or : Result (Option Epoch) → Epoch
epoch_or (ok none) = no_epoch
epoch_or (ok (some e)) = e
epoch_or (error x) = no_epoch
epoch_or fault = no_epoch

abbrev made : Epoch
made = epoch_or (create_epoch open_platform roll (codes "o") 300000 600000 filled).0

creates : (create_epoch open_platform roll (codes "o") 300000 600000 filled).0 ≡ ok (some made)
unfolding run
creates = refl

counts_leaves : made.leaf_count ≡ 2
unfolding run
counts_leaves = refl

abbrev after : World
after = (create_epoch open_platform roll (codes "o") 300000 600000 filled).1

finds : find? (λ (e : Epoch). text_eq e.epoch_id (codes "i")) after.db.epochs ≡ some made
unfolding run
finds = refl

covers_time : find? (is_epoch_of (codes "o") 300002) after.db.epochs ≡ some made
unfolding run
covers_time = refl

created_covers_example :
    merkle_check open_platform (operation_at (codes "y") 300002 (codes "AQ")) (codes "o") after
    ≡ (some true, [])
unfolding text_eq
created_covers_example =
    created_covers open_platform roll (codes "o") 300000 600000 filled after made 1
      (operation_at (codes "y") 300002 (codes "AQ")) creates refl refl covers_time refl

window_bounds_example :
    (epoch_start 600007 + epoch_interval_ms ≡ epoch_end 600007)
    × (epoch_start 600007 % epoch_interval_ms ≡ 0)
    × (epoch_end 600007 ≤ 600007)
    × (600007 < epoch_end 600007 + epoch_interval_ms)
window_bounds_example = window_bounds 600007 (omega arith)

abbrev supply : Text → Supply
supply org = record { roll = roll; message_id = codes "m"; queue_accepts = true }

one_epoch_made : length (run_epoch_creation open_platform supply 600007 filled).db.epochs ≡ 1
unfolding run
one_epoch_made = refl

run_epoch_creation-IsTiled_example :
    IsTiled (run_epoch_creation open_platform supply 600007 filled).db.epochs
run_epoch_creation-IsTiled_example =
    run_epoch_creation-IsTiled open_platform supply 600007 filled (omega arith) tt

abbrev windows : List Epoch
windows =
    record no_epoch { org_id = codes "o"; start_time = 300000; end_time = 600000 }
    ∷ record no_epoch { org_id = codes "o"; start_time = 600000; end_time = 900000 }
    ∷ []

windows-IsTiled : IsTiled windows
unfolding run
windows-IsTiled =
    (record { starts = refl; ends = refl }, refl, (record { starts = refl; ends = refl }, refl, tt))

covers :
    is_epoch_of
      (codes "o")
      600000
      (record no_epoch { org_id = codes "o"; start_time = 600000; end_time = 900000 })
    ≡ true
unfolding run
covers = refl

one_epoch_covers_example : ◌≡◌ {A = ℕ} 1 1
one_epoch_covers_example =
    one_epoch_covers windows (codes "o") 600000 1 1
      (record no_epoch { org_id = codes "o"; start_time = 600000; end_time = 900000 })
      (record no_epoch { org_id = codes "o"; start_time = 600000; end_time = 900000 })
      windows-IsTiled refl refl covers covers
