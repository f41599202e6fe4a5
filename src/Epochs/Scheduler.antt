-- ===== src/Epochs/Scheduler.antt =====
-- The scheduler: runEpochCreation of packages/server/src/scheduler.ts.
pub mod Tiling
use elydora_open_source.Prelude.{
  ℕ, ◌-◌, ◌*◌, ◌/◌, Bool, ◌&&◌, Option, none, some, List, [], ◌∷◌, map, filter, any, ltb, leb,
  if◌then◌else◌,
}
use elydora_open_source.Prelude.Texts.{Text, text_eq}
use elydora_open_source.Crypto.Platform.{Platform}
use elydora_open_source.Model.Errors.{Result, ok, error, fault}
use elydora_open_source.Model.Entities.{Operation, Epoch}
use elydora_open_source.Model.Tables.{Database}
use elydora_open_source.Model.World.{World, tsa_message}
use elydora_open_source.Epochs.{Roll, create_epoch}

-- DEFAULT_EPOCH_INTERVAL_MS
abbrev pub epoch_interval_ms : ℕ
epoch_interval_ms = 300000

-- Math.floor(now / interval) * interval
unfoldable pub epoch_end : ℕ → ℕ
epoch_end now = now / epoch_interval_ms * epoch_interval_ms

unfoldable pub epoch_start : ℕ → ℕ
epoch_start now = epoch_end now - epoch_interval_ms

-- SELECT DISTINCT
unfoldable pub distinct : List Text → List Text
distinct [] = []
distinct (t ∷ ts) = let rest = distinct ts in if any (text_eq t) rest then rest else t ∷ rest

-- WHERE created_at >= ? AND created_at < ?
abbrev is_between : ℕ → ℕ → Operation → Bool
is_between start_time end_time o = leb start_time o.created_at && ltb o.created_at end_time

unfoldable pub orgs_in : ℕ → ℕ → Database → List Text
orgs_in start_time end_time db =
    distinct
      (map (λ (o : Operation). o.org_id) (filter (is_between start_time end_time) db.operations))

-- What the process supplies for an organization: the data of createEpoch, the id of the message, and
-- whether the queue takes it.
pub record Supply : Type 0 where
  pub roll : Roll
  pub message_id : Text
  pub queue_accepts : Bool

-- An epoch is announced to the worker; a message that the queue does not take is lost.
unfoldable pub announce : Supply → Epoch → World → World
announce s e w =
    if s.queue_accepts
    then record w {
      queue =
          record {
            message_id = s.message_id;
            body = tsa_message e.epoch_id e.org_id e.root_hash e.r2_epoch_key;
          }
          ∷ w.queue;
    }
    else w

-- A failure is logged.
abbrev pub after_creation : Supply → Result (Option Epoch) → World → World
after_creation s (ok none) w = w
after_creation s (ok (some e)) w = announce s e w
after_creation s (error x) w = w
after_creation s fault w = w

module _ (p : Platform) (supply : Text → Supply) where
  -- One round of the loop
  unfoldable pub schedule_org : ℕ → ℕ → Text → World → World
  schedule_org start_time end_time org_id w =
      let made = create_epoch p (supply org_id).roll org_id start_time end_time w in
      after_creation (supply org_id) made.0 made.1

  unfoldable pub schedule_orgs : ℕ → ℕ → List Text → World → World
  schedule_orgs start_time end_time [] w = w
  schedule_orgs start_time end_time (org ∷ orgs) w =
      schedule_orgs start_time end_time orgs (schedule_org start_time end_time org w)

  -- runEpochCreation at a time
  unfoldable pub run_epoch_creation : ℕ → World → World
  run_epoch_creation now w =
      schedule_orgs (epoch_start now) (epoch_end now)
        (orgs_in (epoch_start now) (epoch_end now) w.db) w
