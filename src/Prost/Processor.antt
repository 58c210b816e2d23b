-- ===== src/Prost/Processor.antt =====
-- ProcessEvents and processEpoch of pkgs/helpers/prost/processor.go. Epochs and blocks are big
-- integers; the goroutine that processes an epoch is what `started` holds of it.
pub mod Order
pub mod Race
pub mod Day
use submission_sequencer_bat.Prelude.{
  ℕ, ◌+◌, ◌-◌, ◌/◌, ◌%◌, ◌^◌, List, [], ◌∷◌, ◌++◌, Option, none, some, ltb, if◌then◌else◌, length,
}
use submission_sequencer_bat.Prelude.Text.{Text, text, text_eq}
use submission_sequencer_bat.Prelude.Int.{pos}
use submission_sequencer_bat.Prelude.Decimal.{digits}
use submission_sequencer_bat.Prelude.Effect.{Result, ok, err, Done, M, pure, ◌>>=◌, ◌>>◌}
use submission_sequencer_bat.Json.{Log, empty, field, string, number}
use submission_sequencer_bat.Data.{high, medium}
use submission_sequencer_bat.Constants.{
  current_epoch_key, sequencer_day_key, trigger_collection_flow_name, day_buffer,
}
use submission_sequencer_bat.Services.{Services}
use submission_sequencer_bat.Clients.Reporting.{send_failure_notification}
use submission_sequencer_bat.Redis.Keys.{triggered_process_log}
use submission_sequencer_bat.Redis.Client.{set, set_process_log}
use submission_sequencer_bat.Merkle.Build.{report}
use submission_sequencer_bat.Prost.Contract.{update_submission_limit}

pub record EpochReleased : Type 0 where
  pub data_market_address : Text
  pub epoch_id : ℕ

-- A log of a receipt, with what ParseEpochReleased makes of it.
pub record EventLog : Type 0 where
  pub address : Text
  pub topics : List Text
  pub parsed : Result EpochReleased

-- The configured addresses, and the identifier of the event EpochReleased.
pub record Watched : Type 0 where
  pub contract_address : Text
  pub data_market_address : Text
  pub epoch_released_id : Text

-- An epoch whose processing was started, and the last block of its window.
pub record Started : Type 0 where
  pub epoch : ℕ
  pub submission_limit : Option ℕ

pub record Events (World : Type 0) : Type 0 where
  pub current_epoch : ℕ
  pub started : List Started
  pub world : World

module _ (s : Services) (watched : Watched) where
  abbrev reported : Text → Result Done × s.World → s.World
  reported process (ok d, w) = w
  reported process (err e, w) = (send_failure_notification s process high w).1

  -- CurrentEpochID moves on, and the epoch's processing is started.
  unfoldable pub start_epoch : ℕ → ℕ → Events s.World → Events s.World
  unfolding update_submission_limit
  start_epoch block epoch st =
      let (limit, w) = update_submission_limit s block st.world in
      record {
        current_epoch = epoch;
        started = st.started ++ (record { epoch = epoch; submission_limit = limit } ∷ []);
        world = reported (text "ProcessEvents") (set s current_epoch_key (digits epoch) 0 w);
      }

  unfoldable pub handle_event : ℕ → Result EpochReleased → Events s.World → Events s.World
  unfolding start_epoch
  handle_event block (err e) st = record st {
    world = (send_failure_notification s (text "EpochRelease parse error") high st.world).1;
  }
  handle_event block (ok event) st =
      if text_eq event.data_market_address watched.data_market_address
      then (if ltb st.current_epoch event.epoch_id then start_epoch block event.epoch_id st else st)
      else st

  -- A log of the contract without topics panics.
  unfoldable pub handle_topics : ℕ → EventLog → List Text → Events s.World → Option (Events s.World)
  handle_topics block log [] st = none
  handle_topics block log (topic ∷ topics) st =
      some
        (if text_eq topic watched.epoch_released_id then handle_event block log.parsed st else st)

  unfoldable pub handle_log : ℕ → EventLog → Events s.World → Option (Events s.World)
  handle_log block log st =
      if text_eq log.address watched.contract_address
      then handle_topics block log log.topics st
      else some st

  abbrev then_logs :
      Option (Events s.World) → (Events s.World → Option (Events s.World)) → Option (Events s.World)
  then_logs none next = none
  then_logs (some st) next = next st

  unfoldable pub handle_logs : ℕ → List EventLog → Events s.World → Option (Events s.World)
  handle_logs block [] st = some st
  handle_logs block (log ∷ logs) st = then_logs (handle_log block log st) (handle_logs block logs)

  unfoldable pub handle_receipts :
      ℕ → List (List EventLog) → Events s.World → Option (Events s.World)
  handle_receipts block [] st = some st
  handle_receipts block (logs ∷ rest) st =
      then_logs (handle_logs block logs st) (handle_receipts block rest)

  -- The receipts' logs, or the error after the retries.
  unfoldable pub process_events :
      ℕ → Result (List (List EventLog)) → Events s.World → Option (Events s.World)
  process_events block (err e) st =
      some
        (record st { world = (send_failure_notification s (text "ProcessEvents") high st.world).1 })
  process_events block (ok receipts) st = handle_receipts block receipts st

-- ((epochId.Uint64() - 1) / EpochsPerDay) + 1 + DayBuffer on uint64; EpochsPerDay is not 0.
unfoldable pub updated_day : ℕ → ℕ → ℕ
updated_day epochs_per_day epoch_id =
    ((epoch_id % 2 ^ 64 + 2 ^ 64 - 1) % 2 ^ 64 / epochs_per_day + 1 + day_buffer) % 2 ^ 64
