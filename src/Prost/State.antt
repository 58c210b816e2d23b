-- ===== src/Prost/State.antt =====
-- PopulateStateVars of pkgs/helpers/prost/contract.go: the variables of the program that are read
-- from the chain when it starts.
pub mod First
pub mod Restart
use submission_sequencer_bat.Prelude.{ℕ, zero, suc, ◌%◌, ◌^◌, List, Option, none, some}
use submission_sequencer_bat.Prelude.Int.{ℤ, pos}
use submission_sequencer_bat.Prelude.Decimal.{digits}
use submission_sequencer_bat.Prelude.Machine.{int64}
use submission_sequencer_bat.Prelude.Effect.{Result, ok, err, Done, M, pure, ◌>>=◌, ◌>>◌}
use submission_sequencer_bat.Constants.{current_epoch_key, default_epochs_per_day}
use submission_sequencer_bat.Services.{Services}
use submission_sequencer_bat.Redis.Client.{set}
use submission_sequencer_bat.Prost.Contract.{must_query}
use submission_sequencer_bat.Prost.Flow.{Block}

-- What PopulateStateVars sets. A nil *big.Int is `none`; BatchId is an int, EpochsPerDay a uint64.
pub record StateVars : Type 0 where
  pub current_block : Option Block
  pub current_epoch_id : ℕ
  pub batch_id : ℤ
  pub epochs_per_day : ℕ
  pub day : Option ℕ
  pub daily_snapshot_quota : Option ℕ
  pub reward_base_points : Option ℕ

-- The variables before that.
abbrev pub unpopulated : StateVars
unpopulated = record {
  current_block = none;
  current_epoch_id = 0;
  batch_id = pos 0;
  epochs_per_day = 0;
  day = none;
  daily_snapshot_quota = none;
  reward_base_points = none;
}

abbrev pub value_of : Result ℕ → Option ℕ
value_of (ok n) = some n
value_of (err e) = none

abbrev pub epoch_id_of : Result (Option ℕ) → Option ℕ
epoch_id_of (ok epoch_id) = epoch_id
epoch_id_of (err e) = none

-- A failed query leaves BatchId and Day as they are.
abbrev pub batch_id_or : ℤ → Result ℕ → ℤ
batch_id_or old (ok n) = int64 (pos n)
batch_id_or old (err e) = old

abbrev pub day_or : Option ℕ → Result ℕ → Option ℕ
day_or old (ok n) = some n
day_or old (err e) = old

abbrev pub epochs_per_day_of : Result ℕ → ℕ
epochs_per_day_of (ok n) = n % 2 ^ 64
epochs_per_day_of (err e) = default_epochs_per_day

module _ (s : Services) where
  -- CurrentEpochID is set and stored, or 0 and not stored.
  abbrev pub populate_epoch : Option ℕ → M s.World ℕ
  unfolding set
  populate_epoch none = pure 0
  populate_epoch (some epoch_id) = do
    stored ← set s current_epoch_key (digits epoch_id) 0
    pure epoch_id

  -- All that follows the first loop.
  unfoldable pub populate_from_contract : Block → StateVars → M s.World StateVars
  unfolding must_query
  populate_from_contract block vars = do
    output ← s.query_current_epoch
    epoch_id ← populate_epoch (epoch_id_of output)
    batch_id ← must_query s s.query_current_batch_id
    epochs ← must_query s s.query_epochs_in_a_day
    day ← must_query s s.query_day_counter
    quota ← must_query s s.query_daily_snapshot_quota
    points ← must_query s s.query_reward_base_points
    pure (record {
      current_block = some block;
      current_epoch_id = epoch_id;
      batch_id = batch_id_or vars.batch_id batch_id;
      epochs_per_day = epochs_per_day_of epochs;
      day = day_or vars.day day;
      daily_snapshot_quota = value_of quota;
      reward_base_points = value_of points;
    })

  module _ (latest_block : s.World → Result Block × s.World) where
    abbrev pub or_retry :
        Result Block × s.World → (s.World → Option (Block × s.World)) → Option (Block × s.World)
    or_retry (ok block, w) again = some (block, w)
    or_retry (err e, w) again = again w

    -- The loop that asks for the latest block until it gets it, at most `tries` times.
    unfoldable pub first_block : ℕ → s.World → Option (Block × s.World)
    first_block zero w = none
    first_block (suc tries) w = or_retry (latest_block w) (first_block tries)

    abbrev pub populated : Option (Block × s.World) → StateVars → Option (StateVars × s.World)
    unfolding populate_from_contract
    populated none vars = none
    populated (some (block, w)) vars = some (populate_from_contract block vars w)

    -- `none`: no block was given at the first `tries` tries.
    unfoldable pub populate_state_vars : ℕ → StateVars → s.World → Option (StateVars × s.World)
    unfolding first_block
    populate_state_vars tries vars w = populated (first_block tries w) vars
