-- ===== src/Constants.antt =====
-- pkgs/constants.go.
use submission_sequencer_bat.Prelude.{ℕ}
use submission_sequencer_bat.Prelude.Text.{Text, text}

-- Process names.
abbrev pub trigger_collection_flow_name : Text
trigger_collection_flow_name = text "trigger_collection_flow"

abbrev pub finalize_batches_name : Text
finalize_batches_name = text "finalize_batch_submissions"

abbrev pub commit_submission_batch_name : Text
commit_submission_batch_name = text "commit_submission_batch"

abbrev pub update_rewards_name : Text
update_rewards_name = text "update_rewards"

abbrev pub build_batch_name : Text
build_batch_name = text "build_batch"

abbrev pub ensure_batch_submission_success_name : Text
ensure_batch_submission_success_name = text "batch_resubmission"

-- Limits, and names of keys.
abbrev pub max_batch_retries : ℕ
max_batch_retries = 3

abbrev pub max_reward_update_retries : ℕ
max_reward_update_retries = 5

abbrev pub rewards_backend_failures : Text
rewards_backend_failures = text "RewardsBackendFailures"

abbrev pub current_epoch_key : Text
current_epoch_key = text "CurrentEpochID"

abbrev pub transaction_receipt_count_key : Text
transaction_receipt_count_key = text "TransactionReceiptCount"

abbrev pub collector_key : Text
collector_key = text "SnapshotCollector"

abbrev pub txs_key : Text
txs_key = text "SnapshotTransactions"

abbrev pub slot_submissions_key : Text
slot_submissions_key = text "SlotSubmissionsKey"

abbrev pub day_submissions_key : Text
day_submissions_key = text "DaySubmissionsKey"

-- Day, in seconds.
abbrev pub day_seconds : ℕ
day_seconds = 86400

abbrev pub reward_tx_key : Text
reward_tx_key = text "RewardTx"

abbrev pub day_buffer : ℕ
day_buffer = 0

abbrev pub default_epochs_per_day : ℕ
default_epochs_per_day = 3

abbrev pub daily_reward_points_key : Text
daily_reward_points_key = text "DailyRewardPointsKey"

abbrev pub total_reward_points_key : Text
total_reward_points_key = text "TotalRewardPointsKey"

abbrev pub task_completion_key : Text
task_completion_key = text "TaskCompletionKey"

abbrev pub slot_streak_key : Text
slot_streak_key = text "SlotStreakKey"

abbrev pub epoch_submissions_count_key : Text
epoch_submissions_count_key = text "EpochSubmissionsCountKey"

abbrev pub epoch_submissions_key : Text
epoch_submissions_key = text "EpochSubmissionsKey"

abbrev pub process_trigger_key : Text
process_trigger_key = text "TriggeredSequencerProcess"

abbrev pub sequencer_day_key : Text
sequencer_day_key = text "SequencerState.Day"

abbrev pub sequencer_current_block_number : Text
sequencer_current_block_number = text "SequencerState.CurrentBlockNumber"
