-- ===== src/Redis/Keys.antt =====
-- pkgs/helpers/redis/keys.go. `Sprintf("%s.%s", a, b)` joins the parts by dots.
pub mod Laws
use submission_sequencer_bat.Prelude.{ℕ, List, [], ◌∷◌}
use submission_sequencer_bat.Prelude.Text.{Text, text, join}
use submission_sequencer_bat.Prelude.Decimal.{digits}
use submission_sequencer_bat.Constants.{
  collector_key, transaction_receipt_count_key, process_trigger_key, epoch_submissions_count_key,
  epoch_submissions_key, txs_key, reward_tx_key, day_submissions_key, slot_submissions_key,
  daily_reward_points_key, total_reward_points_key, task_completion_key, slot_streak_key,
}

abbrev pub dotted : List Text → Text
dotted parts = join b'.' parts

unfoldable pub submission_set_by_header_key : ℕ → Text → Text
submission_set_by_header_key epoch header = dotted (collector_key ∷ digits epoch ∷ header ∷ [])

unfoldable pub transaction_receipt_count_by_event : Text → Text
transaction_receipt_count_by_event event = dotted (transaction_receipt_count_key ∷ event ∷ [])

unfoldable pub triggered_process_log : Text → Text → Text
triggered_process_log process identifier = dotted (process_trigger_key ∷ process ∷ identifier ∷ [])

unfoldable pub epoch_submissions_count : ℕ → Text
epoch_submissions_count epoch_id = dotted (epoch_submissions_count_key ∷ digits epoch_id ∷ [])

unfoldable pub epoch_submissions : ℕ → Text
epoch_submissions epoch_id = dotted (epoch_submissions_key ∷ digits epoch_id ∷ [])

unfoldable pub batch_submission_set_by_epoch : Text → Text
batch_submission_set_by_epoch epoch_id = dotted (txs_key ∷ epoch_id ∷ [])

unfoldable pub batch_submission_key : Text → Text → Text
batch_submission_key batch_id nonce = dotted (batch_id ∷ nonce ∷ [])

unfoldable pub reward_update_set_by_day : Text → Text
reward_update_set_by_day day = dotted (reward_tx_key ∷ day ∷ [])

unfoldable pub reward_tx_slots : Text → Text
reward_tx_slots tx = dotted (tx ∷ text "Slots" ∷ [])

unfoldable pub reward_tx_submissions : Text → Text
reward_tx_submissions tx = dotted (tx ∷ text "Submissions" ∷ [])

unfoldable pub slot_submission_set_by_day : Text → Text
slot_submission_set_by_day day = dotted (day_submissions_key ∷ day ∷ [])

unfoldable pub slot_submission_key : Text → Text → Text
slot_submission_key slot_id day = dotted (slot_submissions_key ∷ day ∷ slot_id ∷ [])

unfoldable pub slot_rewards_for_day : Text → Text → Text
slot_rewards_for_day day slot_id = dotted (daily_reward_points_key ∷ day ∷ slot_id ∷ [])

unfoldable pub total_slot_rewards : Text → Text
total_slot_rewards slot_id = dotted (total_reward_points_key ∷ slot_id ∷ [])

unfoldable pub latest_daily_task_completion : Text → Text
latest_daily_task_completion slot_id = dotted (task_completion_key ∷ slot_id ∷ [])

unfoldable pub slot_streak_counter : Text → Text
slot_streak_counter slot_id = dotted (slot_streak_key ∷ slot_id ∷ [])
