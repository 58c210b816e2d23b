-- ===== src/Service/Updates.antt =====
-- handleRewardUpdates of pkgs/service/api.go.
pub mod Window
use submission_sequencer_bat.Prelude.{
  ℕ, Bool, true, false, ◌||◌, List, [], ◌∷◌, Option, none, some, if◌then◌else◌,
}
use submission_sequencer_bat.Prelude.Text.{Text, split}
use submission_sequencer_bat.Prelude.Int.{ℤ, pos, ◌+ℤ◌, ◌-ℤ◌, ltb_ℤ}
use submission_sequencer_bat.Prelude.Decimal.{atoi}
use submission_sequencer_bat.Prelude.Machine.{int64}
use submission_sequencer_bat.Prelude.Sort.{sort_texts}
use submission_sequencer_bat.Prelude.Effect.{Result, ok, err, val_or}
use submission_sequencer_bat.Json.{Log}
use submission_sequencer_bat.Constants.{update_rewards_name, sequencer_day_key}
use submission_sequencer_bat.Services.{Services}
use submission_sequencer_bat.Redis.Client.{get}
use submission_sequencer_bat.Service.Reply.{
  Reply, success, failure, status_internal_server_error, PastDaysRequest, authorized,
}
use submission_sequencer_bat.Service.Logs.{process_pattern, keys_of, read_log, put_log}

-- parts[len(parts)-1], if there are two parts at least.
abbrev last_part : List Text → Option Text
last_part [] = none
last_part (p ∷ []) = none
last_part (p ∷ q ∷ []) = some q
last_part (p ∷ q ∷ r ∷ parts) = last_part (q ∷ r ∷ parts)

abbrev in_window : ℤ → ℤ → Option ℤ → Bool
in_window start_day current_day none = false
in_window start_day current_day (some day) =
    if ltb_ℤ day start_day || ltb_ℤ current_day day then false else true

abbrev day_of : Option Text → Option ℤ
day_of none = none
day_of (some t) = atoi t

-- Whether the loop goes on to read the key's log.
unfoldable pub is_in_window : ℤ → ℤ → Text → Bool
is_in_window start_day current_day key =
    in_window start_day current_day (day_of (last_part (split b'.' key)))

-- startDay := currentDay - pastDays + 1
unfoldable pub start_day : ℤ → ℤ → ℤ
start_day current_day past_days = int64 (int64 (current_day -ℤ past_days) +ℤ pos 1)

module _ (s : Services) where
  unfoldable pub window_logs : ℤ → ℤ → List Text → s.World → List Log
  window_logs start_day current_day [] w = []
  window_logs start_day current_day (key ∷ keys) w =
      let rest = window_logs start_day current_day keys w in
      if is_in_window start_day current_day key
      then put_log (read_log s (get s key w)) rest
      else rest

  -- The current day is missing, or is no number, or is one.
  abbrev window_reply : ℤ → Option ℤ → s.World → Reply (List Log)
  window_reply past_days none w = failure status_internal_server_error
  window_reply past_days (some current_day) w = success (
      window_logs (start_day current_day past_days) current_day
        (sort_texts (keys_of s (process_pattern update_rewards_name) w)) w)

  unfoldable pub handle_reward_updates :
      Text → Result PastDaysRequest → s.World → Reply (List Log) × s.World
  handle_reward_updates auth_read_token body w =
      authorized auth_read_token (λ r. r.token) (λ r. ltb_ℤ r.past_days (pos 0))
        (λ r w. (window_reply r.past_days (atoi (val_or [] (get s sequencer_day_key w))) w, w)) body
        w
