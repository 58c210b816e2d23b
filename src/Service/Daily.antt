-- ===== src/Service/Daily.antt =====
-- handleDailyRewards of pkgs/service/api.go.
pub mod Cache
use submission_sequencer_bat.Prelude.{ℕ, ◌/◌, List, [], ◌∷◌, Option, none, some, if◌then◌else◌}
use submission_sequencer_bat.Prelude.Text.{Text}
use submission_sequencer_bat.Prelude.Int.{ℤ, pos, ltb_ℤ}
use submission_sequencer_bat.Prelude.Decimal.{to_string}
use submission_sequencer_bat.Prelude.Machine.{int64, parse_int_value}
use submission_sequencer_bat.Prelude.Effect.{Result, ok, err, M}
use submission_sequencer_bat.Services.{Services}
use submission_sequencer_bat.Redis.Keys.{slot_submission_key, slot_rewards_for_day}
use submission_sequencer_bat.Redis.Client.{get, set}
use submission_sequencer_bat.Service.Reply.{
  Reply, success, failure, panics, status_internal_server_error, DailyRewardsRequest, authorized,
  is_bad_slot,
}
use submission_sequencer_bat.Service.Contract.{Constants, fetch_slot_submission_count}

abbrev pub base_exponent : ℕ
base_exponent = 100_000_000

abbrev points_reply : Option ℕ → Reply ℤ
points_reply none = panics
points_reply (some points) = success (int64 (pos (points / base_exponent)))

abbrev quota_reply : Option ℕ → Option ℕ → ℤ → Reply ℤ
quota_reply none points count = panics
quota_reply (some quota) points count =
    if ltb_ℤ count (pos quota) then success (pos 0) else points_reply points

-- The base points if the count reaches the quota, and 0 otherwise.
unfoldable pub daily_reply : Constants → Result ℤ → Reply ℤ
daily_reply c (err e) = failure status_internal_server_error
daily_reply c (ok count) = quota_reply c.daily_snapshot_quota c.reward_base_points count

module _ (s : Services) where
  -- The count is kept under the key of the rewards.
  unfoldable pub keep_count : ℤ → ℤ → Result ℕ → M s.World (Result ℤ)
  keep_count slot day (err e) w = (err e, w)
  keep_count slot day (ok n) w =
      let (_, w') =
        set s (slot_rewards_for_day (to_string slot) (to_string day)) (to_string (int64 (pos n))) 0
          w in
      (ok (int64 (pos n)), w')

  fetch_count : ℤ → ℤ → M s.World (Result ℤ)
  unfolding keep_count
  fetch_count slot day w =
      let (r, w') = fetch_slot_submission_count s slot day w in keep_count slot day r w'

  -- The submissions of a slot on a day: of Redis, or of the contract.
  unfoldable pub daily_count : ℤ → ℤ → Result Text → M s.World (Result ℤ)
  unfolding fetch_count
  daily_count slot day (err e) w = fetch_count slot day w
  daily_count slot day (ok []) w = fetch_count slot day w
  daily_count slot day (ok (c ∷ t)) w = (ok (parse_int_value (c ∷ t)), w)

  abbrev daily_work : Constants → DailyRewardsRequest → s.World → Reply ℤ × s.World
  daily_work c r w =
      let (count, w') =
        daily_count r.slot_id r.day
          (get s (slot_submission_key (to_string r.slot_id) (to_string r.day)) w) w in
      (daily_reply c count, w')

  unfoldable pub handle_daily_rewards :
      Text → Constants → Result DailyRewardsRequest → s.World → Reply ℤ × s.World
  handle_daily_rewards auth_read_token c body w =
      authorized auth_read_token (λ r. r.token) (λ r. is_bad_slot r.slot_id) (daily_work c) body w
