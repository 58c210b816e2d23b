-- ===== src/Prost/Rewards.antt =====
-- CalculateAndStoreRewards and UpdateSubmissionCounts of pkgs/helpers/prost/rewardsHandler.go. A
-- result of `none` is a panic, which ends the process. The goroutine that stores the rewards is run
-- where it starts.
pub mod Keeps
pub mod Counts
pub mod Totals
pub mod NoPanic
pub mod Sums
pub mod Awards
pub mod Quota
pub mod Once
use submission_sequencer_bat.Prelude.{ℕ, ◌*◌, List, [], ◌∷◌, Option, none, some, if◌then◌else◌}
use submission_sequencer_bat.Prelude.Text.{Text, text}
use submission_sequencer_bat.Prelude.Int.{ℤ, pos, ◌+ℤ◌, eq_ℤ}
use submission_sequencer_bat.Prelude.Decimal.{digits, to_string, set_string}
use submission_sequencer_bat.Prelude.Effect.{Result, ok, err, Done, M, pure, ◌>>=◌, ◌>>◌}
use submission_sequencer_bat.Data.{SnapshotSubmission, Request, BatchSubmission, high}
use submission_sequencer_bat.Constants.{day_seconds}
use submission_sequencer_bat.Services.{Services}
use submission_sequencer_bat.Clients.Reporting.{send_failure_notification}
use submission_sequencer_bat.Redis.Keys.{
  slot_submission_key, slot_submission_set_by_day, slot_rewards_for_day, total_slot_rewards,
}
use submission_sequencer_bat.Redis.Client.{add_to_set, delete, get, set}
use submission_sequencer_bat.Merkle.Build.{report}
use submission_sequencer_bat.Prost.Contract.{must_query}

-- big.Int.String
abbrev pub points_text : Option ℕ → Text
points_text none = text "<nil>"
points_text (some n) = digits n

-- DailySnapshotQuota and RewardBasePoints; nil where they could not be queried.
module _ (s : Services) (daily_snapshot_quota reward_base_points : Option ℕ) where
  abbrev Run : Type 0
  Run = s.World → Option Done × s.World

  store_total : ℤ → Option ℕ → ℕ → Run
  unfolding set
  store_total points none slot w = (none, w)
  store_total points (some base) slot w =
      let (_, w') = set s (total_slot_rewards (digits slot)) (to_string (points +ℤ pos base)) 0 w in
      (some tt, w')

  -- The points of the contract; the total is deleted if there are none.
  total_of_query : ℕ → Result ℕ → Run
  unfolding store_total send_failure_notification delete
  total_of_query slot (ok points) w = store_total (pos points) reward_base_points slot w
  total_of_query slot (err e) w =
      let (_, w₁) = send_failure_notification s (text "CalculateAndStoreRewards") high w in
      let (_, w₂) = delete s (total_slot_rewards (digits slot)) w₁ in (some tt, w₂)

  query_total : ℕ → Run
  unfolding total_of_query must_query
  query_total slot w =
      let (r, w') = must_query s (s.query_slot_reward_points (pos slot)) w in
      total_of_query slot r w'

  total_of_cache : ℕ → Option ℤ → Run
  unfolding store_total
  total_of_cache slot none w = (none, w)
  total_of_cache slot (some points) w = store_total points reward_base_points slot w

  update_total : ℕ → Result Text → Run
  unfolding query_total total_of_cache
  update_total slot (err e) w = query_total slot w
  update_total slot (ok []) w = query_total slot w
  update_total slot (ok (c ∷ t)) w = total_of_cache slot (set_string (c ∷ t)) w

  unfoldable pub calculate_and_store_rewards : ℕ → ℕ → Run
  unfolding update_total set get
  calculate_and_store_rewards day slot w =
      let (_, w') =
        set s (slot_rewards_for_day (digits day) (digits slot)) (points_text reward_base_points)
          (day_seconds * 3) w in
      update_total slot (get s (total_slot_rewards (digits slot)) w') w'

  -- The key joins the day's set and gets the new count.
  unfoldable pub store_count : ℕ → ℕ → ℤ → Run
  unfolding report add_to_set set
  store_count day slot count w =
      let key = slot_submission_key (digits slot) (digits day) in
      let (added, w₁) = add_to_set s (slot_submission_set_by_day (digits day)) (key ∷ []) w in
      let (_, w₂) = report s (text "UpdateSubmissionCounts") high added w₁ in
      let (_, w₃) = set s key (to_string count) (day_seconds * 3) w₂ in (some tt, w₃)

  abbrev if_runs : Option Done × s.World → Run → Option Done × s.World
  if_runs (none, w) next = (none, w)
  if_runs (some d, w) next = next w

  -- The count reaches the quota: the rewards are stored.
  reward_at : ℕ → ℕ → ℤ → Option ℕ → Run
  unfolding calculate_and_store_rewards
  reward_at day slot count none w = (none, w)
  reward_at day slot count (some quota) w =
      if eq_ℤ count (pos quota) then calculate_and_store_rewards day slot w else (some tt, w)

  next_count : ℕ → ℕ → Option ℤ → Run
  unfolding reward_at store_count send_failure_notification
  next_count day slot none w =
      (some tt, (send_failure_notification s (text "DailyTaskHandler") high w).1)
  next_count day slot (some count) w =
      if_runs (reward_at day slot (count +ℤ pos 1) daily_snapshot_quota w)
        (store_count day slot (count +ℤ pos 1))

  -- A slot without a count starts at 1, whatever the quota is.
  pub count_slot : ℕ → ℕ → Result Text → Run
  unfolding next_count store_count
  count_slot day slot (err e) w = store_count day slot (pos 1) w
  count_slot day slot (ok []) w = store_count day slot (pos 1) w
  count_slot day slot (ok (c ∷ t)) w = next_count day slot (set_string (c ∷ t)) w

  pub count_request : ℕ → Option Request → Run
  unfolding count_slot get
  count_request day none w = (none, w)
  count_request day (some request) w =
      count_slot day request.slot_id
        (get s (slot_submission_key (digits request.slot_id) (digits day)) w) w

  pub count_message : ℕ → Result SnapshotSubmission → Run
  unfolding count_request send_failure_notification
  count_message day (err e) w =
      (some tt, (send_failure_notification s (text "Submission unmarshalling") high w).1)
  count_message day (ok submission) w = count_request day submission.request w

  unfoldable pub count_submissions : ℕ → List Text → Run
  unfolding count_message
  count_submissions day [] w = (some tt, w)
  count_submissions day (sub ∷ subs) w =
      if_runs (count_message day (s.unmarshal_submission sub) w) (count_submissions day subs)

  unfoldable pub update_submission_counts : List BatchSubmission → ℕ → Run
  update_submission_counts [] day w = (some tt, w)
  update_submission_counts (b ∷ bs) day w =
      if_runs (count_submissions day b.batch.submissions w) (update_submission_counts bs day)
