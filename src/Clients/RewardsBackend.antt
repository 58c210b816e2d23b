-- ===== src/Clients/RewardsBackend.antt =====
-- BulkAssignSlotRewards, AssignSlotReward and a round of PeriodicSlotRewardRetry of
-- pkgs/helpers/clients/rewardsBackend.go. The goroutines that are started for the slots come to
-- work in whatever order the scheduler gives them, each with its request, its alerts and its update of
-- the table, which a mutex makes one step. Slots and days are ints.
pub mod Failures
use submission_sequencer_bat.Prelude.{List, [], ◌∷◌, Option, none, some}
use submission_sequencer_bat.Prelude.Text.{Text, text, split}
use submission_sequencer_bat.Prelude.Int.{ℤ}
use submission_sequencer_bat.Prelude.Decimal.{to_string, atoi}
use submission_sequencer_bat.Prelude.Machine.{parse_int_value}
use submission_sequencer_bat.Prelude.Effect.{Result, ok, err, Done, M, val_or}
use submission_sequencer_bat.Data.{medium, high}
use submission_sequencer_bat.Constants.{rewards_backend_failures}
use submission_sequencer_bat.Services.{Services}
use submission_sequencer_bat.Clients.Reporting.{send_failure_notification}
use submission_sequencer_bat.Redis.Client.{lock_update_hash_table}

module _ (s : Services) where
  abbrev pub notify : Result Done → s.World → s.World
  notify (ok d) w = w
  notify (err e) w = (send_failure_notification s (text "AssignSlotReward") medium w).1

  -- The request is sent with at most three more attempts.
  unfoldable pub assign_slot_reward : ℤ → ℤ → M s.World (Result Done)
  assign_slot_reward slot day w =
      let (r, w') = s.retry s.World Done 3 (s.post_slot_reward slot day) w in (r, notify r w')

  -- A slot whose request fails is kept in the failures of the day.
  unfoldable pub keep_failure : ℤ → ℤ → Result Done → s.World → s.World
  unfolding lock_update_hash_table
  keep_failure slot day (ok d) w = w
  keep_failure slot day (err e) w =
      let (r, w') =
        lock_update_hash_table s rewards_backend_failures (to_string day) (to_string slot) w in
      notify r w'

  unfoldable pub assign_slot : ℤ → Option ℤ → s.World → s.World
  unfolding assign_slot_reward keep_failure
  assign_slot day none w = w
  assign_slot day (some slot) w =
      let (r, w') = assign_slot_reward slot day w in keep_failure slot day r w'

  unfoldable pub assign_slots : ℤ → List Text → s.World → s.World
  assign_slots day [] w = w
  assign_slots day (slot ∷ slots) w = assign_slots day slots (assign_slot day (atoi slot) w)

  unfoldable pub bulk_assign_slot_rewards : ℤ → List Text → s.World → s.World
  bulk_assign_slot_rewards day slots w = assign_slots day (s.scheduled slots) w

  abbrev report_day : Option ℤ → s.World → s.World
  report_day (some day) w = w
  report_day none w = (send_failure_notification s (text "PeriodicSlotRewardRetry") high w).1

  -- The entry is removed before its slots are tried; a failure to remove it ends the round.
  unfoldable pub retry_days : List (Text × Text) → s.World → s.World
  retry_days [] w = w
  retry_days ((day, slots) ∷ days) w =
      let (removed, w') = s.redis_hdel rewards_backend_failures day (report_day (atoi day) w) in
      let rest =
        retry_days days (bulk_assign_slot_rewards (parse_int_value day) (split b',' slots) w') in
      elim removed [
        | err e ↦ (send_failure_notification s (text "PeriodicSlotRewardRetry") high w').1
        | ok d ↦ rest
      ]

  unfoldable pub periodic_slot_reward_retry : s.World → s.World
  periodic_slot_reward_retry w =
      retry_days (s.range_map Text (val_or [] (s.redis_hgetall rewards_backend_failures w))) w
