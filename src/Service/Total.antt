-- ===== src/Service/Total.antt =====
-- getTotalRewards and handleTotalRewards of pkgs/service/api.go.
pub mod Cache
use submission_sequencer_bat.Prelude.{ℕ, List, [], ◌∷◌, Option, none, some}
use submission_sequencer_bat.Prelude.Text.{Text, text}
use submission_sequencer_bat.Prelude.Int.{ℤ, pos, ◌+ℤ◌}
use submission_sequencer_bat.Prelude.Decimal.{to_string, atoi}
use submission_sequencer_bat.Prelude.Machine.{int64, parse_int_value}
use submission_sequencer_bat.Prelude.Effect.{Result, ok, err, M, val_or}
use submission_sequencer_bat.Services.{Services}
use submission_sequencer_bat.Redis.Keys.{total_slot_rewards, slot_rewards_for_day}
use submission_sequencer_bat.Redis.Client.{get, set}
use submission_sequencer_bat.Service.Reply.{
  Reply, success, failure, status_internal_server_error, RewardsRequest, authorized, is_bad_slot,
}
use submission_sequencer_bat.Service.Contract.{fetch_slot_rewards_points, sequencer_day}

-- big.Int.String
abbrev pub day_text : Option ℤ → Text
day_text none = text "<nil>"
day_text (some day) = to_string day

abbrev empty_as_zero : Text → Text
empty_as_zero [] = text "0"
empty_as_zero (c ∷ t) = c ∷ t

abbrev parsed : Option ℤ → Result ℤ
parsed (some n) = ok n
parsed none = err (text "strconv.ParseInt")

module _ (s : Services) where
  -- The points and those of the current day. SlotRewardsForDay is called with the slot for its day
  -- and the day for its slot, and what is set is the text that was read.
  unfoldable pub add_current_day : ℤ → Text → ℕ → Option ℤ → M s.World (Result ℤ)
  add_current_day slot old points day w =
      let current =
        empty_as_zero
          (val_or [] (get s (slot_rewards_for_day (to_string slot) (day_text day)) w)) in
      let (_, w') = set s (total_slot_rewards (to_string slot)) old 0 w in
      (ok (int64 (int64 (pos points) +ℤ parse_int_value current)), w')

  after_points : ℤ → Text → Result ℕ → M s.World (Result ℤ)
  unfolding add_current_day
  after_points slot old (err e) w = (err e, w)
  after_points slot old (ok points) w =
      let (day, w') = sequencer_day s w in add_current_day slot old points day w'

  total_from : ℤ → Result Text → M s.World (Result ℤ)
  unfolding after_points
  total_from slot (err e) w =
      let (r, w') = fetch_slot_rewards_points s slot w in after_points slot [] r w'
  total_from slot (ok []) w =
      let (r, w') = fetch_slot_rewards_points s slot w in after_points slot [] r w'
  total_from slot (ok (c ∷ t)) w = (parsed (atoi (c ∷ t)), w)

  unfoldable pub get_total_rewards : ℤ → M s.World (Result ℤ)
  unfolding total_from
  get_total_rewards slot w = total_from slot (get s (total_slot_rewards (to_string slot)) w) w

  abbrev total_reply : Result ℤ → Reply ℤ
  total_reply (ok n) = success n
  total_reply (err e) = failure status_internal_server_error

  unfoldable pub handle_total_rewards : Text → Result RewardsRequest → s.World → Reply ℤ × s.World
  handle_total_rewards auth_read_token body w =
      authorized auth_read_token (λ r. r.token) (λ r. is_bad_slot r.slot_id)
        (λ r w. let (total, w') = get_total_rewards r.slot_id w in (total_reply total, w')) body w
