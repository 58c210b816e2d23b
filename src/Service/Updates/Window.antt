-- ===== src/Service/Updates/Window.antt =====
-- Which reward updates are listed.
use submission_sequencer_bat.Prelude.{
  ℕ, suc, ◌+◌, ◌^◌, ◌<◌, ◌≡◌, refl, ap, inl, inr, Bool, false, List, [], ◌∷◌, Option, some, none,
  arith, ltb, leb, ◌&&◌, Bool-cases, filter_by,
}
use submission_sequencer_bat.Prelude.Text.{Text, text_eq_refl, split}
use submission_sequencer_bat.Prelude.Int.{ℤ, pos, negsuc, ◌+ℤ◌, ◌-ℤ◌, not_negative}
use submission_sequencer_bat.Prelude.Decimal.{digits, atoi-digits}
use submission_sequencer_bat.Prelude.Machine.{int64}
use submission_sequencer_bat.Prelude.Sort.{sort_texts}
use submission_sequencer_bat.Prelude.Effect.{ok}
use submission_sequencer_bat.Constants.{update_rewards_name, sequencer_day_key}
use submission_sequencer_bat.Services.{Services}
use submission_sequencer_bat.Redis.Client.{get}
use submission_sequencer_bat.Service.Reply.{success, authorized}
use submission_sequencer_bat.Service.Logs.{process_pattern, keys_of, read_log, read_logs, put_log}
use submission_sequencer_bat.Service.Updates.{
  in_window, day_of, last_part, is_in_window, start_day, window_logs, handle_reward_updates,
}

-- A day of the last `past` days up to `current`.
abbrev pub is_past_day : ℕ → ℕ → Option ℤ → Bool
is_past_day current past none = false
is_past_day current past (some (pos day)) = leb day current && ltb current (day + past)
is_past_day current past (some (negsuc k)) = ltb (current + suc k) past

start_day-pos :
    (current past : ℕ)
    → current + 1 < 2 ^ 63
    → past < 2 ^ 63
    → start_day (pos current) (pos past) ≡ pos current -ℤ pos past +ℤ pos 1
unfolding start_day int64 ◌-ℤ◌ ◌+ℤ◌
start_day-pos current past h k = ground arith

in_window-is_past_day :
    (current past : ℕ) (day : Option ℤ)
    → in_window (pos current -ℤ pos past +ℤ pos 1) (pos current) day ≡ is_past_day current past day
unfolding ◌-ℤ◌ ◌+ℤ◌
in_window-is_past_day current past none = refl
in_window-is_past_day current past (some (pos day)) = ground arith
in_window-is_past_day current past (some (negsuc k)) = ground arith

-- The day that the last part of a key names is one of the last `past` days.
pub is_past_key : ℕ → ℕ → Text → Bool
is_past_key current past key = is_past_day current past (day_of (last_part (split b'.' key)))

is_in_window-is_past_key :
    (current past : ℕ) (key : Text)
    → is_in_window (pos current -ℤ pos past +ℤ pos 1) (pos current) key
      ≡ is_past_key current past key
unfolding is_in_window is_past_key
is_in_window-is_past_key current past key =
    in_window-is_past_day current past (day_of (last_part (split b'.' key)))

module _ (s : Services) (current past : ℕ) (w : s.World) where
  window_logs-filter :
      (keys : List Text)
      → window_logs s (pos current -ℤ pos past +ℤ pos 1) (pos current) keys w
        ≡ read_logs s (filter_by (is_past_key current past) keys) w
  unfolding window_logs read_logs
  window_logs-filter [] = refl
  window_logs-filter (key ∷ keys) =
      let same = is_in_window-is_past_key current past key in
      elim (Bool-cases (is_past_key current past key)) [
        | inl inside ↦
            rw (same, filter_by, inside)
              (ap (put_log (read_log s (get s key w))) (window_logs-filter keys))
        | inr outside ↦ rw (same, filter_by, outside) (window_logs-filter keys)
      ]

  -- Where Redis holds the current day, a request with the right token gets the readable logs of the
  -- reward updates of the last `past` days, the current one included, in bytewise order of their
  -- keys; none at all for 0. The day after the current one and `past` are below 2^63. Nothing is changed.
  pub reward_updates_window :
      (auth_read_token : Text)
      → current + 1 < 2 ^ 63
      → past < 2 ^ 63
      → get s sequencer_day_key w ≡ ok (digits current)
      → handle_reward_updates s auth_read_token
          (ok (record { token = auth_read_token; past_days = pos past }))
          w
        ≡ (
          success (
              read_logs s
                (filter_by
                  (is_past_key current past)
                  (sort_texts (keys_of s (process_pattern update_rewards_name) w)))
                w),
          w,
        )
  unfolding handle_reward_updates authorized
  reward_updates_window token h k day = rw (
    text_eq_refl token,
    not_negative past,
    day,
    atoi-digits current (omega arith),
    start_day-pos current past h k,
    window_logs-filter (sort_texts (keys_of s (process_pattern update_rewards_name) w)),
  )
