-- ===== src/Service/Daily/Cache.antt =====
-- What a request for daily rewards leaves in Redis.
use submission_sequencer_bat.Prelude.{ℕ, ◌≡◌, ◌≢◌, refl, ap, ◌∙◌, false, [], ◌∷◌, arith}
use submission_sequencer_bat.Prelude.Text.{Text, text_eq_refl, join}
use submission_sequencer_bat.Prelude.Int.{ℤ}
use submission_sequencer_bat.Prelude.Decimal.{to_string}
use submission_sequencer_bat.Prelude.Effect.{Result, ok, err}
use submission_sequencer_bat.Services.{Services}
use submission_sequencer_bat.Redis.Keys.{slot_submission_key, slot_rewards_for_day}
use submission_sequencer_bat.Redis.Client.{get, set}
use submission_sequencer_bat.Service.Reply.{authorized, is_bad_slot}
use submission_sequencer_bat.Service.Contract.{Constants, RedisApart, fetch_slot_submission_count}
use submission_sequencer_bat.Service.Daily.{
  keep_count, fetch_count, daily_count, handle_daily_rewards,
}

abbrev first_byte : Text → ℕ
first_byte [] = 0
first_byte (c ∷ t) = c

keys_differ : (a b c d : Text) → slot_submission_key a b ≢ slot_rewards_for_day c d
unfolding slot_submission_key slot_rewards_for_day join
keys_differ a b c d e = let first : ◌≡◌ {A = ℕ} 83 68 = ap first_byte e in omega (arith, first)

module _ (s : Services) (apart : RedisApart s) (slot day : ℤ) where
  abbrev count_key : Text
  count_key = slot_submission_key (to_string slot) (to_string day)

  keep_count-same :
      (r : Result ℕ) (w : s.World)
      → s.redis_get count_key (keep_count s slot day r w).1 ≡ s.redis_get count_key w
  unfolding keep_count set
  keep_count-same (err e) w = refl
  keep_count-same (ok n) w =
      apart.set_keeps _ count_key _ 0 w (keys_differ (to_string slot) (to_string day) _ _)

  fetch_count-same :
      (w : s.World) → s.redis_get count_key (fetch_count s slot day w).1 ≡ s.redis_get count_key w
  unfolding fetch_count fetch_slot_submission_count
  fetch_count-same w =
      let call = fetch_slot_submission_count s slot day w in
      keep_count-same call.0 call.1
      ∙ apart.retry_keeps s.World ℕ 5 (s.query_slot_submission_count slot day)
          (λ st. s.redis_get count_key st ≡ s.redis_get count_key w)
          (λ st e. apart.count_keeps slot day count_key st ∙ e) w refl

  daily_count-same :
      (r : Result Text) (w : s.World)
      → s.redis_get count_key (daily_count s slot day r w).1 ≡ s.redis_get count_key w
  unfolding daily_count
  daily_count-same (err e) w = fetch_count-same w
  daily_count-same (ok []) w = fetch_count-same w
  daily_count-same (ok (c ∷ t)) w = refl

  -- Where the services keep Redis apart, a request for the daily rewards of a good slot with the
  -- right token leaves the value from which the handler reads the slot's count as it was. So a
  -- count that is missing there is still missing afterwards, although the contract was asked.
  pub daily_count_stays :
      (auth_read_token : Text) (c : Constants) (w : s.World)
      → is_bad_slot slot ≡ false
      → get s count_key
          (handle_daily_rewards s auth_read_token c
            (ok (record { slot_id = slot; day = day; token = auth_read_token }))
            w).1
        ≡ get s count_key w
  unfolding handle_daily_rewards authorized get
  daily_count_stays token c w good =
      rw (text_eq_refl token, good, daily_count-same (get s count_key w) w)
