-- ===== src/Service/Total/Cache.antt =====
-- What a request for total rewards leaves in Redis.
use submission_sequencer_bat.Prelude.{ℕ, ◌≡◌, ap, ◌∙◌, inl, inr, [], ◌∷◌}
use submission_sequencer_bat.Prelude.Text.{Text}
use submission_sequencer_bat.Prelude.Int.{ℤ}
use submission_sequencer_bat.Prelude.Decimal.{to_string}
use submission_sequencer_bat.Prelude.Effect.{Result, ok, err, val_or}
use submission_sequencer_bat.Services.{Services}
use submission_sequencer_bat.Constants.{sequencer_day_key}
use submission_sequencer_bat.Redis.Keys.{total_slot_rewards}
use submission_sequencer_bat.Redis.Client.{get, set, nil_as_empty}
use submission_sequencer_bat.Service.Contract.{
  RedisApart, fetch_slot_rewards_points, fetch_day_counter, sequencer_day, day_from,
}
use submission_sequencer_bat.Service.Total.{
  add_current_day, after_points, total_from, get_total_rewards,
}

module _ (s : Services) (apart : RedisApart s) (slot : ℤ) where
  abbrev total_key : Text
  total_key = total_slot_rewards (to_string slot)

  -- No total is cached.
  abbrev Uncached : s.World → Type 0
  Uncached w = get s total_key w ≡ ok []

  same-Uncached :
      (w w' : s.World)
      → s.redis_get total_key w' ≡ s.redis_get total_key w
      → Uncached w
      → Uncached w'
  unfolding get
  same-Uncached w w' e h = ap nil_as_empty e ∙ h

  points-Uncached : (w : s.World) → Uncached w → Uncached (fetch_slot_rewards_points s slot w).1
  unfolding fetch_slot_rewards_points
  points-Uncached w h =
      apart.retry_keeps s.World ℕ 5 (s.query_slot_reward_points slot) Uncached
        (λ st k. same-Uncached st _ (apart.points_keeps slot total_key st) k) w h

  counter-Uncached : (w : s.World) → Uncached w → Uncached (fetch_day_counter s w).1
  unfolding fetch_day_counter
  counter-Uncached w h =
      apart.retry_keeps s.World ℕ 5 s.query_day_counter Uncached
        (λ st k. same-Uncached st _ (apart.day_keeps total_key st) k) w h

  day_from-Uncached : (t : Text) (w : s.World) → Uncached w → Uncached (day_from s t w).1
  unfolding day_from
  day_from-Uncached [] w h = counter-Uncached w h
  day_from-Uncached (c ∷ t) w h = h

  set-Uncached : (w : s.World) → Uncached w → Uncached (set s total_key [] 0 w).1
  unfolding set get
  set-Uncached w h = elim (apart.set_stores total_key [] 0 w) [
    | inl e ↦ ap nil_as_empty e
    | inr e ↦ ap nil_as_empty e ∙ h
  ]

  after_points-Uncached :
      (r : Result ℕ) (w : s.World) → Uncached w → Uncached (after_points s slot [] r w).1
  unfolding after_points add_current_day sequencer_day
  after_points-Uncached (err e) w h = h
  after_points-Uncached (ok n) w h =
      set-Uncached _ (day_from-Uncached (val_or [] (get s sequencer_day_key w)) w h)

  -- Where the services keep Redis apart, getTotalRewards of a slot whose total is not cached
  -- leaves it uncached, whatever the total is: it is asked of the contract each time.
  total_stays_uncached :
      (w : s.World)
      → get s (total_slot_rewards (to_string slot)) w ≡ ok []
      → get s (total_slot_rewards (to_string slot)) (get_total_rewards s slot w).1 ≡ ok []
  unfolding get_total_rewards total_from
  total_stays_uncached w h = rw h (
      after_points-Uncached (fetch_slot_rewards_points s slot w).0
        (fetch_slot_rewards_points s slot w).1 (points-Uncached w h))
