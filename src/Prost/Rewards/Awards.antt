-- ===== src/Prost/Rewards/Awards.antt =====
-- The total of a slot's reward points, as UpdateSubmissionCounts changes it.
use submission_sequencer_bat.Prelude.{
  ℕ, ◌*◌, ◌≡◌, ◌≢◌, refl, ◌∙◌, false, [], ◌∷◌, Option, none, some, arith,
}
use submission_sequencer_bat.Prelude.Text.{Text, text, text_eq, text_eq_refl, text_eq_ne}
use submission_sequencer_bat.Prelude.Int.{ℤ, pos, ◌+ℤ◌}
use submission_sequencer_bat.Prelude.Decimal.{
  digits, digits-ne-nil, to_string, set_string, set_string-to_string,
}
use submission_sequencer_bat.Prelude.Effect.{Result, ok, err, Done}
use submission_sequencer_bat.Data.{high}
use submission_sequencer_bat.Constants.{day_seconds}
use submission_sequencer_bat.Services.{Services}
use submission_sequencer_bat.Clients.Reporting.{send_failure_notification}
use submission_sequencer_bat.Redis.Keys.{slot_rewards_for_day, total_slot_rewards}
use submission_sequencer_bat.Redis.Keys.Laws.{total_slot_rewards_inj}
use submission_sequencer_bat.Redis.Client.{delete, get, set}
use submission_sequencer_bat.Merkle.Build.{report}
use submission_sequencer_bat.Prost.Contract.{must_query, must_value}
use submission_sequencer_bat.Prost.Rewards.{
  store_total, total_of_query, query_total, total_of_cache, update_total,
  calculate_and_store_rewards,
}
use submission_sequencer_bat.Prost.Rewards.Keeps.{RedisStores, rewards_key-total}

module _ (s : Services) (stores : RedisStores s) (quota points day slot : ℕ) where
  -- The total of the slot is `z`.
  abbrev pub Total : ℤ → s.World → Type 0
  Total z w = s.redis_get (total_slot_rewards (digits slot)) w ≡ ok (some (to_string z))

  -- A panic aside, the total is then `z`.
  abbrev pub Gives : ℤ → Option Done × s.World → Type 0
  Gives z (none, w) = Unit {0}
  Gives z (some d, w) = Total z w

  pub set_other-Total :
      (z : ℤ) (k v : Text) (expiration : ℕ) (w : s.World)
      → text_eq k (total_slot_rewards (digits slot)) ≡ false
      → Total z w
      → Total z (set s k v expiration w).1
  unfolding set
  set_other-Total z k v x w differs h =
      stores.set_gets k (total_slot_rewards (digits slot)) v x w ∙ rw differs h

  pub alert-Total :
      (z : ℤ) (process : Text) (w : s.World)
      → Total z w
      → Total z (send_failure_notification s process high w).1
  unfolding send_failure_notification
  alert-Total z process w h = stores.alert_keeps _ _ w ∙ h

  pub report-Total :
      (z : ℤ) (process : Text) (r : Result Done) (w : s.World)
      → Total z w
      → Total z (report s process high r w).1
  unfolding report
  report-Total z process (ok d) w h = h
  report-Total z process (err e) w h = alert-Total z process w h

  must_query-Total :
      (z : ℤ) (u : ℕ) (w : s.World)
      → Total z w
      → Total z (must_query s (s.query_slot_reward_points (pos u)) w).1
  unfolding must_query
  must_query-Total z u w h = after (s.retry s.World ℕ 3 (s.query_slot_reward_points (pos u)) w) (
      stores.retry_keeps s.World ℕ 3 (s.query_slot_reward_points (pos u)) (Total z)
        (λ st k. stores.points_keeps (pos u) _ st ∙ k) w h)
    where
      after : (r : Result ℕ × s.World) → Total z r.1 → Total z (must_value s r.0 r.1).1
      after (ok p, w') k = k
      after (err e, w') k = alert-Total z (text "Contract query error [MustQuery]") w' k

  total_key-other :
      (u : ℕ)
      → u ≢ slot
      → text_eq (total_slot_rewards (digits u)) (total_slot_rewards (digits slot)) ≡ false
  total_key-other u differs = text_eq_ne _ _ (λ e. differs (total_slot_rewards_inj u slot e))

  -- The rewards of another slot.
  store_total-Gives :
      (z y : ℤ) (u : ℕ) (w : s.World)
      → u ≢ slot
      → Total z w
      → Gives z (store_total s (some quota) (some points) y (some points) u w)
  unfolding store_total
  store_total-Gives z y u w differs h = set_other-Total z _ _ 0 w (total_key-other u differs) h

  total_of_query-Gives :
      (z : ℤ) (u : ℕ) (r : Result ℕ) (w : s.World)
      → u ≢ slot
      → Total z w
      → Gives z (total_of_query s (some quota) (some points) u r w)
  unfolding total_of_query delete
  total_of_query-Gives z u (ok p) w differs h = store_total-Gives z (pos p) u w differs h
  total_of_query-Gives z u (err e) w differs h =
      stores.del_keeps _ _ _ (total_key-other u differs)
      ∙ alert-Total z (text "CalculateAndStoreRewards") w h

  update_total-Gives :
      (z : ℤ) (u : ℕ) (r : Result Text) (w : s.World)
      → u ≢ slot
      → Total z w
      → Gives z (update_total s (some quota) (some points) u r w)
  unfolding update_total query_total total_of_cache
  update_total-Gives z u (err e) w differs h =
      total_of_query-Gives z u _ _ differs (must_query-Total z u w h)
  update_total-Gives z u (ok []) w differs h =
      total_of_query-Gives z u _ _ differs (must_query-Total z u w h)
  update_total-Gives z u (ok (c ∷ v)) w differs h = cached (set_string (c ∷ v))
    where
      cached : (o : Option ℤ) → Gives z (total_of_cache s (some quota) (some points) u o w)
      cached none = tt
      cached (some y) = store_total-Gives z y u w differs h

  pub calculate_other-Gives :
      (z : ℤ) (u : ℕ) (w : s.World)
      → u ≢ slot
      → Total z w
      → Gives z (calculate_and_store_rewards s (some quota) (some points) day u w)
  unfolding calculate_and_store_rewards
  calculate_other-Gives z u w differs h =
      update_total-Gives z u _ _ differs
        (set_other-Total z _ _ _ w (rewards_key-total (digits day) (digits u) (digits slot)) h)

  -- The rewards of the slot itself.
  cached-Gives :
      (z : ℤ) (t : Text) (w : s.World)
      → t ≢ []
      → set_string t ≡ some z
      → Gives (z +ℤ pos points) (update_total s (some quota) (some points) slot (ok t) w)
  unfolding update_total total_of_cache store_total set
  cached-Gives z [] w h e = absurd (h refl)
  cached-Gives z (c ∷ t) w h e = rw e (
      stores.set_gets _ _ (to_string (z +ℤ pos points)) 0 w
      ∙ rw (text_eq_refl (total_slot_rewards (digits slot))) refl)

  to_string-ne-nil : (z : ℤ) → to_string z ≢ []
  unfolding to_string
  to_string-ne-nil (pos n) = digits-ne-nil n
  to_string-ne-nil (ℤ.negsuc n) = ground arith

  pub calculate_own-Gives :
      (z : ℤ) (w : s.World)
      → Total z w
      → Gives
          (z +ℤ pos points)
          (calculate_and_store_rewards s (some quota) (some points) day slot w)
  unfolding calculate_and_store_rewards get
  calculate_own-Gives z w h =
      let key = slot_rewards_for_day (digits day) (digits slot) in
      let h' =
        set_other-Total z key (digits points) (day_seconds * 3) w
          (rewards_key-total (digits day) (digits slot) (digits slot)) h in
      rw h' (cached-Gives z (to_string z) _ (to_string-ne-nil z) (set_string-to_string z))
