-- ===== src/Prost/Rewards/Keeps.antt =====
-- What leaves the count of a slot in Redis alone, storing rewards above all.
use submission_sequencer_bat.Prelude.{
  ℕ, zero, suc, ◌≡◌, refl, ap, ◌∙◌, false, List, [], ◌∷◌, Option, none, some, arith, if◌then◌else◌,
}
use submission_sequencer_bat.Prelude.Text.{Text, text, text_eq, text_eq_ne, join}
use submission_sequencer_bat.Prelude.Int.{ℤ, pos}
use submission_sequencer_bat.Prelude.Decimal.{digits, set_string}
use submission_sequencer_bat.Prelude.Effect.{Result, ok, err, Done}
use submission_sequencer_bat.Data.{SequencerAlert, high}
use submission_sequencer_bat.Services.{Services}
use submission_sequencer_bat.Clients.Reporting.{send_failure_notification}
use submission_sequencer_bat.Redis.Keys.{
  slot_submission_key, slot_rewards_for_day, total_slot_rewards,
}
use submission_sequencer_bat.Redis.Client.{delete, get, set, nil_as_empty}
use submission_sequencer_bat.Merkle.Build.{report}
use submission_sequencer_bat.Prost.Contract.{must_query, must_value}
use submission_sequencer_bat.Prost.Rewards.{
  store_total, total_of_query, query_total, total_of_cache, update_total,
  calculate_and_store_rewards,
}

-- What the documentation of the services says of a Redis whose calls succeed: a key that is set has
-- its value and the others keep theirs, one that is deleted has none; sets, deletions of other keys, alerts and queries of the
-- contract leave the values as they are; a retried call changes the world only by its attempts.
pub record RedisStores (s : Services) : Type 1 where
  pub set_gets :
      (k j v : Text) (expiration : ℕ) (w : s.World)
      → s.redis_get j (s.redis_set k v expiration w).1
        ≡ (if text_eq k j then ok (some v) else s.redis_get j w)
  pub sadd_keeps :
      (k j : Text) (vs : List Text) (w : s.World)
      → s.redis_get j (s.redis_sadd k vs w).1 ≡ s.redis_get j w
  pub del_keeps :
      (k j : Text) (w : s.World)
      → text_eq k j ≡ false
      → s.redis_get j (s.redis_del (k ∷ []) w).1 ≡ s.redis_get j w
  pub del_gets : (k : Text) (w : s.World) → s.redis_get k (s.redis_del (k ∷ []) w).1 ≡ ok none
  pub alert_keeps :
      (j : Text) (a : SequencerAlert) (w : s.World)
      → s.redis_get j (s.post_alert a w) ≡ s.redis_get j w
  pub points_keeps :
      (slot : ℤ) (j : Text) (w : s.World)
      → s.redis_get j (s.query_slot_reward_points slot w).1 ≡ s.redis_get j w
  pub retry_keeps :
      (S A : Type 0) (n : ℕ) (op : S → Result A × S) (P : S → Type 0)
      → ((st : S) → P st → P (op st).1)
      → (st : S) → P st
      → P (s.retry S A n op st).1

abbrev first_byte : Text → ℕ
first_byte [] = 0
first_byte (c ∷ t) = c

rewards_key-differs :
    (a b c d : Text) → text_eq (slot_rewards_for_day a b) (slot_submission_key c d) ≡ false
unfolding slot_rewards_for_day slot_submission_key join
rewards_key-differs a b c d =
    text_eq_ne _ _ (λ e. let first : ◌≡◌ {A = ℕ} 68 83 = ap first_byte e in omega (arith, first))

pub rewards_key-total :
    (a b c : Text) → text_eq (slot_rewards_for_day a b) (total_slot_rewards c) ≡ false
unfolding slot_rewards_for_day total_slot_rewards join
rewards_key-total a b c =
    text_eq_ne _ _ (λ e. let first : ◌≡◌ {A = ℕ} 68 84 = ap first_byte e in omega (arith, first))

pub count_key-total :
    (a b c : Text) → text_eq (slot_submission_key a b) (total_slot_rewards c) ≡ false
unfolding slot_submission_key total_slot_rewards join
count_key-total a b c =
    text_eq_ne _ _ (λ e. let first : ◌≡◌ {A = ℕ} 83 84 = ap first_byte e in omega (arith, first))

total_key-differs :
    (a c d : Text) → text_eq (total_slot_rewards a) (slot_submission_key c d) ≡ false
unfolding total_slot_rewards slot_submission_key join
total_key-differs a c d =
    text_eq_ne _ _ (λ e. let first : ◌≡◌ {A = ℕ} 84 83 = ap first_byte e in omega (arith, first))

-- The text of a count, the empty one where nothing is stored.
abbrev pub count_text : ℕ → Text
count_text zero = []
count_text (suc n) = digits (suc n)

module _ (s : Services) (stores : RedisStores s) (quota points : Option ℕ) (day slot : ℕ) where
  abbrev pub count_key : Text
  count_key = slot_submission_key (digits slot) (digits day)

  -- The count of the slot is `n`.
  abbrev pub Stored : ℕ → s.World → Type 0
  Stored n w = get s count_key w ≡ ok (count_text n)

  -- A panic aside, the slot's count is then `n`.
  abbrev pub Counted : ℕ → Option Done × s.World → Type 0
  Counted n (none, w) = Unit {0}
  Counted n (some d, w) = Stored n w

  pub same-Stored :
      (n : ℕ) (w w' : s.World)
      → s.redis_get count_key w' ≡ s.redis_get count_key w
      → Stored n w
      → Stored n w'
  unfolding get
  same-Stored n w w' e h = ap nil_as_empty e ∙ h

  pub set_other :
      (n : ℕ) (k v : Text) (expiration : ℕ) (w : s.World)
      → text_eq k count_key ≡ false
      → Stored n w
      → Stored n (set s k v expiration w).1
  unfolding set
  set_other n k v x w differs h =
      same-Stored n w _ (stores.set_gets k count_key v x w ∙ rw differs refl) h

  pub alert-Stored :
      (n : ℕ) (process : Text) (w : s.World)
      → Stored n w
      → Stored n (send_failure_notification s process high w).1
  unfolding send_failure_notification
  alert-Stored n process w h = same-Stored n w _ (stores.alert_keeps count_key _ w) h

  pub report-Stored :
      (n : ℕ) (process : Text) (r : Result Done) (w : s.World)
      → Stored n w
      → Stored n (report s process high r w).1
  unfolding report
  report-Stored n process (ok d) w h = h
  report-Stored n process (err e) w h = alert-Stored n process w h

  store_total-Counted :
      (n : ℕ) (z : ℤ) (base : Option ℕ) (t : ℕ) (w : s.World)
      → Stored n w
      → Counted n (store_total s quota points z base t w)
  unfolding store_total
  store_total-Counted n z none t w h = tt
  store_total-Counted n z (some base) t w h =
      set_other n _ _ 0 w (total_key-differs (digits t) (digits slot) (digits day)) h

  total_of_query-Counted :
      (n t : ℕ) (r : Result ℕ) (w : s.World)
      → Stored n w
      → Counted n (total_of_query s quota points t r w)
  unfolding total_of_query delete
  total_of_query-Counted n t (ok p) w h = store_total-Counted n (pos p) points t w h
  total_of_query-Counted n t (err e) w h =
      let w₁ = (send_failure_notification s (text "CalculateAndStoreRewards") high w).1 in
      same-Stored n w₁ _
        (stores.del_keeps _ count_key w₁ (total_key-differs (digits t) (digits slot) (digits day)))
        (alert-Stored n (text "CalculateAndStoreRewards") w h)

  must_query-Stored :
      (n t : ℕ) (w : s.World)
      → Stored n w
      → Stored n (must_query s (s.query_slot_reward_points (pos t)) w).1
  unfolding must_query
  must_query-Stored n t w h = after (s.retry s.World ℕ 3 (s.query_slot_reward_points (pos t)) w) (
      stores.retry_keeps s.World ℕ 3 (s.query_slot_reward_points (pos t)) (Stored n)
        (λ st k. same-Stored n st _ (stores.points_keeps (pos t) count_key st) k) w h)
    where
      after : (r : Result ℕ × s.World) → Stored n r.1 → Stored n (must_value s r.0 r.1).1
      after (ok p, w') k = k
      after (err e, w') k = alert-Stored n (text "Contract query error [MustQuery]") w' k

  update_total-Counted :
      (n t : ℕ) (r : Result Text) (w : s.World)
      → Stored n w
      → Counted n (update_total s quota points t r w)
  unfolding update_total query_total total_of_cache
  update_total-Counted n t (err e) w h = total_of_query-Counted n t _ _ (must_query-Stored n t w h)
  update_total-Counted n t (ok []) w h = total_of_query-Counted n t _ _ (must_query-Stored n t w h)
  update_total-Counted n t (ok (c ∷ v)) w h = cached (set_string (c ∷ v))
    where
      cached : (o : Option ℤ) → Counted n (total_of_cache s quota points t o w)
      cached none = tt
      cached (some z) = store_total-Counted n z points t w h

  -- Storing rewards leaves the counts alone.
  pub calculate-Counted :
      (n t : ℕ) (w : s.World)
      → Stored n w
      → Counted n (calculate_and_store_rewards s quota points day t w)
  unfolding calculate_and_store_rewards
  calculate-Counted n t w h = update_total-Counted n t _ _ (
      set_other n _ _ _ w (rewards_key-differs (digits day) (digits t) (digits slot) (digits day))
        h)
