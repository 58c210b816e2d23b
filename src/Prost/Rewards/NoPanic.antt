-- ===== src/Prost/Rewards/NoPanic.antt =====
-- When UpdateSubmissionCounts does not panic: the quota and the points are set, each submission that
-- can be read has a request, and the totals of the slots in Redis are numbers, which they stay.
use submission_sequencer_bat.Prelude.{
  ℕ, ◌≡◌, inl, inr, List, [], ◌∷◌, Option, none, some, All, Bool-cases,
}
use submission_sequencer_bat.Prelude.Text.{Text, text}
use submission_sequencer_bat.Prelude.Int.{ℤ, pos, ◌+ℤ◌, eq_ℤ}
use submission_sequencer_bat.Prelude.Decimal.{digits, to_string, set_string}
use submission_sequencer_bat.Prelude.Effect.{Result, ok, err, Done}
use submission_sequencer_bat.Data.{SnapshotSubmission, Request}
use submission_sequencer_bat.Services.{Services}
use submission_sequencer_bat.Redis.Keys.{
  slot_submission_key, slot_submission_set_by_day, total_slot_rewards,
}
use submission_sequencer_bat.Redis.Client.{add_to_set}
use submission_sequencer_bat.Prost.Rewards.{
  store_total, total_of_query, query_total, total_of_cache, update_total,
  calculate_and_store_rewards, store_count, if_runs, reward_at, next_count, count_slot,
  count_request, count_message, count_submissions,
}
use submission_sequencer_bat.Prost.Rewards.Keeps.{RedisStores, rewards_key-total, count_key-total}
use submission_sequencer_bat.Prost.Rewards.Totals.{
  Readable, Runs, Sound, set_total-Sound, set_other-Sound, delete-Sound, alert-Sound,
  must_query-Sound, report-Sound, same-Sound,
}

module _ (s : Services) (stores : RedisStores s) (quota points day : ℕ) where
  store_total-Runs :
      (u : ℕ) (z : ℤ) (w : s.World)
      → Sound s stores w
      → Runs (Sound s stores) (store_total s (some quota) (some points) z (some points) u w)
  unfolding store_total
  store_total-Runs u z w h = set_total-Sound s stores u (z +ℤ pos points) 0 w h

  total_of_query-Runs :
      (u : ℕ) (r : Result ℕ) (w : s.World)
      → Sound s stores w
      → Runs (Sound s stores) (total_of_query s (some quota) (some points) u r w)
  unfolding total_of_query
  total_of_query-Runs u (ok p) w h = store_total-Runs u (pos p) w h
  total_of_query-Runs u (err e) w h =
      delete-Sound s stores u _ (alert-Sound s stores (text "CalculateAndStoreRewards") w h)

  update_total-Runs :
      (u : ℕ) (r : Result Text) (w : s.World)
      → Readable r
      → Sound s stores w
      → Runs (Sound s stores) (update_total s (some quota) (some points) u r w)
  unfolding update_total query_total total_of_cache
  update_total-Runs u (err e) w k h = total_of_query-Runs u _ _ (must_query-Sound s stores u w h)
  update_total-Runs u (ok []) w k h = total_of_query-Runs u _ _ (must_query-Sound s stores u w h)
  update_total-Runs u (ok (c ∷ v)) w (z, e) h = rw e (store_total-Runs u z w h)

  calculate-Runs :
      (u : ℕ) (w : s.World)
      → Sound s stores w
      → Runs (Sound s stores) (calculate_and_store_rewards s (some quota) (some points) day u w)
  unfolding calculate_and_store_rewards
  calculate-Runs u w h =
      let h' =
        set_other-Sound s stores _ _ _ w (λ t. rewards_key-total (digits day) (digits u) (digits t))
          h in
      update_total-Runs u _ _ (h' u) h'

  store_count-Runs :
      (u : ℕ) (c : ℤ) (w : s.World)
      → Sound s stores w
      → Runs (Sound s stores) (store_count s (some quota) (some points) day u c w)
  unfolding store_count add_to_set
  store_count-Runs u c w h =
      let set_key = slot_submission_set_by_day (digits day) in
      let key = slot_submission_key (digits u) (digits day) in
      let made = add_to_set s set_key (key ∷ []) w in
      set_other-Sound s stores key (to_string c) _ _
        (λ t. count_key-total (digits u) (digits day) (digits t))
        (report-Sound s stores (text "UpdateSubmissionCounts") made.0 made.1 (
          same-Sound s stores w made.1
            (λ t. stores.sadd_keeps set_key (total_slot_rewards (digits t)) (key ∷ []) w) h))

  if_runs-Runs :
      (r : Option Done × s.World) (next : s.World → Option Done × s.World)
      → Runs (Sound s stores) r
      → ((w : s.World) → Sound s stores w → Runs (Sound s stores) (next w))
      → Runs (Sound s stores) (if_runs s (some quota) (some points) r next)
  if_runs-Runs (none, w) next h k = absurd h
  if_runs-Runs (some d, w) next h k = k w h

  reward_at-Runs :
      (u : ℕ) (c : ℤ) (w : s.World)
      → Sound s stores w
      → Runs (Sound s stores) (reward_at s (some quota) (some points) day u c (some quota) w)
  unfolding reward_at
  reward_at-Runs u c w h = elim (Bool-cases (eq_ℤ c (pos quota))) [
    | inl e ↦ rw e (calculate-Runs u w h)
    | inr e ↦ rw e h
  ]

  next_count-Runs :
      (u : ℕ) (o : Option ℤ) (w : s.World)
      → Sound s stores w
      → Runs (Sound s stores) (next_count s (some quota) (some points) day u o w)
  unfolding next_count
  next_count-Runs u none w h = alert-Sound s stores (text "DailyTaskHandler") w h
  next_count-Runs u (some c) w h =
      if_runs-Runs (reward_at s (some quota) (some points) day u (c +ℤ pos 1) (some quota) w)
        (store_count s (some quota) (some points) day u (c +ℤ pos 1))
        (reward_at-Runs u (c +ℤ pos 1) w h) (store_count-Runs u (c +ℤ pos 1))

  count_slot-Runs :
      (u : ℕ) (r : Result Text) (w : s.World)
      → Sound s stores w
      → Runs (Sound s stores) (count_slot s (some quota) (some points) day u r w)
  unfolding count_slot
  count_slot-Runs u (err e) w h = store_count-Runs u (pos 1) w h
  count_slot-Runs u (ok []) w h = store_count-Runs u (pos 1) w h
  count_slot-Runs u (ok (c ∷ t)) w h = next_count-Runs u (set_string (c ∷ t)) w h

  -- Not a submission without a request.
  abbrev pub Requested : Result SnapshotSubmission → Type 0
  Requested (err e) = Unit {0}
  Requested (ok submission) = (r : Request) × (submission.request ≡ some r)

  count_message-Runs :
      (r : Result SnapshotSubmission) (w : s.World)
      → Requested r
      → Sound s stores w
      → Runs (Sound s stores) (count_message s (some quota) (some points) day r w)
  unfolding count_message count_request
  count_message-Runs (err e) w k h = alert-Sound s stores (text "Submission unmarshalling") w h
  count_message-Runs (ok submission) w (r, e) h = rw e (count_slot-Runs r.slot_id _ w h)

  pub count_submissions-Runs :
      (subs : List Text) (w : s.World)
      → All (λ sub. Requested (s.unmarshal_submission sub)) subs
      → Sound s stores w
      → Runs (Sound s stores) (count_submissions s (some quota) (some points) day subs w)
  unfolding count_submissions
  count_submissions-Runs [] w k h = h
  count_submissions-Runs (sub ∷ subs) w (here, there) h =
      if_runs-Runs _ (count_submissions s (some quota) (some points) day subs)
        (count_message-Runs (s.unmarshal_submission sub) w here h)
        (λ w' h'. count_submissions-Runs subs w' there h')
