-- ===== src/Prost/Rewards/Once.antt =====
-- UpdateSubmissionCounts stores the rewards of a slot once at most.
use submission_sequencer_bat.Prelude.{
  ℕ, ◌+◌, ◌≡◌, sym, inl, inr, List, [], ◌∷◌, Option, none, some, arith, All, ◌==◌, ==_iff,
  Bool-cases,
}
use submission_sequencer_bat.Prelude.Text.{Text, text}
use submission_sequencer_bat.Prelude.Int.{ℤ}
use submission_sequencer_bat.Prelude.Decimal.{digits, to_string}
use submission_sequencer_bat.Prelude.Effect.{Result, ok, err, Done}
use submission_sequencer_bat.Data.{BatchSubmission, SnapshotSubmission, Request}
use submission_sequencer_bat.Services.{Services}
use submission_sequencer_bat.Redis.Keys.{slot_submission_key, total_slot_rewards}
use submission_sequencer_bat.Redis.Client.{get}
use submission_sequencer_bat.Prost.Rewards.{
  if_runs, count_request, count_message, count_submissions, update_submission_counts,
}
use submission_sequencer_bat.Prost.Rewards.Keeps.{RedisStores, count_text}
use submission_sequencer_bat.Prost.Rewards.Keeps.{Stored, Counted}
use submission_sequencer_bat.Prost.Rewards.Counts.{of_slot, occurrences, count_message-Counted}
use submission_sequencer_bat.Prost.Rewards.Totals.{Sound}
use submission_sequencer_bat.Prost.Rewards.NoPanic.{Requested}
use submission_sequencer_bat.Prost.Rewards.Sums.{
  Reaches, submissions_of, update_counts-all, count_submissions-Reaches,
}
use submission_sequencer_bat.Prost.Rewards.Awards.{Total, Gives, alert-Total}
use submission_sequencer_bat.Prost.Rewards.Quota.{
  awards, awards-+, once, awards-once, count_other-Gives, count_own-Gives,
}
use submission_sequencer_bat.Prost.Rewards.Counts.{of_request}

module _ (s : Services) (stores : RedisStores s) (quota points day slot : ℕ) where
  count_request-Gives :
      (z : ℤ) (n : ℕ) (r : Option Request) (w : s.World)
      → Stored s stores (some quota) (some points) day slot n w
      → Total s stores quota points day slot z w
      → Gives s stores quota points day slot
          (awards quota points (of_request s stores (some quota) (some points) day slot r) n z)
          (count_request s (some quota) (some points) day r w)
  unfolding count_request
  count_request-Gives z n none w held h = tt
  count_request-Gives z n (some r) w held h = elim (Bool-cases (r.slot_id == slot)) [
    | inl e ↦
        let own : r.slot_id ≡ slot = (==_iff r.slot_id slot).0 e in
        rw (e, own, held) (count_own-Gives s stores quota points day slot z n w h)
    | inr e ↦ rw e (
        count_other-Gives s stores quota points day slot z r.slot_id _ w
          (λ k. ground (arith, ==_iff r.slot_id slot)) h)
  ]

  count_message-Gives :
      (z : ℤ) (n : ℕ) (r : Result SnapshotSubmission) (w : s.World)
      → Stored s stores (some quota) (some points) day slot n w
      → Total s stores quota points day slot z w
      → Gives s stores quota points day slot
          (awards quota points (of_slot s stores (some quota) (some points) day slot r) n z)
          (count_message s (some quota) (some points) day r w)
  unfolding count_message
  count_message-Gives z n (err e) w held h =
      alert-Total s stores quota points day slot z (text "Submission unmarshalling") w h
  count_message-Gives z n (ok submission) w held h =
      count_request-Gives z n submission.request w held h

  if_runs_with_count :
      (n : ℕ) (y z : ℤ) (r : Option Done × s.World) (next : s.World → Option Done × s.World)
      → Counted s stores (some quota) (some points) day slot n r
      → Gives s stores quota points day slot y r
      → ((w : s.World)
          → Stored s stores (some quota) (some points) day slot n w
          → Total s stores quota points day slot y w
          → Gives s stores quota points day slot z (next w))
      → Gives s stores quota points day slot z (if_runs s (some quota) (some points) r next)
  if_runs_with_count n y z (none, w) next held h k = tt
  if_runs_with_count n y z (some d, w) next held h k = k w held h

  count_submissions-Gives :
      (subs : List Text) (z : ℤ) (n : ℕ) (w : s.World)
      → Stored s stores (some quota) (some points) day slot n w
      → Total s stores quota points day slot z w
      → Gives s stores quota points day slot
          (awards quota points (occurrences s stores (some quota) (some points) day slot subs) n z)
          (count_submissions s (some quota) (some points) day subs w)
  unfolding count_submissions
  count_submissions-Gives [] z n w held h = h
  count_submissions-Gives (sub ∷ subs) z n w held h =
      let r = s.unmarshal_submission sub in
      let here = of_slot s stores (some quota) (some points) day slot r in
      let rest = occurrences s stores (some quota) (some points) day slot subs in
      rw (awards-+ quota points here rest n z) (
        if_runs_with_count (n + here) (awards quota points here n z)
          (awards quota points rest (n + here) (awards quota points here n z))
          (count_message s (some quota) (some points) day r w)
          (count_submissions s (some quota) (some points) day subs)
          (count_message-Counted s stores (some quota) (some points) day slot n r w held)
          (count_message-Gives z n r w held h)
          (λ w' held' h'.
            count_submissions-Gives subs (awards quota points here n z) (n + here) w' held' h'))

  -- No panic, the count of the slot is `n` and its total is `z`.
  abbrev pub Ends : ℕ → ℤ → Option Done × s.World → Type 0
  Ends n z (none, w) = ⊥
  Ends n z (some d, w) =
      (get s (slot_submission_key (digits slot) (digits day)) w ≡ ok (count_text n))
      × (s.redis_get (total_slot_rewards (digits slot)) w ≡ ok (some (to_string z)))

  both :
      (n : ℕ) (z : ℤ) (r : Option Done × s.World)
      → Reaches s stores quota points day slot n r
      → Gives s stores quota points day slot z r
      → Ends n z r
  both n z (none, w) h k = h
  both n z (some d, w) h k = (h.0, k)

  -- Where Redis stores what it is given, each submission that can be read has a request, and the
  -- totals in Redis are numbers, the quota and the points being set: UpdateSubmissionCounts ends
  -- without a panic, the count of a slot for the day grows from `n` by the number `k` of its
  -- submissions in all the batches, and its total grows by the points of a day, once, if the count
  -- passes from below the quota to the quota or more and the quota is above 1; else the total stays
  -- as it is, also where the count was above the quota before.
  pub update_counts-once :
      (batches : List BatchSubmission) (n : ℕ) (z : ℤ) (w : s.World)
      → All
          (λ sub. Requested s stores quota points day (s.unmarshal_submission sub))
          (submissions_of batches)
      → Sound s stores w
      → get s (slot_submission_key (digits slot) (digits day)) w ≡ ok (count_text n)
      → s.redis_get (total_slot_rewards (digits slot)) w ≡ ok (some (to_string z))
      → let k = occurrences s stores (some quota) (some points) day slot (submissions_of batches) in
        Ends
          (n + k)
          (once quota points k n z)
          (update_submission_counts s (some quota) (some points) batches day w)
  update_counts-once batches n z w requested sound held h =
      let subs = submissions_of batches in
      let k = occurrences s stores (some quota) (some points) day slot subs in
      rw (update_counts-all s quota points day batches w, sym (awards-once quota points k n z))
        (both _ _ _
          (count_submissions-Reaches s stores quota points day slot subs n w requested
            (held, sound))
          (count_submissions-Gives subs z n w held h))
