-- ===== src/Prost/Rewards/Sums.antt =====
-- UpdateSubmissionCounts over the batches of an epoch: it ends without a panic, with the counts.
use submission_sequencer_bat.Prelude.{
  refl, sym, ap, ◌∙◌, ℕ, ◌+◌, ◌≡◌, List, [], ◌∷◌, ◌++◌, Option, none, some, All,
}
use submission_sequencer_bat.Prelude.Text.{Text}
use submission_sequencer_bat.Prelude.Decimal.{digits}
use submission_sequencer_bat.Prelude.Effect.{ok, Done}
use submission_sequencer_bat.Data.{BatchSubmission}
use submission_sequencer_bat.Services.{Services}
use submission_sequencer_bat.Redis.Keys.{slot_submission_key}
use submission_sequencer_bat.Redis.Client.{get}
use submission_sequencer_bat.Prost.Rewards.{if_runs, count_submissions, update_submission_counts}
use submission_sequencer_bat.Prost.Rewards.Keeps.{RedisStores, count_text, Stored, Counted}
use submission_sequencer_bat.Prost.Rewards.Counts.{occurrences, count_submissions-Counted}
use submission_sequencer_bat.Prost.Rewards.Totals.{Sound, Runs}
use submission_sequencer_bat.Prost.Rewards.NoPanic.{Requested, count_submissions-Runs}

-- The submissions of the batches, one after another.
abbrev pub submissions_of : List BatchSubmission → List Text
submissions_of [] = []
submissions_of (b ∷ bs) = b.batch.submissions ++ submissions_of bs

-- UpdateSubmissionCounts goes through all submissions one after another.
module _ (s : Services) (quota points day : ℕ) where
  if_runs_assoc :
      (r : Option Done × s.World) (f g : s.World → Option Done × s.World)
      → if_runs s (some quota) (some points) r (λ w. if_runs s (some quota) (some points) (f w) g)
        ≡ if_runs s (some quota) (some points) (if_runs s (some quota) (some points) r f) g
  if_runs_assoc (none, w) f g = refl
  if_runs_assoc (some d, w) f g = refl

  count_submissions-append :
      (xs ys : List Text) (w : s.World)
      → count_submissions s (some quota) (some points) day (xs ++ ys) w
        ≡ if_runs s
            (some quota)
            (some points)
            (count_submissions s (some quota) (some points) day xs w)
            (count_submissions s (some quota) (some points) day ys)
  unfolding count_submissions
  count_submissions-append [] ys w = refl
  count_submissions-append (x ∷ xs) ys w =
      ap (if_runs s (some quota) (some points) _) (λ i w'. count_submissions-append xs ys w' i)
      ∙ if_runs_assoc _ (count_submissions s (some quota) (some points) day xs)
          (count_submissions s (some quota) (some points) day ys)

  pub update_counts-all :
      (batches : List BatchSubmission) (w : s.World)
      → update_submission_counts s (some quota) (some points) batches day w
        ≡ count_submissions s (some quota) (some points) day (submissions_of batches) w
  unfolding update_submission_counts count_submissions
  update_counts-all [] w = refl
  update_counts-all (b ∷ bs) w =
      ap (if_runs s (some quota) (some points) _) (λ i w'. update_counts-all bs w' i)
      ∙ sym (count_submissions-append b.batch.submissions (submissions_of bs) w)

module _ (s : Services) (stores : RedisStores s) (quota points day slot : ℕ) where
  -- No panic, the count of the slot is `n`, and the totals are numbers.
  abbrev pub Reaches : ℕ → Option Done × s.World → Type 0
  Reaches n (none, w) = ⊥
  Reaches n (some d, w) = Stored s stores (some quota) (some points) day slot n w × Sound s stores w

  both :
      (n : ℕ) (r : Option Done × s.World)
      → Counted s stores (some quota) (some points) day slot n r
      → Runs (Sound s stores) r
      → Reaches n r
  both n (none, w) h k = k
  both n (some d, w) h k = (h, k)

  pub count_submissions-Reaches :
      (subs : List Text) (n : ℕ) (w : s.World)
      → All (λ sub. Requested s stores quota points day (s.unmarshal_submission sub)) subs
      → Reaches n (some tt, w)
      → Reaches
          (n + occurrences s stores (some quota) (some points) day slot subs)
          (count_submissions s (some quota) (some points) day subs w)
  count_submissions-Reaches subs n w requested (h, k) =
      both _ _ (count_submissions-Counted s stores (some quota) (some points) day slot subs n w h)
        (count_submissions-Runs s stores quota points day subs w requested k)

  -- Where Redis stores what it is given, the quota and the points are set, each submission that can
  -- be read has a request, and the totals of the slots in Redis are numbers, UpdateSubmissionCounts
  -- ends without a panic: the stored count of a slot for the day has grown by the number of
  -- submissions of that slot in all the batches, a missing count standing for 0, and the totals are
  -- still numbers, also those of slots whose rewards were stored.
  pub update_counts-Reaches :
      (batches : List BatchSubmission) (n : ℕ) (w : s.World)
      → All
          (λ sub. Requested s stores quota points day (s.unmarshal_submission sub))
          (submissions_of batches)
      → Sound s stores w
      → get s (slot_submission_key (digits slot) (digits day)) w ≡ ok (count_text n)
      → Reaches
          (n + occurrences s stores (some quota) (some points) day slot (submissions_of batches))
          (update_submission_counts s (some quota) (some points) batches day w)
  update_counts-Reaches batches n w requested sound held =
      rw (update_counts-all s quota points day batches w)
        (count_submissions-Reaches (submissions_of batches) n w requested (held, sound))
