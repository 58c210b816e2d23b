-- ===== src/Service/Refusals.antt =====
-- The requests that the handlers of pkgs/service/api.go refuse.
use submission_sequencer_bat.Prelude.{
  ℕ, ◌≡◌, refl, Bool, true, false, List, ◌||◌, Option, some, none, if◌then◌else◌,
}
use submission_sequencer_bat.Prelude.Text.{Text, text_eq}
use submission_sequencer_bat.Prelude.Int.{pos, ltb_ℤ}
use submission_sequencer_bat.Prelude.Effect.{Result, ok, err}
use submission_sequencer_bat.Services.{Services}
use submission_sequencer_bat.Service.Reply.{
  Reply, failure, DailyRewardsRequest, RewardsRequest, SubmissionsRequest, PastEpochsRequest,
  PastDaysRequest, PastBatchesRequest, DailySubmissions, authorized, is_bad_slot,
}
use submission_sequencer_bat.Service.Contract.{Constants}
use submission_sequencer_bat.Service.Logs.{
  handle_finalized_batch_submissions, handle_triggered_collection_flows, handle_built_batches,
  handle_committed_submission_batches, handle_batch_resubmissions,
}
use submission_sequencer_bat.Service.Counts.{
  handle_included_epoch_submissions_count, handle_received_epoch_submissions_count,
}
use submission_sequencer_bat.Service.Epochs.{handle_received_epoch_submissions}
use submission_sequencer_bat.Service.Daily.{handle_daily_rewards}
use submission_sequencer_bat.Service.Total.{handle_total_rewards}
use submission_sequencer_bat.Service.Days.{handle_total_submissions}
use submission_sequencer_bat.Service.Updates.{handle_reward_updates}

-- The status of the refusal: 400 for a body that cannot be decoded, 401 for a wrong token whatever
-- the numbers are, and 400 for bad numbers with the right token.
abbrev pub refusal : {R : Type 0} → Text → (R → Text) → (R → Bool) → Result R → Option ℕ
refusal t token bad (err e) = some 400
refusal t token bad (ok r) =
    if text_eq (token r) t then (if bad r then some 400 else none) else some 401

abbrev pub refused_or : {W A : Type 0} → Option ℕ → W → Reply A × W → Reply A × W
refused_or none w reply = reply
refused_or (some status) w reply = (failure status, w)

-- A request that is to be refused is, and the world is left as it is.
abbrev pub Refuses :
    {R W A : Type 0}
    → Text
    → (R → Text)
    → (R → Bool)
    → (Result R → W → Reply A × W)
    → Result R
    → W
    → Type 0
Refuses t token bad handler body w =
    handler body w ≡ refused_or (refusal t token bad body) w (handler body w)

authorized-Refuses :
    {R W A : Type 0} (t : Text) (token : R → Text) (bad : R → Bool) (work : R → W → Reply A × W)
    (body : Result R) (w : W)
    → Refuses {A = A} t token bad (authorized t token bad work) body w
unfolding authorized
authorized-Refuses t token bad work (err e) w = refl
authorized-Refuses t token bad work (ok r) w = go (text_eq (token r) t) (bad r)
  where
    go :
        (right is_bad : Bool)
        → (if right then (if is_bad then (failure 400, w) else work r w) else (failure 401, w))
          ≡ refused_or
              (if right then (if is_bad then some 400 else none) else some 401)
              w
              (if right then (if is_bad then (failure 400, w) else work r w) else (failure 401, w))
    go true true = refl
    go true false = refl
    go false b = refl

-- One request of each type.
pub record Requests : Type 0 where
  pub epochs : Result PastEpochsRequest
  pub batches : Result PastBatchesRequest
  pub submissions : Result SubmissionsRequest
  pub days : Result PastDaysRequest
  pub rewards : Result RewardsRequest
  pub daily : Result DailyRewardsRequest

module _ (s : Services) (t : Text) (c : Constants)
    (arrivals : List DailySubmissions → List DailySubmissions) (q : Requests) (w : s.World) where
  abbrev RefusesEpochs :
      {A : Type 0} → (Result PastEpochsRequest → s.World → Reply A × s.World) → Type 0
  RefusesEpochs handler =
      Refuses t (λ r. r.token) (λ r. ltb_ℤ r.past_epochs (pos 0)) handler q.epochs w

  abbrev RefusesBatches :
      {A : Type 0} → (Result PastBatchesRequest → s.World → Reply A × s.World) → Type 0
  RefusesBatches handler =
      Refuses t (λ r. r.token) (λ r. ltb_ℤ r.past_batches (pos 0)) handler q.batches w

  abbrev pub AllRefuse : Type 0
  AllRefuse =
      RefusesEpochs (handle_finalized_batch_submissions s t)
      × RefusesEpochs (handle_triggered_collection_flows s t)
      × RefusesBatches (handle_built_batches s t)
      × RefusesBatches (handle_committed_submission_batches s t)
      × RefusesBatches (handle_batch_resubmissions s t)
      × RefusesEpochs (handle_included_epoch_submissions_count s t)
      × RefusesEpochs (handle_received_epoch_submissions_count s t)
      × RefusesEpochs (handle_received_epoch_submissions s t)
      × Refuses t (λ r. r.token) (λ r. is_bad_slot r.slot_id) (handle_daily_rewards s t c) q.daily w
      × Refuses t (λ r. r.token) (λ r. is_bad_slot r.slot_id) (handle_total_rewards s t) q.rewards w
      × Refuses t (λ r. r.token) (λ r. ltb_ℤ r.past_days (pos 1) || is_bad_slot r.slot_id)
          (handle_total_submissions s arrivals t) q.submissions w
      × Refuses t (λ r. r.token) (λ r. ltb_ℤ r.past_days (pos 0)) (handle_reward_updates s t) q.days
          w

  -- Every handler of the service refuses a body that cannot be decoded with 400, a wrong token with
  -- 401 and bad numbers with 400, and changes nothing then. Numbers of past epochs, batches and days
  -- are bad below 0, a slot outside 1 to 10000, and the past days of the total submissions below 1.
  pub handlers-AllRefuse : AllRefuse
  unfolding handle_finalized_batch_submissions handle_triggered_collection_flows
      handle_built_batches handle_committed_submission_batches handle_batch_resubmissions
      handle_included_epoch_submissions_count handle_received_epoch_submissions_count
      handle_received_epoch_submissions handle_daily_rewards handle_total_rewards
      handle_total_submissions handle_reward_updates
  handlers-AllRefuse = (
    authorized-Refuses t _ _ _ q.epochs w,
    authorized-Refuses t _ _ _ q.epochs w,
    authorized-Refuses t _ _ _ q.batches w,
    authorized-Refuses t _ _ _ q.batches w,
    authorized-Refuses t _ _ _ q.batches w,
    authorized-Refuses t _ _ _ q.epochs w,
    authorized-Refuses t _ _ _ q.epochs w,
    authorized-Refuses t _ _ _ q.epochs w,
    authorized-Refuses t _ _ _ q.daily w,
    authorized-Refuses t _ _ _ q.rewards w,
    authorized-Refuses t _ _ _ q.submissions w,
    authorized-Refuses t _ _ _ q.days w,
  )
