-- ===== src/Service/Routes.antt =====
-- StartApiServer of pkgs/service/api.go: the routes of the service. `swagger` is httpSwagger's
-- handler, which gets every path under /swagger/; the middleware, which gives each request an
-- identifier, is left out. Paths are clean, as the mux redirects all others.
pub mod Denied
use submission_sequencer_bat.Prelude.{ℕ, List, [], ◌∷◌, ◌++◌, Option, none, some, if◌then◌else◌}
use submission_sequencer_bat.Prelude.Text.{Text, text, text_eq, starts_with}
use submission_sequencer_bat.Prelude.Int.{ℤ}
use submission_sequencer_bat.Prelude.Dict.{Dict, lookup}
use submission_sequencer_bat.Prelude.Effect.{Result}
use submission_sequencer_bat.Json.{Log}
use submission_sequencer_bat.Services.{Services}
use submission_sequencer_bat.Service.Reply.{
  Reply, success, failure, panics, DailyRewardsRequest, RewardsRequest, SubmissionsRequest,
  PastEpochsRequest, PastDaysRequest, PastBatchesRequest, DailySubmissions,
}
use submission_sequencer_bat.Service.Contract.{Constants, fetch_contract_constants}
use submission_sequencer_bat.Service.Logs.{
  handle_finalized_batch_submissions, handle_triggered_collection_flows, handle_built_batches,
  handle_committed_submission_batches, handle_batch_resubmissions,
}
use submission_sequencer_bat.Service.Counts.{
  handle_included_epoch_submissions_count, handle_received_epoch_submissions_count,
}
use submission_sequencer_bat.Service.Epochs.{handle_received_epoch_submissions}
use submission_sequencer_bat.Service.Daily.{handle_daily_rewards}
use submission_sequencer_bat.Service.Total.{handle_total_rewards}
use submission_sequencer_bat.Service.Days.{handle_total_submissions}
use submission_sequencer_bat.Service.Updates.{handle_reward_updates}

pub data Endpoint : Type 0 where
  total_rewards daily_rewards total_submissions triggered_collection_flows : Endpoint
  finalized_batch_submissions built_batches committed_submission_batches : Endpoint
  batch_resubmissions received_epoch_submissions received_epoch_submissions_count : Endpoint
  included_epoch_submissions_count reward_updates : Endpoint

abbrev pub mux : Dict Endpoint
mux =
    (text "/getTotalRewards", total_rewards)
    ∷ (text "/getDailyRewards", daily_rewards)
    ∷ (text "/totalSubmissions", total_submissions)
    ∷ (text "/triggeredCollectionFlows", triggered_collection_flows)
    ∷ (text "/finalizedBatchSubmissions", finalized_batch_submissions)
    ∷ (text "/builtBatches", built_batches)
    ∷ (text "/committedSubmissionBatches", committed_submission_batches)
    ∷ (text "/batchResubmissions", batch_resubmissions)
    ∷ (text "/receivedEpochSubmissions", received_epoch_submissions)
    ∷ (text "/receivedEpochSubmissionsCount", received_epoch_submissions_count)
    ∷ (text "/includedEpochSubmissionsCount", included_epoch_submissions_count)
    ∷ (text "/rewardUpdates", reward_updates)
    ∷ []

-- mux.Handle of httpSwagger's handler.
abbrev pub documentation : Text
documentation = text "/swagger/"

-- json.Decoder's Decode of a body, at each type of request.
pub record Decoders : Type 0 where
  pub daily : Text → Result DailyRewardsRequest
  pub rewards : Text → Result RewardsRequest
  pub submissions : Text → Result SubmissionsRequest
  pub epochs : Text → Result PastEpochsRequest
  pub days : Text → Result PastDaysRequest
  pub batches : Text → Result PastBatchesRequest

-- What the handlers answer.
pub data Answer : Type 0 where
  logs : List Log → Answer
  number : ℤ → Answer
  days : List DailySubmissions → Answer
  page : Text → Answer

abbrev pub answer_with : {W A : Type 0} → (A → Answer) → Reply A × W → Reply Answer × W
answer_with f (success a, w) = (success (f a), w)
answer_with f (failure status, w) = (failure status, w)
answer_with f (panics, w) = (panics, w)

-- `auth_read_token` is the setting; `arrivals` the order in which the channel of
-- handleTotalSubmissions delivers.
module _ (s : Services) (auth_read_token : Text) (decode : Decoders)
    (arrivals : List DailySubmissions → List DailySubmissions)
    (swagger : Text → Text → Reply Text) where
  unfoldable pub handle : Constants → Endpoint → Text → s.World → Reply Answer × s.World
  handle c total_rewards body w =
      answer_with number (handle_total_rewards s auth_read_token (decode.rewards body) w)
  handle c daily_rewards body w =
      answer_with number (handle_daily_rewards s auth_read_token c (decode.daily body) w)
  handle c total_submissions body w =
      answer_with days
        (handle_total_submissions s arrivals auth_read_token (decode.submissions body) w)
  handle c triggered_collection_flows body w =
      answer_with logs (handle_triggered_collection_flows s auth_read_token (decode.epochs body) w)
  handle c finalized_batch_submissions body w =
      answer_with logs (handle_finalized_batch_submissions s auth_read_token (decode.epochs body) w)
  handle c built_batches body w =
      answer_with logs (handle_built_batches s auth_read_token (decode.batches body) w)
  handle c committed_submission_batches body w =
      answer_with logs
        (handle_committed_submission_batches s auth_read_token (decode.batches body) w)
  handle c batch_resubmissions body w =
      answer_with logs (handle_batch_resubmissions s auth_read_token (decode.batches body) w)
  handle c received_epoch_submissions body w =
      answer_with logs (handle_received_epoch_submissions s auth_read_token (decode.epochs body) w)
  handle c received_epoch_submissions_count body w =
      answer_with number
        (handle_received_epoch_submissions_count s auth_read_token (decode.epochs body) w)
  handle c included_epoch_submissions_count body w =
      answer_with number
        (handle_included_epoch_submissions_count s auth_read_token (decode.epochs body) w)
  handle c reward_updates body w =
      answer_with logs (handle_reward_updates s auth_read_token (decode.days body) w)

  abbrev pub status_not_found : ℕ
  status_not_found = 404

  abbrev pub status_moved : ℕ
  status_moved = 301

  abbrev pub dispatch : Constants → Option Endpoint → Text → s.World → Reply Answer × s.World
  unfolding handle
  dispatch c none body w = (failure status_not_found, w)
  dispatch c (some endpoint) body w = handle c endpoint body w

  -- A pattern that ends with a slash matches the paths below it, and the path without the slash is
  -- redirected there.
  unfoldable pub serve : Constants → Text → Text → s.World → Reply Answer × s.World
  serve c path body w =
      if starts_with documentation path
      then answer_with page (swagger path body, w)
      else if text_eq (path ++ (b'/' ∷ [])) documentation
      then (failure status_moved, w)
      else dispatch c (lookup path mux) body w

  -- The requests that come one after another, a path and a body each.
  unfoldable pub serve_all :
      Constants → List (Text × Text) → s.World → List (Reply Answer) × s.World
  unfolding serve
  serve_all c [] w = ([], w)
  serve_all c ((path, body) ∷ requests) w =
      let (reply, w₁) = serve c path body w in
      let (replies, w₂) = serve_all c requests w₁ in (reply ∷ replies, w₂)

  -- The constants are fetched first; where that fails, the service is started all the same.
  unfoldable pub start_api_server :
      Constants → List (Text × Text) → s.World → List (Reply Answer) × s.World
  unfolding serve_all
  start_api_server c requests w =
      let ((result, c'), w') = fetch_contract_constants s c w in serve_all c' requests w'
