-- ===== src/Service/Routes/Denied.antt =====
-- What a caller of the service gets without a right token.
use submission_sequencer_bat.Prelude.{
  ℕ, ◌≡◌, refl, ap, ◌∙◌, ◌||◌, Bool, true, false, ◌++◌, if◌then◌else◌, List, [], ◌∷◌, map, Option,
  none, some,
}
use submission_sequencer_bat.Prelude.Text.{Text, or_else, text_eq, starts_with}
use submission_sequencer_bat.Prelude.Int.{pos, ltb_ℤ}
use submission_sequencer_bat.Prelude.Dict.{lookup}
use submission_sequencer_bat.Services.{Services}
use submission_sequencer_bat.Service.Reply.{Reply, failure, DailySubmissions, is_bad_slot}
use submission_sequencer_bat.Service.Contract.{Constants, fetch_contract_constants}
use submission_sequencer_bat.Service.Refusals.{
  refusal, refused_or, Requests, AllRefuse, handlers-AllRefuse,
}
use submission_sequencer_bat.Service.Routes.{
  Endpoint, total_rewards, daily_rewards, total_submissions, triggered_collection_flows,
  finalized_batch_submissions, built_batches, committed_submission_batches, batch_resubmissions,
  received_epoch_submissions, received_epoch_submissions_count, included_epoch_submissions_count,
  reward_updates, documentation, page, mux, Decoders, Answer, answer_with, handle, dispatch, serve,
  serve_all, start_api_server,
}

module _ (auth_read_token : Text) (decode : Decoders) where
  abbrev epochs_denial : Text → Option ℕ
  epochs_denial body =
      refusal auth_read_token (λ r. r.token) (λ r. ltb_ℤ r.past_epochs (pos 0)) (decode.epochs body)

  abbrev batches_denial : Text → Option ℕ
  batches_denial body =
      refusal auth_read_token (λ r. r.token) (λ r. ltb_ℤ r.past_batches (pos 0))
        (decode.batches body)

  -- The status with which an endpoint refuses a body, if it does.
  abbrev pub endpoint_denial : Endpoint → Text → Option ℕ
  endpoint_denial total_rewards body =
      refusal auth_read_token (λ r. r.token) (λ r. is_bad_slot r.slot_id) (decode.rewards body)
  endpoint_denial daily_rewards body =
      refusal auth_read_token (λ r. r.token) (λ r. is_bad_slot r.slot_id) (decode.daily body)
  endpoint_denial total_submissions body =
      refusal auth_read_token (λ r. r.token)
        (λ r. ltb_ℤ r.past_days (pos 1) || is_bad_slot r.slot_id) (decode.submissions body)
  endpoint_denial triggered_collection_flows body = epochs_denial body
  endpoint_denial finalized_batch_submissions body = epochs_denial body
  endpoint_denial built_batches body = batches_denial body
  endpoint_denial committed_submission_batches body = batches_denial body
  endpoint_denial batch_resubmissions body = batches_denial body
  endpoint_denial received_epoch_submissions body = epochs_denial body
  endpoint_denial received_epoch_submissions_count body = epochs_denial body
  endpoint_denial included_epoch_submissions_count body = epochs_denial body
  endpoint_denial reward_updates body =
      refusal auth_read_token (λ r. r.token) (λ r. ltb_ℤ r.past_days (pos 0)) (decode.days body)

  abbrev pub path_denial : Option Endpoint → Text → Option ℕ
  path_denial none body = some 404
  path_denial (some endpoint) body = endpoint_denial endpoint body

  -- The documentation is open to everybody.
  abbrev pub denial : Text → Text → Option ℕ
  denial path body =
      if starts_with documentation path
      then none
      else if text_eq (path ++ (b'/' ∷ [])) documentation
      then some 301
      else path_denial (lookup path mux) body

  -- Each request is denied, with the status beside it.
  abbrev pub AllDenied : List (Text × Text) → List ℕ → Type 0
  AllDenied [] [] = Unit {0}
  AllDenied [] (status ∷ statuses) = ⊥
  AllDenied (q ∷ qs) [] = ⊥
  AllDenied ((path, body) ∷ qs) (status ∷ statuses) =
      (denial path body ≡ some status) × AllDenied qs statuses

refused :
    {W A : Type 0} (f : A → Answer) (reply : Reply A × W) (o : Option ℕ) (w : W) (status : ℕ)
    → reply ≡ refused_or o w reply
    → o ≡ some status
    → answer_with f reply ≡ (failure status, w)
refused f reply o w status h e = ap (answer_with f) (h ∙ ap (λ o. refused_or o w reply) e)

module _ (s : Services) (auth_read_token : Text) (decode : Decoders)
    (arrivals : List DailySubmissions → List DailySubmissions) (swagger : Text → Text → Reply Text)
    (c : Constants) where
  abbrev requests_of : Text → Requests
  requests_of body = record {
    epochs = decode.epochs body;
    batches = decode.batches body;
    submissions = decode.submissions body;
    days = decode.days body;
    rewards = decode.rewards body;
    daily = decode.daily body;
  }

  handle-denied :
      (endpoint : Endpoint) (body : Text) (w : s.World) (status : ℕ)
      → endpoint_denial auth_read_token decode endpoint body ≡ some status
      → handle s auth_read_token decode arrivals swagger c endpoint body w ≡ (failure status, w)
  unfolding handle
  handle-denied endpoint body w status e =
      go endpoint (handlers-AllRefuse s auth_read_token c arrivals (requests_of body) w) e
    where
      go :
          (endpoint : Endpoint)
          → AllRefuse s auth_read_token c arrivals (requests_of body) w
          → endpoint_denial auth_read_token decode endpoint body ≡ some status
          → handle s auth_read_token decode arrivals swagger c endpoint body w ≡ (failure status, w)
      go finalized_batch_submissions h e = refused _ _ _ w status h.0 e
      go triggered_collection_flows h e = refused _ _ _ w status h.1 e
      go built_batches h e = refused _ _ _ w status h.2 e
      go committed_submission_batches h e = refused _ _ _ w status h.3 e
      go batch_resubmissions h e = refused _ _ _ w status h.4 e
      go included_epoch_submissions_count h e = refused _ _ _ w status h.5 e
      go received_epoch_submissions_count h e = refused _ _ _ w status h.6 e
      go received_epoch_submissions h e = refused _ _ _ w status h.7 e
      go daily_rewards h e = refused _ _ _ w status h.8 e
      go total_rewards h e = refused _ _ _ w status h.9 e
      go total_submissions h e = refused _ _ _ w status h.10 e
      go reward_updates h e = refused _ _ _ w status h.11 e

  dispatch-denied :
      (o : Option Endpoint) (body : Text) (w : s.World) (status : ℕ)
      → path_denial auth_read_token decode o body ≡ some status
      → dispatch s auth_read_token decode arrivals swagger c o body w ≡ (failure status, w)
  unfolding handle
  dispatch-denied none body w status e = ap (λ o. (failure (or_else o 0), w)) e
  dispatch-denied (some endpoint) body w status e = handle-denied endpoint body w status e

  serve-denied :
      (path body : Text) (w : s.World) (status : ℕ)
      → denial auth_read_token decode path body ≡ some status
      → serve s auth_read_token decode arrivals swagger c path body w ≡ (failure status, w)
  unfolding serve
  serve-denied path body w status e =
      go (starts_with documentation path) (text_eq (path ++ (b'/' ∷ [])) documentation) e
    where
      go :
          (documented moved : Bool)
          → (if documented
              then none
              else if moved
              then some 301
              else path_denial auth_read_token decode (lookup path mux) body)
            ≡ some status
          → (if documented
              then answer_with page (swagger path body, w)
              else if moved
              then (failure 301, w)
              else dispatch s auth_read_token decode arrivals swagger c (lookup path mux) body w)
            ≡ (failure status, w)
      go true moved e = cc
      go false true e = ap (λ o. (failure (or_else o 0), w)) e
      go false false e = dispatch-denied (lookup path mux) body w status e

  serve_all-denied :
      (qs : List (Text × Text)) (statuses : List ℕ) (w : s.World)
      → AllDenied auth_read_token decode qs statuses
      → serve_all s auth_read_token decode arrivals swagger c qs w ≡ (map failure statuses, w)
  unfolding serve_all
  serve_all-denied [] [] w h = refl
  serve_all-denied [] (status ∷ statuses) w h = absurd h
  serve_all-denied (q ∷ qs) [] w h = absurd h
  serve_all-denied ((path, body) ∷ qs) (status ∷ statuses) w (e, h) =
      rw (serve-denied path body w status e, serve_all-denied qs statuses w h)

-- However many requests are sent to the service, if each has a path that it does not serve, a body
-- that cannot be decoded, a wrong token or bad numbers, or the path /swagger, then each is answered
-- with 404, 400, 401 or 400, or 301, no data are given out and nothing is changed after the service
-- has fetched its constants. Paths under /swagger/ are the documentation's, and are not refused.
pub start_api-denied :
    (s : Services) (auth_read_token : Text) (decode : Decoders)
    (arrivals : List DailySubmissions → List DailySubmissions) (swagger : Text → Text → Reply Text)
    (c : Constants) (qs : List (Text × Text)) (statuses : List ℕ) (w : s.World)
    → AllDenied auth_read_token decode qs statuses
    → start_api_server s auth_read_token decode arrivals swagger c qs w
      ≡ (map failure statuses, (fetch_contract_constants s c w).1)
unfolding start_api_server
start_api-denied s auth_read_token decode arrivals swagger c qs statuses w h =
    serve_all-denied s auth_read_token decode arrivals swagger (fetch_contract_constants s c w).0.1
      qs statuses (fetch_contract_constants s c w).1 h
