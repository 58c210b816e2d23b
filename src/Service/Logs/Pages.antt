-- ===== src/Service/Logs/Pages.antt =====
-- What the handlers that list logs reply.
use submission_sequencer_bat.Prelude.{
  ℕ, zero, suc, ◌-◌, ◌≡◌, refl, inl, inr, List, [], ◌++◌, length, take, take-append-drop,
  length-drop, ltb, leb, if◌then◌else◌, arith, Bool-cases, min,
}
use submission_sequencer_bat.Prelude.Text.{Text, text_eq_refl}
use submission_sequencer_bat.Prelude.Int.{pos, not_negative}
use submission_sequencer_bat.Prelude.Sort.{sort_texts}
use submission_sequencer_bat.Prelude.Effect.{ok}
use submission_sequencer_bat.Json.{Log}
use submission_sequencer_bat.Constants.{
  finalize_batches_name, trigger_collection_flow_name, build_batch_name,
  commit_submission_batch_name, ensure_batch_submission_success_name,
}
use submission_sequencer_bat.Services.{Services}
use submission_sequencer_bat.Service.Reply.{Reply, success, authorized}
use submission_sequencer_bat.Service.Logs.{
  process_pattern, last_logs, read_logs, keys_of, handle_finalized_batch_submissions,
  handle_triggered_collection_flows, handle_built_batches, handle_committed_submission_batches,
  handle_batch_resubmissions,
}

-- The page is what is left of all logs when older ones are dropped from the front: all logs for 0,
-- and else as many as were asked for, or all if there are not so many.
pub record IsPage {ℓ} {A : Type ℓ} (past : ℕ) (all page : List A) : Type ℓ where
  pub dropped : List A
  pub is_end : dropped ++ page ≡ all
  pub size : length page ≡ (if leb past 0 then length all else min past (length all))

-- A page of the logs that the handler can read, with the world left as it is.
abbrev pub RepliesPage : {W : Type 0} → ℕ → List Log → W → Reply (List Log) × W → Type 0
RepliesPage past all w r = (page : List Log) × (IsPage past all page) × (r ≡ (success page, w))

last_logs-IsPage {ℓ} :
    {A : Type ℓ} (past : ℕ) (all : List A) → IsPage past all (last_logs (pos past) all)
unfolding last_logs
last_logs-IsPage zero all = record { dropped = []; is_end = refl; size = refl }
last_logs-IsPage (suc n) all = elim (Bool-cases (ltb (suc n) (length all))) [
  | inl more ↦ rw more (record {
    dropped = take (length all - suc n) all;
    is_end = take-append-drop (length all - suc n) all;
    size = ground (arith, length-drop (length all - suc n) all);
  })
  | inr enough ↦ rw enough (record { dropped = []; is_end = refl; size = ground arith })
]

module _ (s : Services) (auth_read_token : Text) (past : ℕ) (w : s.World) where
  -- The logs under the keys of a process, by the keys in bytewise order.
  abbrev pub sorted_logs : Text → List Log
  sorted_logs name = read_logs s (sort_texts (keys_of s (process_pattern name) w)) w

  abbrev pub LogPages : Type 0
  LogPages =
      RepliesPage past (sorted_logs finalize_batches_name) w (
        handle_finalized_batch_submissions s auth_read_token
          (ok (record { token = auth_read_token; past_epochs = pos past })) w)
      × RepliesPage past (sorted_logs trigger_collection_flow_name) w (
          handle_triggered_collection_flows s auth_read_token
            (ok (record { token = auth_read_token; past_epochs = pos past })) w)
      × RepliesPage past (sorted_logs build_batch_name) w (
          handle_built_batches s auth_read_token
            (ok (record { token = auth_read_token; past_batches = pos past })) w)
      × RepliesPage past (sorted_logs commit_submission_batch_name) w (
          handle_committed_submission_batches s auth_read_token
            (ok (record { token = auth_read_token; past_batches = pos past })) w)
      × RepliesPage past
          (read_logs s (keys_of s (process_pattern ensure_batch_submission_success_name) w) w) w
          (handle_batch_resubmissions s auth_read_token
            (ok (record { token = auth_read_token; past_batches = pos past })) w)

  -- A request with the right token and a number of at least 0 gets a page of the readable logs of
  -- the handler's own process, in bytewise order of their keys, except that the resubmissions come
  -- in the order in which Redis lists their keys. Nothing is changed.
  pub log_handlers-LogPages : LogPages
  unfolding handle_finalized_batch_submissions handle_triggered_collection_flows
      handle_built_batches handle_committed_submission_batches handle_batch_resubmissions authorized
  log_handlers-LogPages =
      rw (text_eq_refl auth_read_token, not_negative past)
        (
          page (sorted_logs finalize_batches_name),
          page (sorted_logs trigger_collection_flow_name),
          page (sorted_logs build_batch_name),
          page (sorted_logs commit_submission_batch_name),
          page (read_logs s (keys_of s (process_pattern ensure_batch_submission_success_name) w) w),
        )
    where
      page : (all : List Log) → RepliesPage past all w (success (last_logs (pos past) all), w)
      page all = (last_logs (pos past) all, last_logs-IsPage past all, refl)
