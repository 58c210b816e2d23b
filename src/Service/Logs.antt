-- ===== src/Service/Logs.antt =====
-- The handlers of pkgs/service/api.go that list the logs of a process.
pub mod Pages
pub mod Order
use submission_sequencer_bat.Prelude.{
  ℕ, zero, suc, ◌-◌, Bool, List, [], ◌∷◌, length, drop, ltb, if◌then◌else◌,
}
use submission_sequencer_bat.Prelude.Text.{Text, text, join}
use submission_sequencer_bat.Prelude.Int.{ℤ, pos, negsuc, ltb_ℤ}
use submission_sequencer_bat.Prelude.Sort.{sort_texts}
use submission_sequencer_bat.Prelude.Effect.{Result, ok, err, val_or}
use submission_sequencer_bat.Json.{Log}
use submission_sequencer_bat.Constants.{
  process_trigger_key, finalize_batches_name, trigger_collection_flow_name, build_batch_name,
  commit_submission_batch_name, ensure_batch_submission_success_name,
}
use submission_sequencer_bat.Services.{Services}
use submission_sequencer_bat.Redis.Client.{get}
use submission_sequencer_bat.Service.Reply.{
  Reply, success, authorized, PastEpochsRequest, PastBatchesRequest,
}

-- fmt.Sprintf("%s.%s.*", pkgs.ProcessTriggerKey, name)
abbrev pub process_pattern : Text → Text
process_pattern name = join b'.' (process_trigger_key ∷ name ∷ text "*" ∷ [])

-- if past > 0 && len(logs) > past { logs = logs[len(logs)-past:] }
unfoldable pub last_logs {ℓ} : {A : Type ℓ} → ℤ → List A → List A
last_logs (negsuc n) logs = logs
last_logs (pos zero) logs = logs
last_logs (pos (suc n)) logs =
    if ltb (suc n) (length logs) then drop (length logs - suc n) logs else logs

abbrev pub put_log : Result Log → List Log → List Log
put_log (ok entry) logs = entry ∷ logs
put_log (err e) logs = logs

module _ (s : Services) where
  -- A log that cannot be read, or is no JSON object, is passed over.
  abbrev pub read_log : Result Text → Result Log
  read_log (err e) = err e
  read_log (ok entry) = s.unmarshal_log entry

  unfoldable pub read_logs : List Text → s.World → List Log
  read_logs [] w = []
  read_logs (key ∷ keys) w = put_log (read_log (get s key w)) (read_logs keys w)

  -- RedisClient.Keys(...).Val(): no keys on an error.
  unfoldable pub keys_of : Text → s.World → List Text
  keys_of pattern w = val_or [] (s.redis_keys pattern w)

  abbrev epochs_page : Text → Result PastEpochsRequest → Text → s.World → Reply (List Log) × s.World
  epochs_page auth_read_token body name w =
      authorized auth_read_token (λ r. r.token) (λ r. ltb_ℤ r.past_epochs (pos 0))
        (λ r w. (
          success (
              last_logs r.past_epochs
                (read_logs (sort_texts (keys_of (process_pattern name) w)) w)),
          w,
        ))
        body w

  abbrev batches_page :
      Text
      → Result PastBatchesRequest
      → (s.World → List Text)
      → s.World
      → Reply (List Log) × s.World
  batches_page auth_read_token body keys w =
      authorized auth_read_token (λ r. r.token) (λ r. ltb_ℤ r.past_batches (pos 0))
        (λ r w. (success (last_logs r.past_batches (read_logs (keys w) w)), w)) body w

  -- `auth_read_token` is the setting AuthReadToken.
  unfoldable pub handle_finalized_batch_submissions :
      Text → Result PastEpochsRequest → s.World → Reply (List Log) × s.World
  handle_finalized_batch_submissions auth_read_token body =
      epochs_page auth_read_token body finalize_batches_name

  unfoldable pub handle_triggered_collection_flows :
      Text → Result PastEpochsRequest → s.World → Reply (List Log) × s.World
  handle_triggered_collection_flows auth_read_token body =
      epochs_page auth_read_token body trigger_collection_flow_name

  unfoldable pub handle_built_batches :
      Text → Result PastBatchesRequest → s.World → Reply (List Log) × s.World
  handle_built_batches auth_read_token body =
      batches_page auth_read_token body
        (λ w. sort_texts (keys_of (process_pattern build_batch_name) w))

  unfoldable pub handle_committed_submission_batches :
      Text → Result PastBatchesRequest → s.World → Reply (List Log) × s.World
  handle_committed_submission_batches auth_read_token body =
      batches_page auth_read_token body
        (λ w. sort_texts (keys_of (process_pattern commit_submission_batch_name) w))

  -- The keys stay in the order in which Redis gives them.
  unfoldable pub handle_batch_resubmissions :
      Text → Result PastBatchesRequest → s.World → Reply (List Log) × s.World
  handle_batch_resubmissions auth_read_token body =
      batches_page auth_read_token body
        (keys_of (process_pattern ensure_batch_submission_success_name))
