-- ===== src/Prost/TxManager/Ensure.antt =====
-- EnsureBatchSubmissionSuccess of pkgs/helpers/prost/txManager.go. `stops` is an early return, and
-- `panics` a key of one part. The options are those of the account that was locked.
pub mod Cleared
pub mod Dropped
pub mod ReadBack
pub mod Kept
pub mod Resent
use submission_sequencer_bat.Prelude.{
  ℕ, zero, suc, List, [], ◌∷◌, ◌++◌, Option, none, some, Bool, true, false,
}
use submission_sequencer_bat.Prelude.Text.{Text, text, split}
use submission_sequencer_bat.Prelude.Int.{pos}
use submission_sequencer_bat.Prelude.Decimal.{digits}
use submission_sequencer_bat.Prelude.Effect.{
  Result, ok, err, Done, M, pure, ◌>>=◌, ◌>>◌, look, for_each, val_or,
}
use submission_sequencer_bat.Json.{Log, empty, field, string, number}
use submission_sequencer_bat.Data.{Auth, Batch, BatchSubmission, Receipt, Severity, low, high}
use submission_sequencer_bat.Constants.{ensure_batch_submission_success_name, max_batch_retries}
use submission_sequencer_bat.Services.{Services}
use submission_sequencer_bat.Clients.Reporting.{send_failure_notification}
use submission_sequencer_bat.Redis.Keys.{
  batch_submission_key, batch_submission_set_by_epoch, triggered_process_log,
}
use submission_sequencer_bat.Redis.Client.{
  get, get_set_keys, remove_from_set, set_submission, set_process_log,
}
use submission_sequencer_bat.Utils.{append_to_log_entry}
use submission_sequencer_bat.Merkle.Build.{report}
use submission_sequencer_bat.Merkle.Tally.{Outcome, goes_on, stops, panics}
use submission_sequencer_bat.Prost.Account.{update_gas_price}
use submission_sequencer_bat.Prost.TxManager.Send.{Sending, send_transaction, get_tx_receipt}

-- The first two of the parts of a value, if there are two.
abbrev pub first_two : List Text → Option (Text × Text)
first_two (a ∷ b ∷ parts) = some (a, b)
first_two _ = none

module _ (s : Services) (base_fee epoch_id : ℕ) where
  abbrev pub Held : Type 0
  Held = Auth × s.World

  abbrev notify : Severity → s.World → s.World
  notify severity w =
      (send_failure_notification s (text "EnsureBatchSubmissionSuccess") severity w).1

  abbrev pub tx_set : Text
  tx_set = batch_submission_set_by_epoch (digits epoch_id)

  -- The key's value is deleted, and the key leaves the set.
  unfoldable pub drop_key : Text → s.World → s.World
  unfolding remove_from_set
  drop_key key w = let (_, w') = s.redis_del (key ∷ []) w in (remove_from_set s tx_set key w').1

  abbrev skip : Text → Held → Outcome Done × Held
  skip key (auth, w) = (goes_on tt, (auth, drop_key key (notify high w)))

  resubmission_log : BatchSubmission → Text → Auth → ℕ → Log
  resubmission_log submission hash auth timestamp =
      field (text "epoch_id") (string (digits epoch_id)) (
        field (text "batch_id") (string (digits submission.batch.id)) (
          field (text "tx_hash") (string hash) (
            field (text "signer") (string auth.from) (
              field (text "nonce") (string (digits auth.nonce))
                (field (text "timestamp") (number (pos timestamp)) empty)))))

  append_resubmission : Log → Text → Auth → ℕ → Log
  append_resubmission entries hash auth timestamp =
      append_to_log_entry
        (append_to_log_entry (append_to_log_entry entries (text "tx_hash") (string hash))
          (text "nonce") (string (digits auth.nonce)))
        (text "timestamp") (number (pos timestamp))

  -- The entry to store, with those that are logged already.
  merged_log : BatchSubmission → Text → Auth → ℕ → Text → s.World → Log × s.World
  unfolding resubmission_log append_resubmission send_failure_notification
  merged_log submission hash auth timestamp [] w =
      (resubmission_log submission hash auth timestamp, w)
  merged_log submission hash auth timestamp (c ∷ t) w = elim (s.unmarshal_log (c ∷ t)) [
    | ok entries ↦ (append_resubmission entries hash auth timestamp, w)
    | err e ↦ (
      resubmission_log submission hash auth timestamp,
      (send_failure_notification s (text "UpdateBatchResubmissionProcessLog") high w).1,
    )
  ]

  pub log_resubmission : BatchSubmission → Text → Auth → s.World → s.World
  unfolding merged_log
  log_resubmission submission hash auth w =
      let key =
        triggered_process_log ensure_batch_submission_success_name (digits submission.batch.id) in
      let (entry, w') = merged_log submission hash auth (s.now w) (val_or [] (get s key w)) w in
      (set_process_log s key entry 14400 w').1

  abbrev marshalled : Result Text → s.World → s.World
  marshalled (ok bytes) w = w
  marshalled (err e) w = notify high w

  -- The new transaction was recorded, or not.
  after_record : Text → BatchSubmission → Text → Auth → Result Done × s.World → Outcome Done × Held
  unfolding log_resubmission send_failure_notification
  after_record key submission hash auth (err e, w) =
      (stops, (auth, (send_failure_notification s (text "Redis error") high w).1))
  after_record key submission hash auth (ok d, w) =
      (goes_on tt, (auth, drop_key key (log_resubmission submission hash auth w)))

  after_send : Text → BatchSubmission → Result Text × Sending s.World → Outcome Done × Held
  unfolding after_record
  after_send key submission (err e, st) = (stops, (st.auth, notify high st.world))
  after_send key submission (ok hash, st) =
      let bytes = s.marshal_batch_submission submission in
      after_record key submission hash st.auth (
        set_submission s (batch_submission_key (digits submission.batch.id) (digits st.auth.nonce))
          (hash ++ (b'.' ∷ val_or [] bytes)) tx_set 3600 (marshalled bytes st.world))

  -- The batch is sent once more, with new fees; at most five more attempts.
  unfoldable pub resubmit : Text → BatchSubmission → Held → Outcome Done × Held
  unfolding after_send
  resubmit key submission (auth, w) =
      let ((_, auth'), w') = update_gas_price s base_fee 1 auth w in
      after_send key submission (
        send_transaction s base_fee 5
          (λ a. s.submit_submission_batch a (record submission { epoch_id = epoch_id })) auth' w')

  abbrev if_failed : Option Receipt → s.World → s.World
  if_failed none w = w
  if_failed (some r) w = elim r.failed [ true ↦ notify low w | false ↦ w ]

  abbrev if_there : Option Receipt → s.World → s.World
  if_there none w = w
  if_there (some r) w = notify low w

  pub after_receipt :
      Text → BatchSubmission → Auth → Result Done × (Option Receipt × s.World) → Outcome Done × Held
  unfolding resubmit
  after_receipt key submission auth (ok d, (receipt, w)) =
      (goes_on tt, (auth, drop_key key (if_failed receipt w)))
  after_receipt key submission auth (err e, (receipt, w)) =
      resubmit key submission (auth, if_there receipt w)

  -- nonce := strings.Split(key, ".")[1]
  check_receipt : Text → Text → BatchSubmission → Option (Text × Text) → Held → Outcome Done × Held
  unfolding after_receipt
  check_receipt key tx submission none held = (panics, held)
  check_receipt key tx submission (some parts) (auth, w) =
      after_receipt key submission auth (get_tx_receipt s tx (digits epoch_id) w)

  check_body : Text → Text → Result BatchSubmission → Held → Outcome Done × Held
  unfolding check_receipt
  check_body key tx (err e) held = skip key held
  check_body key tx (ok submission) held =
      check_receipt key tx submission (first_two (split b'.' key)) held

  check_value : Text → Option (Text × Text) → Held → Outcome Done × Held
  unfolding check_body
  check_value key none held = skip key held
  check_value key (some (tx, body)) held =
      check_body key tx (s.unmarshal_batch_submission body) held

  abbrev check_read : Text → Result Text → Held → Outcome Done × Held
  check_read key (err e) held = skip key held
  check_read key (ok value) held = check_value key (first_two (split b'.' value)) held

  -- One transaction of the epoch.
  unfoldable pub ensure_key : Text → Held → Outcome Done × Held
  unfolding check_value
  ensure_key key (auth, w) = check_read key (get s key w) (auth, w)

  abbrev pub then_run : Outcome Done × Held → (Held → Outcome Done × Held) → Outcome Done × Held
  then_run (goes_on _, held) next = next held
  then_run (stops, held) next = (stops, held)
  then_run (panics, held) next = (panics, held)

  unfoldable pub ensure_keys : List Text → Held → Outcome Done × Held
  ensure_keys [] held = (goes_on tt, held)
  ensure_keys (key ∷ keys) held = then_run (ensure_key key held) (ensure_keys keys)

  abbrev drop_keys : List Text → s.World → s.World
  drop_keys [] w = w
  drop_keys (key ∷ keys) w = drop_keys keys (drop_key key w)

  abbrev delete_set : s.World → s.World
  delete_set w = (s.redis_del (tx_set ∷ []) w).1

  -- The last look at the set: what is left is given up.
  unfoldable pub end_rounds : List Text → Held → Outcome Done × Held
  end_rounds [] (auth, w) = (goes_on tt, (auth, delete_set w))
  end_rounds (key ∷ keys) (auth, w) =
      (goes_on tt, (auth, delete_set (drop_keys (key ∷ keys) (notify high w))))

  unfoldable pub run_round : List Text → Held → (Held → Outcome Done × Held) → Outcome Done × Held
  run_round [] (auth, w) next = (goes_on tt, (auth, delete_set w))
  run_round (key ∷ keys) held next = then_run (ensure_keys (key ∷ keys) held) next

  -- The keys of a round, when `rounds` more may be run.
  unfoldable pub ensure_rounds : ℕ → Held → Outcome Done × Held
  ensure_rounds zero (auth, w) = end_rounds (get_set_keys s tx_set w) (auth, w)
  ensure_rounds (suc rounds) (auth, w) =
      run_round (get_set_keys s tx_set w) (auth, w) (ensure_rounds rounds)

  unfoldable pub ensure_batch_submission_success : Held → Outcome Done × Held
  ensure_batch_submission_success held = ensure_rounds max_batch_retries held
