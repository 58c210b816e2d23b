-- ===== src/Prost/Flow.antt =====
-- triggerCollectionFlow and processEpoch of pkgs/helpers/prost/processor.go, and UpdateRewards of
-- pkgs/helpers/prost/rewardsHandler.go: the calls of the other parts in their order. An error of
-- BuildBatchSubmissions ends the flow, a panic ends the process. The batch size is above 0.
pub mod Headers
use submission_sequencer_bat.Prelude.{
  ℕ, ◌+◌, ◌*◌, ◌/◌, ◌<◌, List, [], ◌∷◌, ◌++◌, Option, none, some, ltb, if◌then◌else◌, length,
}
use submission_sequencer_bat.Prelude.Text.{Text, text}
use submission_sequencer_bat.Prelude.Int.{ℤ, pos, ltb_ℤ}
use submission_sequencer_bat.Prelude.Decimal.{digits}
use submission_sequencer_bat.Prelude.Machine.{int64, parse_int_value}
use submission_sequencer_bat.Prelude.Effect.{Result, ok, err, Done}
use submission_sequencer_bat.Json.{Log, empty, field, string, number}
use submission_sequencer_bat.Data.{Auth, BatchSubmission, Severity, medium, high}
use submission_sequencer_bat.Constants.{sequencer_day_key, trigger_collection_flow_name}
use submission_sequencer_bat.Services.{Services}
use submission_sequencer_bat.Clients.Reporting.{send_failure_notification}
use submission_sequencer_bat.Clients.RewardsBackend.{bulk_assign_slot_rewards}
use submission_sequencer_bat.Redis.Keys.{transaction_receipt_count_by_event, triggered_process_log}
use submission_sequencer_bat.Redis.Client.{
  get, set, delete, set_process_log, reset_collector_db_submissions,
}
use submission_sequencer_bat.Merkle.Build.{report}
use submission_sequencer_bat.Merkle.Tally.{Outcome, goes_on, stops, panics}
use submission_sequencer_bat.Merkle.Finalize.{build_batch_submissions}
use submission_sequencer_bat.Prost.Rewards.{update_submission_counts}
use submission_sequencer_bat.Prost.Processor.{updated_day}
use submission_sequencer_bat.Prost.TxManager.Send.{end_batch_submissions_for_epoch}
use submission_sequencer_bat.Prost.TxManager.Commit.{commit_submission_batches}
use submission_sequencer_bat.Prost.TxManager.Rewards.{batch_update_rewards}
use submission_sequencer_bat.Prost.TxManager.Ensure.{ensure_batch_submission_success}
use submission_sequencer_bat.Prost.TxManager.RewardEnsure.{ensure_reward_update_success}

-- The settings that the flow reads.
pub record Settings : Type 0 where
  pub batch_size : ℕ
  pub permissible_batches_per_account : ℕ

-- The accounts that the account handler gives to the calls, one after another.
pub record Accounts : Type 0 where
  pub free : List (Option Auth)
  pub waited : Option Auth
  pub ensuring : Auth
  pub ending : Auth
  pub rewarding : Auth
  pub confirming : Auth

-- A read count of receipts is compared with what is allowed.
module _ (s : Services) where
  abbrev warn_if : ℤ → ℕ → Text → s.World → s.World
  warn_if n allowed process w =
      if ltb_ℤ (pos allowed) n then (send_failure_notification s process medium w).1 else w

  -- The count that was read: too many receipts, or an error with its own alert.
  unfoldable pub check_receipts : Text → Text → Severity → ℕ → Result Text → s.World → s.World
  check_receipts process on_error severity allowed (err e) w =
      (send_failure_notification s on_error severity w).1
  check_receipts process on_error severity allowed (ok []) w = w
  check_receipts process on_error severity allowed (ok (c ∷ t)) w =
      warn_if (parse_int_value (c ∷ t)) allowed process w

  module _ (settings : Settings) (accounts : Accounts) (base_fee : ℕ)
      (quota points : Option ℕ) where
    unfoldable pub update_rewards : ℕ → s.World → Outcome Done × s.World
    update_rewards day w =
        let p = batch_update_rewards s base_fee settings.batch_size day accounts.rewarding w in
        let (o, (_, w₁)) =
          ensure_reward_update_success s base_fee day (accounts.confirming, p.world) in
        let key = transaction_receipt_count_by_event (digits day) in
        let w₂ =
          check_receipts (text "EnsureRewardUpdateSuccess")
            (text "UpdateRewards transaction receipt fetch") medium
            (length p.submitted_slots / settings.batch_size * 3) (get s key w₁) w₁ in
        let (_, w₃) = delete s key w₂ in
        elim o [
          | panics ↦ (panics, w₁)
          | _ ↦ (goes_on tt, bulk_assign_slot_rewards s (int64 (pos day)) p.submitted_slots w₃)
        ]

    counted : ℕ → Option Done × s.World → Outcome Done × s.World
    counted epoch_id (none, w) = (panics, w)
    counted epoch_id (some d, w) =
        (goes_on tt, (end_batch_submissions_for_epoch s base_fee epoch_id accounts.ending w).1)

    -- All transactions are in, or given up.
    conclude : ℕ → ℕ → List BatchSubmission → s.World → Outcome Done × s.World
    unfolding counted
    conclude epoch_id day batches w =
        let key = transaction_receipt_count_by_event (digits epoch_id) in
        let w₁ =
          check_receipts (text "EnsureBatchSubmissionSuccess") (text "Redis error") high
            (length batches * 3) (get s key w) w in
        let (_, w₂) = delete s key w₁ in
        counted epoch_id (update_submission_counts s quota points batches day w₂)

    ensured :
        ℕ → ℕ → List BatchSubmission → Outcome Done × (Auth × s.World) → Outcome Done × s.World
    unfolding conclude
    ensured epoch_id day batches (panics, (auth, w)) = (panics, w)
    ensured epoch_id day batches (stops, (auth, w)) = conclude epoch_id day batches w
    ensured epoch_id day batches (goes_on _, (auth, w)) = conclude epoch_id day batches w

    committed :
        ℕ
        → List Text
        → ℕ
        → List BatchSubmission
        → Option (List (Option Auth)) × s.World
        → Outcome Done × s.World
    unfolding ensured
    committed epoch_id headers day batches (none, w) = (panics, w)
    committed epoch_id headers day batches (some auths, w) =
        let (_, w₁) = reset_collector_db_submissions s epoch_id headers w in
        ensured epoch_id day batches
          (ensure_batch_submission_success s base_fee epoch_id (accounts.ensuring, w₁))

    built :
        ℕ
        → List Text
        → ℕ
        → (Outcome (List BatchSubmission) × ℕ) × s.World
        → (Outcome Done × ℕ) × s.World
    unfolding committed
    built epoch_id headers day ((panics, id), w) = ((panics, id), w)
    built epoch_id headers day ((stops, id), w) = ((goes_on tt, id), w)
    built epoch_id headers day ((goes_on batches, id), w) =
        let (o, w₁) = committed epoch_id headers day batches (
          commit_submission_batches s base_fee settings.permissible_batches_per_account
            accounts.free accounts.waited batches w) in
        ((o, id), w₁)

    -- With the identifier of the next batch.
    unfoldable pub trigger_collection_flow :
        ℕ → List Text → ℕ → ℕ → s.World → (Outcome Done × ℕ) × s.World
    unfolding built
    trigger_collection_flow epoch_id headers day batch_id w =
        built epoch_id headers day
          (build_batch_submissions s settings.batch_size epoch_id headers batch_id w)

-- A block, as the loop of processEpoch reads CurrentBlock.
pub record Block : Type 0 where
  pub block_number : ℕ
  pub hash : Text

-- The last block taken in and the headers, over what CurrentBlock is at each turn of the loop; the
-- loop ends with the first block at the limit. (Each turn is taken to read CurrentBlock once.)
unfoldable pub collect_headers : ℕ → List Block → ℕ × List Text → ℕ × List Text
collect_headers limit [] (cur, headers) = (cur, headers)
collect_headers limit (b ∷ blocks) (cur, headers) =
    let rest = collect_headers limit blocks (
      if ltb cur b.block_number
      then (b.block_number, headers ++ (b.hash ∷ []))
      else (cur, headers)) in
    if ltb b.block_number limit then rest else (cur, headers)

module _ (s : Services) (settings : Settings) (accounts : Accounts) (base_fee : ℕ)
    (quota points : Option ℕ) (epochs_per_day : ℕ) where
  flow_log : ℕ → ℕ → ℕ → ℕ → ℕ → Log
  flow_log epoch_id begin cur header_count timestamp =
      field (text "epoch_id") (string (digits epoch_id)) (
        field (text "start_block") (string (digits begin)) (
          field (text "current_block") (string (digits cur)) (
            field (text "header_count") (number (pos header_count))
              (field (text "timestamp") (number (pos timestamp)) empty))))

  log_trigger : ℕ → ℕ → ℕ × List Text → s.World → s.World
  unfolding flow_log report
  log_trigger epoch_id begin (cur, headers) w =
      let (stored, w') =
        set_process_log s (triggered_process_log trigger_collection_flow_name (digits epoch_id))
          (flow_log epoch_id begin cur (length headers) (s.now w)) 14400 w in
      (report s (text "TriggerCollectionFlow") high stored w').1

  -- The rewards of the day that ended, after its last flow.
  then_rewards : ℕ → (Outcome Done × ℕ) × s.World → (Outcome Done × ℕ) × s.World
  unfolding update_rewards
  then_rewards prev ((panics, id), w) = ((panics, id), w)
  then_rewards prev ((stops, id), w) = ((stops, id), w)
  then_rewards prev ((goes_on _, id), w) =
      let (o, w') = update_rewards s settings accounts base_fee quota points prev w in ((o, id), w')

  -- The day after the epoch, with what the flow gives.
  unfoldable pub run_flow : ℕ → List Text → ℕ → ℕ → s.World → ℕ × ((Outcome Done × ℕ) × s.World)
  unfolding then_rewards report
  run_flow epoch_id headers day batch_id w =
      let updated = updated_day epochs_per_day epoch_id in
      let (stored, w₁) = set s sequencer_day_key (digits updated) 0 w in
      let (_, w₂) = report s (text "processEpoch") medium stored w₁ in
      if ltb day updated
      then (
        updated,
        then_rewards day (
            trigger_collection_flow s settings accounts base_fee quota points epoch_id headers day
              batch_id w₂),
      )
      else (
        day,
        trigger_collection_flow s settings accounts base_fee quota points epoch_id headers day
            batch_id w,
      )

  after_log : ℕ → List Text → Option ℕ → ℕ → s.World → Option ℕ × ((Outcome Done × ℕ) × s.World)
  unfolding run_flow
  after_log epoch_id headers none batch_id w = (none, ((panics, batch_id), w))
  after_log epoch_id headers (some day) batch_id w =
      let (day', r) = run_flow epoch_id headers day batch_id w in (some day', r)

  -- Without a limit the comparison of the loop panics, and without a day that of the days.
  unfoldable pub process_epoch :
      ℕ
      → Option ℕ
      → Block
      → List Block
      → Option ℕ
      → ℕ
      → s.World
      → Option ℕ × ((Outcome Done × ℕ) × s.World)
  unfolding log_trigger after_log
  process_epoch epoch_id none begin blocks day batch_id w = (day, ((panics, batch_id), w))
  process_epoch epoch_id (some limit) begin blocks day batch_id w =
      let seen = collect_headers limit blocks (begin.block_number, begin.hash ∷ []) in
      after_log epoch_id seen.1 day batch_id (log_trigger epoch_id begin.block_number seen w)
