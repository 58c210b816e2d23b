-- ===== src/Prost/TxManager/Commit.antt =====
-- CommitSubmissionBatches and CommitSubmissionBatch of pkgs/helpers/prost/txManager.go.
pub mod Division
pub mod Keeps
pub mod Sends
pub mod Recorded
pub mod Stored
pub mod Accounts
use submission_sequencer_bat.Prelude.{
  ℕ, zero, suc, Option, none, some, ◌+◌, ◌-◌, ◌*◌, ◌/◌, ◌%◌, List, [], ◌∷◌, ◌++◌, take, drop,
  length, if◌then◌else◌, ◌==◌,
}
use submission_sequencer_bat.Prelude.Text.{Text, text, join}
use submission_sequencer_bat.Prelude.Int.{pos}
use submission_sequencer_bat.Prelude.Decimal.{digits}
use submission_sequencer_bat.Prelude.Effect.{
  Result, ok, err, Done, M, pure, ◌>>=◌, ◌>>◌, look, val_or,
}
use submission_sequencer_bat.Json.{Log, empty, field, string, number}
use submission_sequencer_bat.Data.{Auth, Batch, BatchSubmission, high}
use submission_sequencer_bat.Constants.{commit_submission_batch_name}
use submission_sequencer_bat.Services.{Services}
use submission_sequencer_bat.Clients.Reporting.{send_failure_notification}
use submission_sequencer_bat.Redis.Keys.{
  batch_submission_key, batch_submission_set_by_epoch, triggered_process_log,
}
use submission_sequencer_bat.Redis.Client.{set_submission, set_process_log}
use submission_sequencer_bat.Merkle.Build.{report}
use submission_sequencer_bat.Prost.Account.{update_auth}
use submission_sequencer_bat.Prost.TxManager.Send.{Sending, send_transaction}

-- The accounts that CommitSubmissionBatches asks for, with more than 0 batches for each.
unfoldable pub required_accounts : ℕ → ℕ → ℕ
required_accounts batches per_account =
    if batches % per_account == 0 then batches / per_account else batches / per_account + 1

-- batchSubmissions[begin:end] of account `i` of `n`; the last account gets the rest.
unfoldable pub slice {ℓ} : {A : Type ℓ} → ℕ → ℕ → List A → List A
slice n i xs =
    let per_account = length xs / n in
    let begin = i * per_account in
    let end = if i + 1 == n then length xs else (i + 1) * per_account in
    take (end - begin) (drop begin xs)

-- The loop over the accounts from `i` on, `rounds` of them left.
unfoldable pub slices {ℓ} : {A : Type ℓ} → ℕ → ℕ → ℕ → List A → List (List A)
slices n i zero xs = []
slices n i (suc rounds) xs = slice n i xs ∷ slices n (i + 1) rounds xs

-- What each of `n` accounts is given.
unfoldable pub divide_among {ℓ} : {A : Type ℓ} → ℕ → List A → List (List A)
divide_among n xs = slices n 0 n xs

-- The accounts that were free, or else the one that was waited for.
abbrev or_waited : Option Auth → List (Option Auth) → List (Option Auth)
or_waited waited [] = waited ∷ []
or_waited waited (a ∷ as_) = a ∷ as_

module _ (s : Services) (base_fee : ℕ) where
  commit_log : BatchSubmission → Text → Auth → ℕ → Log
  commit_log submission hash auth timestamp =
      field (text "epoch_id") (string (digits submission.epoch_id)) (
        field (text "batch_id") (number (pos submission.batch.id)) (
          field (text "tx_hash") (string hash) (
            field (text "signer") (string auth.from) (
              field (text "nonce") (string (digits auth.nonce))
                (field (text "timestamp") (number (pos timestamp)) empty)))))

  report_marshal : Result Text → M s.World Done
  unfolding send_failure_notification
  report_marshal (ok bytes) = pure tt
  report_marshal (err e) = send_failure_notification s (text "CommitSubmissionBatch") high

  log_transaction : BatchSubmission → Text → Auth → M s.World Done
  unfolding commit_log report
  log_transaction submission hash auth = do
    timestamp ← look s.now
    logged ←
        set_process_log s
          (triggered_process_log commit_submission_batch_name (digits submission.batch.id))
          (commit_log submission hash auth timestamp) 14400
    report s (text "CommitSubmissionBatch") high logged

  -- The transaction is recorded under the nonce of the attempt that was accepted. A batch that
  -- cannot be marshalled is recorded with an empty text.
  unfoldable pub record_transaction : BatchSubmission → Text → Auth → M s.World Done
  unfolding log_transaction report_marshal report
  record_transaction submission hash auth = do
    report_marshal (s.marshal_batch_submission submission)
    stored ←
        set_submission s (batch_submission_key (digits submission.batch.id) (digits auth.nonce))
          (join b'.' (hash ∷ val_or [] (s.marshal_batch_submission submission) ∷ []))
          (batch_submission_set_by_epoch (digits submission.epoch_id)) 300
    report s (text "Redis error") high stored
    log_transaction submission hash auth

  after_commit : BatchSubmission → Result Text × Sending s.World → Auth × s.World
  unfolding record_transaction send_failure_notification
  after_commit submission (ok hash, st) =
      (st.auth, (record_transaction submission hash st.auth st.world).1)
  after_commit submission (err e, st) =
      (st.auth, (send_failure_notification s (text "CommitSubmissionBatch") high st.world).1)

  unfoldable pub commit_submission_batch : BatchSubmission → Auth → s.World → Auth × s.World
  unfolding after_commit
  commit_submission_batch submission auth w =
      after_commit submission
        (send_transaction s base_fee 7 (λ a. s.submit_submission_batch a submission) auth w)

  -- The work of one goroutine: its batches one after another, the nonce moved on after each.
  unfoldable pub commit_all : List BatchSubmission → Auth → s.World → Auth × s.World
  commit_all [] auth w = (auth, w)
  commit_all (submission ∷ submissions) auth w =
      let (auth', w') = commit_submission_batch submission auth w in
      commit_all submissions (update_auth 1 auth') w'

  abbrev with_account :
      Option Auth → Option (List (Option Auth)) × s.World → Option (List (Option Auth)) × s.World
  with_account auth (none, w) = (none, w)
  with_account auth (some auths, w) = (some (auth ∷ auths), w)

  -- `none` is a panic: the options of an account are nil, and it has a batch to commit.
  run_accounts :
      List (Option Auth)
      → List (List BatchSubmission)
      → s.World
      → Option (List (Option Auth)) × s.World
  run_accounts [] parts w = (some [], w)
  run_accounts (auth ∷ auths) [] w = (some (auth ∷ auths), w)
  run_accounts (auth ∷ auths) ([] ∷ parts) w = with_account auth (run_accounts auths parts w)
  run_accounts (none ∷ auths) ((b ∷ bs) ∷ parts) w = (none, w)
  run_accounts (some auth ∷ auths) ((b ∷ bs) ∷ parts) w =
      let (auth', w') = commit_all (b ∷ bs) auth w in
      with_account (some auth') (run_accounts auths parts w')

  -- `free` are the accounts that GetFreeAccount(false) gives, in order, of which the required number
  -- is taken; `waited` is the one that GetFreeAccount(true) waits for when there is none. Of each
  -- it has the options, nil where SetupAuth has failed. The goroutines are run in the order in which
  -- they start. `none` is a panic, also that of the division by 0 batches for an account.
  unfoldable pub commit_submission_batches :
      ℕ
      → List (Option Auth)
      → Option Auth
      → List BatchSubmission
      → s.World
      → Option (List (Option Auth)) × s.World
  unfolding run_accounts
  commit_submission_batches zero free waited submissions w = (none, w)
  commit_submission_batches (suc per_account) free waited submissions w =
      let accounts =
        or_waited waited (take (required_accounts (length submissions) (suc per_account)) free) in
      run_accounts accounts (divide_among (length accounts) submissions) w
