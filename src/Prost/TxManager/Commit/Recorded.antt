-- ===== src/Prost/TxManager/Commit/Recorded.antt =====
-- The batches that an account commits are found again by EnsureBatchSubmissionSuccess.
use mathlib.Core.List.{append-nil, append_assoc}
use submission_sequencer_bat.Prelude.{
  sym, ap₂, ◌∙◌, ◌++◌, ℕ, ◌+◌, ◌≡◌, ap, subst, List, [], ◌∷◌, arith, All, length,
}
use submission_sequencer_bat.Prelude.Text.{Text}
use submission_sequencer_bat.Data.{Auth, BatchSubmission}
use submission_sequencer_bat.Services.{Services}
use submission_sequencer_bat.Prost.Account.{update_auth}
use submission_sequencer_bat.Prost.TxManager.Send.{send_transaction-accepted, RetryStops}
use submission_sequencer_bat.Prost.TxManager.Commit.{
  record_transaction, after_commit, commit_submission_batch, commit_all,
}
use submission_sequencer_bat.Prost.TxManager.Commit.Sends.{Sends, Sent, Sent-kept, numbered}
use submission_sequencer_bat.Prost.TxManager.Commit.Keeps.{
  SetsGrow, IsIn-kept, IsIn, Recorded, key_of, keys_from, record_transaction-Recorded,
  record_transaction-Keeps,
}

module _ (s : Services) (grow : SetsGrow s) (sends : Sends s) (retry_stops : RetryStops s)
    (base_fee : ℕ) where
  commit_accepted :
      (submission : BatchSubmission) (auth : Auth) (w : s.World)
      → commit_submission_batch s base_fee submission auth w ≡ (
        auth,
        (record_transaction s base_fee submission
            (sends.accepts auth submission w).0
            auth
            (s.submit_submission_batch auth submission w).1).1,
      )
  unfolding commit_submission_batch after_commit
  commit_accepted submission auth w = ap (after_commit s base_fee submission) (
      send_transaction-accepted s base_fee retry_stops 7
        (λ a. s.submit_submission_batch a submission) auth w
        (s.submit_submission_batch auth submission w).1 (sends.accepts auth submission w).0
        (λ i.
          ((sends.accepts auth submission w).1 i, (s.submit_submission_batch auth submission w).1)))

  commit-Keeps :
      (set key : Text) (submission : BatchSubmission) (auth : Auth) (w : s.World)
      → IsIn s set key w
      → IsIn s set key (commit_submission_batch s base_fee submission auth w).1
  commit-Keeps set key submission auth w h = rw (commit_accepted submission auth w) (
      (record_transaction-Keeps s (IsIn s set key) (IsIn-kept s grow base_fee set key) base_fee
          submission _ auth).at
        _ (grow.submit_keeps set key auth submission w h))

  commit-Recorded :
      (submission : BatchSubmission) (auth : Auth) (w : s.World)
      → Recorded s submission.epoch_id
          (key_of submission auth.nonce)
          (commit_submission_batch s base_fee submission auth w).1
  commit-Recorded submission auth w =
      rw (commit_accepted submission auth w)
        (record_transaction-Recorded s grow base_fee submission _ auth _)

  same_nonce :
      (submission : BatchSubmission) (auth : Auth) (w : s.World)
      → (commit_submission_batch s base_fee submission auth w).0.nonce ≡ auth.nonce
  same_nonce submission auth w =
      ap (λ (r : Auth × s.World). r.0.nonce) (commit_accepted submission auth w)

  pub commit_all-Keeps :
      (set key : Text) (submissions : List BatchSubmission) (auth : Auth) (w : s.World)
      → IsIn s set key w
      → IsIn s set key (commit_all s base_fee submissions auth w).1
  unfolding commit_all
  commit_all-Keeps set key [] auth w h = h
  commit_all-Keeps set key (submission ∷ submissions) auth w h =
      commit_all-Keeps set key submissions _ _ (commit-Keeps set key submission auth w h)

  commit_all-Recorded :
      (epoch_id : ℕ) (submissions : List BatchSubmission) (auth : Auth) (w : s.World)
      → All (λ b. b.epoch_id ≡ epoch_id) submissions
      → All
          (λ key. Recorded s epoch_id key (commit_all s base_fee submissions auth w).1)
          (keys_from auth.nonce submissions)
  unfolding commit_all update_auth
  commit_all-Recorded epoch_id [] auth w h = tt
  commit_all-Recorded epoch_id (submission ∷ submissions) auth w (e, h) =
      let made = commit_submission_batch s base_fee submission auth w in
      let key = key_of submission auth.nonce in
      let world = (commit_all s base_fee submissions (update_auth 1 made.0) made.1).1 in
      (
        subst (λ n. Recorded s n key world) e
            (commit_all-Keeps _ key submissions _ made.1 (commit-Recorded submission auth w)),
        subst
            (λ (n : ℕ). All (λ key. Recorded s epoch_id key world) (keys_from (n + 1) submissions))
            (same_nonce submission auth w)
            (commit_all-Recorded epoch_id submissions (update_auth 1 made.0) made.1 h),
      )

  commit-sent :
      (submission : BatchSubmission) (auth : Auth) (w : s.World)
      → sends.sent (commit_submission_batch s base_fee submission auth w).1
        ≡ sends.sent w ++ ((auth.nonce, submission) ∷ [])
  commit-sent submission auth w =
      let xs = sends.sent w ++ ((auth.nonce, submission) ∷ []) in
      rw (commit_accepted submission auth w) (
        (record_transaction-Keeps s (Sent s sends xs) (Sent-kept s sends xs) base_fee submission _
            auth).at
          _ (sends.submit_sends auth submission w))

  commit_all-sent :
      (submissions : List BatchSubmission) (auth : Auth) (w : s.World)
      → sends.sent (commit_all s base_fee submissions auth w).1
        ≡ sends.sent w ++ numbered auth.nonce submissions
  unfolding commit_all update_auth
  commit_all-sent [] auth w = sym (append-nil (sends.sent w))
  commit_all-sent (submission ∷ submissions) auth w =
      let made = commit_submission_batch s base_fee submission auth w in
      commit_all-sent submissions (update_auth 1 made.0) made.1
      ∙ ap₂ (λ xs (n : ℕ). xs ++ numbered (n + 1) submissions) (commit-sent submission auth w)
          (same_nonce submission auth w)
      ∙ append_assoc (sends.sent w) ((auth.nonce, submission) ∷ [])
          (numbered (auth.nonce + 1) submissions)

  commit_all-nonce :
      (submissions : List BatchSubmission) (auth : Auth) (w : s.World)
      → (commit_all s base_fee submissions auth w).0.nonce ≡ auth.nonce + length submissions
  unfolding commit_all update_auth
  commit_all-nonce [] auth w = omega arith
  commit_all-nonce (submission ∷ submissions) auth w =
      let made = commit_submission_batch s base_fee submission auth w in
      omega (
        arith,
        commit_all-nonce submissions (update_auth 1 made.0) made.1,
        same_nonce submission auth w,
      )

  -- Where the contract accepts all batches and nothing else is taken for one, retries end with the
  -- first success, and Redis adds the keys that it is given to its sets, an account's batches of an
  -- epoch are sent to the contract as they are, each once and in order, with nonces that go up by
  -- one; each is recorded under its identifier and its nonce in the epoch's set, from which
  -- EnsureBatchSubmissionSuccess takes what it checks, and the account's nonce has moved on by as
  -- many as there are batches.
  pub commit_all-IsRecorded :
      (epoch_id : ℕ) (submissions : List BatchSubmission) (auth : Auth) (w : s.World)
      → All (λ b. b.epoch_id ≡ epoch_id) submissions
      → let (auth', w') = commit_all s base_fee submissions auth w in
        (sends.sent w' ≡ sends.sent w ++ numbered auth.nonce submissions)
        × All (λ key. Recorded s epoch_id key w') (keys_from auth.nonce submissions)
        × (auth'.nonce ≡ auth.nonce + length submissions)
  commit_all-IsRecorded epoch_id submissions auth w h = (
    commit_all-sent submissions auth w,
    commit_all-Recorded epoch_id submissions auth w h,
    commit_all-nonce submissions auth w,
  )
