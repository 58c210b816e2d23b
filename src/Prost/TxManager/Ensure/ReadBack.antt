-- ===== src/Prost/TxManager/Ensure/ReadBack.antt =====
-- EnsureBatchSubmissionSuccess checks just what CommitSubmissionBatch recorded.
use submission_sequencer_bat.Prelude.{ℕ, ◌≡◌, refl, ◌∙◌, List, [], ◌∷◌, some, any, false}
use submission_sequencer_bat.Prelude.Text.{Text, text_eq, NoByte, split-join, join}
use submission_sequencer_bat.Prelude.Decimal.{digits}
use submission_sequencer_bat.Prelude.Effect.{ok}
use submission_sequencer_bat.Data.{Auth, BatchSubmission}
use submission_sequencer_bat.Services.{Services}
use submission_sequencer_bat.Redis.Client.{get, get_set_keys}
use submission_sequencer_bat.Prost.Rewards.Keeps.{RedisStores}
use submission_sequencer_bat.Prost.TxManager.Send.{get_tx_receipt, RetryStops}
use submission_sequencer_bat.Prost.TxManager.Commit.{commit_submission_batch}
use submission_sequencer_bat.Prost.TxManager.Commit.Keeps.{key_of}
use submission_sequencer_bat.Prost.TxManager.Commit.Stored.{split_batch_key, commit-Holds}
use submission_sequencer_bat.Prost.TxManager.Commit.Sends.{Sends}
use submission_sequencer_bat.Prost.TxManager.Ensure.Resent.{IsChecked, after_receipt-IsChecked}
use submission_sequencer_bat.Prost.TxManager.Ensure.{
  ensure_key, check_value, check_body, check_receipt, after_receipt,
}

module _ (s : Services) (base_fee epoch_id : ℕ) where
  ensure-held :
      (submission : BatchSubmission) (hash bytes : Text) (nonce : ℕ) (auth : Auth) (w : s.World)
      → s.unmarshal_batch_submission bytes ≡ ok submission
      → NoByte b'.' hash
      → NoByte b'.' bytes
      → s.redis_get (key_of submission nonce) w ≡ ok (some (join b'.' (hash ∷ bytes ∷ [])))
      → ensure_key s base_fee epoch_id (key_of submission nonce) (auth, w)
        ≡ after_receipt s base_fee epoch_id
            (key_of submission nonce)
            submission
            auth
            (get_tx_receipt s hash (digits epoch_id) w)
  unfolding ensure_key check_value check_body check_receipt get
  ensure-held submission hash bytes nonce auth w read plain_hash plain_bytes held =
      rw
        (
          held,
          split-join b'.' hash (bytes ∷ []) plain_hash (plain_bytes, tt),
          read,
          split_batch_key submission.batch.id nonce,
        )
        refl

module _ (s : Services) (stores : RedisStores s) (sends : Sends s)
    (removes : (set key : Text) (w : s.World)
      → any (text_eq key) (get_set_keys s set (s.redis_srem set key w).1) ≡ false)
    (set_succeeds : (k v : Text) (expiration : ℕ) (w : s.World)
      → (s.redis_set k v expiration w).0 ≡ ok tt)
    (sadd_succeeds : (set : Text) (keys : List Text) (w : s.World)
      → (s.redis_sadd set keys w).0 ≡ ok tt)
    (retry_stops : RetryStops s) (base_fee : ℕ) where
  -- Where the calls of Redis do what they are asked to, retries end with the first success, the
  -- contract accepts each batch and nothing else is taken for one, and the JSON of the batch has no
  -- dot and is read back as the batch, the key under which CommitSubmissionBatch records an accepted
  -- transaction is gone through as follows at any time at which its value is still there. The
  -- receipt asked for is that of the accepted transaction. Without an error in asking the contract
  -- is sent nothing; on an error it is sent the batch that was committed once more, with the
  -- account's nonce, and nothing else. Either way the work goes on, and the key is out of the
  -- epoch's set.
  pub commit-IsChecked :
      (submission : BatchSubmission) (hash bytes : Text) (auth auth' : Auth) (w w' later : s.World)
      → s.submit_submission_batch auth submission w ≡ (ok hash, w')
      → s.marshal_batch_submission submission ≡ ok bytes
      → s.unmarshal_batch_submission bytes ≡ ok submission
      → NoByte b'.' hash
      → NoByte b'.' bytes
      → let key = key_of submission auth.nonce in
        s.redis_get key later
          ≡ s.redis_get key (commit_submission_batch s base_fee submission auth w).1
        → IsChecked s sends removes base_fee submission.epoch_id key submission auth'
            (get_tx_receipt s hash (digits submission.epoch_id) later)
            (ensure_key s base_fee submission.epoch_id key (auth', later))
  commit-IsChecked submission hash bytes auth auth' w w' later accepted made read plain_hash plain
        same =
      let epoch_id = submission.epoch_id in
      let key = key_of submission auth.nonce in
      rw
        (ensure-held s base_fee epoch_id submission hash bytes auth.nonce auth' later read
          plain_hash plain
          (same
            ∙ commit-Holds s stores base_fee sadd_succeeds retry_stops submission hash bytes auth w
                w' accepted made))
        (after_receipt-IsChecked s sends removes set_succeeds sadd_succeeds retry_stops base_fee
          epoch_id key submission auth' (get_tx_receipt s hash (digits epoch_id) later))
