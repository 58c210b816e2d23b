-- ===== src/Prost/TxManager/Ensure/Resent.antt =====
-- A transaction of the epoch that EnsureBatchSubmissionSuccess checks, over a contract that accepts
-- each batch: what the contract is sent, and that the key leaves the epoch's set.
use submission_sequencer_bat.Prelude.{
  ℕ, ◌≡◌, refl, ap₂, ◌∙◌, ◌++◌, List, [], ◌∷◌, false, any, Option,
}
use submission_sequencer_bat.Prelude.Text.{Text, text_eq}
use submission_sequencer_bat.Prelude.Effect.{Result, ok, err, Done, pure}
use submission_sequencer_bat.Data.{Auth, BatchSubmission, Receipt}
use submission_sequencer_bat.Services.{Services}
use submission_sequencer_bat.Redis.Client.{get_set_keys, remove_from_set, set_submission}
use submission_sequencer_bat.Merkle.Tally.{Outcome, goes_on, stops, panics}
use submission_sequencer_bat.Prost.Account.{
  suggest_eip1559_fees, update_gas_price, update_gas_price_nonce,
}
use submission_sequencer_bat.Prost.TxManager.Send.{Sending, send_transaction-accepted, RetryStops}
use submission_sequencer_bat.Prost.TxManager.Commit.Keeps.{Keeps-set_submission}
use submission_sequencer_bat.Prost.TxManager.Commit.Sends.{Sends, Sent, Sent-kept}
use submission_sequencer_bat.Prost.TxManager.Ensure.{
  Held, tx_set, drop_key, after_record, after_send, resubmit, after_receipt,
}
use submission_sequencer_bat.Prost.TxManager.Ensure.Kept.{
  if_there-Sent, if_failed-Sent, marshalled-Sent, log_resubmission-Sent,
}

module _ (s : Services) (sends : Sends s) (base_fee epoch_id : ℕ) (xs : List (ℕ × BatchSubmission))
    (removes : (set key : Text) (w : s.World)
      → any (text_eq key) (get_set_keys s set (s.redis_srem set key w).1) ≡ false)
    (key : Text) where
  -- The work goes on, the contract has been sent `xs`, and the key is not in the epoch's set.
  abbrev pub Ends : Outcome Done × Held s base_fee epoch_id → Type 0
  Ends (goes_on _, (auth, w)) =
      Sent s sends xs w
      × (any (text_eq key) (get_set_keys s (tx_set s base_fee epoch_id) w) ≡ false)
  Ends (stops, held) = ⊥
  Ends (panics, held) = ⊥

  pub drop_key-Ends :
      (auth : Auth) (w : s.World)
      → Sent s sends xs w
      → Ends (goes_on tt, (auth, drop_key s base_fee epoch_id key w))
  unfolding drop_key remove_from_set
  drop_key-Ends auth w h =
      (sends.srem_keeps _ key _ ∙ sends.del_keeps (key ∷ []) w ∙ h, removes _ key _)

  after_record-Ends :
      (submission : BatchSubmission) (hash : Text) (auth : Auth) (r : Result Done × s.World)
      → r.0 ≡ ok tt
      → Sent s sends xs r.1
      → Ends (after_record s base_fee epoch_id key submission hash auth r)
  unfolding after_record
  after_record-Ends submission hash auth (ok d, w) e h =
      drop_key-Ends auth _
        (log_resubmission-Sent s sends base_fee epoch_id xs submission hash auth w h)
  after_record-Ends submission hash auth (err message, w) e h = cc

  module _
      (set_succeeds : (k v : Text) (expiration : ℕ) (w : s.World)
        → (s.redis_set k v expiration w).0 ≡ ok tt)
      (sadd_succeeds : (set : Text) (keys : List Text) (w : s.World)
        → (s.redis_sadd set keys w).0 ≡ ok tt) where
    set_submission_ok :
        (k value set : Text) (expiration : ℕ) (w : s.World)
        → (set_submission s k value set expiration w).0 ≡ ok tt
    unfolding set_submission
    set_submission_ok k value set expiration w =
        set_after _ (sadd_succeeds set (k ∷ []) w) (s.redis_sadd set (k ∷ []) w).1
      where
        set_after :
            (added : Result Done)
            → added ≡ ok tt
            → (w' : s.World)
            → (elim added as (λ x. s.World → Result Done × s.World) [
              | err e ↦ pure (err e)
              | ok d ↦ s.redis_set k value expiration
            ]
                w').0
              ≡ ok tt
        set_after (ok d) e w' = set_succeeds k value expiration w'
        set_after (err message) e w' = cc

    after_send-Ends :
        (submission : BatchSubmission) (hash : Text) (st : Sending s.World)
        → Sent s sends xs st.world
        → Ends (after_send s base_fee epoch_id key submission (ok hash, st))
    unfolding after_send
    after_send-Ends submission hash st h =
        after_record-Ends submission hash st.auth _ (set_submission_ok _ _ _ 3600 _) (
          (Keeps-set_submission s (Sent s sends xs) (Sent-kept s sends xs) base_fee _ _ _ 3600).at _
            (marshalled-Sent s sends base_fee epoch_id xs (s.marshal_batch_submission submission)
              st.world h))

-- What the contract is sent of the batch, once more.
abbrev pub once_more : ℕ → BatchSubmission → Auth → List (ℕ × BatchSubmission)
once_more epoch_id submission auth = (auth.nonce, record submission { epoch_id = epoch_id }) ∷ []

module _ (s : Services) (sends : Sends s)
    (removes : (set key : Text) (w : s.World)
      → any (text_eq key) (get_set_keys s set (s.redis_srem set key w).1) ≡ false)
    (base_fee epoch_id : ℕ) (key : Text) where
  -- What came of a transaction whose receipt was asked for: without an error nothing is sent, on
  -- an error the batch is sent once more. Either way the work goes on and the key is dropped.
  abbrev pub IsChecked :
      BatchSubmission
      → Auth
      → Result Done × (Option Receipt × s.World)
      → Outcome Done × Held s base_fee epoch_id
      → Type 0
  IsChecked submission auth (ok d, (receipt, w)) =
      Ends s sends base_fee epoch_id (sends.sent w) removes key
  IsChecked submission auth (err e, (receipt, w)) =
      Ends s sends base_fee epoch_id (sends.sent w ++ once_more epoch_id submission auth) removes
        key

module _ (s : Services) (sends : Sends s)
    (removes : (set key : Text) (w : s.World)
      → any (text_eq key) (get_set_keys s set (s.redis_srem set key w).1) ≡ false)
    (set_succeeds : (k v : Text) (expiration : ℕ) (w : s.World)
      → (s.redis_set k v expiration w).0 ≡ ok tt)
    (sadd_succeeds : (set : Text) (keys : List Text) (w : s.World)
      → (s.redis_sadd set keys w).0 ≡ ok tt)
    (retry_stops : RetryStops s) (base_fee epoch_id : ℕ) (key : Text) where
  update_gas_price-Sent :
      (auth : Auth) (w : s.World)
      → sends.sent (update_gas_price s base_fee 1 auth w).1 ≡ sends.sent w
  unfolding update_gas_price suggest_eip1559_fees
  update_gas_price-Sent auth w = sends.tip_keeps w

  resubmit-Ends :
      (submission : BatchSubmission) (auth : Auth) (w : s.World) (xs : List (ℕ × BatchSubmission))
      → Sent s sends xs w
      → Ends s sends base_fee epoch_id
          (xs ++ once_more epoch_id submission auth)
          removes
          key
          (resubmit s base_fee epoch_id key submission (auth, w))
  unfolding resubmit
  resubmit-Ends submission auth w xs h =
      let again = record submission { epoch_id = epoch_id } in
      let auth' = (update_gas_price s base_fee 1 auth w).0.1 in
      let w' = (update_gas_price s base_fee 1 auth w).1 in
      let made = s.submit_submission_batch auth' again w' in
      let accepted = sends.accepts auth' again w' in
      rw
        (send_transaction-accepted s base_fee retry_stops 5 (λ a. s.submit_submission_batch a again)
          auth' w' made.1 accepted.0 (λ i. (accepted.1 i, made.1)))
        (after_send-Ends s sends base_fee epoch_id (xs ++ once_more epoch_id submission auth)
          removes key set_succeeds sadd_succeeds submission accepted.0
          (record { auth = auth'; multiplier = 1; world = made.1 })
          (sends.submit_sends auth' again w'
            ∙ ap₂ (λ ys (n : ℕ). ys ++ ((n, again) ∷ [])) (update_gas_price-Sent auth w ∙ h)
                (update_gas_price_nonce s base_fee 1 auth w)))

  pub after_receipt-IsChecked :
      (submission : BatchSubmission) (auth : Auth) (r : Result Done × (Option Receipt × s.World))
      → IsChecked s sends removes base_fee epoch_id key submission auth r
          (after_receipt s base_fee epoch_id key submission auth r)
  unfolding after_receipt
  after_receipt-IsChecked submission auth (ok d, (receipt, w)) =
      drop_key-Ends s sends base_fee epoch_id (sends.sent w) removes key auth _
        (if_failed-Sent s sends base_fee epoch_id (sends.sent w) receipt w refl)
  after_receipt-IsChecked submission auth (err e, (receipt, w)) =
      resubmit-Ends submission auth _ (sends.sent w)
        (if_there-Sent s sends base_fee epoch_id (sends.sent w) receipt w refl)
