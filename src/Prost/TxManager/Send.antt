-- ===== src/Prost/TxManager/Send.antt =====
-- What every transaction of txManager.go goes through: an attempt that adjusts the options to its
-- error, under backoff; and EndBatchSubmissionsForEpoch and GetTxReceipt.
use submission_sequencer_bat.Prelude.{ℕ, Option, none, some, ◌≡◌, ap}
use submission_sequencer_bat.Prelude.Text.{Text, text}
use submission_sequencer_bat.Prelude.Effect.{Result, ok, err, Done}
use submission_sequencer_bat.Data.{Auth, Receipt, low, high}
use submission_sequencer_bat.Services.{Services}
use submission_sequencer_bat.Clients.Reporting.{send_failure_notification}
use submission_sequencer_bat.Redis.Keys.{transaction_receipt_count_by_event}
use submission_sequencer_bat.Prost.Account.{handle_transaction_error}

-- The variables of an attempt: the account's options, the multiplier and the world.
pub record Sending (World : Type 0) : Type 0 where
  pub auth : Auth
  pub multiplier : ℕ
  pub world : World

module _ (s : Services) (base_fee : ℕ) where
  adjusted : Sending s.World → Result Text × s.World → Result Text × Sending s.World
  adjusted st (ok hash, w) = (ok hash, record st { world = w })
  adjusted st (err e, w) =
      let ((multiplier, auth), w') =
        handle_transaction_error s base_fee e st.multiplier st.auth w in
      (err e, record { auth = auth; multiplier = multiplier; world = w' })

  -- `operation`: one call of the contract.
  attempt :
      (Auth → s.World → Result Text × s.World) → Sending s.World → Result Text × Sending s.World
  unfolding adjusted
  attempt call st = adjusted st (call st.auth st.world)

  -- The call, and at most `n` more; the options are those of the last attempt.
  unfoldable pub send_transaction :
      ℕ → (Auth → s.World → Result Text × s.World) → Auth → s.World → Result Text × Sending s.World
  unfolding attempt
  send_transaction n call auth w =
      s.retry (Sending s.World) Text n (attempt call)
        (record { auth = auth; multiplier = 1; world = w })

  after_end : Result Text × Sending s.World → Auth × s.World
  unfolding send_failure_notification
  after_end (ok hash, st) = (st.auth, st.world)
  after_end (err e, st) =
      (st.auth, (send_failure_notification s (text "EndBatchSubmissionsForEpoch") high st.world).1)

  unfoldable pub end_batch_submissions_for_epoch : ℕ → Auth → s.World → Auth × s.World
  unfolding after_end
  end_batch_submissions_for_epoch epoch_id auth w =
      after_end (send_transaction 7 (λ a. s.end_batch_submissions a epoch_id) auth w)

module _ (s : Services) where
  abbrev pub found : Result Receipt → Option Receipt
  found (ok r) = some r
  found (err e) = none

  -- The error of TransactionReceipt is overwritten by that of the counter.
  counted : Option Receipt → Result Done × s.World → Result Done × (Option Receipt × s.World)
  unfolding send_failure_notification
  counted receipt (ok d, w) = (ok d, (receipt, w))
  counted receipt (err e, w) =
      (err e, (receipt, (send_failure_notification s (text "GetTxReceipt") low w).1))

  fetch_receipt : Text → Text → Option Receipt × s.World → Result Done × (Option Receipt × s.World)
  unfolding counted
  fetch_receipt hash identifier (old, w) =
      let (receipt, w') = s.transaction_receipt hash w in
      counted (found receipt) (s.redis_incr (transaction_receipt_count_by_event identifier) w')

  -- The receipt, nil if there is none, and the error.
  unfoldable pub get_tx_receipt : Text → Text → s.World → Result Done × (Option Receipt × s.World)
  unfolding fetch_receipt
  get_tx_receipt hash identifier w =
      s.retry (Option Receipt × s.World) Done 7 (fetch_receipt hash identifier) (none, w)

  -- backoff.Retry ends with the first attempt that succeeds.
  abbrev pub RetryStops : Type 1
  RetryStops =
      (S A : Type 0) (n : ℕ) (op : S → Result A × S) (st st' : S) (a : A)
      → op st ≡ (ok a, st')
      → s.retry S A n op st ≡ (ok a, st')

  -- Where a retried call ends with its first success and the counter can be incremented,
  -- GetTxReceipt gives no error, also when the node knows no
  -- receipt for the hash: the receipt is then nil.
  pub get_tx_receipt_no_error :
      RetryStops
      → (hash identifier : Text) (w w' : s.World)
      → s.redis_incr
          (transaction_receipt_count_by_event identifier)
          (s.transaction_receipt hash w).1
        ≡ (ok tt, w')
      → get_tx_receipt hash identifier w ≡ (ok tt, (found (s.transaction_receipt hash w).0, w'))
  unfolding get_tx_receipt
  get_tx_receipt_no_error retry_stops hash identifier w w' e =
      retry_stops (Option Receipt × s.World) Done 7 (fetch_receipt hash identifier) (none, w)
        (found (s.transaction_receipt hash w).0, w') tt
        (ap (counted (found (s.transaction_receipt hash w).0)) e)

module _ (s : Services) (base_fee : ℕ) where
  -- A transaction that is accepted at once leaves the options as they are.
  pub send_transaction-accepted :
      RetryStops s
      → (n : ℕ) (call : Auth → s.World → Result Text × s.World) (auth : Auth) (w w' : s.World)
        (hash : Text)
      → call auth w ≡ (ok hash, w')
      → send_transaction s base_fee n call auth w
        ≡ (ok hash, record { auth = auth; multiplier = 1; world = w' })
  unfolding send_transaction attempt adjusted
  send_transaction-accepted retry_stops n call auth w w' hash e =
      retry_stops (Sending s.World) Text n (attempt s base_fee call) _ _ hash
        (ap (adjusted s base_fee (record { auth = auth; multiplier = 1; world = w })) e)
