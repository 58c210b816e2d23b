-- ===== src/Prost/TxManager/Ensure/Dropped.antt =====
-- A key of the epoch's transactions that was gone through is out of the set, also where the
-- resubmission has just been recorded under the same key.
use submission_sequencer_bat.Prelude.{ℕ, ◌≡◌, false, Option, none, some, any}
use submission_sequencer_bat.Prelude.Text.{Text, text_eq, split}
use submission_sequencer_bat.Prelude.Effect.{Result, ok, err, Done}
use submission_sequencer_bat.Data.{Auth, BatchSubmission, Receipt}
use submission_sequencer_bat.Services.{Services}
use submission_sequencer_bat.Redis.Client.{get, get_set_keys, remove_from_set}
use submission_sequencer_bat.Merkle.Tally.{Outcome, goes_on, stops, panics}
use submission_sequencer_bat.Prost.TxManager.Send.{Sending}
use submission_sequencer_bat.Prost.TxManager.Ensure.{
  Held, tx_set, drop_key, after_record, after_send, resubmit, after_receipt, check_receipt,
  check_body, check_value, check_read, ensure_key, first_two,
}

module _ (s : Services)
    (removes : (set key : Text) (w : s.World)
      → any (text_eq key) (get_set_keys s set (s.redis_srem set key w).1) ≡ false)
    (base_fee epoch_id : ℕ) (key : Text) where
  -- The key is not in the epoch's set, where the work goes on.
  abbrev pub IsDropped : Outcome Done × Held s base_fee epoch_id → Type 0
  IsDropped (goes_on _, (auth, w)) =
      any (text_eq key) (get_set_keys s (tx_set s base_fee epoch_id) w) ≡ false
  IsDropped (stops, held) = Unit {0}
  IsDropped (panics, held) = Unit {0}

  drop_key-IsDropped :
      (auth : Auth) (w : s.World)
      → IsDropped (goes_on tt, (auth, drop_key s base_fee epoch_id key w))
  unfolding drop_key remove_from_set
  drop_key-IsDropped auth w = removes (tx_set s base_fee epoch_id) key _

  after_send-IsDropped :
      (submission : BatchSubmission) (r : Result Text × Sending s.World)
      → IsDropped (after_send s base_fee epoch_id key submission r)
  unfolding after_send after_record
  after_send-IsDropped submission (err e, st) = tt
  after_send-IsDropped submission (ok hash, st) = recorded _
    where
      recorded :
          (r : Result Done × s.World)
          → IsDropped (after_record s base_fee epoch_id key submission hash st.auth r)
      recorded (err e, w) = tt
      recorded (ok d, w) = drop_key-IsDropped st.auth _

  after_receipt-IsDropped :
      (submission : BatchSubmission) (auth : Auth) (r : Result Done × (Option Receipt × s.World))
      → IsDropped (after_receipt s base_fee epoch_id key submission auth r)
  unfolding after_receipt resubmit
  after_receipt-IsDropped submission auth (ok d, (receipt, w)) = drop_key-IsDropped auth _
  after_receipt-IsDropped submission auth (err e, (receipt, w)) = after_send-IsDropped submission _

  check_receipt-IsDropped :
      (tx : Text) (submission : BatchSubmission) (parts : Option (Text × Text))
      (held : Held s base_fee epoch_id)
      → IsDropped (check_receipt s base_fee epoch_id key tx submission parts held)
  unfolding check_receipt
  check_receipt-IsDropped tx submission none held = tt
  check_receipt-IsDropped tx submission (some parts) (auth, w) =
      after_receipt-IsDropped submission auth _

  check_body-IsDropped :
      (tx : Text) (r : Result BatchSubmission) (held : Held s base_fee epoch_id)
      → IsDropped (check_body s base_fee epoch_id key tx r held)
  unfolding check_body
  check_body-IsDropped tx (err e) (auth, w) = drop_key-IsDropped auth _
  check_body-IsDropped tx (ok submission) held =
      check_receipt-IsDropped tx submission (first_two (split b'.' key)) held

  check_value-IsDropped :
      (parts : Option (Text × Text)) (held : Held s base_fee epoch_id)
      → IsDropped (check_value s base_fee epoch_id key parts held)
  unfolding check_value
  check_value-IsDropped none (auth, w) = drop_key-IsDropped auth _
  check_value-IsDropped (some (tx, body)) held =
      check_body-IsDropped tx (s.unmarshal_batch_submission body) held

  check_read-IsDropped :
      (r : Result Text) (held : Held s base_fee epoch_id)
      → IsDropped (check_read s base_fee epoch_id key r held)
  check_read-IsDropped (err e) (auth, w) = drop_key-IsDropped auth _
  check_read-IsDropped (ok value) held = check_value-IsDropped (first_two (split b'.' value)) held

  -- Where removing a key from a set removes it, the key of a transaction is out of the epoch's set
  -- once the transaction has been gone through, on every branch that goes on: unreadable, confirmed
  -- or resubmitted.
  pub ensure_key-IsDropped :
      (held : Held s base_fee epoch_id) → IsDropped (ensure_key s base_fee epoch_id key held)
  unfolding ensure_key
  ensure_key-IsDropped (auth, w) = check_read-IsDropped (get s key w) (auth, w)
