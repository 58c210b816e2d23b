-- ===== src/Tests/ReadBack.antt =====
-- A batch that was committed, read back by EnsureBatchSubmissionSuccess.
use submission_sequencer_bat.Prelude.Dict.{lookup-insert_self}
use submission_sequencer_bat.Tests.Ensure.{filter-any}
use submission_sequencer_bat.Prelude.{◌≡◌, refl, arith, any, false, not, filter_by}
use submission_sequencer_bat.Prelude.Text.{Text, text, text_eq}
use submission_sequencer_bat.Prelude.Decimal.{digits}
use submission_sequencer_bat.Prelude.Effect.{ok, err}
use submission_sequencer_bat.Services.{Services}
use submission_sequencer_bat.Prost.Rewards.Keeps.{RedisStores}
use submission_sequencer_bat.Prost.TxManager.Send.{get_tx_receipt}
use submission_sequencer_bat.Prost.TxManager.Commit.{commit_submission_batch}
use submission_sequencer_bat.Prost.TxManager.Commit.Keeps.{key_of}
use submission_sequencer_bat.Prost.TxManager.Ensure.{ensure_key}
use submission_sequencer_bat.Prost.TxManager.Ensure.Resent.{IsChecked}
use submission_sequencer_bat.Prost.TxManager.Commit.Sends.{Sends}
use submission_sequencer_bat.Redis.Client.{get_set_keys}
use submission_sequencer_bat.Prost.TxManager.Ensure.ReadBack.{commit-IsChecked}
use submission_sequencer_bat.Tests.Memory.{World, set_of, retries, nothing, retries_stop}
use submission_sequencer_bat.Tests.Prost.{signer}
use submission_sequencer_bat.Tests.Commit.{batch, accepting, accepting_sends}
use submission_sequencer_bat.Tests.Rewards.{stores}

-- The JSON of batch 40, the only one, is read back, and the receipts cannot be counted.
abbrev reading : Services
reading = record accepting {
  unmarshal_batch_submission = λ t. ok (batch 40);
  redis_incr = λ k w. (err (text "no counter"), w);
}

abbrev reading_sends : Sends reading
reading_sends = record {
  sent = λ w. w.batches;
  accepts = accepting_sends.accepts;
  submit_sends = accepting_sends.submit_sends;
  sadd_keeps = accepting_sends.sadd_keeps;
  set_keeps = accepting_sends.set_keeps;
  del_keeps = accepting_sends.del_keeps;
  srem_keeps = accepting_sends.srem_keeps;
  alert_keeps = accepting_sends.alert_keeps;
  tip_keeps = accepting_sends.tip_keeps;
}

srem_removes :
    (set key : Text) (w : World)
    → any (text_eq key) (get_set_keys reading set (reading.redis_srem set key w).1) ≡ false
unfolding get_set_keys
srem_removes set key w =
    rw (lookup-insert_self set (filter_by (λ y. not (text_eq key y)) (set_of set w)) w.sets)
      (filter-any key (set_of set w))

reading_stores : RedisStores reading
reading_stores = record {
  set_gets = stores.set_gets;
  sadd_keeps = stores.sadd_keeps;
  del_keeps = stores.del_keeps;
  del_gets = stores.del_gets;
  alert_keeps = stores.alert_keeps;
  points_keeps = stores.points_keeps;
  retry_keeps = stores.retry_keeps;
}

abbrev later : World
later = (commit_submission_batch reading 10 (batch 40) signer nothing).1

-- Asking for the receipt fails, so that the batch is sent once more.
receipt_fails : (get_tx_receipt reading (text "0xb") (digits 7) later).0 ≡ err (text "no counter")
unfolding get_tx_receipt retries
receipt_fails = refl

commit-IsChecked_example :
    IsChecked reading reading_sends srem_removes 10 7
      (key_of (batch 40) 9)
      (batch 40)
      signer
      (get_tx_receipt reading (text "0xb") (digits 7) later)
      (ensure_key reading 10 7 (key_of (batch 40) 9) (signer, later))
commit-IsChecked_example =
    commit-IsChecked reading reading_stores reading_sends srem_removes (λ k v expiration w. refl)
      (λ set keys w. refl) retries_stop 10 (batch 40) (text "0xb") (text "{}") signer signer nothing
      _ later refl refl refl (ground arith) (ground arith) refl
