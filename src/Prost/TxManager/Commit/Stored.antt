-- ===== src/Prost/TxManager/Commit/Stored.antt =====
-- The value that CommitSubmissionBatch records.
use submission_sequencer_bat.Prelude.{
  ℕ, ◌≡◌, refl, sym, ap, ◌∙◌, inl, inr, List, [], ◌∷◌, false, some, arith, length,
}
use submission_sequencer_bat.Prelude.Text.{
  Text, text, text_eq, text_eq_ne, text_eq_refl, split, split-join, join,
}
use submission_sequencer_bat.Prelude.Decimal.{digits, digits-NoByte}
use submission_sequencer_bat.Prelude.Keeps.{Keeps, Keeps-pure}
use submission_sequencer_bat.Prelude.Effect.{Result, ok, err, Done, pure, Result-cases}
use submission_sequencer_bat.Json.{Log}
use submission_sequencer_bat.Data.{Auth, BatchSubmission, high}
use submission_sequencer_bat.Constants.{commit_submission_batch_name, process_trigger_key}
use submission_sequencer_bat.Services.{Services}
use submission_sequencer_bat.Clients.Reporting.{send_failure_notification}
use submission_sequencer_bat.Redis.Keys.{triggered_process_log, batch_submission_key}
use submission_sequencer_bat.Redis.Client.{set_submission, set_process_log}
use submission_sequencer_bat.Merkle.Build.{report}
use submission_sequencer_bat.Prost.Rewards.Keeps.{RedisStores}
use submission_sequencer_bat.Prost.TxManager.Send.{send_transaction-accepted, RetryStops}
use submission_sequencer_bat.Prost.TxManager.Commit.{
  commit_log, report_marshal, log_transaction, record_transaction, after_commit,
  commit_submission_batch,
}
use submission_sequencer_bat.Prost.TxManager.Commit.Keeps.{key_of}

split_log_key :
    (id : ℕ)
    → split b'.' (triggered_process_log commit_submission_batch_name (digits id))
      ≡ process_trigger_key ∷ commit_submission_batch_name ∷ digits id ∷ []
unfolding triggered_process_log
split_log_key id =
    split-join b'.' process_trigger_key (commit_submission_batch_name ∷ digits id ∷ [])
      (ground arith) (ground arith, (digits-NoByte b'.' id (omega arith), tt))

pub split_batch_key :
    (id nonce : ℕ)
    → split b'.' (batch_submission_key (digits id) (digits nonce)) ≡ digits id ∷ digits nonce ∷ []
unfolding batch_submission_key
split_batch_key id nonce =
    split-join b'.' (digits id) (digits nonce ∷ []) (digits-NoByte b'.' id (omega arith))
      (digits-NoByte b'.' nonce (omega arith), tt)

log_key-differs :
    (i id nonce : ℕ)
    → text_eq
        (triggered_process_log commit_submission_batch_name (digits i))
        (batch_submission_key (digits id) (digits nonce))
      ≡ false
log_key-differs i id nonce = text_eq_ne _ _ λ e.
    let parts : ◌≡◌ {A = ℕ} 3 2 =
      ap length (sym (split_log_key i) ∙ ap (split b'.') e ∙ split_batch_key id nonce) in
    omega (arith, parts)

module _ (s : Services) (stores : RedisStores s) (base_fee : ℕ) where
  -- The value of the key is `value`.
  abbrev pub Holds : Text → Text → s.World → Type 0
  Holds key value w = s.redis_get key w ≡ ok (some value)

  Keeps-report :
      (key value process : Text) (r : Result Done)
      → Keeps (Holds key value) (report s process high r)
  unfolding report send_failure_notification
  Keeps-report key value process (ok d) = Keeps-pure tt
  Keeps-report key value process (err e) = record { at = λ w h. stores.alert_keeps key _ w ∙ h }

  Keeps-set_process_log :
      (key value k : Text) (entry : Log) (expiration : ℕ)
      → text_eq k key ≡ false
      → Keeps (Holds key value) (set_process_log s k entry expiration)
  unfolding set_process_log
  Keeps-set_process_log key value k entry expiration differs =
      elim (Result-cases (s.marshal_log entry)) [
        | inl (bytes, e) ↦
            rw (e, set_process_log)
              record { at = λ w h. stores.set_gets k key bytes expiration w ∙ rw differs h }
        | inr (message, e) ↦ rw (e, set_process_log) record { at = λ w h. h }
      ]

  log_transaction-Holds :
      (value : Text) (submission : BatchSubmission) (hash : Text) (auth : Auth) (w : s.World)
      → Holds (key_of submission auth.nonce) value w
      → Holds
          (key_of submission auth.nonce)
          value
          (log_transaction s base_fee submission hash auth w).1
  unfolding log_transaction
  log_transaction-Holds value submission hash auth w h =
      let key = key_of submission auth.nonce in
      let id = submission.batch.id in
      (Keeps-report key value (text "CommitSubmissionBatch") _).at _ (
        (Keeps-set_process_log key value
            (triggered_process_log commit_submission_batch_name (digits id))
            (commit_log s base_fee submission hash auth (s.now w)) 14400
            (log_key-differs id id auth.nonce)).at
          w h)

  module _
      (sadd_succeeds : (set : Text) (keys : List Text) (w : s.World)
        → (s.redis_sadd set keys w).0 ≡ ok tt) where
    set_submission-Holds :
        (key value set : Text) (expiration : ℕ) (w : s.World)
        → Holds key value (set_submission s key value set expiration w).1
    unfolding set_submission
    set_submission-Holds key value set expiration w =
        set_after _ (sadd_succeeds set (key ∷ []) w) (s.redis_sadd set (key ∷ []) w).1
      where
        set_after :
            (added : Result Done)
            → added ≡ ok tt
            → (w' : s.World)
            → Holds key value
                (elim added as (λ x. s.World → Result Done × s.World) [
                  | err e ↦ pure (err e)
                  | ok d ↦ s.redis_set key value expiration
                ]
                  w').1
        set_after (ok d) e w' =
            stores.set_gets key key value expiration w' ∙ rw (text_eq_refl key) refl
        set_after (err message) e w' = cc

    -- The hash and the batch are stored under the batch's identifier and the nonce.
    pub commit-Holds :
        RetryStops s
        → (submission : BatchSubmission) (hash bytes : Text) (auth : Auth) (w w' : s.World)
        → s.submit_submission_batch auth submission w ≡ (ok hash, w')
        → s.marshal_batch_submission submission ≡ ok bytes
        → Holds
            (key_of submission auth.nonce)
            (join b'.' (hash ∷ bytes ∷ []))
            (commit_submission_batch s base_fee submission auth w).1
    unfolding commit_submission_batch after_commit record_transaction report_marshal
    commit-Holds retry_stops submission hash bytes auth w w' accepted made =
        let key = key_of submission auth.nonce in
        rw
          (
            send_transaction-accepted s base_fee retry_stops 7
                (λ a. s.submit_submission_batch a submission) auth w w' hash accepted,
            made,
          )
          (log_transaction-Holds _ submission hash auth _
            ((Keeps-report key _ (text "Redis error") _).at _ (set_submission-Holds key _ _ 300 _)))
