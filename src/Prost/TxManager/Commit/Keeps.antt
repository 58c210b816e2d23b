-- ===== src/Prost/TxManager/Commit/Keeps.antt =====
-- What CommitSubmissionBatch records, and that nothing takes it out.
use submission_sequencer_bat.Prelude.{ℕ, ◌+◌, ◌≡◌, inl, inr, true, List, [], ◌∷◌, any}
use submission_sequencer_bat.Prelude.Text.{Text, text, text_eq}
use submission_sequencer_bat.Prelude.Decimal.{digits}
use submission_sequencer_bat.Prelude.Keeps.{Keeps, Keeps-pure, Keeps-bind, Keeps-then}
use submission_sequencer_bat.Prelude.Effect.{Result, ok, err, Done, M, pure, Result-cases}
use submission_sequencer_bat.Json.{Log}
use submission_sequencer_bat.Data.{Auth, BatchSubmission, SequencerAlert, Severity, high}
use submission_sequencer_bat.Constants.{commit_submission_batch_name}
use submission_sequencer_bat.Services.{Services}
use submission_sequencer_bat.Clients.Reporting.{send_failure_notification}
use submission_sequencer_bat.Redis.Keys.{
  triggered_process_log, batch_submission_key, batch_submission_set_by_epoch,
}
use submission_sequencer_bat.Redis.Client.{get_set_keys, set_submission, set_process_log}
use submission_sequencer_bat.Merkle.Build.{report}
use submission_sequencer_bat.Prost.TxManager.Commit.{
  commit_log, report_marshal, log_transaction, record_transaction,
}

-- What the documentation of the services says of a Redis whose calls succeed: keys that are added to
-- a set are in it, and adding to sets, setting values, alerts and transactions take none out.
pub record SetsGrow (s : Services) : Type 1 where
  pub sadd_adds :
      (set key : Text) (w : s.World)
      → any (text_eq key) (get_set_keys s set (s.redis_sadd set (key ∷ []) w).1) ≡ true
  pub sadd_keeps :
      (set key other : Text) (keys : List Text) (w : s.World)
      → any (text_eq key) (get_set_keys s set w) ≡ true
      → any (text_eq key) (get_set_keys s set (s.redis_sadd other keys w).1) ≡ true
  pub set_keeps :
      (set key k v : Text) (expiration : ℕ) (w : s.World)
      → any (text_eq key) (get_set_keys s set w) ≡ true
      → any (text_eq key) (get_set_keys s set (s.redis_set k v expiration w).1) ≡ true
  pub alert_keeps :
      (set key : Text) (alert : SequencerAlert) (w : s.World)
      → any (text_eq key) (get_set_keys s set w) ≡ true
      → any (text_eq key) (get_set_keys s set (s.post_alert alert w)) ≡ true
  pub submit_keeps :
      (set key : Text) (auth : Auth) (submission : BatchSubmission) (w : s.World)
      → any (text_eq key) (get_set_keys s set w) ≡ true
      → any (text_eq key) (get_set_keys s set (s.submit_submission_batch auth submission w).1)
        ≡ true

abbrev pub IsIn : (s : Services) → Text → Text → s.World → Type 0
IsIn s set key w = any (text_eq key) (get_set_keys s set w) ≡ true

-- What the calls that record a transaction keep.
pub record StoreKeeps (s : Services) (P : s.World → Type 0) : Type 0 where
  pub sadd : (set : Text) (keys : List Text) → Keeps P (s.redis_sadd set keys)
  pub set : (k v : Text) (expiration : ℕ) → Keeps P (s.redis_set k v expiration)
  pub alert : (alert : SequencerAlert) (w : s.World) → P w → P (s.post_alert alert w)

module _ (s : Services) (P : s.World → Type 0) (kept : StoreKeeps s P) (base_fee : ℕ) where
  pub Keeps-alert :
      (process : Text) (severity : Severity)
      → Keeps P (send_failure_notification s process severity)
  unfolding send_failure_notification
  Keeps-alert process severity = record { at = kept.alert _ }

  pub Keeps-report :
      (process : Text) (severity : Severity) (r : Result Done)
      → Keeps P (report s process severity r)
  unfolding report
  Keeps-report process severity (ok d) = Keeps-pure tt
  Keeps-report process severity (err e) = Keeps-alert process severity

  Keeps-report_marshal : (r : Result Text) → Keeps P (report_marshal s base_fee r)
  unfolding report_marshal
  Keeps-report_marshal (ok bytes) = Keeps-pure tt
  Keeps-report_marshal (err e) = Keeps-alert (text "CommitSubmissionBatch") high

  pub Keeps-set_process_log :
      (k : Text) (entry : Log) (expiration : ℕ) → Keeps P (set_process_log s k entry expiration)
  unfolding set_process_log
  Keeps-set_process_log k entry expiration = elim (Result-cases (s.marshal_log entry)) [
    | inl (bytes, e) ↦ rw (e, set_process_log) record { at = (kept.set k bytes expiration).at }
    | inr (message, e) ↦ rw (e, set_process_log) record { at = λ w h. h }
  ]

  Keeps-log_transaction :
      (submission : BatchSubmission) (hash : Text) (auth : Auth)
      → Keeps P (log_transaction s base_fee submission hash auth)
  unfolding log_transaction
  Keeps-log_transaction submission hash auth = record {
    at = λ w h.
        let timestamp = s.now w in
        let logging =
          Keeps-set_process_log
            (triggered_process_log commit_submission_batch_name (digits submission.batch.id))
            (commit_log s base_fee submission hash auth timestamp) 14400 in
        (Keeps-report (text "CommitSubmissionBatch") high _).at _ (logging.at w h);
  }

  after_add : (k value : Text) (expiration : ℕ) → Result Done → M s.World (Result Done)
  after_add k value expiration (err e) = pure (err e)
  after_add k value expiration (ok d) = s.redis_set k value expiration

  Keeps-after_add :
      (k value : Text) (expiration : ℕ) (r : Result Done) → Keeps P (after_add k value expiration r)
  unfolding after_add
  Keeps-after_add k value expiration (err e) = record { at = λ w h. h }
  Keeps-after_add k value expiration (ok d) = kept.set k value expiration

  pub Keeps-set_submission :
      (k value other : Text) (expiration : ℕ) → Keeps P (set_submission s k value other expiration)
  unfolding set_submission after_add
  Keeps-set_submission k value other expiration =
      Keeps-bind _ (after_add k value expiration) (kept.sadd other (k ∷ []))
        (Keeps-after_add k value expiration)

  pub record_transaction-Keeps :
      (submission : BatchSubmission) (hash : Text) (auth : Auth)
      → Keeps P (record_transaction s base_fee submission hash auth)
  unfolding record_transaction
  record_transaction-Keeps submission hash auth = Keeps-then _ _ (Keeps-report_marshal _) (
      Keeps-bind _ _ (Keeps-set_submission _ _ _ 300) λ stored.
        Keeps-then _ _ (Keeps-report (text "Redis error") high stored)
          (Keeps-log_transaction submission hash auth))

module _ (s : Services) (grow : SetsGrow s) (base_fee : ℕ) (set key : Text) where
  pub IsIn-kept : StoreKeeps s (IsIn s set key)
  IsIn-kept = record {
    sadd = λ other keys. record { at = grow.sadd_keeps set key other keys };
    set = λ k v expiration. record { at = grow.set_keeps set key k v expiration };
    alert = λ alert w h. grow.alert_keeps set key alert w h;
  }

  set_submission-IsIn :
      (value : Text) (expiration : ℕ) (w : s.World)
      → IsIn s set key (set_submission s key value set expiration w).1
  unfolding set_submission after_add
  set_submission-IsIn value expiration w =
      (Keeps-after_add s (IsIn s set key) IsIn-kept base_fee key value expiration
          (s.redis_sadd set (key ∷ []) w).0).at
        (s.redis_sadd set (key ∷ []) w).1 (grow.sadd_adds set key w)

-- The transactions of an epoch, as EnsureBatchSubmissionSuccess reads them.
abbrev pub Recorded : (s : Services) → ℕ → Text → s.World → Type 0
Recorded s epoch_id = IsIn s (batch_submission_set_by_epoch (digits epoch_id))

abbrev pub key_of : BatchSubmission → ℕ → Text
key_of submission nonce = batch_submission_key (digits submission.batch.id) (digits nonce)

-- The keys of batches that are committed one after another from a nonce on.
abbrev pub keys_from : ℕ → List BatchSubmission → List Text
keys_from nonce [] = []
keys_from nonce (submission ∷ submissions) =
    key_of submission nonce ∷ keys_from (nonce + 1) submissions

module _ (s : Services) (grow : SetsGrow s) (base_fee : ℕ) where
  pub record_transaction-Recorded :
      (submission : BatchSubmission) (hash : Text) (auth : Auth) (w : s.World)
      → Recorded s submission.epoch_id
          (key_of submission auth.nonce)
          (record_transaction s base_fee submission hash auth w).1
  unfolding record_transaction
  record_transaction-Recorded submission hash auth w =
      let set = batch_submission_set_by_epoch (digits submission.epoch_id) in
      let key = key_of submission auth.nonce in
      let kept = IsIn-kept s grow base_fee set key in
      (Keeps-log_transaction s (IsIn s set key) kept base_fee submission hash auth).at _ (
        (Keeps-report s (IsIn s set key) kept base_fee (text "Redis error") high _).at _
          (set_submission-IsIn s grow base_fee set key _ 300 _))
