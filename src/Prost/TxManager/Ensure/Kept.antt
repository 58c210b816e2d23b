-- ===== src/Prost/TxManager/Ensure/Kept.antt =====
-- What the calls of EnsureBatchSubmissionSuccess beside the resubmission leave alone: what the
-- contract has been sent.
use submission_sequencer_bat.Prelude.{
  ℕ, ◌∙◌, List, [], ◌∷◌, Option, none, some, inl, inr, Bool-cases,
}
use submission_sequencer_bat.Prelude.Text.{Text}
use submission_sequencer_bat.Prelude.Effect.{Result, ok, err, Result-cases}
use submission_sequencer_bat.Data.{Auth, BatchSubmission, Receipt, Severity}
use submission_sequencer_bat.Services.{Services}
use submission_sequencer_bat.Clients.Reporting.{send_failure_notification}
use submission_sequencer_bat.Redis.Client.{remove_from_set}
use submission_sequencer_bat.Prost.TxManager.Commit.Keeps.{Keeps-set_process_log}
use submission_sequencer_bat.Prost.TxManager.Commit.Sends.{Sends, Sent, Sent-kept}
use submission_sequencer_bat.Prost.TxManager.Ensure.{
  drop_key, if_there, if_failed, marshalled, merged_log, log_resubmission,
}

module _ (s : Services) (sends : Sends s) (base_fee epoch_id : ℕ)
    (xs : List (ℕ × BatchSubmission)) where
  pub drop_key-Sent :
      (key : Text) (w : s.World)
      → Sent s sends xs w
      → Sent s sends xs (drop_key s base_fee epoch_id key w)
  unfolding drop_key remove_from_set
  drop_key-Sent key w h = sends.srem_keeps _ key _ ∙ sends.del_keeps (key ∷ []) w ∙ h

  alert-Sent :
      (process : Text) (severity : Severity) (w : s.World)
      → Sent s sends xs w
      → Sent s sends xs (send_failure_notification s process severity w).1
  unfolding send_failure_notification
  alert-Sent process severity w h = sends.alert_keeps _ w ∙ h

  pub if_there-Sent :
      (receipt : Option Receipt) (w : s.World)
      → Sent s sends xs w
      → Sent s sends xs (if_there s base_fee epoch_id receipt w)
  if_there-Sent none w h = h
  if_there-Sent (some r) w h = alert-Sent _ _ w h

  pub if_failed-Sent :
      (receipt : Option Receipt) (w : s.World)
      → Sent s sends xs w
      → Sent s sends xs (if_failed s base_fee epoch_id receipt w)
  if_failed-Sent none w h = h
  if_failed-Sent (some r) w h = elim (Bool-cases r.failed) [
    | inl e ↦ rw e (alert-Sent _ _ w h)
    | inr e ↦ rw e h
  ]

  pub marshalled-Sent :
      (r : Result Text) (w : s.World)
      → Sent s sends xs w
      → Sent s sends xs (marshalled s base_fee epoch_id r w)
  marshalled-Sent (ok bytes) w h = h
  marshalled-Sent (err e) w h = alert-Sent _ _ w h

  merged_log-Sent :
      (submission : BatchSubmission) (hash : Text) (auth : Auth) (timestamp : ℕ) (old : Text)
      (w : s.World)
      → Sent s sends xs w
      → Sent s sends xs (merged_log s base_fee epoch_id submission hash auth timestamp old w).1
  unfolding merged_log send_failure_notification
  merged_log-Sent submission hash auth timestamp [] w h = h
  merged_log-Sent submission hash auth timestamp (c ∷ t) w h =
      elim (Result-cases (s.unmarshal_log (c ∷ t))) [
        | inl (entries, e) ↦ rw (e, merged_log) h
        | inr (message, e) ↦ rw (e, merged_log) (sends.alert_keeps _ w ∙ h)
      ]

  pub log_resubmission-Sent :
      (submission : BatchSubmission) (hash : Text) (auth : Auth) (w : s.World)
      → Sent s sends xs w
      → Sent s sends xs (log_resubmission s base_fee epoch_id submission hash auth w)
  unfolding log_resubmission
  log_resubmission-Sent submission hash auth w h =
      (Keeps-set_process_log s (Sent s sends xs) (Sent-kept s sends xs) base_fee _ _ 14400).at _
        (merged_log-Sent submission hash auth _ _ w h)
