-- ===== src/Prost/TxManager/Rewards/Ledger.antt =====
-- What UpdateRewards of pkgs/helpers/prost/txManager.go does to the rewards that a contract has been
-- sent, and what it leaves alone.
use submission_sequencer_bat.Prelude.{
  ℕ, ◌≡◌, refl, ap, ◌∙◌, inl, inr, List, [], ◌∷◌, ◌++◌, map, length, arith, false,
}
use submission_sequencer_bat.Prelude.Text.{Text, text, text_eq}
use submission_sequencer_bat.Prelude.Int.{ℤ}
use submission_sequencer_bat.Prelude.Decimal.{digits, to_string}
use submission_sequencer_bat.Prelude.Keeps.{Keeps, Keeps-pure}
use submission_sequencer_bat.Prelude.Effect.{Result, ok, err, Done, Result-cases}
use submission_sequencer_bat.Json.{Log}
use submission_sequencer_bat.Data.{Auth, SequencerAlert, Severity, high}
use submission_sequencer_bat.Constants.{update_rewards_name}
use submission_sequencer_bat.Services.{Services}
use submission_sequencer_bat.Clients.Reporting.{send_failure_notification}
use submission_sequencer_bat.Redis.Keys.{triggered_process_log}
use submission_sequencer_bat.Redis.Client.{add_to_set, get, set_process_log}
use submission_sequencer_bat.Merkle.Build.{report}
use submission_sequencer_bat.Prost.TxManager.Rewards.{
  Entry, slot_count, bad, read_entry, keep_reward_tx, existing_entries, record_rewards,
}

-- Slots with their counts.
abbrev pub zip : List ℤ → List ℤ → List (ℤ × ℤ)
zip [] ys = []
zip (x ∷ xs) [] = []
zip (x ∷ xs) (y ∷ ys) = (x, y) ∷ zip xs ys

pub zip_last :
    (xs ys : List ℤ) (x y : ℤ)
    → length xs ≡ length ys
    → zip (xs ++ (x ∷ [])) (ys ++ (y ∷ [])) ≡ zip xs ys ++ ((x, y) ∷ [])
zip_last [] [] x y e = refl
zip_last [] (b ∷ ys) x y e = absurd (omega arith)
zip_last (a ∷ xs) [] x y e = absurd (omega arith)
zip_last (a ∷ xs) (b ∷ ys) x y e = ap (λ t. (a, b) ∷ t) (zip_last xs ys x y (omega arith))

-- The counts that are read, in the order of their keys.
abbrev pub counted : Entry → List (ℤ × ℤ)
counted (slot_count slot count) = (slot, count) ∷ []
counted (bad severity) = []

unfoldable pub counts_of : (Text → Result Text) → List Text → List (ℤ × ℤ)
counts_of reads [] = []
counts_of reads (key ∷ keys) = counted (read_entry key (reads key)) ++ counts_of reads keys

abbrev pub slot_texts : List (ℤ × ℤ) → List Text
slot_texts = map (λ (c : ℤ × ℤ). to_string c.0)

-- What the contract has been sent, while nothing changes what `reads` says of the keys
-- but the one that UpdateRewards logs under.
pub record Observed (s : Services) (day : ℕ) : Type 1 where
  pub reads : Text → Result Text
  pub Quiet : s.World → Type 0
  pub sent : s.World → List (ℤ × ℤ)
  pub reading :
      (key : Text) (w : s.World)
      → text_eq (triggered_process_log update_rewards_name (digits day)) key ≡ false
      → Quiet w
      → get s key w ≡ reads key
  pub accepts :
      (auth : Auth) (slots counts : List ℤ) (w : s.World)
      → Quiet w
      → (hash : Text) × ((s.submit_rewards auth slots counts day w).0 ≡ ok hash)
  pub submit_sends :
      (auth : Auth) (slots counts : List ℤ) (w : s.World)
      → Quiet w
      → Quiet (s.submit_rewards auth slots counts day w).1
        × (sent (s.submit_rewards auth slots counts day w).1 ≡ sent w ++ zip slots counts)
  pub sadd_keeps :
      (set : Text) (keys : List Text) (w : s.World)
      → Quiet w
      → Quiet (s.redis_sadd set keys w).1 × (sent (s.redis_sadd set keys w).1 ≡ sent w)
  pub log_keeps :
      (v : Text) (expiration : ℕ) (w : s.World)
      → let key = triggered_process_log update_rewards_name (digits day) in
        Quiet w
        → Quiet (s.redis_set key v expiration w).1
          × (sent (s.redis_set key v expiration w).1 ≡ sent w)
  pub alert_keeps :
      (alert : SequencerAlert) (w : s.World)
      → Quiet w
      → Quiet (s.post_alert alert w) × (sent (s.post_alert alert w) ≡ sent w)

module _ (s : Services) (base_fee day : ℕ) (o : Observed s day) where
  -- The contract has been sent `xs`.
  abbrev pub Ledger : List (ℤ × ℤ) → s.World → Type 0
  Ledger xs w = o.Quiet w × (o.sent w ≡ xs)

  module _ (xs : List (ℤ × ℤ)) where
    pub Keeps-alert :
        (process : Text) (severity : Severity)
        → Keeps (Ledger xs) (send_failure_notification s process severity)
    unfolding send_failure_notification
    Keeps-alert process severity = record {
      at = λ w h. let (quiet, same) = o.alert_keeps _ w h.0 in (quiet, same ∙ h.1);
    }

    Keeps-report :
        (process : Text) (severity : Severity) (r : Result Done)
        → Keeps (Ledger xs) (report s process severity r)
    unfolding report
    Keeps-report process severity (ok d) = Keeps-pure tt
    Keeps-report process severity (err e) = Keeps-alert process severity

    Keeps-add : (set : Text) (keys : List Text) → Keeps (Ledger xs) (add_to_set s set keys)
    unfolding add_to_set
    Keeps-add set keys = record {
      at = λ w h. let (quiet, same) = o.sadd_keeps set keys w h.0 in (quiet, same ∙ h.1);
    }

    Keeps-log :
        (entry : Log) (expiration : ℕ)
        → Keeps (Ledger xs) (
            set_process_log s
              (triggered_process_log update_rewards_name (digits day))
              entry
              expiration)
    unfolding set_process_log
    Keeps-log entry expiration = elim (Result-cases (s.marshal_log entry)) [
      | inl (bytes, e) ↦
          rw (e, set_process_log)
            record {
              at = λ w h.
                  let (quiet, same) = o.log_keeps bytes expiration w h.0 in (quiet, same ∙ h.1);
            }
      | inr (message, e) ↦ rw (e, set_process_log) record { at = λ w h. h }
    ]

    Keeps-existing : (r : Result Text) → Keeps (Ledger xs) (existing_entries s base_fee r)
    unfolding existing_entries
    Keeps-existing (err e) = record { at = λ w h. h }
    Keeps-existing (ok []) = record { at = λ w h. h }
    Keeps-existing (ok (c ∷ t)) = elim (Result-cases (s.unmarshal_log (c ∷ t))) [
      | inl (entries, e) ↦ rw (e, existing_entries) record { at = λ w h. h }
      | inr (message, e) ↦
          rw (e, existing_entries)
            record { at = (Keeps-alert (text "UpdateRewardsProcessLog") high).at }
    ]

    Keeps-keep_reward_tx :
        (hash : Text) (slots counts : List Text)
        → Keeps (Ledger xs) (keep_reward_tx s base_fee hash day slots counts)
    unfolding keep_reward_tx
    Keeps-keep_reward_tx hash slots counts = record {
      at = λ w h. (Keeps-add _ counts).at _ ((Keeps-add _ slots).at _ ((Keeps-add _ _).at w h));
    }

    pub Keeps-record_rewards :
        (hash : Text) (slot_ids submissions : List ℤ) (auth : Auth)
        → Keeps (Ledger xs) (record_rewards s base_fee hash day slot_ids submissions auth)
    unfolding record_rewards
    Keeps-record_rewards hash slot_ids submissions auth = record {
      at = λ w h.
          let kept =
            (Keeps-keep_reward_tx hash (map to_string slot_ids) (map to_string submissions)).at w
              h in
          let read = (Keeps-existing _).at _ kept in
          (Keeps-report (text "UpdateRewards") high _).at _ ((Keeps-log _ 14400).at _ read);
    }
