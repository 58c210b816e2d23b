-- ===== src/Prost/TxManager/Ensure/Cleared.antt =====
-- What EnsureBatchSubmissionSuccess leaves of an epoch's transactions.
use submission_sequencer_bat.Prelude.{ℕ, zero, suc, ◌≡◌, List, [], ◌∷◌}
use submission_sequencer_bat.Prelude.Text.{Text}
use submission_sequencer_bat.Prelude.Effect.{Done}
use submission_sequencer_bat.Services.{Services}
use submission_sequencer_bat.Redis.Client.{get_set_keys}
use submission_sequencer_bat.Merkle.Tally.{Outcome, goes_on, stops, panics}
use submission_sequencer_bat.Prost.TxManager.Ensure.{
  Held, tx_set, then_run, ensure_keys, end_rounds, run_round, ensure_rounds,
  ensure_batch_submission_success,
}

module _ (s : Services)
    (deletes : (set : Text) (w : s.World) → get_set_keys s set (s.redis_del (set ∷ []) w).1 ≡ [])
    (base_fee epoch_id : ℕ) where
  -- No transaction of the epoch is left, unless a resubmission failed or a key has one part only.
  abbrev pub Cleared : Outcome Done × Held s base_fee epoch_id → Type 0
  Cleared (goes_on _, (auth, w)) = get_set_keys s (tx_set s base_fee epoch_id) w ≡ []
  Cleared (stops, held) = Unit {0}
  Cleared (panics, held) = Unit {0}

  then_run-Cleared :
      (r : Outcome Done × Held s base_fee epoch_id)
      (next : Held s base_fee epoch_id → Outcome Done × Held s base_fee epoch_id)
      → ((held : Held s base_fee epoch_id) → Cleared (next held))
      → Cleared (then_run s base_fee epoch_id r next)
  then_run-Cleared (goes_on _, held) next h = h held
  then_run-Cleared (stops, held) next h = tt
  then_run-Cleared (panics, held) next h = tt

  end_rounds-Cleared :
      (keys : List Text) (held : Held s base_fee epoch_id)
      → Cleared (end_rounds s base_fee epoch_id keys held)
  unfolding end_rounds
  end_rounds-Cleared [] (auth, w) = deletes (tx_set s base_fee epoch_id) w
  end_rounds-Cleared (key ∷ keys) (auth, w) = deletes (tx_set s base_fee epoch_id) _

  run_round-Cleared :
      (keys : List Text) (held : Held s base_fee epoch_id)
      (next : Held s base_fee epoch_id → Outcome Done × Held s base_fee epoch_id)
      → ((later : Held s base_fee epoch_id) → Cleared (next later))
      → Cleared (run_round s base_fee epoch_id keys held next)
  unfolding run_round
  run_round-Cleared [] (auth, w) next h = deletes (tx_set s base_fee epoch_id) w
  run_round-Cleared (key ∷ keys) held next h =
      then_run-Cleared (ensure_keys s base_fee epoch_id (key ∷ keys) held) next h

  ensure_rounds-Cleared :
      (rounds : ℕ) (held : Held s base_fee epoch_id)
      → Cleared (ensure_rounds s base_fee epoch_id rounds held)
  unfolding ensure_rounds
  ensure_rounds-Cleared zero (auth, w) =
      end_rounds-Cleared (get_set_keys s (tx_set s base_fee epoch_id) w) (auth, w)
  ensure_rounds-Cleared (suc rounds) (auth, w) =
      run_round-Cleared (get_set_keys s (tx_set s base_fee epoch_id) w) (auth, w)
        (ensure_rounds s base_fee epoch_id rounds) (ensure_rounds-Cleared rounds)

  -- Where deleting a set empties it, the epoch's set of transactions is empty after the rounds, which
  -- always end, unless a resubmission or its record failed, or a key had one part only.
  pub ensure_batch-Cleared :
      (held : Held s base_fee epoch_id)
      → Cleared (ensure_batch_submission_success s base_fee epoch_id held)
  unfolding ensure_batch_submission_success
  ensure_batch-Cleared held = ensure_rounds-Cleared 3 held
