-- ===== src/Prost/TxManager/RewardEnsure.antt =====
-- EnsureRewardUpdateSuccess of pkgs/helpers/prost/txManager.go. `stops` is the return after a failed
-- resubmission. Slots and counts that are kept and are no numbers become nil, with which the call
-- of the contract is taken to panic.
pub mod Forgotten
use submission_sequencer_bat.Prelude.{
  ℕ, zero, suc, List, [], ◌∷◌, Option, none, some, Bool, true, false,
}
use submission_sequencer_bat.Prelude.Text.{Text, text}
use submission_sequencer_bat.Prelude.Int.{ℤ}
use submission_sequencer_bat.Prelude.Decimal.{digits, set_string}
use submission_sequencer_bat.Prelude.Effect.{Result, ok, err, Done}
use submission_sequencer_bat.Data.{Auth, Receipt, Severity, low, high}
use submission_sequencer_bat.Constants.{max_reward_update_retries}
use submission_sequencer_bat.Services.{Services}
use submission_sequencer_bat.Clients.Reporting.{send_failure_notification}
use submission_sequencer_bat.Redis.Keys.{
  reward_update_set_by_day, reward_tx_slots, reward_tx_submissions,
}
use submission_sequencer_bat.Redis.Client.{add_to_set, get_set_keys, remove_from_set, delete}
use submission_sequencer_bat.Merkle.Tally.{Outcome, goes_on, stops, panics}
use submission_sequencer_bat.Prost.TxManager.Send.{Sending, send_transaction, get_tx_receipt}
use submission_sequencer_bat.Prost.TxManager.Rewards.{keep_reward_tx}

abbrev and_number : Option ℤ → Option (List ℤ) → Option (List ℤ)
and_number none zs = none
and_number (some z) none = none
and_number (some z) (some zs) = some (z ∷ zs)

-- The numbers of a set's members, if all are numbers.
unfoldable pub numbers_of : List Text → Option (List ℤ)
numbers_of [] = some []
numbers_of (t ∷ ts) = and_number (set_string t) (numbers_of ts)

module _ (s : Services) (base_fee day : ℕ) where
  abbrev pub Held : Type 0
  Held = Auth × s.World

  abbrev notify : Severity → s.World → s.World
  notify severity w = (send_failure_notification s (text "EnsureRewardUpdateSuccess") severity w).1

  abbrev pub update_set : Text
  update_set = reward_update_set_by_day (digits day)

  abbrev if_failed : Option Receipt → s.World → s.World
  if_failed none w = w
  if_failed (some r) w = elim r.failed [ true ↦ notify low w | false ↦ w ]

  -- The transaction leaves the day's set, with its slots and its counts.
  unfoldable pub forget_tx : Text → s.World → s.World
  unfolding remove_from_set delete
  forget_tx hash w =
      let (_, w₁) = remove_from_set s update_set hash w in
      let (_, w₂) = delete s (reward_tx_slots hash) w₁ in
      (delete s (reward_tx_submissions hash) w₂).1

  after_resubmit :
      Text → List Text → List Text → Result Text × Sending s.World → Outcome Done × Held
  unfolding keep_reward_tx forget_tx
  after_resubmit hash slots counts (err e, st) = (stops, (st.auth, notify high st.world))
  after_resubmit hash slots counts (ok new_hash, st) = (
    goes_on tt,
    (st.auth, forget_tx hash (keep_reward_tx s base_fee new_hash day slots counts st.world).1),
  )

  resubmit_numbers :
      Text → List Text → List Text → Option (List ℤ) → Option (List ℤ) → Held → Outcome Done × Held
  unfolding after_resubmit
  resubmit_numbers hash slots counts none submissions held = (panics, held)
  resubmit_numbers hash slots counts (some slot_ids) none held = (panics, held)
  resubmit_numbers hash slots counts (some slot_ids) (some submissions) (auth, w) =
      after_resubmit hash slots counts
        (send_transaction s base_fee 5 (λ a. s.submit_rewards a slot_ids submissions day) auth w)

  -- The slots and the counts come in the order in which their sets are listed.
  unfoldable pub resubmit_rewards : Text → Held → Outcome Done × Held
  unfolding resubmit_numbers
  resubmit_rewards hash (auth, w) =
      let slots = get_set_keys s (reward_tx_slots hash) w in
      let counts = get_set_keys s (reward_tx_submissions hash) w in
      resubmit_numbers hash slots counts (numbers_of slots) (numbers_of counts) (auth, w)

  after_receipt : Text → Auth → Result Done × (Option Receipt × s.World) → Outcome Done × Held
  unfolding resubmit_rewards
  after_receipt hash auth (ok d, (receipt, w)) =
      (goes_on tt, (auth, forget_tx hash (if_failed receipt w)))
  after_receipt hash auth (err e, (receipt, w)) = resubmit_rewards hash (auth, if_failed receipt w)

  unfoldable pub ensure_hash : Text → Held → Outcome Done × Held
  unfolding after_receipt
  ensure_hash hash (auth, w) = after_receipt hash auth (get_tx_receipt s hash (digits day) w)

  abbrev pub then_run : Outcome Done × Held → (Held → Outcome Done × Held) → Outcome Done × Held
  then_run (goes_on _, held) next = next held
  then_run (stops, held) next = (stops, held)
  then_run (panics, held) next = (panics, held)

  unfoldable pub ensure_hashes : List Text → Held → Outcome Done × Held
  ensure_hashes [] held = (goes_on tt, held)
  ensure_hashes (hash ∷ hashes) held = then_run (ensure_hash hash held) (ensure_hashes hashes)

  -- The last look at the set: what is left stays there.
  abbrev pub end_rounds : List Text → Held → Outcome Done × Held
  end_rounds [] held = (goes_on tt, held)
  end_rounds (hash ∷ hashes) (auth, w) = (stops, (auth, notify high w))

  abbrev pub run_round : List Text → Held → (Held → Outcome Done × Held) → Outcome Done × Held
  run_round [] held next = (goes_on tt, held)
  run_round (hash ∷ hashes) held next = then_run (ensure_hashes (hash ∷ hashes) held) next

  unfoldable pub ensure_rounds : ℕ → Held → Outcome Done × Held
  ensure_rounds zero (auth, w) = end_rounds (get_set_keys s update_set w) (auth, w)
  ensure_rounds (suc rounds) (auth, w) =
      run_round (get_set_keys s update_set w) (auth, w) (ensure_rounds rounds)

  unfoldable pub ensure_reward_update_success : Held → Outcome Done × Held
  ensure_reward_update_success held = ensure_rounds max_reward_update_retries held
