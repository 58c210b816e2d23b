-- ===== src/Prost/TxManager/Rewards.antt =====
-- BatchUpdateRewards, UpdateRewards and EnsureRewardUpdateSuccess of
-- pkgs/helpers/prost/txManager.go. Slots and counts are big integers.
pub mod Batches
pub mod Ledger
pub mod Sent
use submission_sequencer_bat.Prelude.{
  ℕ, List, [], ◌∷◌, ◌++◌, map, Option, none, some, length, ◌==◌, if◌then◌else◌,
}
use submission_sequencer_bat.Prelude.Text.{Text, text, split}
use submission_sequencer_bat.Prelude.Int.{ℤ, pos}
use submission_sequencer_bat.Prelude.Decimal.{digits, to_string, set_string}
use submission_sequencer_bat.Prelude.Effect.{Result, ok, err, Done, M, pure, ◌>>=◌, ◌>>◌, look}
use submission_sequencer_bat.Json.{
  Items, nil, cons, Log, empty, field, string, number, array, object, set_field,
}
use submission_sequencer_bat.Data.{Auth, Severity, medium, high}
use submission_sequencer_bat.Constants.{update_rewards_name}
use submission_sequencer_bat.Services.{Services}
use submission_sequencer_bat.Clients.Reporting.{send_failure_notification}
use submission_sequencer_bat.Redis.Keys.{
  reward_update_set_by_day, reward_tx_slots, reward_tx_submissions, slot_submission_set_by_day,
  triggered_process_log,
}
use submission_sequencer_bat.Redis.Client.{add_to_set, get_set_keys, get, set_process_log}
use submission_sequencer_bat.Merkle.Build.{report}
use submission_sequencer_bat.Prost.Account.{update_auth}
use submission_sequencer_bat.Prost.TxManager.Send.{Sending, send_transaction}

abbrev numbers : List ℤ → Items
numbers [] = nil
numbers (z ∷ zs) = cons (number z) (numbers zs)

-- parts[2], if there are three.
abbrev pub third_of_three : List Text → Option Text
third_of_three (a ∷ b ∷ c ∷ []) = some c
third_of_three _ = none

abbrev pub parse_number : Option Text → Option ℤ
parse_number none = none
parse_number (some t) = set_string t

-- A redis entry of the day: the slot of its key and the count of its value, or how grave it is that
-- there is none.
pub data Entry : Type 0 where
  slot_count : ℤ → ℤ → Entry
  bad : Severity → Entry

abbrev check_count : ℤ → Option ℤ → Entry
check_count slot none = bad high
check_count slot (some count) = slot_count slot count

abbrev check_slot : Option Text → Text → Entry
check_slot none val = bad medium
check_slot (some part) val = elim (set_string part) [
  | none ↦ bad high
  | some slot ↦ check_count slot (set_string val)
]

unfoldable pub read_entry : Text → Result Text → Entry
read_entry key (err e) = bad medium
read_entry key (ok []) = bad medium
read_entry key (ok (c ∷ val)) = check_slot (third_of_three (split b'.' key)) (c ∷ val)

module _ (s : Services) (base_fee : ℕ) where
  reward_log : List ℤ → List ℤ → Auth → ℕ → Log
  reward_log slot_ids submissions auth timestamp =
      field (text "slot_ids") (array (numbers slot_ids)) (
        field (text "submission_counts") (array (numbers submissions)) (
          field (text "signer") (string auth.from)
            (field (text "timestamp") (number (pos timestamp)) empty)))

  -- The entries logged for the day so far; what cannot be read counts as none.
  existing_entries : Result Text → M s.World Log
  unfolding send_failure_notification
  existing_entries (err e) = pure empty
  existing_entries (ok []) = pure empty
  existing_entries (ok (c ∷ t)) = elim (s.unmarshal_log (c ∷ t)) [
    | ok entries ↦ pure entries
    | err e ↦ do send_failure_notification s (text "UpdateRewardsProcessLog") high; pure empty
  ]

  -- The hash is to be confirmed, and the slots and the counts are kept under it, as sets.
  unfoldable pub keep_reward_tx : Text → ℕ → List Text → List Text → M s.World Done
  keep_reward_tx hash day slots counts = do
    _ ← add_to_set s (reward_update_set_by_day (digits day)) (hash ∷ [])
    _ ← add_to_set s (reward_tx_slots hash) slots
    _ ← add_to_set s (reward_tx_submissions hash) counts
    pure tt

  pub record_rewards : Text → ℕ → List ℤ → List ℤ → Auth → M s.World Done
  unfolding keep_reward_tx existing_entries reward_log report
  record_rewards hash day slot_ids submissions auth = do
    keep_reward_tx hash day (map to_string slot_ids) (map to_string submissions)
    timestamp ← look s.now
    existing ← look (get s (triggered_process_log update_rewards_name (digits day)))
    entries ← existing_entries existing
    stored ←
        set_process_log s (triggered_process_log update_rewards_name (digits day))
          (set_field hash (object (reward_log slot_ids submissions auth timestamp)) entries) 14400
    report s (text "UpdateRewards") high stored

  after_update : ℕ → List ℤ → List ℤ → Result Text × Sending s.World → Auth × s.World
  unfolding record_rewards send_failure_notification
  after_update day slot_ids submissions (ok hash, st) =
      (st.auth, (record_rewards hash day slot_ids submissions st.auth st.world).1)
  after_update day slot_ids submissions (err e, st) =
      (st.auth, (send_failure_notification s (text "UpdateRewards") high st.world).1)

  unfoldable pub update_rewards : List ℤ → List ℤ → ℕ → Auth → s.World → Auth × s.World
  unfolding after_update
  update_rewards slot_ids submissions day auth w =
      after_update day slot_ids submissions
        (send_transaction s base_fee 5 (λ a. s.submit_rewards a slot_ids submissions day) auth w)

  -- The variables of the loop of BatchUpdateRewards.
  pub record Pending : Type 0 where
    pub slot_ids : List ℤ
    pub submissions : List ℤ
    pub submitted_slots : List Text
    pub auth : Auth
    pub world : s.World

  -- The batch is sent, and the nonce moves on.
  unfoldable pub send_batch : ℕ → Pending → Pending
  send_batch day p =
      let (auth', w') = update_rewards p.slot_ids p.submissions day p.auth p.world in
      record p { slot_ids = []; submissions = []; auth = update_auth 1 auth'; world = w' }

  add_entry : ℕ → ℕ → Entry → Pending → Pending
  unfolding send_batch send_failure_notification
  add_entry batch_size day (bad severity) p = record p {
    world = (send_failure_notification s (text "BatchUpdateRewards") severity p.world).1;
  }
  add_entry batch_size day (slot_count slot count) p =
      let p' = record p {
        slot_ids = p.slot_ids ++ (slot ∷ []);
        submissions = p.submissions ++ (count ∷ []);
        submitted_slots = p.submitted_slots ++ (to_string slot ∷ []);
      } in
      if length p'.slot_ids == batch_size then send_batch day p' else p'

  unfoldable pub batch_loop : ℕ → ℕ → List Text → Pending → Pending
  unfolding add_entry
  batch_loop batch_size day [] p = p
  batch_loop batch_size day (key ∷ keys) p =
      batch_loop batch_size day keys
        (add_entry batch_size day (read_entry key (get s key p.world)) p)

  abbrev send_rest : ℕ → Pending → List ℤ → Pending
  send_rest day p [] = p
  send_rest day p (z ∷ zs) = send_batch day p

  -- The slots that were sent in, and the account's options.
  unfoldable pub batch_update_rewards : ℕ → ℕ → Auth → s.World → Pending
  batch_update_rewards batch_size day auth w =
      let p =
        batch_loop batch_size day (get_set_keys s (slot_submission_set_by_day (digits day)) w)
          (record {
            slot_ids = [];
            submissions = [];
            submitted_slots = [];
            auth = auth;
            world = w;
          }) in
      send_rest day p p.slot_ids
