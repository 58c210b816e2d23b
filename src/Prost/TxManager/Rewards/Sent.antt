-- ===== src/Prost/TxManager/Rewards/Sent.antt =====
-- BatchUpdateRewards of pkgs/helpers/prost/txManager.go sends every count that it can read, once.
use mathlib.Core.List.{append_assoc, append-nil, map-append}
use submission_sequencer_bat.Prelude.{
  ℕ, ◌≡◌, refl, sym, ap, subst, ◌∙◌, inl, inr, List, [], ◌∷◌, ◌++◌, length, length-append, arith,
  All, false, ◌==◌, Bool-cases,
}
use submission_sequencer_bat.Prelude.Text.{Text, text, text_eq}
use submission_sequencer_bat.Prelude.Int.{ℤ}
use submission_sequencer_bat.Prelude.Decimal.{digits, to_string}
use submission_sequencer_bat.Prost.TxManager.Rewards.Ledger.{
  zip, zip_last, counted, counts_of, slot_texts, Observed, Ledger, Keeps-alert,
  Keeps-record_rewards,
}
use submission_sequencer_bat.Data.{Auth}
use submission_sequencer_bat.Constants.{update_rewards_name}
use submission_sequencer_bat.Services.{Services}
use submission_sequencer_bat.Redis.Keys.{slot_submission_set_by_day, triggered_process_log}
use submission_sequencer_bat.Redis.Client.{get_set_keys}
use submission_sequencer_bat.Prost.TxManager.Send.{send_transaction-accepted, RetryStops}
use submission_sequencer_bat.Prost.TxManager.Rewards.{
  Entry, slot_count, bad, read_entry, record_rewards, after_update, update_rewards, Pending,
  send_batch, add_entry, batch_loop, send_rest, batch_update_rewards,
}

module _ (s : Services) (base_fee day : ℕ) (o : Observed s day) (retry_stops : RetryStops s) where
  -- Not the key of the log of the day's updates.
  abbrev pub Other : Text → Type 0
  Other key = text_eq (triggered_process_log update_rewards_name (digits day)) key ≡ false

  update_accepted :
      (slot_ids submissions : List ℤ) (auth : Auth) (w : s.World)
      → (quiet : o.Quiet w)
      → update_rewards s base_fee slot_ids submissions day auth w ≡ (
        auth,
        (record_rewards s base_fee
            (o.accepts auth slot_ids submissions w quiet).0
            day
            slot_ids
            submissions
            auth
            (s.submit_rewards auth slot_ids submissions day w).1).1,
      )
  unfolding update_rewards after_update
  update_accepted slot_ids submissions auth w quiet =
      ap (after_update s base_fee day slot_ids submissions) (
        send_transaction-accepted s base_fee retry_stops 5
          (λ a. s.submit_rewards a slot_ids submissions day) auth w
          (s.submit_rewards auth slot_ids submissions day w).1
          (o.accepts auth slot_ids submissions w quiet).0
          (λ i. (
            (o.accepts auth slot_ids submissions w quiet).1 i,
            (s.submit_rewards auth slot_ids submissions day w).1,
          )))

  update-Ledger :
      (xs : List (ℤ × ℤ)) (slot_ids submissions : List ℤ) (auth : Auth) (w : s.World)
      → Ledger s base_fee day o xs w
      → Ledger s base_fee day o
          (xs ++ zip slot_ids submissions)
          (update_rewards s base_fee slot_ids submissions day auth w).1
  update-Ledger xs slot_ids submissions auth w (quiet, same) =
      let (quiet', grown) = o.submit_sends auth slot_ids submissions w quiet in
      rw (update_accepted slot_ids submissions auth w quiet) (
        (Keeps-record_rewards s base_fee day o (xs ++ zip slot_ids submissions) _ slot_ids
            submissions auth).at
          _ (quiet', grown ∙ ap (λ t. t ++ zip slot_ids submissions) same))

  -- After the counts `before`, the counts `ys` are sent or pending, and their slots are listed.
  record Accounts (before ys : List (ℤ × ℤ)) (p : Pending s base_fee) : Type 0 where
    done : List (ℤ × ℤ)
    ledger : Ledger s base_fee day o done p.world
    paired : length p.slot_ids ≡ length p.submissions
    total : done ++ zip p.slot_ids p.submissions ≡ before ++ ys
    listed : p.submitted_slots ≡ slot_texts ys

  sent-Accounts :
      (before ys : List (ℤ × ℤ)) (p : Pending s base_fee)
      → Accounts before ys p
      → Accounts before ys (send_batch s base_fee day p)
  unfolding send_batch
  sent-Accounts before ys p h = record {
    done = h.done ++ zip p.slot_ids p.submissions;
    ledger = update-Ledger h.done p.slot_ids p.submissions p.auth p.world h.ledger;
    paired = refl;
    total = append-nil _ ∙ h.total;
    listed = h.listed;
  }

  add-Accounts :
      (size : ℕ) (entry : Entry) (before ys : List (ℤ × ℤ)) (p : Pending s base_fee)
      → Accounts before ys p
      → Accounts before (ys ++ counted entry) (add_entry s base_fee size day entry p)
  unfolding add_entry
  add-Accounts size (bad severity) before ys p h = record {
    done = h.done;
    ledger =
        (Keeps-alert s base_fee day o h.done (text "BatchUpdateRewards") severity).at p.world
          h.ledger;
    paired = h.paired;
    total = h.total ∙ ap (λ t. before ++ t) (sym (append-nil ys));
    listed = h.listed ∙ ap slot_texts (sym (append-nil ys));
  }
  add-Accounts size (slot_count slot count) before ys p h =
      elim (Bool-cases (length (p.slot_ids ++ (slot ∷ [])) == size)) [
        | inl full ↦ rw full (sent-Accounts before (ys ++ ((slot, count) ∷ [])) _ added)
        | inr more ↦ rw more added
      ]
    where
      added : Accounts before (ys ++ ((slot, count) ∷ [])) (record p {
        slot_ids = p.slot_ids ++ (slot ∷ []);
        submissions = p.submissions ++ (count ∷ []);
        submitted_slots = p.submitted_slots ++ (to_string slot ∷ []);
      })
      added = record {
        done = h.done;
        ledger = h.ledger;
        paired = omega (
          arith,
          h.paired,
          length-append p.slot_ids (slot ∷ []),
          length-append p.submissions (count ∷ []),
        );
        total =
            ap (λ t. h.done ++ t) (zip_last p.slot_ids p.submissions slot count h.paired)
            ∙ sym (append_assoc h.done (zip p.slot_ids p.submissions) ((slot, count) ∷ []))
            ∙ ap (λ t. t ++ ((slot, count) ∷ [])) h.total
            ∙ append_assoc before ys ((slot, count) ∷ []);
        listed =
            ap (λ t. t ++ (to_string slot ∷ [])) h.listed
            ∙ sym (map-append (λ (c : ℤ × ℤ). to_string c.0) ys ((slot, count) ∷ []));
      }

  loop-Accounts :
      (size : ℕ) (keys : List Text) (before ys : List (ℤ × ℤ)) (p : Pending s base_fee)
      → All Other keys
      → Accounts before ys p
      → Accounts before (ys ++ counts_of o.reads keys) (batch_loop s base_fee size day keys p)
  unfolding batch_loop counts_of
  loop-Accounts size [] before ys p others h =
      subst (λ t. Accounts before t p) (sym (append-nil ys)) h
  loop-Accounts size (key ∷ keys) before ys p (other, others) h =
      let entry = read_entry key (o.reads key) in
      rw (o.reading key p.world other h.ledger.0) (
        subst
          (λ t.
            Accounts before t
              (batch_loop s base_fee size day keys (add_entry s base_fee size day entry p)))
          (append_assoc ys (counted entry) (counts_of o.reads keys))
          (loop-Accounts size keys before (ys ++ counted entry)
            (add_entry s base_fee size day entry p) others (add-Accounts size entry before ys p h)))

  -- What is left at the end is sent.
  Accounted : List (ℤ × ℤ) → List (ℤ × ℤ) → Pending s base_fee → Type 0
  Accounted before ys p =
      Ledger s base_fee day o (before ++ ys) p.world × (p.submitted_slots ≡ slot_texts ys)

  none_pending :
      (before ys : List (ℤ × ℤ)) (p : Pending s base_fee)
      → p.slot_ids ≡ []
      → Accounts before ys p
      → Accounted before ys p
  unfolding Accounted
  none_pending before ys p e h =
      let nothing_left : h.done ≡ before ++ ys =
        sym (append-nil h.done) ∙ ap (λ t. h.done ++ zip t p.submissions) (sym e) ∙ h.total in
      ((h.ledger.0, h.ledger.1 ∙ nothing_left), h.listed)

  rest-Accounted :
      (before ys : List (ℤ × ℤ)) (p : Pending s base_fee) (slots : List ℤ)
      → p.slot_ids ≡ slots
      → Accounts before ys p
      → Accounted before ys (send_rest s base_fee day p slots)
  rest-Accounted before ys p [] e h = none_pending before ys p e h
  rest-Accounted before ys p (z ∷ zs) e h =
      none_pending before ys (send_batch s base_fee day p) (unfold send_batch in refl)
        (sent-Accounts before ys p h)

  -- Where the contract accepts what it is sent and nothing else changes the counts meanwhile,
  -- BatchUpdateRewards, whatever the batch size, sends the contract every count of the day that
  -- can be read with the slot of its key, once and in order, and nothing else; and it returns the
  -- slots of those.
  pub batch_update-sends :
      (size : ℕ) (before : List (ℤ × ℤ)) (auth : Auth) (w : s.World)
      → All Other (get_set_keys s (slot_submission_set_by_day (digits day)) w)
      → Ledger s base_fee day o before w
      → let keys = get_set_keys s (slot_submission_set_by_day (digits day)) w in
        let p = batch_update_rewards s base_fee size day auth w in
        Ledger s base_fee day o (before ++ counts_of o.reads keys) p.world
        × (p.submitted_slots ≡ slot_texts (counts_of o.reads keys))
  unfolding batch_update_rewards Accounted
  batch_update-sends size before auth w others h = rest-Accounted before _ _ _ refl (
      loop-Accounts size (get_set_keys s (slot_submission_set_by_day (digits day)) w) before [] _
        others (record { done = before; ledger = h; paired = refl; total = refl; listed = refl }))
