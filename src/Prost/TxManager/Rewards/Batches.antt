-- ===== src/Prost/TxManager/Rewards/Batches.antt =====
-- The batches of BatchUpdateRewards.
use submission_sequencer_bat.Prelude.{
  ℕ, ◌<◌, ◌≡◌, refl, sym, ap, ◌∙◌, inl, inr, List, [], ◌∷◌, ◌++◌, map, length, length-append, arith,
  ◌==◌, ==_iff, Bool-cases,
}
use submission_sequencer_bat.Prelude.Text.{Text}
use submission_sequencer_bat.Prelude.Int.{ℤ}
use submission_sequencer_bat.Prelude.Decimal.{digits, to_string}
use submission_sequencer_bat.Data.{Auth}
use submission_sequencer_bat.Services.{Services}
use submission_sequencer_bat.Redis.Keys.{slot_submission_set_by_day}
use submission_sequencer_bat.Redis.Client.{get, get_set_keys}
use submission_sequencer_bat.Prost.TxManager.Rewards.{
  Entry, slot_count, bad, read_entry, Pending, send_batch, add_entry, batch_loop, send_rest,
  batch_update_rewards,
}

append_assoc : {A : Type 0} (xs ys zs : List A) → xs ++ ys ++ zs ≡ xs ++ (ys ++ zs)
append_assoc [] ys zs = refl
append_assoc (x ∷ xs) ys zs = ap (λ t. x ∷ t) (append_assoc xs ys zs)

append_nil : {A : Type 0} (xs : List A) → xs ++ [] ≡ xs
append_nil [] = refl
append_nil (x ∷ xs) = ap (λ t. x ∷ t) (append_nil xs)

map-append : (f : ℤ → Text) (xs ys : List ℤ) → map f (xs ++ ys) ≡ map f xs ++ map f ys
map-append f [] ys = refl
map-append f (x ∷ xs) ys = ap (λ t. f x ∷ t) (map-append f xs ys)

module _ (s : Services) (base_fee size day : ℕ) (positive : 0 < size) where
  -- As many counts as slots are pending, fewer than a batch, and the pending slots are the last of
  -- those that were taken in.
  pub record IsPending (p : Pending s base_fee) : Type 0 where
    pub paired : length p.slot_ids ≡ length p.submissions
    pub small : length p.slot_ids < size
    pub before : List Text
    pub is_end : before ++ map to_string p.slot_ids ≡ p.submitted_slots

  sent-IsPending : (p : Pending s base_fee) → IsPending (send_batch s base_fee day p)
  unfolding send_batch
  sent-IsPending p = record {
    paired = refl;
    small = positive;
    before = p.submitted_slots;
    is_end = append_nil p.submitted_slots;
  }

  -- The entry was added, and the batch is not full.
  added_end :
      (before : List Text) (slots : List ℤ) (slot : ℤ) (submitted : List Text)
      → before ++ map to_string slots ≡ submitted
      → before ++ map to_string (slots ++ (slot ∷ [])) ≡ submitted ++ (to_string slot ∷ [])
  added_end before slots slot submitted e =
      ap (λ t. before ++ t) (map-append to_string slots (slot ∷ []))
      ∙ sym (append_assoc before (map to_string slots) (to_string slot ∷ []))
      ∙ ap (λ t. t ++ (to_string slot ∷ [])) e

  add_entry-IsPending :
      (entry : Entry) (p : Pending s base_fee)
      → IsPending p
      → IsPending (add_entry s base_fee size day entry p)
  unfolding add_entry
  add_entry-IsPending (bad severity) p h = record {
    paired = h.paired;
    small = h.small;
    before = h.before;
    is_end = h.is_end;
  }
  add_entry-IsPending (slot_count slot count) p h =
      elim (Bool-cases (length (p.slot_ids ++ (slot ∷ [])) == size)) [
        | inl full ↦ rw full (sent-IsPending _)
        | inr more ↦ rw more (record {
          paired = omega (
            arith,
            h.paired,
            length-append p.slot_ids (slot ∷ []),
            length-append p.submissions (count ∷ []),
          );
          small = ground (
            arith,
            length-append p.slot_ids (slot ∷ []),
            h.small,
            ==_iff (length (p.slot_ids ++ (slot ∷ []))) size,
          );
          before = h.before;
          is_end = added_end h.before p.slot_ids slot p.submitted_slots h.is_end;
        })
      ]

  -- With a positive batch size, whatever entries the loop of BatchUpdateRewards meets, as many counts
  -- as slots are pending after it, fewer than a batch, and these slots are the last of those that it
  -- took in, if that held before.
  pub batch_loop-IsPending :
      (keys : List Text) (p : Pending s base_fee)
      → IsPending p
      → IsPending (batch_loop s base_fee size day keys p)
  unfolding batch_loop
  batch_loop-IsPending [] p h = h
  batch_loop-IsPending (key ∷ keys) p h =
      batch_loop-IsPending keys _ (add_entry-IsPending (read_entry key (get s key p.world)) p h)

  send_rest-IsSent :
      (p : Pending s base_fee) (slots : List ℤ)
      → p.slot_ids ≡ slots
      → IsPending p
      → IsPending (send_rest s base_fee day p slots)
        × ((send_rest s base_fee day p slots).slot_ids ≡ [])
  unfolding send_batch
  send_rest-IsSent p [] e h = (h, e)
  send_rest-IsSent p (z ∷ zs) e h = (unfold send_batch in sent-IsPending p, refl)

  -- Nothing is pending at the end: all slots that are returned have been sent.
  pub batch_update-IsPending :
      (auth : Auth) (w : s.World)
      → let p = batch_update_rewards s base_fee size day auth w in IsPending p × (p.slot_ids ≡ [])
  unfolding batch_update_rewards
  batch_update-IsPending auth w = send_rest-IsSent _ _ refl (
      batch_loop-IsPending (get_set_keys s (slot_submission_set_by_day (digits day)) w) _
        (record { paired = refl; small = positive; before = []; is_end = refl }))
