-- ===== src/Prost/TxManager/RewardEnsure/Forgotten.antt =====
-- A reward update that EnsureRewardUpdateSuccess has gone through leaves nothing behind.
use submission_sequencer_bat.Prelude.{ℕ, ◌≡◌, false, List, [], ◌∷◌, Option, none, some, any}
use submission_sequencer_bat.Prelude.Text.{Text, text_eq}
use submission_sequencer_bat.Prelude.Int.{ℤ}
use submission_sequencer_bat.Prelude.Effect.{Result, ok, err, Done}
use submission_sequencer_bat.Data.{Auth, Receipt}
use submission_sequencer_bat.Services.{Services}
use submission_sequencer_bat.Redis.Keys.{reward_tx_slots, reward_tx_submissions}
use submission_sequencer_bat.Redis.Client.{get_set_keys, remove_from_set, delete}
use submission_sequencer_bat.Merkle.Tally.{Outcome, goes_on, stops, panics}
use submission_sequencer_bat.Prost.TxManager.Send.{Sending}
use submission_sequencer_bat.Prost.TxManager.RewardEnsure.{
  Held, update_set, forget_tx, after_resubmit, resubmit_numbers, resubmit_rewards, after_receipt,
  ensure_hash,
}

-- What the documentation of Redis says of calls that succeed: a member that is removed is out of
-- its set, a set that is deleted is empty, and neither call adds a member to a set.
pub record SetsShrink (s : Services) : Type 0 where
  pub srem_removes :
      (set key : Text) (w : s.World)
      → any (text_eq key) (get_set_keys s set (s.redis_srem set key w).1) ≡ false
  pub del_empties :
      (set : Text) (w : s.World) → get_set_keys s set (s.redis_del (set ∷ []) w).1 ≡ []
  pub del_adds_none :
      (set key other : Text) (w : s.World)
      → any (text_eq key) (get_set_keys s set w) ≡ false
      → any (text_eq key) (get_set_keys s set (s.redis_del (other ∷ []) w).1) ≡ false
  pub del_keeps_empty :
      (set other : Text) (w : s.World)
      → get_set_keys s set w ≡ []
      → get_set_keys s set (s.redis_del (other ∷ []) w).1 ≡ []

module _ (s : Services) (shrink : SetsShrink s) (base_fee day : ℕ) (hash : Text) where
  -- The transaction is not among the day's updates, and its slots and counts are gone, where the
  -- work goes on.
  abbrev pub IsForgotten : Outcome Done × Held s base_fee day → Type 0
  IsForgotten (goes_on _, (auth, w)) =
      (any (text_eq hash) (get_set_keys s (update_set s base_fee day) w) ≡ false)
      × (get_set_keys s (reward_tx_slots hash) w ≡ [])
      × (get_set_keys s (reward_tx_submissions hash) w ≡ [])
  IsForgotten (stops, held) = Unit {0}
  IsForgotten (panics, held) = Unit {0}

  forget_tx-IsForgotten :
      (auth : Auth) (w : s.World)
      → IsForgotten (goes_on tt, (auth, forget_tx s base_fee day hash w))
  unfolding forget_tx remove_from_set delete
  forget_tx-IsForgotten auth w =
      let set = update_set s base_fee day in
      let slots = reward_tx_slots hash in
      let counts = reward_tx_submissions hash in
      let w₁ = (s.redis_srem set hash w).1 in
      let w₂ = (s.redis_del (slots ∷ []) w₁).1 in
      (
        shrink.del_adds_none set hash counts w₂
            (shrink.del_adds_none set hash slots w₁ (shrink.srem_removes set hash w)),
        shrink.del_keeps_empty slots counts w₂ (shrink.del_empties slots w₁),
        shrink.del_empties counts w₂,
      )

  after_resubmit-IsForgotten :
      (slots counts : List Text) (r : Result Text × Sending s.World)
      → IsForgotten (after_resubmit s base_fee day hash slots counts r)
  unfolding after_resubmit
  after_resubmit-IsForgotten slots counts (err e, st) = tt
  after_resubmit-IsForgotten slots counts (ok new_hash, st) = forget_tx-IsForgotten st.auth _

  resubmit_numbers-IsForgotten :
      (slots counts : List Text) (ids submissions : Option (List ℤ)) (held : Held s base_fee day)
      → IsForgotten (resubmit_numbers s base_fee day hash slots counts ids submissions held)
  unfolding resubmit_numbers
  resubmit_numbers-IsForgotten slots counts none submissions held = tt
  resubmit_numbers-IsForgotten slots counts (some ids) none held = tt
  resubmit_numbers-IsForgotten slots counts (some ids) (some submissions) (auth, w) =
      after_resubmit-IsForgotten slots counts _

  after_receipt-IsForgotten :
      (auth : Auth) (r : Result Done × (Option Receipt × s.World))
      → IsForgotten (after_receipt s base_fee day hash auth r)
  unfolding after_receipt resubmit_rewards
  after_receipt-IsForgotten auth (ok d, (receipt, w)) = forget_tx-IsForgotten auth _
  after_receipt-IsForgotten auth (err e, (receipt, w)) = resubmit_numbers-IsForgotten _ _ _ _ _

  -- Where Redis removes what it is told to, a reward transaction that EnsureRewardUpdateSuccess has
  -- gone through is out of the day's set, and its slots and its counts are deleted, on every branch
  -- that goes on: confirmed, executed in vain, or resubmitted, also under the same hash.
  pub ensure_hash-IsForgotten :
      (held : Held s base_fee day) → IsForgotten (ensure_hash s base_fee day hash held)
  unfolding ensure_hash
  ensure_hash-IsForgotten (auth, w) = after_receipt-IsForgotten auth _
