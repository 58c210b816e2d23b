-- ===== src/Prost/TxManager/Commit/Sends.antt =====
-- The batches that the contract has been sent, with the nonces of their transactions.
use submission_sequencer_bat.Prelude.{ℕ, ◌+◌, ◌≡◌, ◌∙◌, List, [], ◌∷◌, ◌++◌}
use submission_sequencer_bat.Prelude.Text.{Text}
use submission_sequencer_bat.Prelude.Effect.{ok}
use submission_sequencer_bat.Data.{Auth, BatchSubmission, SequencerAlert}
use submission_sequencer_bat.Services.{Services}
use submission_sequencer_bat.Prost.TxManager.Commit.Keeps.{StoreKeeps}

-- A contract that accepts each batch that it is sent. What it has been sent is changed by nothing
-- else.
pub record Sends (s : Services) : Type 1 where
  pub sent : s.World → List (ℕ × BatchSubmission)
  pub accepts :
      (auth : Auth) (submission : BatchSubmission) (w : s.World)
      → (hash : Text) × ((s.submit_submission_batch auth submission w).0 ≡ ok hash)
  pub submit_sends :
      (auth : Auth) (submission : BatchSubmission) (w : s.World)
      → sent (s.submit_submission_batch auth submission w).1
        ≡ sent w ++ ((auth.nonce, submission) ∷ [])
  pub sadd_keeps :
      (set : Text) (keys : List Text) (w : s.World) → sent (s.redis_sadd set keys w).1 ≡ sent w
  pub set_keeps :
      (k v : Text) (expiration : ℕ) (w : s.World) → sent (s.redis_set k v expiration w).1 ≡ sent w
  pub del_keeps : (keys : List Text) (w : s.World) → sent (s.redis_del keys w).1 ≡ sent w
  pub srem_keeps : (set key : Text) (w : s.World) → sent (s.redis_srem set key w).1 ≡ sent w
  pub alert_keeps : (alert : SequencerAlert) (w : s.World) → sent (s.post_alert alert w) ≡ sent w
  pub tip_keeps : (w : s.World) → sent (s.suggest_gas_tip_cap w).1 ≡ sent w

module _ (s : Services) (sends : Sends s) (xs : List (ℕ × BatchSubmission)) where
  -- The contract has been sent `xs`.
  abbrev pub Sent : s.World → Type 0
  Sent w = sends.sent w ≡ xs

  pub Sent-kept : StoreKeeps s Sent
  Sent-kept = record {
    sadd = λ set keys. record { at = λ w h. sends.sadd_keeps set keys w ∙ h };
    set = λ k v expiration. record { at = λ w h. sends.set_keeps k v expiration w ∙ h };
    alert = λ alert w h. sends.alert_keeps alert w ∙ h;
  }

-- Batches with the nonces from `nonce` on.
abbrev pub numbered : ℕ → List BatchSubmission → List (ℕ × BatchSubmission)
numbered nonce [] = []
numbered nonce (submission ∷ submissions) = (nonce, submission) ∷ numbered (nonce + 1) submissions
