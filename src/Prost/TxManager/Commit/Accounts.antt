-- ===== src/Prost/TxManager/Commit/Accounts.antt =====
-- CommitSubmissionBatches, whatever accounts it gets, commits every batch.
use mathlib.Core.List.{append-nil, append_assoc, map-append}
use mathlib.Core.List.Perm
use submission_sequencer_bat.Prelude.{
  Perm, Option, none, some, ◌∙◌, ap₂, map, ap, ◌++◌, ℕ, zero, suc, ◌+◌, ◌<◌, ◌≡◌, refl, sym, subst,
  List, [], ◌∷◌, arith, All, All-append, All-append_left, All-append_right, All-imp, length, take,
  concat,
}
use submission_sequencer_bat.Prelude.Text.{Text}
use submission_sequencer_bat.Data.{Auth, BatchSubmission}
use submission_sequencer_bat.Services.{Services}
use submission_sequencer_bat.Prost.TxManager.Send.{RetryStops}
use submission_sequencer_bat.Prost.TxManager.Commit.{
  required_accounts, slices, divide_among, commit_all, run_accounts, or_waited, with_account,
  commit_submission_batches,
}
use submission_sequencer_bat.Prost.TxManager.Commit.Sends.{Sends, numbered}
use submission_sequencer_bat.Prost.TxManager.Commit.Division.{divide_among_shares}
use submission_sequencer_bat.Prost.TxManager.Commit.Keeps.{
  SetsGrow, IsIn, Recorded, key_of, keys_from,
}
use submission_sequencer_bat.Prost.TxManager.Commit.Recorded.{
  commit_all-Keeps, commit_all-IsRecorded,
}

slices-length : {A : Type 0} (n i rounds : ℕ) (xs : List A) → length (slices n i rounds xs) ≡ rounds
unfolding slices
slices-length n i zero xs = refl
slices-length n i (suc rounds) xs = omega (arith, slices-length n (i + 1) rounds xs)

-- The options of an account, if they are set up.
abbrev pub IsSetUp : Option Auth → Type 0
IsSetUp none = ⊥
IsSetUp (some auth) = Unit {0}

or_waited_some :
    (waited : Option Auth) (free : List (Option Auth)) → 0 < length (or_waited waited free)
or_waited_some waited [] = omega arith
or_waited_some waited (a ∷ as_) = omega arith

or_waited-IsSetUp :
    (waited : Option Auth) (free : List (Option Auth))
    → IsSetUp waited
    → All IsSetUp free
    → All IsSetUp (or_waited waited free)
or_waited-IsSetUp waited [] h k = (h, tt)
or_waited-IsSetUp waited (a ∷ as_) h k = k

All-take : (n : ℕ) (xs : List (Option Auth)) → All IsSetUp xs → All IsSetUp (take n xs)
All-take zero xs h = tt
All-take (suc n) [] h = tt
All-take (suc n) (x ∷ xs) h = (h.0, All-take n xs h.1)

numbered-batches :
    (nonce : ℕ) (submissions : List BatchSubmission)
    → map (λ (e : ℕ × BatchSubmission). e.1) (numbered nonce submissions) ≡ submissions
numbered-batches nonce [] = refl
numbered-batches nonce (b ∷ bs) = ap (λ t. b ∷ t) (numbered-batches (nonce + 1) bs)

module _ (s : Services) (grow : SetsGrow s) (sends : Sends s) (retry_stops : RetryStops s)
    (base_fee epoch_id : ℕ) where
  abbrev batches_of : List (ℕ × BatchSubmission) → List BatchSubmission
  batches_of = map (λ (e : ℕ × BatchSubmission). e.1)

  abbrev IsRecorded : s.World → ℕ × BatchSubmission → Type 0
  IsRecorded w (nonce, submission) = Recorded s epoch_id (key_of submission nonce) w

  -- No panic; what the contract was sent since `w` is the batches, and each is recorded under the
  -- nonce with which it was sent.
  abbrev pub AreCommitted :
      List BatchSubmission → s.World → Option (List (Option Auth)) × s.World → Type 0
  AreCommitted submissions w (none, w') = ⊥
  AreCommitted submissions w (some auths, w') =
      (new : List (ℕ × BatchSubmission)) × (sends.sent w' ≡ sends.sent w ++ new)
      × Perm (map (λ (e : ℕ × BatchSubmission). e.1) new) submissions
      × All (λ (e : ℕ × BatchSubmission). Recorded s epoch_id (key_of e.1 e.0) w') new

  -- As AreCommitted, in the order of the accounts, and what was in a set of Redis still is.
  abbrev Runs : List BatchSubmission → s.World → Option (List (Option Auth)) × s.World → Type 0
  Runs submissions w (none, w') = ⊥
  Runs submissions w (some auths, w') =
      (new : List (ℕ × BatchSubmission)) × (sends.sent w' ≡ sends.sent w ++ new)
      × (batches_of new ≡ submissions)
      × All (IsRecorded w') new
      × ((set key : Text) → IsIn s set key w → IsIn s set key w')

  keys-numbered :
      (submissions : List BatchSubmission) (nonce : ℕ) (w : s.World)
      → All (λ key. Recorded s epoch_id key w) (keys_from nonce submissions)
      → All (IsRecorded w) (numbered nonce submissions)
  keys-numbered [] nonce w h = tt
  keys-numbered (b ∷ bs) nonce w (here, there) = (here, keys-numbered bs (nonce + 1) w there)

  with_account-Runs :
      (submissions : List BatchSubmission) (w : s.World) (auth : Option Auth)
      (r : Option (List (Option Auth)) × s.World)
      → Runs submissions w r
      → Runs submissions w (with_account s base_fee auth r)
  with_account-Runs submissions w auth (none, w') h = h
  with_account-Runs submissions w auth (some auths, w') h = h

  -- An account's share, and then the others'.
  then-Runs :
      (part rest : List BatchSubmission) (auth : Auth) (w : s.World)
      (r : Option (List (Option Auth)) × s.World)
      → All (λ b. b.epoch_id ≡ epoch_id) part
      → Runs rest (commit_all s base_fee part auth w).1 r
      → Runs (part ++ rest) w r
  then-Runs part rest auth w (none, w') h k = k
  then-Runs part rest auth w (some auths, w') h (new, grown, whole, recorded, keeps) =
      let own = numbered auth.nonce part in
      let made = commit_all-IsRecorded s grow sends retry_stops base_fee epoch_id part auth w h in
      let w₁ = (commit_all s base_fee part auth w).1 in
      (
        own ++ new,
        grown ∙ ap (λ t. t ++ new) made.0 ∙ append_assoc (sends.sent w) own new,
        map-append (λ (e : ℕ × BatchSubmission). e.1) own new
            ∙ ap₂ (λ xs ys. xs ++ ys) (numbered-batches auth.nonce part) whole,
        All-append (IsRecorded w') own new
            (All-imp (λ (e : ℕ × BatchSubmission) (c : IsRecorded w₁ e). keeps _ _ c) own
              (keys-numbered part auth.nonce w₁ made.1))
            recorded,
        λ set key c.
            keeps set key
              (commit_all-Keeps s grow sends retry_stops base_fee set key part auth w c),
      )

  run_accounts-Runs :
      (auths : List (Option Auth)) (parts : List (List BatchSubmission)) (w : s.World)
      → length parts ≡ length auths
      → All IsSetUp auths
      → All (λ b. b.epoch_id ≡ epoch_id) (concat parts)
      → Runs (concat parts) w (run_accounts s base_fee auths parts w)
  unfolding run_accounts
  run_accounts-Runs [] [] w e up h = ([], sym (append-nil (sends.sent w)), refl, tt, λ set key c. c)
  run_accounts-Runs [] (part ∷ parts) w e up h = absurd (omega arith)
  run_accounts-Runs (auth ∷ auths) [] w e up h = absurd (omega arith)
  run_accounts-Runs (auth ∷ auths) ([] ∷ parts) w e (up, ups) h =
      with_account-Runs (concat parts) w auth _
        (run_accounts-Runs auths parts w (omega (arith, e)) ups h)
  run_accounts-Runs (none ∷ auths) ((b ∷ bs) ∷ parts) w e (up, ups) h = absurd up
  run_accounts-Runs (some auth ∷ auths) ((b ∷ bs) ∷ parts) w e (up, ups) h =
      let of_epoch = λ (b : BatchSubmission). b.epoch_id ≡ epoch_id in
      let part = b ∷ bs in
      let (auth', w₁) = commit_all s base_fee part auth w in
      with_account-Runs (part ++ concat parts) w (some auth') _ (
        then-Runs part (concat parts) auth w _ (All-append_left of_epoch part (concat parts) h) (
          run_accounts-Runs auths parts w₁ (omega (arith, e)) ups
            (All-append_right of_epoch part (concat parts) h)))

  Runs-AreCommitted :
      (submissions all : List BatchSubmission) (w : s.World)
      (r : Option (List (Option Auth)) × s.World)
      → submissions ≡ all
      → Runs submissions w r
      → AreCommitted all w r
  Runs-AreCommitted submissions all w (none, w') e h = h
  Runs-AreCommitted submissions all w (some auths, w') e (new, grown, whole, recorded, keeps) =
      (new, grown, subst (Perm (batches_of new)) (whole ∙ e) (Perm.refl (batches_of new)), recorded)

  -- Where the contract accepts all batches and nothing else is taken for one, retries end with the
  -- first success, Redis adds the keys that it is given to its sets, and the accounts' options could
  -- be set up, CommitSubmissionBatches sends the contract every batch of the epoch, once and as it
  -- is, and no other, and records each in the epoch's set under the nonce with which it was sent,
  -- whatever the number of batches for an account above 0, and however many accounts are free, also
  -- when none is and it waits for one.
  pub commit_batches-AreCommitted :
      (per_account : ℕ) (free : List (Option Auth)) (waited : Option Auth)
      (submissions : List BatchSubmission) (w : s.World)
      → 0 < per_account
      → All IsSetUp free
      → IsSetUp waited
      → All (λ b. b.epoch_id ≡ epoch_id) submissions
      → AreCommitted submissions w
          (commit_submission_batches s base_fee per_account free waited submissions w)
  unfolding commit_submission_batches divide_among
  commit_batches-AreCommitted zero free waited submissions w p up up' h = absurd (omega arith)
  commit_batches-AreCommitted (suc n) free waited submissions w p up up' h =
      let required = required_accounts (length submissions) (suc n) in
      let auths = or_waited waited (take required free) in
      let parts = divide_among (length auths) submissions in
      let some_account = or_waited_some waited (take required free) in
      let whole = (divide_among_shares (length auths) submissions some_account).0 in
      Runs-AreCommitted (concat parts) submissions w _ whole (
        run_accounts-Runs auths parts w (slices-length (length auths) 0 (length auths) submissions)
          (or_waited-IsSetUp waited (take required free) up' (All-take required free up))
          (subst (All (λ (b : BatchSubmission). b.epoch_id ≡ epoch_id)) (sym whole) h))
