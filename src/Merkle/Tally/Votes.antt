-- ===== src/Merkle/Tally/Votes.antt =====
-- The frequencies against an independent count of the submissions that Redis holds.
use submission_sequencer_bat.Prelude.{
  ℕ, ◌+◌, ◌≤◌, ◌≡◌, refl, ap, ◌∙◌, inl, inr, List, [], ◌∷◌, Option, none, some, arith, Bool, false,
  ◌&&◌, Option-cases,
}
use submission_sequencer_bat.Prelude.Text.{Text, text, text_eq, split}
use submission_sequencer_bat.Prelude.Dict.{lookup}
use submission_sequencer_bat.Prelude.Effect.{Result, ok, err, Result-cases}
use submission_sequencer_bat.Data.{SnapshotSubmission, Request, SequencerAlert, high}
use submission_sequencer_bat.Services.{Services}
use submission_sequencer_bat.Clients.Reporting.{send_failure_notification}
use submission_sequencer_bat.Redis.Client.{get}
use submission_sequencer_bat.Merkle.Arrange.{project_of}
use submission_sequencer_bat.Merkle.Tally.{
  Tally, frequency, leader, count_value, Outcome, goes_on, stops, panics, two_parts, count_body,
  count_key, count_keys, fresh,
}
use submission_sequencer_bat.Merkle.Tally.Laws.{one_if, Leads, frequency-add_one, count_value-Leads}

abbrev is_for : Text → Text → Option (Text × Text) → Bool
is_for p v none = false
is_for p v (some (q, u)) = text_eq q p && text_eq u v

abbrev cid_of : Option Request → Option Text
cid_of none = none
cid_of (some r) = some r.snapshot_cid

abbrev body_cid : Result SnapshotSubmission → Option Text
body_cid (err e) = none
body_cid (ok sub) = cid_of sub.request

abbrev with_project : Option Text → Option Text → Option (Text × Text)
with_project none c = none
with_project (some p) none = none
with_project (some p) (some c) = some (p, c)

fresh_frequency : (p v : Text) → frequency fresh.frequencies p v ≡ 0
unfolding frequency lookup
fresh_frequency p v = refl

fresh-Leads : Leads fresh
unfolding frequency lookup
fresh-Leads p v = omega arith

module _ (s : Services) where
  abbrev body_vote : Option (Text × Text) → Option Text
  body_vote none = none
  body_vote (some (id, body)) = body_cid (s.unmarshal_submission body)

  abbrev value_vote : Result Text → Option Text
  value_vote (err e) = none
  value_vote (ok val) = body_vote (two_parts (split b'.' val))

  -- The project and the CID that the submission under a key is for, where it is a submission.
  pub vote : Text → s.World → Option (Text × Text)
  vote key w = with_project (project_of key) (value_vote (get s key w))

  -- How many of the submissions are for the project `p` with the CID `v`.
  pub votes : Text → Text → List Text → s.World → ℕ
  votes p v [] w = 0
  votes p v (key ∷ keys) w = one_if (is_for p v (vote key w)) + votes p v keys w

  -- The worlds hold the same values.
  abbrev SameValues : s.World → s.World → Type 0
  SameValues w w' = (k : Text) → s.redis_get k w' ≡ s.redis_get k w

  votes_same :
      (p v : Text) (keys : List Text) (w w' : s.World)
      → SameValues w w'
      → votes p v keys w' ≡ votes p v keys w
  unfolding votes vote get
  votes_same p v [] w w' same = refl
  votes_same p v (k ∷ ks) w w' same = rw (same k, votes_same p v ks w w' same)

  abbrev alerted : s.World → s.World
  alerted w = (send_failure_notification s (text "finalizeBatches") high w).1

  -- Whatever holds after a key is passed over, stops the work, panics or is counted, holds.
  module _ (P : Outcome Tally × s.World → Type 0) (key : Text) (t : Tally) (w : s.World)
      (skipped : vote key w ≡ none → P (goes_on t, alerted w)) (stopped : P (stops, alerted w))
      (panicked : P (panics, w))
      (counted : (p v id body : Text)
        → vote key w ≡ some (p, v)
        → P (goes_on (count_value p v id body t), w)) where
    body_cases :
        (p id body : Text) (sub : Result SnapshotSubmission)
        → s.unmarshal_submission body ≡ sub
        → vote key w ≡ with_project (some p) (body_cid sub)
        → P (count_body s p id body t w)
    unfolding count_body
    body_cases p id body (err e) read same = rw (read, count_body) (skipped same)
    body_cases p id body (ok sub) read same = elim (Option-cases sub.request) [
      | inl missing ↦ rw (read, count_body) (rw missing panicked)
      | inr (r, found) ↦
          rw (read, count_body)
            (rw found (
              counted p r.snapshot_cid id body
                (same ∙ ap (λ q. with_project (some p) (cid_of q)) found)))
    ]

    pub count_key_cases : P (count_key s key t w)
    unfolding count_key vote split
    count_key_cases = elim (Result-cases (get s key w)) [
      | inr (e, failed) ↦ rw (failed, count_key) (skipped (rw (failed, vote) (ground arith)))
      | inl ([], read) ↦ rw (read, count_key) stopped
      | inl (c ∷ val, read) ↦ elim (Option-cases (project_of key)) [
        | inl none_of ↦ rw (read, count_key, none_of) (skipped (rw (none_of, vote)))
        | inr (p, of_p) ↦ elim (Option-cases (two_parts (split b'.' (c ∷ val)))) [
          | inl malformed ↦
              rw (read, count_key, of_p, malformed) (skipped (rw (of_p, read, malformed, vote)))
          | inr ((id, body), parts) ↦
              rw (read, count_key, of_p, parts)
                (body_cases p id body (s.unmarshal_submission body) refl
                  (rw (of_p, read, parts, vote)))
        ]
      ]
    ]

  -- What counting a key adds: the leaders stay ahead, and each frequency grows by the key's vote.
  abbrev Grows : Tally → (Text → Text → ℕ) → Tally → Type 0
  Grows t more t' =
      (Leads t → Leads t')
      × ((p v : Text) → frequency t'.frequencies p v ≡ frequency t.frequencies p v + more p v)

  count_value-Grows :
      (q u id body key : Text) (t : Tally) (w : s.World)
      → vote key w ≡ some (q, u)
      → Grows t (λ p v. one_if (is_for p v (vote key w))) (count_value q u id body t)
  unfolding count_value
  count_value-Grows q u id body key t w e = (
    unfold count_value in count_value-Leads q u id body t,
    λ p v. rw (e, frequency-add_one t.frequencies q u p v),
  )

  -- Reporting an error leaves the values that Redis holds alone.
  module _ (quiet : (a : SequencerAlert) (w : s.World) → SameValues w (s.post_alert a w)) where
    abbrev AfterKey : Text → Tally → s.World → Outcome Tally × s.World → Type 0
    AfterKey key t w r =
        SameValues w r.1
        × ((t' : Tally) → r.0 ≡ goes_on t' → Grows t (λ p v. one_if (is_for p v (vote key w))) t')

    count_key-AfterKey :
        (key : Text) (t : Tally) (w : s.World) → AfterKey key t w (count_key s key t w)
    count_key-AfterKey key t w =
        count_key_cases (AfterKey key t w) key t w (λ e. (silent, λ t' h. kept e t' h))
          (silent, λ t' h. cc) (λ k. refl, λ t' h. cc)
          (λ p v id body e. (
            λ k. refl,
            λ t' h.
                let e' : count_value p v id body t ≡ t' = cc in
                rw (← e') (count_value-Grows p v id body key t w e),
          ))
      where
        silent : SameValues w (alerted w)
        silent = unfold send_failure_notification in quiet _ w

        kept :
            vote key w ≡ none
            → (t' : Tally) → goes_on t ≡ goes_on t'
            → Grows t (λ p v. one_if (is_for p v (vote key w))) t'
        kept e t' h = let e' : t ≡ t' = cc in rw (← e', e) (λ l. l, λ p v. omega arith)

    -- What follows the outcome of one key.
    abbrev then_keys : List Text → Outcome Tally × s.World → Outcome Tally × s.World
    then_keys keys (o, w') = elim o [
      | goes_on t' ↦ count_keys s keys t' w'
      | stops ↦ (stops, w')
      | panics ↦ (panics, w')
    ]

    after_key :
        (key : Text) (keys : List Text) (t t' : Tally) (w : s.World) (o : Outcome Tally)
        (w' : s.World)
        → ((t₁ : Tally)
            → (count_keys s keys t₁ w').0 ≡ goes_on t'
            → Grows t₁ (λ p v. votes p v keys w') t')
        → AfterKey key t w (o, w')
        → (then_keys keys (o, w')).0 ≡ goes_on t'
        → Grows t (λ p v. votes p v (key ∷ keys) w) t'
    unfolding votes
    after_key key keys t t' w (goes_on t₁) w' ih (same, grows) h =
        let (leads, adds) = grows t₁ refl in
        let (leads', adds') = ih t₁ h in
        (
          λ l. leads' (leads l),
          λ p v. omega (arith, adds p v, adds' p v, votes_same p v keys w w' same),
        )
    after_key key keys t t' w stops w' ih a h = cc
    after_key key keys t t' w panics w' ih a h = cc

    count_keys-Grows :
        (keys : List Text) (t t' : Tally) (w : s.World)
        → (count_keys s keys t w).0 ≡ goes_on t'
        → Grows t (λ p v. votes p v keys w) t'
    unfolding count_keys votes
    count_keys-Grows [] t t' w h = let e : t ≡ t' = cc in rw (← e) (λ l. l, λ p v. omega arith)
    count_keys-Grows (key ∷ keys) t t' w h =
        after_key key keys t t' w (count_key s key t w).0 (count_key s key t w).1
          (λ t₁. count_keys-Grows keys t₁ t' (count_key s key t w).1) (count_key-AfterKey key t w) h

    -- Where an alert leaves the values of Redis as they are, and a batch has been read from the start,
    -- the CID kept for a project has at least as many
    -- of the batch's submissions as any other CID, and the frequencies are those of the submissions.
    pub count_keys_plurality :
        (keys : List Text) (w : s.World) (t' : Tally)
        → (count_keys s keys fresh w).0 ≡ goes_on t'
        → (p v : Text)
        → (votes p v keys w ≤ votes p (leader t'.most_frequent p) keys w)
          × (frequency t'.frequencies p v ≡ votes p v keys w)
    count_keys_plurality keys w t' h p v =
        let (leads, adds) = count_keys-Grows keys fresh t' w h in
        let ahead = leads fresh-Leads p v in
        (
          omega (
            arith,
            ahead,
            adds p v,
            adds p (leader t'.most_frequent p),
            fresh_frequency p v,
            fresh_frequency p (leader t'.most_frequent p),
          ),
          omega (arith, adds p v, fresh_frequency p v),
        )
