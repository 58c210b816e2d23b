-- ===== src/Prost/Rewards/Counts.antt =====
-- The counts that UpdateSubmissionCounts keeps in Redis.
use submission_sequencer_bat.Prelude.{
  ℕ, zero, suc, ◌+◌, ◌≡◌, ◌≢◌, refl, inl, inr, List, [], ◌∷◌, Option, none, some, arith,
  if◌then◌else◌, ◌==◌, ==_iff, Bool-cases,
}
use submission_sequencer_bat.Prelude.Text.{Text, text, text_eq_refl, text_eq_ne}
use submission_sequencer_bat.Prelude.Int.{ℤ, pos, ◌+ℤ◌, eq_ℤ}
use submission_sequencer_bat.Prelude.Decimal.{
  digits, to_string, set_string, set_string-to_string, digits-ne-nil,
}
use submission_sequencer_bat.Prelude.Effect.{Result, ok, err, Done}
use submission_sequencer_bat.Data.{SnapshotSubmission, Request, high}
use submission_sequencer_bat.Services.{Services}
use submission_sequencer_bat.Redis.Keys.{slot_submission_key, slot_submission_set_by_day}
use submission_sequencer_bat.Redis.Keys.Laws.{slot_submission_key_inj}
use submission_sequencer_bat.Redis.Client.{add_to_set, get, set}
use submission_sequencer_bat.Merkle.Build.{report}
use submission_sequencer_bat.Prost.Rewards.{
  store_count, if_runs, reward_at, next_count, count_slot, count_request, count_message,
  count_submissions,
}
use submission_sequencer_bat.Prost.Rewards.Keeps.{
  RedisStores, count_text, count_key, Stored, Counted, same-Stored, set_other, alert-Stored,
  report-Stored, calculate-Counted,
}

module _ (s : Services) (stores : RedisStores s) (quota points : Option ℕ) (day slot : ℕ) where
  reward_at-Counted :
      (n t : ℕ) (c : ℤ) (q : Option ℕ) (w : s.World)
      → Stored s stores quota points day slot n w
      → Counted s stores quota points day slot n (reward_at s quota points day t c q w)
  unfolding reward_at
  reward_at-Counted n t c none w h = tt
  reward_at-Counted n t c (some q) w h = elim (Bool-cases (eq_ℤ c (pos q))) [
    | inl e ↦ rw e (calculate-Counted s stores quota points day slot n t w h)
    | inr e ↦ rw e h
  ]

  if_runs-Counted :
      (n m : ℕ) (r : Option Done × s.World) (next : s.World → Option Done × s.World)
      → Counted s stores quota points day slot n r
      → ((w : s.World)
          → Stored s stores quota points day slot n w
          → Counted s stores quota points day slot m (next w))
      → Counted s stores quota points day slot m (if_runs s quota points r next)
  if_runs-Counted n m (none, w) next h k = tt
  if_runs-Counted n m (some d, w) next h k = k w h

  joined-Stored :
      (n t : ℕ) (w : s.World)
      → Stored s stores quota points day slot n w
      → let (added, w₁) =
          add_to_set s
            (slot_submission_set_by_day (digits day))
            (slot_submission_key (digits t) (digits day) ∷ [])
            w in
        Stored s stores quota points day slot n
          (report s (text "UpdateSubmissionCounts") high added w₁).1
  unfolding add_to_set
  joined-Stored n t w h =
      report-Stored s stores quota points day slot n (text "UpdateSubmissionCounts") _ _ (
        same-Stored s stores quota points day slot n w _
          (stores.sadd_keeps _ (count_key s stores quota points day slot) _ w) h)

  -- The count of another slot.
  store_other-Counted :
      (n t : ℕ) (c : ℤ) (w : s.World)
      → t ≢ slot
      → Stored s stores quota points day slot n w
      → Counted s stores quota points day slot n (store_count s quota points day t c w)
  unfolding store_count
  store_other-Counted n t c w differs h =
      set_other s stores quota points day slot n _ _ _ _
        (text_eq_ne _ _ (λ e. differs (slot_submission_key_inj day t slot e)))
        (joined-Stored n t w h)

  set_self :
      (v : Text) (expiration : ℕ) (w : s.World)
      → get s
          (count_key s stores quota points day slot)
          (set s (count_key s stores quota points day slot) v expiration w).1
        ≡ ok v
  unfolding set get
  set_self v x w = rw (
    stores.set_gets (count_key s stores quota points day slot)
        (count_key s stores quota points day slot) v x w,
    text_eq_refl (count_key s stores quota points day slot),
  )

  store_count-Counted :
      (n : ℕ) (w : s.World)
      → Counted s stores quota points day slot
          (n + 1)
          (store_count s quota points day slot (pos (n + 1)) w)
  unfolding store_count to_string
  store_count-Counted n w =
      let up : n + 1 ≡ suc n = omega arith in rw up (set_self (digits (suc n)) _ _)

  next_other-Counted :
      (n t : ℕ) (o : Option ℤ) (w : s.World)
      → t ≢ slot
      → Stored s stores quota points day slot n w
      → Counted s stores quota points day slot n (next_count s quota points day t o w)
  unfolding next_count
  next_other-Counted n t none w differs h =
      alert-Stored s stores quota points day slot n (text "DailyTaskHandler") w h
  next_other-Counted n t (some c) w differs h =
      if_runs-Counted n n (reward_at s quota points day t (c +ℤ pos 1) quota w)
        (store_count s quota points day t (c +ℤ pos 1))
        (reward_at-Counted n t (c +ℤ pos 1) quota w h)
        (λ w'. store_other-Counted n t (c +ℤ pos 1) w' differs)

  count_other-Counted :
      (n t : ℕ) (r : Result Text) (w : s.World)
      → t ≢ slot
      → Stored s stores quota points day slot n w
      → Counted s stores quota points day slot n (count_slot s quota points day t r w)
  unfolding count_slot
  count_other-Counted n t (err e) w differs h = store_other-Counted n t (pos 1) w differs h
  count_other-Counted n t (ok []) w differs h = store_other-Counted n t (pos 1) w differs h
  count_other-Counted n t (ok (c ∷ v)) w differs h =
      next_other-Counted n t (set_string (c ∷ v)) w differs h

  next_own-Counted :
      (n : ℕ) (w : s.World)
      → Stored s stores quota points day slot n w
      → Counted s stores quota points day slot
          (n + 1)
          (next_count s quota points day slot (some (pos n)) w)
  unfolding next_count
  next_own-Counted n w h =
      let sum : pos n +ℤ pos 1 ≡ pos (n + 1) = unfold ◌+ℤ◌ in ground arith in
      rw sum (
        if_runs-Counted n (n + 1) (reward_at s quota points day slot (pos (n + 1)) quota w)
          (store_count s quota points day slot (pos (n + 1)))
          (reward_at-Counted n slot (pos (n + 1)) quota w h) (λ w' k. store_count-Counted n w'))

  own_text-Counted :
      (n : ℕ) (t : Text) (w : s.World)
      → t ≢ []
      → set_string t ≡ some (pos n)
      → Stored s stores quota points day slot n w
      → Counted s stores quota points day slot (n + 1) (count_slot s quota points day slot (ok t) w)
  unfolding count_slot
  own_text-Counted n [] w h e k = absurd (h refl)
  own_text-Counted n (c ∷ t) w h e k = rw e (next_own-Counted n w k)

  count_own-Counted :
      (n : ℕ) (w : s.World)
      → Stored s stores quota points day slot n w
      → Counted s stores quota points day slot
          (n + 1)
          (count_slot s quota points day slot (ok (count_text n)) w)
  unfolding count_slot to_string
  count_own-Counted zero w h = store_count-Counted 0 w
  count_own-Counted (suc n) w h =
      own_text-Counted (suc n) (digits (suc n)) w (digits-ne-nil (suc n))
        (set_string-to_string (pos (suc n))) h

  abbrev pub of_request : Option Request → ℕ
  of_request none = 0
  of_request (some request) = if request.slot_id == slot then 1 else 0

  -- 1 for a submission of the slot, and 0 for one of another slot or for what is none.
  abbrev pub of_slot : Result SnapshotSubmission → ℕ
  of_slot (err e) = 0
  of_slot (ok submission) = of_request submission.request

  count_request-Counted :
      (n : ℕ) (r : Option Request) (w : s.World)
      → Stored s stores quota points day slot n w
      → Counted s stores quota points day slot
          (n + of_request r)
          (count_request s quota points day r w)
  unfolding count_request
  count_request-Counted n none w h = tt
  count_request-Counted n (some r) w h = elim (Bool-cases (r.slot_id == slot)) [
    | inl e ↦
        let own : r.slot_id ≡ slot = (==_iff r.slot_id slot).0 e in
        rw (e, own, h) (count_own-Counted n w h)
    | inr e ↦
        let same : n + 0 ≡ n = omega arith in
        rw (e, same)
          (count_other-Counted n r.slot_id _ w (λ k. ground (arith, ==_iff r.slot_id slot)) h)
  ]

  pub count_message-Counted :
      (n : ℕ) (r : Result SnapshotSubmission) (w : s.World)
      → Stored s stores quota points day slot n w
      → Counted s stores quota points day slot
          (n + of_slot r)
          (count_message s quota points day r w)
  unfolding count_message
  count_message-Counted n (err e) w h =
      let same : n + 0 ≡ n = omega arith in
      rw same (alert-Stored s stores quota points day slot n (text "Submission unmarshalling") w h)
  count_message-Counted n (ok submission) w h = count_request-Counted n submission.request w h

  -- How many of the submissions are of the slot.
  abbrev pub occurrences : List Text → ℕ
  occurrences [] = 0
  occurrences (sub ∷ subs) = of_slot (s.unmarshal_submission sub) + occurrences subs

  -- Where Redis stores what it is given, the stored count of a slot for the day grows by the number
  -- of submissions of that slot among those counted, whatever else is among them and whether or not
  -- rewards are stored meanwhile, unless the process panics. A missing count stands for 0.
  pub count_submissions-Counted :
      (subs : List Text) (n : ℕ) (w : s.World)
      → get s (slot_submission_key (digits slot) (digits day)) w ≡ ok (count_text n)
      → Counted s stores quota points day slot
          (n + occurrences subs)
          (count_submissions s quota points day subs w)
  unfolding count_submissions
  count_submissions-Counted [] n w h = let same : n + 0 ≡ n = omega arith in rw same h
  count_submissions-Counted (sub ∷ subs) n w h =
      let here = of_slot (s.unmarshal_submission sub) in
      let same : n + (here + occurrences subs) ≡ n + here + occurrences subs = omega arith in
      rw same (
        if_runs-Counted (n + here) (n + here + occurrences subs)
          (count_message s quota points day (s.unmarshal_submission sub) w)
          (count_submissions s quota points day subs)
          (count_message-Counted n (s.unmarshal_submission sub) w h)
          (λ w'. count_submissions-Counted subs (n + here) w'))
