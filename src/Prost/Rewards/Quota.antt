-- ===== src/Prost/Rewards/Quota.antt =====
-- The rewards of a slot are stored when its count reaches the quota, and only then.
use submission_sequencer_bat.Prelude.{
  ℕ, zero, suc, ◌+◌, ◌≡◌, ◌≢◌, refl, ◌∙◌, inl, inr, true, false, [], ◌∷◌, Option, none, some, arith,
  if◌then◌else◌, ◌==◌, ltb, leb, ◌&&◌, Bool-cases,
}
use submission_sequencer_bat.Prelude.Text.{Text, text}
use submission_sequencer_bat.Prelude.Int.{ℤ, pos, ◌+ℤ◌, eq_ℤ}
use submission_sequencer_bat.Prelude.Decimal.{
  digits, digits-ne-nil, to_string, set_string, set_string-to_string,
}
use submission_sequencer_bat.Prelude.Effect.{Result, ok, err, Done}
use submission_sequencer_bat.Services.{Services}
use submission_sequencer_bat.Redis.Keys.{
  slot_submission_key, slot_submission_set_by_day, total_slot_rewards,
}
use submission_sequencer_bat.Redis.Client.{add_to_set}
use submission_sequencer_bat.Prost.Rewards.{store_count, if_runs, reward_at, next_count, count_slot}
use submission_sequencer_bat.Prost.Rewards.Keeps.{RedisStores, count_key-total, count_text}
use submission_sequencer_bat.Prost.Rewards.Awards.{
  Total, Gives, set_other-Total, alert-Total, report-Total, calculate_other-Gives,
  calculate_own-Gives,
}

-- The total after one more submission of a slot with `n` so far, and after `k` more.
module _ (quota points : ℕ) where
  abbrev pub award : ℕ → ℤ → ℤ
  award zero z = z
  award (suc n) z = if suc n + 1 == quota then z +ℤ pos points else z

  abbrev pub awards : ℕ → ℕ → ℤ → ℤ
  awards zero n z = z
  awards (suc k) n z = awards k (n + 1) (award n z)

  pub awards-+ : (a b n : ℕ) (z : ℤ) → awards (a + b) n z ≡ awards b (n + a) (awards a n z)
  awards-+ zero b n z =
      let left : 0 + b ≡ b = omega arith in
      let right : n + 0 ≡ n = omega arith in rw (left, right) refl
  awards-+ (suc a) b n z =
      let left : suc a + b ≡ suc (a + b) = omega arith in
      let right : n + suc a ≡ n + 1 + a = omega arith in
      rw (left, right) (awards-+ a b (n + 1) (award n z))

  -- Once at most.
  abbrev pub once : ℕ → ℕ → ℤ → ℤ
  once k n z = if ltb n quota && (ltb 1 quota && leb quota (n + k)) then z +ℤ pos points else z

  pub awards-once : (k n : ℕ) (z : ℤ) → awards k n z ≡ once k n z
  awards-once zero n z = ground arith
  awards-once (suc k) zero z = ground (arith, awards-once k 1 z)
  awards-once (suc k) (suc n) z = ground (arith, awards-once k (suc n + 1) (award (suc n) z))

module _ (s : Services) (stores : RedisStores s) (quota points day slot : ℕ) where
  if_runs-Gives :
      (y z : ℤ) (r : Option Done × s.World) (next : s.World → Option Done × s.World)
      → Gives s stores quota points day slot y r
      → ((w : s.World)
          → Total s stores quota points day slot y w
          → Gives s stores quota points day slot z (next w))
      → Gives s stores quota points day slot z (if_runs s (some quota) (some points) r next)
  if_runs-Gives y z (none, w) next h k = tt
  if_runs-Gives y z (some d, w) next h k = k w h

  store_count-Gives :
      (z : ℤ) (u : ℕ) (c : ℤ) (w : s.World)
      → Total s stores quota points day slot z w
      → Gives s stores quota points day slot z (store_count s (some quota) (some points) day u c w)
  unfolding store_count add_to_set
  store_count-Gives z u c w h =
      let set_key = slot_submission_set_by_day (digits day) in
      let key = slot_submission_key (digits u) (digits day) in
      let made = add_to_set s set_key (key ∷ []) w in
      set_other-Total s stores quota points day slot z key (to_string c) _ _
        (count_key-total (digits u) (digits day) (digits slot))
        (report-Total s stores quota points day slot z (text "UpdateSubmissionCounts") made.0 made.1
          (stores.sadd_keeps set_key (total_slot_rewards (digits slot)) (key ∷ []) w ∙ h))

  reward_other-Gives :
      (z : ℤ) (u : ℕ) (c : ℤ) (w : s.World)
      → u ≢ slot
      → Total s stores quota points day slot z w
      → Gives s stores quota points day slot z
          (reward_at s (some quota) (some points) day u c (some quota) w)
  unfolding reward_at
  reward_other-Gives z u c w differs h = elim (Bool-cases (eq_ℤ c (pos quota))) [
    | inl e ↦ rw e (calculate_other-Gives s stores quota points day slot z u w differs h)
    | inr e ↦ rw e h
  ]

  next_other-Gives :
      (z : ℤ) (u : ℕ) (o : Option ℤ) (w : s.World)
      → u ≢ slot
      → Total s stores quota points day slot z w
      → Gives s stores quota points day slot z (next_count s (some quota) (some points) day u o w)
  unfolding next_count
  next_other-Gives z u none w differs h =
      alert-Total s stores quota points day slot z (text "DailyTaskHandler") w h
  next_other-Gives z u (some c) w differs h =
      if_runs-Gives z z (reward_at s (some quota) (some points) day u (c +ℤ pos 1) (some quota) w)
        (store_count s (some quota) (some points) day u (c +ℤ pos 1))
        (reward_other-Gives z u (c +ℤ pos 1) w differs h) (store_count-Gives z u (c +ℤ pos 1))

  pub count_other-Gives :
      (z : ℤ) (u : ℕ) (r : Result Text) (w : s.World)
      → u ≢ slot
      → Total s stores quota points day slot z w
      → Gives s stores quota points day slot z (count_slot s (some quota) (some points) day u r w)
  unfolding count_slot
  count_other-Gives z u (err e) w differs h = store_count-Gives z u (pos 1) w h
  count_other-Gives z u (ok []) w differs h = store_count-Gives z u (pos 1) w h
  count_other-Gives z u (ok (c ∷ t)) w differs h =
      next_other-Gives z u (set_string (c ∷ t)) w differs h

  -- The rewards are stored with the count that reaches the quota.
  reward_own-Gives :
      (z : ℤ) (m : ℕ) (w : s.World)
      → Total s stores quota points day slot z w
      → Gives s stores quota points day slot
          (if m == quota then z +ℤ pos points else z)
          (reward_at s (some quota) (some points) day slot (pos m) (some quota) w)
  unfolding reward_at
  reward_own-Gives z m w h = elim (Bool-cases (m == quota)) [
    | inl e ↦
        let same : eq_ℤ (pos m) (pos quota) ≡ true = ground (arith, e) in
        rw (e, same) (calculate_own-Gives s stores quota points day slot z w h)
    | inr e ↦ let differ : eq_ℤ (pos m) (pos quota) ≡ false = ground (arith, e) in rw (e, differ) h
  ]

  next_own-Gives :
      (z : ℤ) (n : ℕ) (w : s.World)
      → Total s stores quota points day slot z w
      → Gives s stores quota points day slot
          (if n + 1 == quota then z +ℤ pos points else z)
          (next_count s (some quota) (some points) day slot (some (pos n)) w)
  unfolding next_count
  next_own-Gives z n w h =
      let sum : pos n +ℤ pos 1 ≡ pos (n + 1) = unfold ◌+ℤ◌ in ground arith in
      let now = if n + 1 == quota then z +ℤ pos points else z in
      rw sum (
        if_runs-Gives now now
          (reward_at s (some quota) (some points) day slot (pos (n + 1)) (some quota) w)
          (store_count s (some quota) (some points) day slot (pos (n + 1)))
          (reward_own-Gives z (n + 1) w h) (store_count-Gives now slot (pos (n + 1))))

  own_text-Gives :
      (z : ℤ) (n : ℕ) (t : Text) (w : s.World)
      → t ≢ []
      → set_string t ≡ some (pos n)
      → Total s stores quota points day slot z w
      → Gives s stores quota points day slot
          (if n + 1 == quota then z +ℤ pos points else z)
          (count_slot s (some quota) (some points) day slot (ok t) w)
  unfolding count_slot
  own_text-Gives z n [] w h e k = absurd (h refl)
  own_text-Gives z n (c ∷ t) w h e k = rw e (next_own-Gives z n w k)

  pub count_own-Gives :
      (z : ℤ) (n : ℕ) (w : s.World)
      → Total s stores quota points day slot z w
      → Gives s stores quota points day slot
          (award quota points n z)
          (count_slot s (some quota) (some points) day slot (ok (count_text n)) w)
  unfolding count_slot to_string
  count_own-Gives z zero w h = store_count-Gives z slot (pos 1) w h
  count_own-Gives z (suc n) w h =
      own_text-Gives z (suc n) (digits (suc n)) w (digits-ne-nil (suc n))
        (set_string-to_string (pos (suc n))) h
