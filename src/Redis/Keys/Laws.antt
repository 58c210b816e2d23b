-- ===== src/Redis/Keys/Laws.antt =====
-- Which keys of Redis are the same.
use submission_sequencer_bat.Prelude.{ℕ, ◌≡◌, sym, ap, ◌∙◌, ◌≢◌, List, [], ◌∷◌, some, arith}
use submission_sequencer_bat.Prelude.Text.{Text, split, split-join}
use submission_sequencer_bat.Prelude.Decimal.{
  digits, digits-NoByte, parse_digits, parse_digits-digits,
}
use submission_sequencer_bat.Constants.{
  daily_reward_points_key, slot_submissions_key, total_reward_points_key,
}
use submission_sequencer_bat.Redis.Keys.{
  slot_rewards_for_day, slot_submission_key, total_slot_rewards,
}

digits-inj : (m n : ℕ) → digits m ≡ digits n → m ≡ n
digits-inj m n e =
    let read : some m ≡ some n =
      sym (parse_digits-digits m) ∙ ap (parse_digits 0) e ∙ parse_digits-digits n in
    cc

-- The second and the third part of a key.
abbrev last_parts : List Text → Text × Text
last_parts (a ∷ b ∷ c ∷ rest) = (b, c)
last_parts _ = ([], [])

split_rewards_key :
    (day slot : ℕ)
    → split b'.' (slot_rewards_for_day (digits day) (digits slot))
      ≡ daily_reward_points_key ∷ digits day ∷ digits slot ∷ []
unfolding slot_rewards_for_day
split_rewards_key day slot =
    split-join b'.' daily_reward_points_key (digits day ∷ digits slot ∷ []) (ground arith)
      (digits-NoByte b'.' day (omega arith), (digits-NoByte b'.' slot (omega arith), tt))

-- The rewards keys of two pairs of a day and a slot are the same only if both the days and the
-- slots are.
slot_rewards_for_day_inj :
    (day slot day' slot' : ℕ)
    → slot_rewards_for_day (digits day) (digits slot)
      ≡ slot_rewards_for_day (digits day') (digits slot')
    → (day ≡ day') × (slot ≡ slot')
slot_rewards_for_day_inj day slot day' slot' e =
    let parts =
      ap last_parts
        (sym (split_rewards_key day slot) ∙ ap (split b'.') e ∙ split_rewards_key day' slot') in
    (
      digits-inj day day' (ap (λ (p : Text × Text). p.0) parts),
      digits-inj slot slot' (ap (λ (p : Text × Text). p.1) parts),
    )

-- The key that getTotalRewards and handleDailyRewards make, with the slot in the place of the day
-- and the day in that of the slot, is never the one under which the rewards of the slot on the day
-- are stored, unless the slot and the day are the same number.
swapped_rewards_key :
    (day slot : ℕ)
    → day ≢ slot
    → slot_rewards_for_day (digits slot) (digits day)
      ≢ slot_rewards_for_day (digits day) (digits slot)
swapped_rewards_key day slot n e = n (slot_rewards_for_day_inj slot day day slot e).1

split_count_key :
    (slot day : ℕ)
    → split b'.' (slot_submission_key (digits slot) (digits day))
      ≡ slot_submissions_key ∷ digits day ∷ digits slot ∷ []
unfolding slot_submission_key
split_count_key slot day =
    split-join b'.' slot_submissions_key (digits day ∷ digits slot ∷ []) (ground arith)
      (digits-NoByte b'.' day (omega arith), (digits-NoByte b'.' slot (omega arith), tt))

-- On one day the keys of the slots' counts tell the slots apart.
pub slot_submission_key_inj :
    (day slot slot' : ℕ)
    → slot_submission_key (digits slot) (digits day)
      ≡ slot_submission_key (digits slot') (digits day)
    → slot ≡ slot'
slot_submission_key_inj day slot slot' e = digits-inj slot slot' (
    ap (λ ps. (last_parts ps).1)
      (sym (split_count_key slot day) ∙ ap (split b'.') e ∙ split_count_key slot' day))

abbrev second_part : List Text → Text
second_part (a ∷ b ∷ rest) = b
second_part _ = []

split_total_key :
    (slot : ℕ)
    → split b'.' (total_slot_rewards (digits slot)) ≡ total_reward_points_key ∷ digits slot ∷ []
unfolding total_slot_rewards
split_total_key slot =
    split-join b'.' total_reward_points_key (digits slot ∷ []) (ground arith)
      (digits-NoByte b'.' slot (omega arith), tt)

-- The keys of the slots' totals tell the slots apart.
pub total_slot_rewards_inj :
    (slot slot' : ℕ)
    → total_slot_rewards (digits slot) ≡ total_slot_rewards (digits slot')
    → slot ≡ slot'
total_slot_rewards_inj slot slot' e =
    digits-inj slot slot'
      (ap second_part (sym (split_total_key slot) ∙ ap (split b'.') e ∙ split_total_key slot'))
