-- ===== src/Tests/Quota.antt =====
-- A slot that passes its quota.
use submission_sequencer_bat.Prelude.{
  ◌+◌, ◌≡◌, refl, Bool, true, false, [], ◌∷◌, none, some, if◌then◌else◌,
}
use submission_sequencer_bat.Prelude.Text.{text, text_eq, join}
use submission_sequencer_bat.Prelude.Int.{pos, ◌+ℤ◌}
use submission_sequencer_bat.Prelude.Decimal.{digits, set_string, parse_digits, to_string}
use submission_sequencer_bat.Prelude.Dict.{lookup}
use submission_sequencer_bat.Prelude.Effect.{ok}
use submission_sequencer_bat.Redis.Keys.{total_slot_rewards, slot_submission_key}
use submission_sequencer_bat.Redis.Client.{get, nil_as_empty}
use submission_sequencer_bat.Prost.Rewards.{update_submission_counts}
use submission_sequencer_bat.Prost.Rewards.Counts.{occurrences}
use submission_sequencer_bat.Prost.Rewards.Totals.{Readable, Sound}
use submission_sequencer_bat.Prost.Rewards.Sums.{submissions_of}
use submission_sequencer_bat.Prost.Rewards.Quota.{once}
use submission_sequencer_bat.Prost.Rewards.Once.{Ends, update_counts-once}
use submission_sequencer_bat.Tests.Memory.{World, memory, nothing}
use submission_sequencer_bat.Tests.Rewards.{stores, two_batches}

-- One submission of slot 7 on day 3, and a total of 50.
abbrev started : World
started = record nothing {
  values =
      (text "TotalRewardPointsKey.7", text "50") ∷ (text "SlotSubmissionsKey.3.7", text "1") ∷ [];
}

numbers_only :
    (a b : Bool)
    → Readable
        (nil_as_empty (ok (if a then some (text "50") else if b then some (text "1") else none)))
unfolding set_string parse_digits
numbers_only true b = (pos 50, refl)
numbers_only false true = (pos 1, refl)
numbers_only false false = tt

started-Sound : Sound memory stores started
unfolding get lookup
started-Sound t =
    numbers_only (text_eq (text "TotalRewardPointsKey.7") (total_slot_rewards (digits t)))
      (text_eq (text "SlotSubmissionsKey.3.7") (total_slot_rewards (digits t)))

-- Two more submissions reach the quota of three.
update_counts-once_example :
    Ends memory stores 3 100 3 7
      (1 + occurrences memory stores (some 3) (some 100) 3 7 (submissions_of two_batches))
      (once 3 100
        (occurrences memory stores (some 3) (some 100) 3 7 (submissions_of two_batches))
        1
        (pos 50))
      (update_submission_counts memory (some 3) (some 100) two_batches 3 started)
unfolding get lookup text_eq slot_submission_key join digits total_slot_rewards to_string
update_counts-once_example =
    update_counts-once memory stores 3 100 3 7 two_batches 1 (pos 50) started
      ((_, refl), (tt, ((_, refl), tt))) started-Sound refl refl

two_more :
    once 3 100
      (occurrences memory stores (some 3) (some 100) 3 7 (submissions_of two_batches))
      1
      (pos 50)
    ≡ pos 150
unfolding ◌+ℤ◌
two_more = refl
