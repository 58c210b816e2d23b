-- ===== src/Service/Counts.antt =====
-- handleIncludedEpochSubmissionsCount and handleReceivedEpochSubmissionsCount of
-- pkgs/service/api.go. A total is an int.
pub mod Sums
use submission_sequencer_bat.Prelude.{
  Bool, false, ◌||◌, ◌==◌, not, List, [], ◌∷◌, Option, none, some, if◌then◌else◌,
}
use submission_sequencer_bat.Prelude.Text.{Text, text, join, split}
use submission_sequencer_bat.Prelude.Int.{ℤ, pos, negsuc, ◌+ℤ◌, ltb_ℤ}
use submission_sequencer_bat.Prelude.Decimal.{atoi}
use submission_sequencer_bat.Prelude.Machine.{int64}
use submission_sequencer_bat.Prelude.Sort.{sort_texts}
use submission_sequencer_bat.Prelude.Effect.{Result, ok, err}
use submission_sequencer_bat.Json.{Json, string, number, Log, get_field}
use submission_sequencer_bat.Constants.{build_batch_name, epoch_submissions_count_key}
use submission_sequencer_bat.Services.{Services}
use submission_sequencer_bat.Redis.Client.{get}
use submission_sequencer_bat.Service.Reply.{Reply, success, panics, authorized, PastEpochsRequest}
use submission_sequencer_bat.Service.Logs.{process_pattern, keys_of, read_log}

abbrev pub epoch_field : Option Json → Option ℤ
epoch_field (some (string s)) = atoi s
epoch_field _ = none

abbrev pub count_field : Option Json → Option ℤ
count_field (some (number n)) = some n
count_field _ = none

abbrev is_zero : ℤ → Bool
is_zero (pos n) = n == 0
is_zero (negsuc n) = false

-- pastEpochs == 0 || epochId >= pastEpochs
abbrev pub is_recent : ℤ → ℤ → Bool
is_recent past_epochs epoch_id = is_zero past_epochs || not (ltb_ℤ epoch_id past_epochs)

abbrev counted_if : ℤ → Option ℤ → Option ℤ → Option ℤ
counted_if past_epochs none count = none
counted_if past_epochs (some epoch_id) count =
    if is_recent past_epochs epoch_id then count else none

-- What the log of a built batch adds, where it adds something.
unfoldable pub included : ℤ → Result Log → Option ℤ
included past_epochs (err e) = none
included past_epochs (ok entry) =
    counted_if past_epochs (epoch_field (get_field (text "epoch_id") entry))
      (count_field (get_field (text "submissions_count") entry))

-- totalSubmissions += count
unfoldable pub add_count : Option ℤ → ℤ → ℤ
add_count none total = total
add_count (some n) total = int64 (total +ℤ n)

abbrev second_part : List Text → Option Text
second_part (a ∷ b ∷ parts) = some b
second_part _ = none

abbrev received_at : ℤ → Option Text → Text → Option (Option ℤ)
received_at past_epochs none entry = none
received_at past_epochs (some epoch) entry = some (counted_if past_epochs (atoi epoch) (atoi entry))

-- What a count in Redis adds; the outer option is `none` where the key has one part only, and its
-- second part is out of range.
unfoldable pub received : ℤ → Text → Result Text → Option (Option ℤ)
received past_epochs key (err e) = some none
received past_epochs key (ok entry) = received_at past_epochs (second_part (split b'.' key)) entry

module _ (s : Services) where
  unfoldable pub included_total : ℤ → List Text → ℤ → s.World → ℤ
  included_total past_epochs [] total w = total
  included_total past_epochs (key ∷ keys) total w =
      included_total past_epochs keys
        (add_count (included past_epochs (read_log s (get s key w))) total) w

  unfoldable pub handle_included_epoch_submissions_count :
      Text → Result PastEpochsRequest → s.World → Reply ℤ × s.World
  handle_included_epoch_submissions_count auth_read_token body w =
      authorized auth_read_token (λ r. r.token) (λ r. ltb_ℤ r.past_epochs (pos 0))
        (λ r w. (
          success (
              included_total r.past_epochs
                (sort_texts (keys_of s (process_pattern build_batch_name) w)) (pos 0) w),
          w,
        ))
        body w

  unfoldable pub received_total : ℤ → List Text → ℤ → s.World → Reply ℤ
  received_total past_epochs [] total w = success total
  received_total past_epochs (key ∷ keys) total w = elim (received past_epochs key (get s key w)) [
    | none ↦ panics
    | some count ↦ received_total past_epochs keys (add_count count total) w
  ]

  unfoldable pub handle_received_epoch_submissions_count :
      Text → Result PastEpochsRequest → s.World → Reply ℤ × s.World
  handle_received_epoch_submissions_count auth_read_token body w =
      authorized auth_read_token (λ r. r.token) (λ r. ltb_ℤ r.past_epochs (pos 0))
        (λ r w. (
          received_total r.past_epochs
              (sort_texts (keys_of s (join b'.' (epoch_submissions_count_key ∷ text "*" ∷ [])) w))
              (pos 0) w,
          w,
        ))
        body w
