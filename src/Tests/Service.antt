-- ===== src/Tests/Service.antt =====
-- pkgs/service on small inputs.
use mathlib.Core.List.{Permᴰ}
use submission_sequencer_bat.Prelude.{
  ℕ, zero, suc, ◌≡◌, refl, sym, ap, ◌∙◌, inl, List, [], ◌∷◌, some, arith, filter_by,
}
use submission_sequencer_bat.Prelude.Text.{
  starts_with, Text, text, text_eq, text_eq_ne, text_eq_refl, join,
}
use submission_sequencer_bat.Prelude.Int.{pos, negsuc}
use submission_sequencer_bat.Prelude.Decimal.{digits, to_string}
use submission_sequencer_bat.Prelude.Machine.{int64}
use submission_sequencer_bat.Prelude.Dict.{lookup, lookup-insert}
use submission_sequencer_bat.Prelude.Sort.{text_le, sort_texts}
use submission_sequencer_bat.Prelude.Effect.{Result, ok, err}
use submission_sequencer_bat.Json.{Log, empty, field, string, number}
use submission_sequencer_bat.Constants.{build_batch_name, update_rewards_name, sequencer_day_key}
use submission_sequencer_bat.Services.{Services}
use submission_sequencer_bat.Redis.Keys.{slot_submission_key, triggered_process_log}
use submission_sequencer_bat.Redis.Client.{get}
use submission_sequencer_bat.Service.Reply.{DailySubmissions, success, is_bad_slot}
use submission_sequencer_bat.Service.Contract.{Constants, RedisApart}
use submission_sequencer_bat.Service.Logs.{
  process_pattern, read_logs, keys_of, handle_finalized_batch_submissions,
}
use submission_sequencer_bat.Service.Logs.Pages.{LogPages, log_handlers-LogPages}
use submission_sequencer_bat.Service.Logs.Order.{log_key, last_epoch_is_earlier}
use submission_sequencer_bat.Service.Counts.{handle_included_epoch_submissions_count}
use submission_sequencer_bat.Service.Counts.Sums.{sum_of, count_at, included_count_sum}
use submission_sequencer_bat.Service.Daily.{handle_daily_rewards}
use submission_sequencer_bat.Service.Daily.Cache.{daily_count_stays}
use submission_sequencer_bat.Service.Days.{send_days, total_submissions}
use submission_sequencer_bat.Service.Days.Arrivals.{in_order, total_submissions-in_order}
use submission_sequencer_bat.Service.Updates.{handle_reward_updates}
use submission_sequencer_bat.Service.Updates.Window.{is_past_key, reward_updates_window}
use submission_sequencer_bat.Service.Routes.{Decoders, start_api_server}
use submission_sequencer_bat.Service.Routes.Denied.{start_api-denied}
use submission_sequencer_bat.Service.Contract.{fetch_contract_constants}
use submission_sequencer_bat.Prelude.{map}
use submission_sequencer_bat.Service.Reply.{failure, is_bad_slot}
use submission_sequencer_bat.Tests.Memory.{World, memory, nothing, retries, or_again}

-- The logs of two epochs, as texts that stand for themselves.
abbrev logged : Services
logged = record memory {
  redis_keys = λ p w. ok (log_key 10 ∷ log_key 9 ∷ []);
  unmarshal_log = λ t. ok (
      field (text "epoch_id") (string t) (field (text "submissions_count") (number (pos 4)) empty));
}

abbrev two_epochs : World
two_epochs = record nothing {
  values = (log_key 9, text "9") ∷ (log_key 10, text "10") ∷ (sequencer_day_key, text "10") ∷ [];
}

abbrev log_of : Text → Log
log_of t =
    field (text "epoch_id") (string t) (field (text "submissions_count") (number (pos 4)) empty)

last_epoch_is_earlier_example :
    handle_finalized_batch_submissions logged
      (text "t")
      (ok (record { token = text "t"; past_epochs = pos 1 }))
      two_epochs
    ≡ (success (log_of (text "9") ∷ []), two_epochs)
unfolding get lookup text_eq triggered_process_log join digits text_le
last_epoch_is_earlier_example =
    last_epoch_is_earlier logged (text "t") 9 10 (log_of (text "9")) (log_of (text "10")) two_epochs
      (omega arith) refl refl refl refl

log_handlers-LogPages_example : LogPages logged (text "t") 1 two_epochs
log_handlers-LogPages_example = log_handlers-LogPages logged (text "t") 1 two_epochs

included_count_sum_example :
    handle_included_epoch_submissions_count logged
      (text "t")
      (ok (record { token = text "t"; past_epochs = pos 10 }))
      two_epochs
    ≡ (
      success (
          int64 (
            sum_of
              (count_at logged 10 two_epochs)
              (keys_of logged (process_pattern build_batch_name) two_epochs))),
      two_epochs,
    )
included_count_sum_example = included_count_sum logged (text "t") 10 two_epochs

or_again_keeps :
    {S A : Type 0} (P : S → Type 0) (k : S → Result A × S)
    → ((st : S) → P st → P (k st).1)
    → (r : Result A × S) → P r.1
    → P (or_again r k).1
or_again_keeps P k h (ok a, st) p = p
or_again_keeps P k h (err e, st) p = h st p

pub retries_keep :
    (S A : Type 0) (n : ℕ) (op : S → Result A × S) (P : S → Type 0)
    → ((st : S) → P st → P (op st).1)
    → (st : S) → P st
    → P (retries S A n op st).1
unfolding retries
retries_keep S A zero op P keeps st h = keeps st h
retries_keep S A (suc n) op P keeps st h =
    or_again_keeps P (λ st'. retries S A n op st') (λ st' k. retries_keep S A n op P keeps st' k)
      (op st) (keeps st h)

apart : RedisApart memory
apart = record {
  retry_keeps = retries_keep;
  points_keeps = λ slot k w. refl;
  day_keeps = λ k w. refl;
  count_keeps = λ slot day k w. refl;
  set_keeps = λ k j v e w n.
      ap ok (lookup-insert k j v w.values ∙ rw (text_eq_ne k j (λ same. n (sym same))) refl);
  set_stores = λ k v e w. inl (ap ok (lookup-insert k k v w.values ∙ rw (text_eq_refl k) refl));
}

abbrev constants : Constants
constants = record { daily_snapshot_quota = some 2; reward_base_points = some 300_000_000 }

daily_count_stays_example :
    get memory
      (slot_submission_key (digits 7) (digits 3))
      (handle_daily_rewards memory
        (text "t")
        constants
        (ok (record { slot_id = pos 7; day = pos 3; token = text "t" }))
        nothing).1
    ≡ get memory (slot_submission_key (digits 7) (digits 3)) nothing
unfolding to_string is_bad_slot
daily_count_stays_example =
    daily_count_stays memory apart (pos 7) (pos 3) (text "t") constants nothing refl

-- The first two results change places.
abbrev swapped : List DailySubmissions → List DailySubmissions
swapped (a ∷ b ∷ ds) = b ∷ a ∷ ds
swapped ds = ds

swapped-Permᴰ : (ds : List DailySubmissions) → Permᴰ ds (swapped ds)
swapped-Permᴰ [] = Permᴰ.nil
swapped-Permᴰ (a ∷ []) = Permᴰ.cons refl Permᴰ.nil
swapped-Permᴰ (a ∷ b ∷ ds) = Permᴰ.swap refl refl

total_submissions-in_order_example :
    total_submissions memory swapped (pos 7) 3 (some (pos 5)) nothing ≡ (
      in_order memory (pos 7) (pos 5) (send_days memory (pos 7) (pos 5) 0 3 nothing).0,
      (send_days memory (pos 7) (pos 5) 0 3 nothing).1,
    )
total_submissions-in_order_example =
    total_submissions-in_order memory (pos 7) (pos 5) swapped swapped-Permᴰ 3 nothing (omega arith)

reward_updates_window_example :
    handle_reward_updates logged
      (text "t")
      (ok (record { token = text "t"; past_days = pos 2 }))
      two_epochs
    ≡ (
      success (
          read_logs logged
            (filter_by
              (is_past_key 10 2)
              (sort_texts (keys_of logged (process_pattern update_rewards_name) two_epochs)))
            two_epochs),
      two_epochs,
    )
unfolding get lookup text_eq triggered_process_log join digits
reward_updates_window_example =
    reward_updates_window logged 10 2 two_epochs (text "t") (omega arith) (omega arith) refl

-- Every body decodes but the empty one, to a request whose token is the body.
abbrev decoded : {R : Type 0} → R → Text → Result R
decoded r [] = err (text "EOF")
decoded r (c ∷ body) = ok r

abbrev decode : Decoders
decode = record {
  daily = λ body. decoded (record { slot_id = pos 1; day = pos 3; token = body }) body;
  rewards = λ body. decoded (record { slot_id = pos 10001; token = body }) body;
  submissions = λ body. decoded (record { slot_id = pos 1; token = body; past_days = pos 1 }) body;
  epochs = λ body. decoded (record { token = body; past_epochs = pos 1 }) body;
  days = λ body. decoded (record { token = body; past_days = pos 1 }) body;
  batches = λ body. decoded (record { token = body; past_batches = negsuc 0 }) body;
}

abbrev denied : List (Text × Text)
denied =
    (text "/", text "t")
    ∷ (text "/swagger", text "t")
    ∷ (text "/rewardUpdates", [])
    ∷ (text "/getDailyRewards", text "u")
    ∷ (text "/builtBatches", text "t")
    ∷ (text "/getTotalRewards", text "t")
    ∷ []

start_api-denied_example :
    start_api_server memory
      (text "t")
      decode
      swapped
      (λ path body. success (text "documentation"))
      constants
      denied
      nothing
    ≡ (
      map failure (404 ∷ 301 ∷ 400 ∷ 401 ∷ 400 ∷ 400 ∷ []),
      (fetch_contract_constants memory constants nothing).1,
    )
unfolding lookup text_eq is_bad_slot starts_with
start_api-denied_example =
    start_api-denied memory (text "t") decode swapped (λ path body. success (text "documentation"))
      constants denied (404 ∷ 301 ∷ 400 ∷ 401 ∷ 400 ∷ 400 ∷ []) nothing
      (refl, (refl, (refl, (refl, (refl, (refl, tt))))))
