-- ===== src/Service/Days.antt =====
-- getDailySubmissions and handleTotalSubmissions of pkgs/service/api.go: one goroutine for each
-- day, whose results come through a channel in whatever order.
pub mod Placed
pub mod Arrivals
use submission_sequencer_bat.Prelude.{
  ℕ, zero, suc, ◌+◌, ◌||◌, List, [], ◌∷◌, Option, none, some, length, set, replicate, ltb,
  if◌then◌else◌,
}
use submission_sequencer_bat.Prelude.Text.{Text}
use submission_sequencer_bat.Prelude.Int.{ℤ, pos, negsuc, ◌-ℤ◌, ltb_ℤ, pos_part}
use submission_sequencer_bat.Prelude.Decimal.{to_string, set_string}
use submission_sequencer_bat.Prelude.Machine.{int64}
use submission_sequencer_bat.Prelude.Effect.{Result, ok, err, M}
use submission_sequencer_bat.Services.{Services}
use submission_sequencer_bat.Redis.Keys.{slot_submission_key}
use submission_sequencer_bat.Redis.Client.{get}
use submission_sequencer_bat.Service.Reply.{
  Reply, success, panics, SubmissionsRequest, DailySubmissions, authorized, is_bad_slot,
}
use submission_sequencer_bat.Service.Contract.{sequencer_day}
use submission_sequencer_bat.Prost.Contract.{must_query}

abbrev or_zero : Result ℕ → ℤ
or_zero (ok n) = int64 (pos n)
or_zero (err e) = pos 0

-- Int64 of nil panics.
abbrev int64_of : Option ℤ → Option ℤ
int64_of none = none
int64_of (some z) = some (int64 z)

abbrev no_submissions : DailySubmissions
no_submissions = record { day = pos 0; submissions = pos 0 }

-- The index int(currentDay.Int64()) - submission.Day.
unfoldable pub index_of : ℤ → DailySubmissions → ℤ
index_of current_day d = int64 (int64 current_day -ℤ d.day)

-- submissionsResponse[index] = submission; `none` where the index is out of range.
abbrev pub place_at : ℤ → DailySubmissions → List DailySubmissions → Option (List DailySubmissions)
place_at (negsuc i) d response = none
place_at (pos i) d response = if ltb i (length response) then some (set response i d) else none

abbrev and_then {ℓ} : {A B : Type ℓ} → Option A → (A → Option B) → Option B
and_then none f = none
and_then (some a) f = f a

-- for submission := range ch { ... }
unfoldable pub place_all :
    ℤ → List DailySubmissions → List DailySubmissions → Option (List DailySubmissions)
place_all current_day [] response = some response
place_all current_day (d ∷ ds) response =
    and_then (place_at (index_of current_day d) d response) (place_all current_day ds)

abbrev put_day : ℤ → Option ℤ → Option (List DailySubmissions) → Option (List DailySubmissions)
put_day day none ds = none
put_day day (some n) none = none
put_day day (some n) (some ds) = some (record { day = int64 day; submissions = n } ∷ ds)

abbrev placed : Option (List DailySubmissions) → Reply (List DailySubmissions)
placed none = panics
placed (some response) = success response

module _ (s : Services) where
  query_submissions : ℤ → ℤ → M s.World (Option ℤ)
  query_submissions slot day w =
      let (r, w') = must_query s (s.query_slot_submission_count slot day) w in
      (some (or_zero r), w')

  submissions_from : ℤ → ℤ → Result Text → M s.World (Option ℤ)
  unfolding query_submissions
  submissions_from slot day (err e) w = query_submissions slot day w
  submissions_from slot day (ok []) w = query_submissions slot day w
  submissions_from slot day (ok (c ∷ t)) w = (int64_of (set_string (c ∷ t)), w)

  unfoldable pub get_daily_submissions : ℤ → ℤ → M s.World (Option ℤ)
  unfolding submissions_from
  get_daily_submissions slot day w =
      submissions_from slot day (get s (slot_submission_key (to_string slot) (to_string day)) w) w

  -- What the goroutines of the days from the `i`-th before the current one send, `n` of them; they
  -- are run in the order in which they start.
  unfoldable pub send_days : ℤ → ℤ → ℕ → ℕ → M s.World (Option (List DailySubmissions))
  send_days slot current_day i zero w = (some [], w)
  send_days slot current_day i (suc n) w =
      let day = current_day -ℤ pos i in
      let (subs, w₁) = get_daily_submissions slot day w in
      let (rest, w₂) = send_days slot current_day (i + 1) n w₁ in (put_day day subs rest, w₂)

  -- `arrivals` gives the order in which the channel delivers what was sent.
  unfoldable pub collect :
      (List DailySubmissions → List DailySubmissions)
      → ℤ
      → ℕ
      → Option (List DailySubmissions)
      → Reply (List DailySubmissions)
  collect arrivals current_day past none = panics
  collect arrivals current_day past (some sent) =
      placed (place_all current_day (arrivals sent) (replicate past no_submissions))

  -- new(big.Int).Set of a nil day panics.
  unfoldable pub total_submissions :
      (List DailySubmissions → List DailySubmissions)
      → ℤ
      → ℕ
      → Option ℤ
      → s.World
      → Reply (List DailySubmissions) × s.World
  total_submissions arrivals slot past none w = (panics, w)
  total_submissions arrivals slot past (some current_day) w =
      let (sent, w') = send_days slot current_day 0 past w in
      (collect arrivals current_day past sent, w')

  abbrev days_work :
      (List DailySubmissions → List DailySubmissions)
      → SubmissionsRequest
      → s.World
      → Reply (List DailySubmissions) × s.World
  days_work arrivals r w =
      let (day, w') = sequencer_day s w in
      total_submissions arrivals r.slot_id (pos_part r.past_days) day w'

  unfoldable pub handle_total_submissions :
      (List DailySubmissions → List DailySubmissions)
      → Text
      → Result SubmissionsRequest
      → s.World
      → Reply (List DailySubmissions) × s.World
  handle_total_submissions arrivals auth_read_token body w =
      authorized auth_read_token (λ r. r.token)
        (λ r. ltb_ℤ r.past_days (pos 1) || is_bad_slot r.slot_id) (days_work arrivals) body w
