-- ===== src/Service/Days/Arrivals.antt =====
-- The order in which the days' results come does not matter.
use mathlib.Core.List.{Permᴰ}
use submission_sequencer_bat.Prelude.{
  ℕ, zero, suc, ◌+◌, ◌^◌, ◌≤◌, ◌<◌, ◌≡◌, refl, sym, ap, ◌∙◌, List, Option, none, some, length,
  replicate, length-replicate, arith,
}
use submission_sequencer_bat.Prelude.Int.{ℤ, pos, ◌-ℤ◌}
use submission_sequencer_bat.Prelude.Machine.{int64}
use submission_sequencer_bat.Services.{Services}
use submission_sequencer_bat.Service.Reply.{Reply, success, panics, DailySubmissions}
use submission_sequencer_bat.Service.Days.Placed.{Indexed, place-Permᴰ}
use submission_sequencer_bat.Service.Days.{
  index_of, put_day, no_submissions, get_daily_submissions, send_days, collect, total_submissions,
}

int64-back : (c : ℤ) (i : ℕ) → i < 2 ^ 63 → int64 (int64 c -ℤ int64 (c -ℤ pos i)) ≡ pos i
unfolding int64 ◌-ℤ◌
int64-back c i h = ground arith

module _ (s : Services) (slot c : ℤ) where
  abbrev SentFrom : ℕ → ℕ → Option (List DailySubmissions) → Type 0
  SentFrom i n none = Unit {0}
  SentFrom i n (some ds) = Indexed c i ds × (length ds ≡ n)

  put_day-SentFrom :
      (i n : ℕ) (subs : Option ℤ) (rest : Option (List DailySubmissions))
      → i < 2 ^ 63
      → SentFrom (i + 1) n rest
      → SentFrom i (suc n) (put_day (c -ℤ pos i) subs rest)
  unfolding index_of
  put_day-SentFrom i n none rest h k = tt
  put_day-SentFrom i n (some m) none h k = tt
  put_day-SentFrom i n (some m) (some ds) h (k, l) = ((int64-back c i h, k), omega arith)

  send_days-SentFrom :
      (i n : ℕ) (w : s.World) → i + n ≤ 2 ^ 63 → SentFrom i n (send_days s slot c i n w).0
  unfolding send_days
  send_days-SentFrom i zero w h = (tt, refl)
  send_days-SentFrom i (suc n) w h =
      let (subs, w') = get_daily_submissions s slot (c -ℤ pos i) w in
      put_day-SentFrom i n subs (send_days s slot c (i + 1) n w').0 (omega arith)
        (send_days-SentFrom (i + 1) n w' (omega arith))

  -- The results in the order of their days, from the current day back; a panic of a goroutine is one
  -- of the process.
  abbrev pub in_order : Option (List DailySubmissions) → Reply (List DailySubmissions)
  in_order none = panics
  in_order (some ds) = success ds

  module _ (arrivals : List DailySubmissions → List DailySubmissions)
      (same : (ds : List DailySubmissions) → Permᴰ ds (arrivals ds)) (past : ℕ) where
    collect-in_order :
        (sent : Option (List DailySubmissions))
        → SentFrom 0 past sent
        → collect s arrivals c past sent ≡ in_order sent
    unfolding collect
    collect-in_order none h = refl
    collect-in_order (some ds) (h, l) = rw (
        place-Permᴰ c ds (arrivals ds) (replicate past no_submissions) h (same ds)
          (length-replicate past no_submissions ∙ sym l))

    -- In whatever order the channel delivers the results of the days, the response lists them from
    -- the current day back, one for each of the past days, as the goroutines made them.
    pub total_submissions-in_order :
        (w : s.World)
        → past ≤ 2 ^ 63
        → let (sent, w') = send_days s slot c 0 past w in
          total_submissions s arrivals slot past (some c) w ≡ (in_order sent, w')
    unfolding total_submissions
    total_submissions-in_order w h =
        ap (λ r. (r, (send_days s slot c 0 past w).1))
          (collect-in_order (send_days s slot c 0 past w).0
            (send_days-SentFrom 0 past w (omega arith)))
