-- ===== src/Tests/Epochs.antt =====
-- pkgs/helpers/prost/processor.go and the failures table on small inputs.
use submission_sequencer_bat.Prelude.{
  sym, Bool, true, false, ltb, if◌then◌else◌, Option, some, ℕ, ◌-◌, ◌*◌, ◌≤◌, ◌<◌, ◌≡◌, refl, ap,
  List, [], ◌∷◌, ◌++◌, arith,
}
use submission_sequencer_bat.Prelude.Text.{text, text_eq, or_else}
use submission_sequencer_bat.Prelude.Dict.{lookup, lookup-insert_self}
use submission_sequencer_bat.Prelude.Effect.{Result, ok, err}
use submission_sequencer_bat.Redis.Client.{text_or_empty, parts_of, lock_update_hash_table}
use submission_sequencer_bat.Redis.Client.Tables.{lock_update-parts}
use submission_sequencer_bat.Prost.Processor.{
  EventLog, Watched, Events, process_events, updated_day,
}
use submission_sequencer_bat.Prost.Processor.Order.{StartsRising, process_events-StartsRising}
use submission_sequencer_bat.Prost.Processor.Day.{updated_day_bounds}
use submission_sequencer_bat.Prost.Flow.{Block, collect_headers}
use submission_sequencer_bat.Prost.Flow.Headers.{IsCollected, collect_headers-IsCollected}
use submission_sequencer_bat.Prost.Chain.{Chain, start_fetching_blocks}
use submission_sequencer_bat.Prost.Chain.Gaps.{IsGapless, start_fetching-IsGapless}
use submission_sequencer_bat.Prelude.Decimal.{digits}
use submission_sequencer_bat.Tests.Memory.{World, memory, nothing}

abbrev pub watched : Watched
watched = record {
  contract_address = text "0xc";
  data_market_address = text "0xd";
  epoch_released_id = text "0xe";
}

abbrev released : ℕ → EventLog
released epoch = record {
  address = text "0xc";
  topics = text "0xe" ∷ [];
  parsed = ok (record { data_market_address = text "0xd"; epoch_id = epoch });
}

abbrev at_four : Events World
at_four = record { current_epoch = 4; started = []; world = nothing }

-- Epoch 5 is released twice, then 4, then 6.
abbrev pub four_releases : List (List EventLog)
four_releases = (released 5 ∷ released 5 ∷ []) ∷ (released 4 ∷ []) ∷ (released 6 ∷ []) ∷ []

process_events-StartsRising_example :
    StartsRising memory watched 100 4 (process_events memory watched 100 (ok four_releases) at_four)
process_events-StartsRising_example =
    process_events-StartsRising memory watched 100 4 (ok four_releases) at_four refl

updated_day_bounds_example : ((updated_day 3 7 - 1) * 3 < 7) × (7 ≤ updated_day 3 7 * 3)
updated_day_bounds_example = updated_day_bounds 3 7 (omega arith) (omega arith) (omega arith)

-- Slots 7 and 8 have failed on day 3, then slot 9 does.
abbrev failed : World
failed = record nothing { values = (text "RewardsBackendFailures" ++ text "3", text "7,8") ∷ [] }

lock_update-parts_example :
    parts_of (
      text_or_empty (
        memory.redis_hget
          (text "RewardsBackendFailures")
          (text "3")
          (lock_update_hash_table memory
            (text "RewardsBackendFailures")
            (text "3")
            (text "9")
            failed).1))
    ≡ parts_of (text_or_empty (memory.redis_hget (text "RewardsBackendFailures") (text "3") failed))
      ++ (text "9" ∷ [])
lock_update-parts_example =
    lock_update-parts memory
      (λ table key value w. ap ok (lookup-insert_self (table ++ key) value w.values))
      (text "RewardsBackendFailures") (text "3") (text "9") failed (λ e. cc) (ground arith)

-- The window ends with block 12; block 11 is seen twice.
abbrev blocks : List Block
blocks =
    record { block_number = 11; hash = text "0x11" }
    ∷ record { block_number = 11; hash = text "0x11" }
    ∷ record { block_number = 12; hash = text "0x12" }
    ∷ record { block_number = 13; hash = text "0x13" }
    ∷ []

collect_headers-IsCollected_example :
    IsCollected 13 10 (text "0x10" ∷ []) (collect_headers 13 blocks (10, text "0x10" ∷ []))
collect_headers-IsCollected_example = collect_headers-IsCollected 13 blocks 10 (text "0x10" ∷ [])

-- The node has the blocks up to 12.
abbrev node : ℕ → World → Result (Option Block) × World
node n w = (
  if ltb n 13
      then ok (some (record { block_number = n; hash = digits n }))
      else err (text "not found"),
  w,
)

node-numbered : (n : ℕ) (w : World) (b : Block) → (node n w).0 ≡ ok (some b) → b.block_number ≡ n
node-numbered n w b e = given (ltb n 13) e
  where
    given :
        (known : Bool)
        → ◌≡◌ {A = Result (Option Block)}
            (if known
              then ok (some (record { block_number = n; hash = digits n }))
              else err (text "not found"))
            (ok (some b))
        → b.block_number ≡ n
    given true e =
        let same : record { block_number = n; hash = digits n } ≡ b = cc in
        sym (ap (λ (x : Block). x.block_number) same)
    given false e = cc

abbrev at_ten : Chain World
at_ten = record {
  current = record { block_number = 10; hash = text "0x10" };
  processed = [];
  world = nothing;
}

-- The first round finds block 11 to be the latest, the second one block 15.
abbrev newest : World → Result Block × World
newest w = (
  ok (record {
    block_number =
        if text_eq (or_else (lookup (text "SequencerState.CurrentBlockNumber") w.values) [])
          (text "11")
        then 15
        else 11;
    hash = text "0x15";
  }),
  w,
)

start_fetching-IsGapless_example :
    IsGapless memory node node-numbered 10 (start_fetching_blocks memory node newest 2 at_ten)
unfolding lookup
start_fetching-IsGapless_example =
    start_fetching-IsGapless memory node node-numbered 10 newest 2 at_ten (tt, refl)
