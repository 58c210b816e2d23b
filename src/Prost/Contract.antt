-- ===== src/Prost/Contract.antt =====
-- MustQuery, UpdateSubmissionLimit and PopulateStateVars of pkgs/helpers/prost/contract.go.
use submission_sequencer_bat.Prelude.{ℕ, ◌+◌, Option, none, some}
use submission_sequencer_bat.Prelude.Text.{text}
use submission_sequencer_bat.Prelude.Effect.{Result, ok, err, M, pure, ◌>>=◌, ◌>>◌}
use submission_sequencer_bat.Data.{high}
use submission_sequencer_bat.Services.{Services}
use submission_sequencer_bat.Clients.Reporting.{send_failure_notification}

module _ (s : Services) where
  abbrev pub must_value : Result ℕ → M s.World (Result ℕ)
  must_value (ok n) = pure (ok n)
  must_value (err e) = do
    send_failure_notification s (text "Contract query error [MustQuery]") high
    pure (err e)

  unfoldable pub must_query : (s.World → Result ℕ × s.World) → M s.World (Result ℕ)
  must_query call = do val ← s.retry s.World ℕ 3 call; must_value val

  abbrev limit_from : ℕ → Result ℕ → M s.World (Option ℕ)
  limit_from cur_block (ok window) = pure (some (cur_block + window + 1))
  limit_from cur_block (err e) = do
    send_failure_notification s (text "Contract query error [UpdateSubmissionLimit]") high
    pure none

  -- The last block of the window, nil where it cannot be queried.
  unfoldable pub update_submission_limit : ℕ → M s.World (Option ℕ)
  update_submission_limit cur_block = do
    window ← s.query_snapshot_submission_window
    limit_from cur_block window
