-- ===== src/Merkle/Finalize.antt =====
-- finalizeBatches and BuildBatchSubmissions of pkgs/helpers/merkle/merkle.go.
pub mod Ids
pub mod Leak
use submission_sequencer_bat.Prelude.{ℕ, suc, List, [], ◌∷◌, ◌++◌, map, length}
use submission_sequencer_bat.Prelude.Text.{Text, text}
use submission_sequencer_bat.Prelude.Int.{pos}
use submission_sequencer_bat.Prelude.Decimal.{digits}
use submission_sequencer_bat.Prelude.Sort.{sort_texts}
use submission_sequencer_bat.Prelude.Dict.{Dict, dict_keys}
use submission_sequencer_bat.Prelude.Effect.{Result, ok, err, Done, M, pure, ◌>>=◌, ◌>>◌, look}
use submission_sequencer_bat.Json.{Log, empty, field, string, number, array, strings}
use submission_sequencer_bat.Data.{Batch, BatchSubmission, Severity, high}
use submission_sequencer_bat.Constants.{finalize_batches_name}
use submission_sequencer_bat.Services.{Services}
use submission_sequencer_bat.Clients.Reporting.{send_failure_notification}
use submission_sequencer_bat.Redis.Keys.{triggered_process_log}
use submission_sequencer_bat.Redis.Client.{set_process_log, get_valid_submission_keys}
use submission_sequencer_bat.Merkle.Arrange.{arrange_keys_in_batches}
use submission_sequencer_bat.Merkle.Build.{build_batch, report}
use submission_sequencer_bat.Merkle.Tally.{
  Tally, leader, Outcome, goes_on, stops, panics, count_keys,
}

-- The variables that the loop over the batches carries, with the global BatchId.
pub record Progress (Tree World : Type 0) : Type 0 where
  pub frequencies : Dict (Dict ℕ)
  pub most_frequent : Dict Text
  pub tree : Tree
  pub batch_id : ℕ
  pub built : List BatchSubmission
  pub world : World

-- The projects of a tally in order, and the CID of each.
abbrev pub project_ids : Dict Text → List Text
project_ids m = sort_texts (dict_keys m)

abbrev pub project_cids : Dict Text → List Text
project_cids m = map (leader m) (project_ids m)

module _ (s : Services) where
  abbrev pub State : Type 0
  State = Progress s.Tree s.World

  -- A batch is built: it is kept, and the maps start anew. Otherwise they stay as they are.
  after_build : Tally → State → (Result BatchSubmission × s.Tree) × s.World → State
  unfolding send_failure_notification
  after_build t st ((ok submission, tree), w) = record {
    frequencies = [];
    most_frequent = [];
    tree = tree;
    batch_id = suc st.batch_id;
    built = st.built ++ (submission ∷ []);
    world = w;
  }
  after_build t st ((err e, tree), w) = record {
    frequencies = t.frequencies;
    most_frequent = t.most_frequent;
    tree = tree;
    batch_id = st.batch_id;
    built = st.built;
    world = (send_failure_notification s (text "finalizeBatches") high w).1;
  }

  -- The submissions of a batch have been read.
  unfoldable pub build_tally : ℕ → Tally → State → State
  unfolding after_build
  build_tally epoch_id t st = after_build t st (
      build_batch s t.all_ids t.all_data st.batch_id epoch_id st.tree (project_ids t.most_frequent)
        (project_cids t.most_frequent) st.world)

  abbrev next : ℕ → State → Outcome Tally → Outcome Done × State
  next epoch_id st (goes_on t) = (goes_on tt, build_tally epoch_id t st)
  next epoch_id st stops = (stops, st)
  next epoch_id st panics = (panics, st)

  abbrev pub carried : State → Tally
  carried st = record {
    frequencies = st.frequencies;
    most_frequent = st.most_frequent;
    all_ids = [];
    all_data = [];
  }

  -- One batch. The identifiers and the data start anew with it, the maps are what the last left.
  unfoldable pub finalize_batch : ℕ → List Text → State → Outcome Done × State
  finalize_batch epoch_id batch st =
      let (o, w) = count_keys s batch (carried st) st.world in
      next epoch_id (record st { world = w }) o

  -- The rest of the loop, unless the work has ended.
  abbrev unless : Outcome Done → Outcome Done × State → State → Outcome Done × State
  unless (goes_on _) rest st = rest
  unless stops rest st = (stops, st)
  unless panics rest st = (panics, st)

  unfoldable pub finalize_loop : ℕ → List (List Text) → State → Outcome Done × State
  finalize_loop epoch_id [] st = (goes_on tt, st)
  finalize_loop epoch_id (batch ∷ batches) st =
      let (o, st') = finalize_batch epoch_id batch st in
      let rest = finalize_loop epoch_id batches st' in unless o rest st'

  finalize_log : ℕ → List BatchSubmission → ℕ → Log
  finalize_log epoch_id built timestamp = field (text "epoch_id") (string (digits epoch_id)) (
      field (text "finalized_batches_count") (number (pos (length built))) (
        field (text "finalized_batch_ids")
          (array (strings (map (λ (b : BatchSubmission). digits b.batch.id) built)))
          (field (text "timestamp") (number (pos timestamp)) empty)))

  log_batches : ℕ → List BatchSubmission → M s.World Done
  unfolding finalize_log report
  log_batches epoch_id built = do
    timestamp ← look s.now
    stored ←
        set_process_log s (triggered_process_log finalize_batches_name (digits epoch_id))
          (finalize_log epoch_id built timestamp) 14400
    report s (text "finalizeBatches") high stored

  abbrev conclude : ℕ → Outcome Done × State → (Outcome (List BatchSubmission) × ℕ) × s.World
  conclude epoch_id (goes_on _, st) =
      ((goes_on st.built, st.batch_id), (log_batches epoch_id st.built st.world).1)
  conclude epoch_id (stops, st) = ((stops, st.batch_id), st.world)
  conclude epoch_id (panics, st) = ((panics, st.batch_id), st.world)

  -- The batches that were built, and the next batch's identifier. `stops` is the error of an
  -- expired value, with which no batch is returned.
  unfoldable pub finalize_batches :
      List (List Text) → ℕ → s.Tree → ℕ → s.World → (Outcome (List BatchSubmission) × ℕ) × s.World
  unfolding log_batches
  finalize_batches batched_keys epoch_id tree batch_id w = conclude epoch_id (
      finalize_loop epoch_id batched_keys (record {
        frequencies = [];
        most_frequent = [];
        tree = tree;
        batch_id = batch_id;
        built = [];
        world = w;
      }))

  abbrev report_stop :
      (Outcome (List BatchSubmission) × ℕ) × s.World
      → (Outcome (List BatchSubmission) × ℕ) × s.World
  report_stop ((goes_on built, id), w) = ((goes_on built, id), w)
  report_stop ((stops, id), w) =
      ((stops, id), (send_failure_notification s (text "BuildBatchSubmissions") high w).1)
  report_stop ((panics, id), w) = ((panics, id), w)

  build_keys : ℕ → ℕ → List Text → ℕ → s.World → (Outcome (List BatchSubmission) × ℕ) × s.World
  build_keys size epoch_id [] batch_id w = ((stops, batch_id), w)
  build_keys size epoch_id (k ∷ ks) batch_id w = elim s.new_tree [
    | err e ↦
        ((stops, batch_id), (send_failure_notification s (text "BuildBatchSubmissions") high w).1)
    | ok tree ↦
        let (batched_keys, w') = arrange_keys_in_batches s size (sort_texts (k ∷ ks)) w in
        report_stop (finalize_batches batched_keys epoch_id tree batch_id w')
  ]

  -- `stops` is an error: no submissions, no tree, or an expired value.
  unfoldable pub build_batch_submissions :
      ℕ → ℕ → List Text → ℕ → s.World → (Outcome (List BatchSubmission) × ℕ) × s.World
  unfolding build_keys
  build_batch_submissions size epoch_id headers batch_id w =
      build_keys size epoch_id (get_valid_submission_keys s epoch_id headers w) batch_id w
