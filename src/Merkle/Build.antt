-- ===== src/Merkle/Build.antt =====
-- BuildBatch, UpdateMerkleTree and GetRootHash of pkgs/helpers/merkle/merkle.go. The tree is shared
-- and changes in place: an error leaves the leaves that were added before it.
pub mod Laws
use submission_sequencer_bat.Prelude.{ℕ, List, [], ◌∷◌, length}
use submission_sequencer_bat.Prelude.Text.{Text, text}
use submission_sequencer_bat.Prelude.Int.{pos}
use submission_sequencer_bat.Prelude.Decimal.{digits}
use submission_sequencer_bat.Prelude.Effect.{Result, ok, err, Done, M, pure, ◌>>=◌, ◌>>◌, look}
use submission_sequencer_bat.Json.{Log, empty, field, string, number, array, strings}
use submission_sequencer_bat.Data.{Batch, BatchSubmission, Severity, high}
use submission_sequencer_bat.Constants.{build_batch_name}
use submission_sequencer_bat.Services.{Services}
use submission_sequencer_bat.Clients.Reporting.{send_failure_notification}
use submission_sequencer_bat.Redis.Keys.{triggered_process_log}
use submission_sequencer_bat.Redis.Client.{set_process_log}
use submission_sequencer_bat.Ipfs.{store_on_ipfs}

module _ (s : Services) where
  unfoldable pub update_merkle_tree : List Text → s.Tree → Result Done × s.Tree
  update_merkle_tree [] tree = (ok tt, tree)
  update_merkle_tree (value ∷ values) tree =
      let (r, tree') = s.add_leaf value tree in
      elim r [ err e ↦ (err e, tree') | ok _ ↦ update_merkle_tree values tree' ]

  -- In hex, as the package `common` writes it.
  unfoldable pub get_root_hash : s.Tree → Text
  get_root_hash tree = s.bytes_to_hex (s.root_digest tree)

  -- An error is reported, and the work goes on.
  unfoldable pub report : Text → Severity → Result Done → M s.World Done
  unfolding send_failure_notification
  report name severity (ok _) = pure tt
  report name severity (err e) = send_failure_notification s name severity

  build_log : ℕ → ℕ → Text → List Text → ℕ → Log
  build_log epoch_id id cid submissions timestamp =
      field (text "epoch_id") (string (digits epoch_id)) (
        field (text "batch_id") (number (pos id)) (
          field (text "batch_cid") (string cid) (
            field (text "submissions_count") (number (pos (length submissions))) (
              field (text "submissions") (array (strings submissions))
                (field (text "timestamp") (number (pos timestamp)) empty)))))

  -- The root of the tree of the batch's CIDs. A failed `imt.New` leaves a nil tree, which is taken
  -- to fail at the first leaf.
  cids_root : List Text → Result Text
  unfolding update_merkle_tree
  cids_root cids = elim s.new_tree [
    | err e ↦ err e
    | ok tree ↦
        let (r, tree') = update_merkle_tree cids tree in
        elim r [ err e ↦ err e | ok _ ↦ ok (s.root_digest tree') ]
  ]

  -- The batch is on IPFS under `cid`: its log, and the root of its CIDs.
  finish_batch : Batch → ℕ → Text → M s.World (Result BatchSubmission)
  unfolding build_log cids_root report send_failure_notification
  finish_batch batch epoch_id cid = do
    timestamp ← look s.now
    stored ←
        set_process_log s (triggered_process_log build_batch_name (digits batch.id))
          (build_log epoch_id batch.id cid batch.submissions timestamp) 14400
    report (text "BuildBatch") high stored
    elim (cids_root batch.cids) [
      | err e ↦ do send_failure_notification s (text "Build Batch") high; pure (err e)
      | ok root ↦ pure (
          ok (record {
            batch = batch;
            cid = cid;
            epoch_id = epoch_id;
            finalized_cids_root_hash = root;
          }))
    ]

  -- A failure to store the batch ends the work on it.
  after_store : Batch → ℕ → Result Text → M s.World (Result BatchSubmission)
  unfolding finish_batch
  after_store batch epoch_id (err e) = do
    send_failure_notification s (text "Build Batch") high
    pure (err e)
  after_store batch epoch_id (ok cid) = finish_batch batch epoch_id cid

  store_batch : Batch → ℕ → M s.World (Result BatchSubmission)
  unfolding after_store
  store_batch batch epoch_id = do stored ← store_on_ipfs s batch; after_store batch epoch_id stored

  unfoldable pub build_batch :
      List Text
      → List Text
      → ℕ
      → ℕ
      → s.Tree
      → List Text
      → List Text
      → s.World
      → (Result BatchSubmission × s.Tree) × s.World
  unfolding store_batch
  build_batch data_ids submissions id epoch_id tree pids cids w =
      let (r, tree') = update_merkle_tree data_ids tree in
      elim r [
        | err e ↦ ((err e, tree'), w)
        | ok _ ↦
            let (built, w') =
              store_batch
                (record {
                  id = id;
                  submission_ids = data_ids;
                  submissions = submissions;
                  root_hash = get_root_hash tree';
                  pids = pids;
                  cids = cids;
                })
                epoch_id w in
            ((built, tree'), w')
      ]
