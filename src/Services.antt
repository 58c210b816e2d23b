-- ===== src/Services.antt =====
-- The services and packages that the program calls and does not implement: a Redis server through
-- go-redis, an Ethereum node and the protocol's contract through go-ethereum, an IPFS node, the
-- incremental Merkle tree, the JSON codecs, cenkalti/backoff and the order in which Go walks a map.
-- Each stands here as a parameter. A call that can change the outside takes the world as it is and
-- gives the world as it leaves it; a read of Redis leaves it alone.
use submission_sequencer_bat.Prelude.{ℕ, List, Option}
use submission_sequencer_bat.Prelude.Text.{Text}
use submission_sequencer_bat.Prelude.Int.{ℤ}
use submission_sequencer_bat.Prelude.Dict.{Dict}
use submission_sequencer_bat.Prelude.Effect.{Result, Done}
use submission_sequencer_bat.Json.{Json, Log}
use submission_sequencer_bat.Data.{
  SnapshotSubmission, Batch, BatchSubmission, SequencerAlert, Auth, Receipt,
}

pub record Services : Type 1 where
  pub World : Type 0
  -- time.Now().Unix()
  pub now : World → ℕ
  -- go-redis. A missing key is `ok none`; expirations are in seconds, 0 for none.
  pub redis_get : Text → World → Result (Option Text)
  pub redis_keys : Text → World → Result (List Text)
  pub redis_smembers : Text → World → Result (List Text)
  pub redis_hget : Text → Text → World → Result (Option Text)
  pub redis_hgetall : Text → World → Result (List (Text × Text))
  pub redis_set : Text → Text → ℕ → World → Result Done × World
  pub redis_sadd : Text → List Text → World → Result Done × World
  pub redis_srem : Text → Text → World → Result Done × World
  pub redis_del : List Text → World → Result Done × World
  pub redis_incr : Text → World → Result Done × World
  pub redis_hset : Text → Text → Text → World → Result Done × World
  pub redis_hdel : Text → Text → World → Result Done × World
  -- The alert is posted to the reporting service; the answer is not read.
  pub post_alert : SequencerAlert → World → World
  -- The rewards backend: an answer, or an error of the transport.
  pub post_slot_reward : ℤ → ℤ → World → Result Done × World
  -- go-ethereum: the node, and the contract's methods. A transaction gives its hash in hex.
  pub pending_nonce_at : Text → World → Result ℕ × World
  pub suggest_gas_tip_cap : World → Result ℕ × World
  pub transaction_receipt : Text → World → Result Receipt × World
  pub submit_submission_batch : Auth → BatchSubmission → World → Result Text × World
  pub submit_rewards : Auth → List ℤ → List ℤ → ℕ → World → Result Text × World
  pub end_batch_submissions : Auth → ℕ → World → Result Text × World
  pub query_slot_reward_points : ℤ → World → Result ℕ × World
  pub query_day_counter : World → Result ℕ × World
  pub query_slot_submission_count : ℤ → ℤ → World → Result ℕ × World
  pub query_daily_snapshot_quota : World → Result ℕ × World
  pub query_reward_base_points : World → Result ℕ × World
  -- CurrentEpoch gives a struct whose EpochId may be nil.
  pub query_current_epoch : World → Result (Option ℕ) × World
  pub query_current_batch_id : World → Result ℕ × World
  pub query_epochs_in_a_day : World → Result ℕ × World
  pub query_snapshot_submission_window : World → Result ℕ × World
  -- go-ipfs-api: Add.
  pub ipfs_add : Text → World → Result Text × World
  -- incremental-merkle-tree. A leaf is added in place, and adding one may fail.
  pub Tree : Type 0
  pub new_tree : Result Tree
  pub add_leaf : Text → Tree → Result Done × Tree
  pub root_digest : Tree → Text
  -- protojson.Unmarshal; json.Marshal and json.Unmarshal at the types that the program uses.
  pub unmarshal_submission : Text → Result SnapshotSubmission
  pub marshal_batch : Batch → Result Text
  pub marshal_batch_submission : BatchSubmission → Result Text
  pub unmarshal_batch_submission : Text → Result BatchSubmission
  pub marshal_log : Log → Result Text
  pub unmarshal_log : Text → Result Log
  pub unmarshal_json : Text → Result Json
  -- backoff.Retry(operation, backoff.WithMaxRetries(_, n)), over the variables that the operation
  -- changes.
  pub retry : (S A : Type 0) → ℕ → (S → Result A × S) → S → Result A × S
  -- The entries of a map in the order in which `range` meets them.
  pub range_map : (V : Type 0) → Dict V → Dict V
  -- The order in which the goroutines that are started for some texts come to do their work.
  pub scheduled : List Text → List Text
  -- common.Bytes2Hex
  pub bytes_to_hex : Text → Text
