-- ===== src/Ipfs.antt =====
-- StoreOnIPFS of pkgs/helpers/ipfs/ipfs.go: the batch as JSON, with at most three more attempts.
use submission_sequencer_bat.Prelude.Text.{Text}
use submission_sequencer_bat.Prelude.Effect.{Result, ok, err, M, pure}
use submission_sequencer_bat.Data.{Batch}
use submission_sequencer_bat.Services.{Services}

unfoldable pub store_on_ipfs : (s : Services) → Batch → M s.World (Result Text)
store_on_ipfs s batch = elim (s.marshal_batch batch) [
  | err e ↦ pure (err e)
  | ok json ↦ s.retry s.World Text 3 (s.ipfs_add json)
]
