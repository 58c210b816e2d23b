-- ===== src/Data.antt =====
-- The program's own data that cross its borders: pkgs/submission.pb.go (the messages), the structs
-- of pkgs/helpers/ipfs/ipfs.go, the alert of pkgs/helpers/clients/reporting.go, and the signer's
-- transaction options and receipts as the program reads them.
use submission_sequencer_bat.Prelude.{ℕ, Bool, List, Option}
use submission_sequencer_bat.Prelude.Text.{Text}

-- submission.pb.go: Request. Numbers are uint64.
pub record Request : Type 0 where
  pub slot_id : ℕ
  pub deadline : ℕ
  pub snapshot_cid : Text
  pub epoch_id : ℕ
  pub project_id : Text

-- SnapshotSubmission; `request` is a pointer, nil where the message lacks it.
pub record SnapshotSubmission : Type 0 where
  pub request : Option Request
  pub signature : Text
  pub header : Text

pub record Batch : Type 0 where
  pub id : ℕ
  pub submission_ids : List Text
  pub submissions : List Text
  pub root_hash : Text
  pub pids : List Text
  pub cids : List Text

pub record BatchSubmission : Type 0 where
  pub batch : Batch
  pub cid : Text
  pub epoch_id : ℕ
  pub finalized_cids_root_hash : Text

pub data Severity : Type 0 where
  low medium high : Severity

-- SequencerAlert, less its timestamp and its message, which are only read by people.
pub record SequencerAlert : Type 0 where
  pub process_name : Text
  pub severity : Severity

-- What the program sets in bind.TransactOpts.
pub record Auth : Type 0 where
  pub nonce : ℕ
  pub gas_limit : ℕ
  pub from : Text
  pub gas_price : Option ℕ
  pub gas_fee_cap : Option ℕ
  pub gas_tip_cap : Option ℕ

-- types.Receipt: whether its status is ReceiptStatusFailed.
pub record Receipt : Type 0 where
  pub failed : Bool
