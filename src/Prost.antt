-- ===== src/Prost.antt =====
-- pkgs/helpers/prost: the signers' accounts, the transactions, the blocks and the rewards.
pub mod Account
pub mod Handler
pub mod TxManager
pub mod Contract
pub mod Rewards
pub mod Processor
pub mod Flow
pub mod Chain
pub mod State
pub mod Setup
