-- ===== src/Prost/TxManager.antt =====
-- pkgs/helpers/prost/txManager.go. An account's options are given where it was locked; they are
-- taken to be set, as SetupAuth sets them unless the node fails.
pub mod Send
pub mod Commit
pub mod Rewards
pub mod Ensure
pub mod RewardEnsure
