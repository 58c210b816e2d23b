-- ===== src/Tests.antt =====
-- Runs of the model on small inputs, over services that keep everything in memory.
mod Memory
mod Merkle
mod Prost
mod Service
mod Rewards
mod Ensure
mod Epochs
mod Start
mod ReadBack
mod Quota
mod Clients
mod Commit
