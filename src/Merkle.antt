-- ===== src/Merkle.antt =====
-- pkgs/helpers/merkle/merkle.go: the submissions of an epoch are arranged in batches by project,
-- each batch is tallied, hashed, stored and handed on.
pub mod Arrange
pub mod Build
pub mod Tally
pub mod Finalize
