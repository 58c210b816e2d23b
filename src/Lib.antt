-- ===== src/Lib.antt =====
-- The submission sequencer of a data market: snapshotters send submissions, which a collector keeps
-- in Redis under keys of three dotted parts. When an epoch's submission window has passed, the
-- sequencer arranges the keys by project into batches (merkle), counts which CID each project has
-- most submissions for, builds each batch (a Merkle tree, IPFS, a log), and commits the batches to
-- the protocol's contract from several accounts (prost). Once a day it sends the slots' submission
-- counts to the contract for their rewards. An HTTP service shows the logs that the other parts
-- leave in Redis, and the slots' submissions and rewards.
--
-- Modules, and the code that they model:
--   Data: the messages of pkgs/submission.pb.go, the structs of pkgs/helpers/ipfs/ipfs.go, the alert
--     of pkgs/helpers/clients/reporting.go, and what is used of transaction options and receipts.
--   Json: decoded JSON, and the log entries.
--   Services: what the program calls and does not implement, as one record: Redis, the node and the
--     contract, IPFS, the Merkle tree, the JSON codecs and that of hex, the retries, the order of map
--     walks and that of goroutines.
--   Constants: pkgs/constants.go. Config: config/settings.go, with Missing for the variables that are
--     reported and Load for the settings.
--   Redis: pkgs/helpers/redis. Keys are texts of dotted parts; the operations pass the world on.
--   Clients.Reporting: SendFailureNotification. Ipfs: StoreOnIPFS. Utils:
--     AppendToLogEntry of pkgs/helpers/utils/strings.go; Utils.Extract: ExtractField; Utils.Logger:
--     logger.go.
--   Merkle: pkgs/helpers/merkle/merkle.go. Arrange is arrangeKeysInBatches, Tally the inner loop of
--     finalizeBatches, Finalize the outer loop and BuildBatchSubmissions, Build is BuildBatch.
--   Prost.Account: an account's transaction options in pkgs/helpers/prost/accountHandler.go, and
--     extractNonceFromError. Prost.Handler: GetFreeAccount and ReleaseAccount as a step relation.
--   Prost.TxManager: pkgs/helpers/prost/txManager.go, with Send for what all transactions share.
--     Commit, Rewards, Ensure and RewardEnsure are the rest of it. Prost.Contract and Prost.Rewards:
--     pkgs/helpers/prost/contract.go and rewardsHandler.go. Prost.Processor and Prost.Flow:
--     processor.go, with UpdateRewards of rewardsHandler.go, which compose the other parts.
--     Prost.Chain: StartFetchingBlocks of chain.go. Prost.State: PopulateStateVars of contract.go.
--     Prost.Setup: initializeAccounts, NewAccountHandler and InitializeTxManager.
--   Clients.RewardsBackend: pkgs/helpers/clients/rewardsBackend.go.
--   Service: pkgs/service/api.go. Reply has the requests, the replies and the tests that handlers
--     begin with; Contract the queries; Logs, Counts, Epochs, Daily, Total, Days and Updates the
--     handlers; Refusals what they refuse; Routes is StartApiServer, with httpSwagger's
--     handler as an argument.
--   Startup: cmd/main.go, which sets up the other parts, NewRedisClient and ConfigureClient.
--   Prelude: shared helpers. Tests: runs on small inputs over services in memory.
--
-- State is passed explicitly: an operation takes the world and gives its result and the world it
-- leaves. Errors are values, a panic is a constructor of the outcome. Logging is left out, and so
-- are the texts of alerts and refusals, which only people read. Expirations are in seconds. Where a
-- part reads a setting or the base fee of the current block, it is an argument. The goroutines of
-- one call are run in the order in which they start, except where the order matters: the service's
-- channel delivers, and the slots' rewards are assigned, in any order; callers of the account
-- handler, and the goroutines of the blocks that share CurrentEpochID (Prost.Processor.Race), take
-- their steps in every order; and the goroutine of the rewards backend comes to the Redis client
-- before or after it is set (Startup).
-- Otherwise the run of an epoch is not interleaved with that of another one.
--
-- Loops over lists are by recursion on the list. Printing a number has more fuel than it has digits
-- (the number and one), which parse_digits-digits relies on. The rounds of the resubmission
-- loops are the limits in pkgs/constants.go, counted down, so these loops always end.
--
-- PopulateStateVars asks for the latest block until it gets one, so it has a number of tries; it
-- gives the same however many there are beyond the first one that is answered. The endless loop
-- of StartFetchingBlocks is its first rounds, however many.
--
-- Not modelled: generated code (the contract's bindings, the protobuf methods, the API's
-- documentation), the connections to services, and what is logged.
mod Prelude
pub mod Json
pub mod Data
pub mod Services
pub mod Constants
pub mod Config
pub mod Redis
pub mod Clients
pub mod Ipfs
pub mod Utils
pub mod Merkle
pub mod Prost
pub mod Service
pub mod Startup
mod Tests
