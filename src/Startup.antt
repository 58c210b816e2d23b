-- ===== src/Startup.antt =====
-- cmd/main.go, with NewRedisClient of pkgs/helpers/redis/client.go and ConfigureClient of
-- pkgs/helpers/prost/chain.go: what the program does before it serves requests and fetches blocks.
-- Making the HTTP clients of the reporting service, the rewards backend and IPFS, and binding the
-- contract, cannot fail.
pub mod Started
use submission_sequencer_bat.Prelude.{ℕ, Bool, true, false, List, [], ◌∷◌, ◌++◌, Option, none, some}
use submission_sequencer_bat.Prelude.Text.{Text}
use submission_sequencer_bat.Prelude.Int.{ℤ, pos}
use submission_sequencer_bat.Prelude.Decimal.{atoi}
use submission_sequencer_bat.Prelude.Effect.{
  Result, Done, Run, returns, exits, panics, runs_on, then_run,
}
use submission_sequencer_bat.Services.{Services}
use submission_sequencer_bat.Config.{Settings, Loaded, loaded, missing, unparsable, load_config}
use submission_sequencer_bat.Utils.Logger.{Logger, init_logger}
use submission_sequencer_bat.Prost.Flow.{Block}
use submission_sequencer_bat.Prost.State.{StateVars, unpopulated, populate_state_vars}
use submission_sequencer_bat.Prost.Setup.{Account, initialize_tx_manager}

infixl 5 ◌>>=◌
abbrev pub ◌>>=◌ : {A B : Type 0} → Run A → (A → Run B) → Run B
m >>= f = then_run m f

-- redis.Options, as far as they are read from the settings.
pub record RedisOptions : Type 0 where
  pub addr : Text
  pub db : ℤ

abbrev pub options_with : Settings → Option ℤ → Run RedisOptions
options_with settings none = exits
options_with settings (some db) =
    returns (record { addr = settings.redis_host ++ (b':' ∷ settings.redis_port); db = db })

unfoldable pub new_redis_client : Settings → Run RedisOptions
new_redis_client settings = options_with settings (atoi settings.redis_db)

-- Where InitializeRewardsBackendClient's goroutine PeriodicSlotRewardRetry comes to its first call
-- of redis.RedisClient: while the node is dialled, while the client is made, or when main has set
-- the variable.
pub data FirstRetry : Type 0 where
  while_dialing while_connecting in_time : FirstRetry

-- The call of a nil client panics, which ends the process.
abbrev pub retry_while_dialing : FirstRetry → Run Done
retry_while_dialing while_dialing = panics
retry_while_dialing while_connecting = returns tt
retry_while_dialing in_time = returns tt

abbrev pub retry_while_connecting : FirstRetry → Run Done
retry_while_connecting while_dialing = returns tt
retry_while_connecting while_connecting = panics
retry_while_connecting in_time = returns tt

-- Everything that is set up when the service and the loop over the blocks are started.
pub record Program (World : Type 0) : Type 0 where
  pub logger : Logger
  pub settings : Settings
  pub redis : RedisOptions
  pub vars : StateVars
  pub accounts : List Account
  pub world : World

abbrev pub or_exit : Loaded Settings → Run Settings
or_exit (loaded settings) = returns settings
or_exit (missing names) = exits
or_exit (unparsable name) = exits

abbrev pub or_runs_on : {A : Type 0} → Option A → Run A
or_runs_on none = runs_on
or_runs_on (some a) = returns a

-- What the program takes from outside: the environment, json.Unmarshal of a list of texts,
-- HexToAddress, HexToECDSA, whether rpc.DialOptions takes a URL, and the node's latest block.
pub record Outside (World : Type 0) : Type 0 where
  pub getenv : Text → Text
  pub unmarshal_strings : Text → Result (List Text)
  pub hex_to_address : Text → Text
  pub hex_to_ecdsa : Text → Result Text
  pub dials : Text → Bool
  pub latest_block : World → Result Block × World

module _ (s : Services) (o : Outside s.World) where
  abbrev pub connected : Bool → Run Done
  connected true = returns tt
  connected false = exits

  unfoldable pub configure_client : Settings → Run Done
  configure_client settings = connected (o.dials settings.client_url)

  -- `tries` calls for the latest block; with none of them answered the program is still at it.
  unfoldable pub main : List Text → FirstRetry → ℕ → s.World → Run (Program s.World)
  unfolding configure_client new_redis_client
  main args retry tries w = do
    settings ← or_exit (load_config o.getenv o.unmarshal_strings o.hex_to_address)
    dialing ← retry_while_dialing retry
    client ← configure_client settings
    connecting ← retry_while_connecting retry
    redis ← new_redis_client settings
    populated ← or_runs_on (populate_state_vars s o.latest_block tries unpopulated w)
    accounts ←
        initialize_tx_manager o.hex_to_address o.hex_to_ecdsa settings.signer_account_addresses
          settings.private_keys
    returns (record {
      logger = init_logger args;
      settings = settings;
      redis = redis;
      vars = populated.0;
      accounts = accounts;
      world = populated.1;
    })
