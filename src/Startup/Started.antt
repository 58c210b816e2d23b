-- ===== src/Startup/Started.antt =====
-- When the program is started, and with what.
use submission_sequencer_bat.Prelude.{ℕ, ◌≡◌, ◌≢◌, true, List, [], ◌∷◌, ◌++◌, some}
use submission_sequencer_bat.Prelude.Text.{Text}
use submission_sequencer_bat.Prelude.Decimal.{atoi}
use submission_sequencer_bat.Prelude.Effect.{returns}
use submission_sequencer_bat.Services.{Services}
use submission_sequencer_bat.Config.Load.{IsConfigured}
use submission_sequencer_bat.Utils.Logger.{init_logger}
use submission_sequencer_bat.Prost.State.{unpopulated, populate_state_vars}
use submission_sequencer_bat.Prost.Setup.Pairs.{pair_up}
use submission_sequencer_bat.Startup.{Outside, Program, FirstRetry, in_time}

module _ (s : Services) (o : Outside s.World) (args : List Text) (retry : FirstRetry) (tries : ℕ)
    (w : s.World) where
  -- What the program is started with.
  pub record IsStarted (p : Program s.World) : Type 0 where
    pub logged : p.logger ≡ init_logger args
    pub configured : IsConfigured o.getenv o.unmarshal_strings o.hex_to_address p.settings
    pub retried : retry ≡ in_time
    pub dialed : o.dials p.settings.client_url ≡ true
    pub redis_db : atoi p.settings.redis_db ≡ some p.redis.db
    pub redis_addr : p.redis.addr ≡ p.settings.redis_host ++ (b':' ∷ p.settings.redis_port)
    pub populated :
        populate_state_vars s o.latest_block tries unpopulated w ≡ some (p.vars, p.world)
    pub signers :
        pair_up o.hex_to_address o.hex_to_ecdsa p.settings.signer_account_addresses
          p.settings.private_keys
        ≡ returns p.accounts
    pub any_signer : p.accounts ≢ []
