-- ===== src/Tests/Start.antt =====
-- The start of the program, the settings and the text routines on small inputs.
use submission_sequencer_bat.Prelude.{
  All, ◌<◌, ℕ, zero, suc, ◌<◌, ◌≡◌, ◌≢◌, ◌↔◌, refl, true, List, [], ◌∷◌, none, some, filter_by,
  if◌then◌else◌,
}
use submission_sequencer_bat.Prelude.Text.{Text, text, text_eq, or_else, starts_with}
use submission_sequencer_bat.Prelude.Int.{pos}
use submission_sequencer_bat.Prelude.Decimal.{digits, atoi, set_string, parse_digits}
use submission_sequencer_bat.Prelude.Dict.{Dict, lookup, insert}
use submission_sequencer_bat.Prelude.Effect.{Result, ok, err, returns}
use submission_sequencer_bat.Utils.Extract.{extract_field}
use submission_sequencer_bat.Utils.Extract.Laws.{EndsAtLabel, extract_field-panics}
use submission_sequencer_bat.Config.{
  Settings, loaded, missing, required_env_vars, get_env, missing_env_vars, load_config,
}
use submission_sequencer_bat.Config.Missing.{is_unset, load_config-missing}
use submission_sequencer_bat.Config.Load.{IsConfigured, load_config-IsConfigured}
use submission_sequencer_bat.Prost.Flow.{Block}
use submission_sequencer_bat.Prost.State.{
  populate_from_contract, StateVars, unpopulated, populate_state_vars,
}
use submission_sequencer_bat.Prost.State.First.{populate_state_vars-ends}
use submission_sequencer_bat.Prost.State.Restart.{restart-starts_later}
use submission_sequencer_bat.Prost.Processor.Race.{Racing, done, then_turn, compare, start}
use submission_sequencer_bat.Prost.Setup.{initialize_accounts, initialize_tx_manager}
use submission_sequencer_bat.Prost.Setup.Pairs.{pair_up, initialize_accounts-pair_up}
use submission_sequencer_bat.Utils.Logger.{init_logger}
use submission_sequencer_bat.Startup.{Outside, Program, in_time, main}
use submission_sequencer_bat.Data.{high}
use submission_sequencer_bat.Redis.Client.{set}
use submission_sequencer_bat.Clients.Reporting.{send_failure_notification}
use submission_sequencer_bat.Prelude.Machine.{int64}
use submission_sequencer_bat.Tests.Memory.{World, memory, nothing, retries}

extract_field_cid : extract_field (text "x cid:\"Qm\" }") (text "cid") ≡ some (text "Qm")
unfolding extract_field starts_with
extract_field_cid = refl

extract_field-panics_example :
    (extract_field (text "a cid:") (text "cid") ≡ none) ↔ EndsAtLabel (text "a cid:") (text "cid")
extract_field-panics_example = extract_field-panics (text "a cid:") (text "cid")

abbrev environment : Dict Text
environment =
    (text "PROST_RPC_URL", text "http://node")
    ∷ (text "PROTOCOL_STATE_CONTRACT", text "0xc")
    ∷ (text "REDIS_HOST", text "redis")
    ∷ (text "REDIS_DB", text "0")
    ∷ (text "REDIS_PORT", text "6379")
    ∷ (text "IPFS_URL", text "ipfs")
    ∷ (text "DATA_MARKET_CONTRACT", text "0xd")
    ∷ (text "AUTH_READ_TOKEN", text "t")
    ∷ (text "SIGNER_ACCOUNT_ADDRESSES", text "0xa")
    ∷ (text "SIGNER_ACCOUNT_PRIVATE_KEYS", text "1")
    ∷ (text "BATCH_SIZE", text "20")
    ∷ (text "PROST_CHAIN_ID", text "7")
    ∷ (text "BLOCK_TIME", text "2")
    ∷ (text "SLACK_REPORTING_URL", text "slack")
    ∷ (text "REWARDS_BACKEND_URL", text "rewards")
    ∷ (text "HTTP_TIMEOUT", text "10")
    ∷ (text "PERMISSIBLE_BATCHES_PER_ACCOUNT", text "3")
    ∷ []

abbrev getenv : Text → Text
unfolding lookup
getenv name = or_else (lookup name environment) []

-- Lists of one text.
abbrev one_text : Text → Result (List Text)
one_text t = ok (t ∷ [])

abbrev settings : Settings
settings = record {
  client_url = text "http://node";
  contract_address = text "0xc";
  redis_host = text "redis";
  redis_port = text "6379";
  redis_db = text "0";
  ipfs_url = text "ipfs";
  data_market_address = text "0xd";
  data_market_contract_address = text "0xd";
  signer_account_addresses = text "0xa" ∷ [];
  private_keys = text "1" ∷ [];
  auth_read_token = text "t";
  auth_write_token = [];
  batch_size = pos 20;
  chain_id = pos 7;
  block_time = pos 2;
  http_timeout = pos 10;
  slack_reporting_url = text "slack";
  rewards_backend_url = text "rewards";
  permissible_batches_per_account = pos 3;
}

load_config-IsConfigured_example :
    (load_config getenv one_text (λ t. t) ≡ loaded settings)
    ↔ IsConfigured getenv one_text (λ t. t) settings
load_config-IsConfigured_example = load_config-IsConfigured getenv one_text (λ t. t) settings

-- The settings are those that are loaded.
settings_loaded : load_config getenv one_text (λ t. t) ≡ loaded settings
unfolding load_config missing_env_vars get_env lookup text_eq atoi set_string parse_digits
settings_loaded = refl

-- Nothing is set.
load_config-missing_example :
    (load_config (λ name. []) one_text (λ t. t) ≡ missing required_env_vars) ↔ (
      (required_env_vars ≡ filter_by (is_unset (λ name. [])) required_env_vars)
      × (required_env_vars ≢ []))
load_config-missing_example = load_config-missing (λ name. []) one_text (λ t. t) required_env_vars

-- The node does not answer while it is down.
abbrev latest_block : World → Result Block × World
latest_block w = elim w.down [
  | zero ↦ (ok (record { block_number = 100; hash = text "0x64" }), w)
  | suc n ↦ (err (text "no connection"), record w { down = n })
]

abbrev down_twice : World
down_twice = record nothing { down = 2 }

abbrev populated : StateVars
populated = record {
  current_block = some (record { block_number = 100; hash = text "0x64" });
  current_epoch_id = 11;
  batch_id = pos 40;
  epochs_per_day = 3;
  day = some 3;
  daily_snapshot_quota = some 2;
  reward_base_points = some 100;
}

populate_state_vars-ends_example :
    (first : Block) × (st : StateVars) × (w' : World) × ((tries : ℕ)
      → 2 < tries
      → populate_state_vars memory latest_block tries unpopulated down_twice ≡ some (st, w'))
    × (st.current_block ≡ some first)
populate_state_vars-ends_example =
    populate_state_vars-ends memory latest_block 2 unpopulated down_twice
      (record { block_number = 100; hash = text "0x64" }) refl

-- The world after the start.
abbrev running : World
running = record nothing {
  values = (text "CurrentEpochID", text "11") ∷ [];
  alerts = record { process_name = text "Contract query error [MustQuery]"; severity = high } ∷ [];
}

starts_populated :
    populate_state_vars memory latest_block 3 unpopulated down_twice ≡ some (populated, running)
unfolding populate_state_vars populate_from_contract set send_failure_notification retries insert
    digits int64
starts_populated = refl

abbrev at_thirteen : Racing
at_thirteen = record { current_epoch = 13; compared = []; started = 13 ∷ [] }

restart-starts_later_example : All (λ started. 11 < started) at_thirteen.started
restart-starts_later_example =
    restart-starts_later memory latest_block 11 (λ w. refl) 3 unpopulated populated down_twice
      running starts_populated at_thirteen
      (then_turn (then_turn done (compare 13 refl)) (start [] 13 [] refl))

-- The second key cannot be parsed.
abbrev parse_key : Text → Result Text
parse_key t = if text_eq t (text "1") then ok (text "one") else err (text "invalid hex")

initialize_accounts-pair_up_example :
    initialize_accounts (λ t. t) parse_key (text "0xa" ∷ text "0xb" ∷ []) (text "1" ∷ text "2" ∷ [])
    ≡ pair_up (λ t. t) parse_key (text "0xa" ∷ text "0xb" ∷ []) (text "1" ∷ text "2" ∷ [])
initialize_accounts-pair_up_example =
    initialize_accounts-pair_up (λ t. t) parse_key (text "0xa" ∷ text "0xb" ∷ [])
      (text "1" ∷ text "2" ∷ [])

abbrev outside : Outside World
outside = record {
  getenv = getenv;
  unmarshal_strings = one_text;
  hex_to_address = λ t. t;
  hex_to_ecdsa = parse_key;
  dials = λ url. true;
  latest_block = latest_block;
}

abbrev program : Program World
program = record {
  logger = record { level = 4; stderr_levels = 0 ∷ 1 ∷ 2 ∷ 3 ∷ []; stdout_levels = 6 ∷ 4 ∷ 5 ∷ [] };
  settings = settings;
  redis = record { addr = text "redis:6379"; db = pos 0 };
  vars = populated;
  accounts = record { address = text "0xa"; private_key = text "one" } ∷ [];
  world = running;
}

abbrev args : List Text
args = text "sequencer" ∷ text "4" ∷ []

program_starts : main memory outside args in_time 3 down_twice ≡ returns program
unfolding main initialize_tx_manager init_logger atoi set_string parse_digits text_eq
program_starts = rw (settings_loaded, starts_populated)
