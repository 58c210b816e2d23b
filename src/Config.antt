-- ===== src/Config.antt =====
-- config/settings.go: LoadConfig. The environment is what os.Getenv gives, an empty text for a
-- variable that is not set. A list of texts is read by json.Unmarshal, an address by HexToAddress.
pub mod Missing
pub mod Load
use submission_sequencer_bat.Prelude.{ℕ, List, [], ◌∷◌, Option, none, some}
use submission_sequencer_bat.Prelude.Text.{Text, text}
use submission_sequencer_bat.Prelude.Int.{ℤ}
use submission_sequencer_bat.Prelude.Decimal.{atoi}
use submission_sequencer_bat.Prelude.Effect.{Result, ok, err}

pub record Settings : Type 0 where
  pub client_url : Text
  pub contract_address : Text
  pub redis_host : Text
  pub redis_port : Text
  pub redis_db : Text
  pub ipfs_url : Text
  pub data_market_address : Text
  pub data_market_contract_address : Text
  pub signer_account_addresses : List Text
  pub private_keys : List Text
  pub auth_read_token : Text
  pub auth_write_token : Text
  pub batch_size : ℤ
  pub chain_id : ℤ
  pub block_time : ℤ
  pub http_timeout : ℤ
  pub slack_reporting_url : Text
  pub rewards_backend_url : Text
  pub permissible_batches_per_account : ℤ

-- A value, or what log.Fatalf reports when it ends the process: the variables that are missing, or
-- the one that cannot be parsed.
pub data Loaded (A : Type 0) : Type 0 where
  loaded : A → Loaded A
  missing : List Text → Loaded A
  unparsable : Text → Loaded A

infixl 5 ◌>>=◌
abbrev pub ◌>>=◌ : {A B : Type 0} → Loaded A → (A → Loaded B) → Loaded B
loaded a >>= f = f a
missing names >>= f = missing names
unparsable name >>= f = unparsable name

abbrev pub required_env_vars : List Text
required_env_vars =
    text "PROST_RPC_URL"
    ∷ text "PROTOCOL_STATE_CONTRACT"
    ∷ text "REDIS_HOST"
    ∷ text "REDIS_DB"
    ∷ text "REDIS_PORT"
    ∷ text "IPFS_URL"
    ∷ text "DATA_MARKET_CONTRACT"
    ∷ text "AUTH_READ_TOKEN"
    ∷ text "SIGNER_ACCOUNT_ADDRESSES"
    ∷ text "SIGNER_ACCOUNT_PRIVATE_KEYS"
    ∷ text "BATCH_SIZE"
    ∷ text "PROST_CHAIN_ID"
    ∷ text "BLOCK_TIME"
    ∷ text "SLACK_REPORTING_URL"
    ∷ text "REWARDS_BACKEND_URL"
    ∷ text "HTTP_TIMEOUT"
    ∷ text "PERMISSIBLE_BATCHES_PER_ACCOUNT"
    ∷ []

abbrev pub or_default : Text → Text → Text
or_default [] default_value = default_value
or_default (c ∷ value) default_value = c ∷ value

abbrev pub unset : Text → Text → List Text → List Text
unset [] name rest = name ∷ rest
unset (c ∷ value) name rest = rest

abbrev pub list_or_fatal : Text → Result (List Text) → Loaded (List Text)
list_or_fatal name (err e) = unparsable name
list_or_fatal name (ok xs) = loaded xs

abbrev pub int_or_fatal : Text → Option ℤ → Loaded ℤ
int_or_fatal name none = unparsable name
int_or_fatal name (some z) = loaded z

abbrev pub fatal_if_missing : List Text → Loaded Settings → Loaded Settings
fatal_if_missing [] parsed = parsed
fatal_if_missing (name ∷ names) parsed = missing (name ∷ names)

module _ (getenv : Text → Text) where
  unfoldable pub get_env : Text → Text → Text
  get_env key default_value = or_default (getenv key) default_value

  -- The loop over the required variables.
  unfoldable pub missing_env_vars : List Text → List Text
  unfolding get_env
  missing_env_vars [] = []
  missing_env_vars (name ∷ names) = unset (get_env name []) name (missing_env_vars names)

  -- strconv.Atoi or ParseInt of a variable.
  abbrev pub read_int : Text → Loaded ℤ
  unfolding get_env
  read_int name = int_or_fatal name (atoi (get_env name []))

module _ (getenv : Text → Text) (unmarshal_strings : Text → Result (List Text))
    (hex_to_address : Text → Text) where
  abbrev pub read_list : Text → Loaded (List Text)
  unfolding get_env
  read_list name = list_or_fatal name (unmarshal_strings (get_env getenv name (text "[]")))

  abbrev pub settings_of : List Text → List Text → ℤ → ℤ → ℤ → ℤ → ℤ → Settings
  unfolding get_env
  settings_of addresses keys chain_id batch_size permissible block_time http_timeout = record {
    client_url = get_env getenv (text "PROST_RPC_URL") [];
    contract_address = get_env getenv (text "PROTOCOL_STATE_CONTRACT") [];
    redis_host = get_env getenv (text "REDIS_HOST") [];
    redis_port = get_env getenv (text "REDIS_PORT") [];
    redis_db = get_env getenv (text "REDIS_DB") [];
    ipfs_url = get_env getenv (text "IPFS_URL") [];
    data_market_address = get_env getenv (text "DATA_MARKET_CONTRACT") [];
    data_market_contract_address = hex_to_address (get_env getenv (text "DATA_MARKET_CONTRACT") []);
    signer_account_addresses = addresses;
    private_keys = keys;
    auth_read_token = get_env getenv (text "AUTH_READ_TOKEN") [];
    auth_write_token = get_env getenv (text "AUTH_WRITE_TOKEN") [];
    batch_size = batch_size;
    chain_id = chain_id;
    block_time = block_time;
    http_timeout = http_timeout;
    slack_reporting_url = get_env getenv (text "SLACK_REPORTING_URL") [];
    rewards_backend_url = get_env getenv (text "REWARDS_BACKEND_URL") [];
    permissible_batches_per_account = permissible;
  }

  -- What is parsed, in the order in which it is.
  unfoldable pub parse_settings : Loaded Settings
  parse_settings = do
    addresses ← read_list (text "SIGNER_ACCOUNT_ADDRESSES")
    keys ← read_list (text "SIGNER_ACCOUNT_PRIVATE_KEYS")
    chain_id ← read_int getenv (text "PROST_CHAIN_ID")
    batch_size ← read_int getenv (text "BATCH_SIZE")
    permissible ← read_int getenv (text "PERMISSIBLE_BATCHES_PER_ACCOUNT")
    block_time ← read_int getenv (text "BLOCK_TIME")
    http_timeout ← read_int getenv (text "HTTP_TIMEOUT")
    loaded (settings_of addresses keys chain_id batch_size permissible block_time http_timeout)

  unfoldable pub load_config : Loaded Settings
  unfolding parse_settings
  load_config = fatal_if_missing (missing_env_vars getenv required_env_vars) parse_settings
