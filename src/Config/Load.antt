-- ===== src/Config/Load.antt =====
-- When the settings are loaded, and what is reported when they are not.
use submission_sequencer_bat.Prelude.{
  ◌≡◌, ◌↔◌, refl, sym, ap, subst, ◌∙◌, List, [], ◌∷◌, Option, none, some, All,
}
use submission_sequencer_bat.Prelude.Text.{Text, text}
use submission_sequencer_bat.Prelude.Int.{ℤ}
use submission_sequencer_bat.Prelude.Decimal.{atoi}
use submission_sequencer_bat.Prelude.Effect.{Result, ok, err}
use submission_sequencer_bat.Config.Missing.{
  or_default-nil, or_default-set, IsGiven, missing-All, All-missing,
}
use submission_sequencer_bat.Config.{
  Settings, Loaded, loaded, missing, unparsable, ◌>>=◌, required_env_vars, list_or_fatal,
  int_or_fatal, fatal_if_missing, get_env, read_int, read_list, settings_of, parse_settings,
  load_config,
}

>>=-loaded :
    {A B : Type 0} (m : Loaded A) (f : A → Loaded B) (b : B)
    → (m >>= f) ≡ loaded b
    → (a : A) × (m ≡ loaded a) × (f a ≡ loaded b)
>>=-loaded (loaded a) f b h = (a, refl, h)
>>=-loaded (missing names) f b h = cc
>>=-loaded (unparsable name) f b h = cc

list_or_fatal-loaded :
    (name : Text) (r : Result (List Text)) (xs : List Text)
    → list_or_fatal name r ≡ loaded xs
    → r ≡ ok xs
list_or_fatal-loaded name (err e) xs h = cc
list_or_fatal-loaded name (ok ys) xs h = cc

int_or_fatal-loaded :
    (name : Text) (o : Option ℤ) (z : ℤ) → int_or_fatal name o ≡ loaded z → o ≡ some z
int_or_fatal-loaded name none z h = cc
int_or_fatal-loaded name (some y) z h = cc

fatal_if_missing-loaded :
    (names : List Text) (parsed : Loaded Settings) (st : Settings)
    → fatal_if_missing names parsed ≡ loaded st
    → (names ≡ []) × (parsed ≡ loaded st)
fatal_if_missing-loaded [] parsed st h = (refl, h)
fatal_if_missing-loaded (n ∷ names) parsed st h = cc

module _ (getenv : Text → Text) (unmarshal_strings : Text → Result (List Text))
    (hex_to_address : Text → Text) where
  -- The settings that an environment describes.
  pub record IsConfigured (st : Settings) : Type 0 where
    pub all_set : All (IsGiven getenv) required_env_vars
    pub addresses :
        unmarshal_strings (getenv (text "SIGNER_ACCOUNT_ADDRESSES"))
        ≡ ok st.signer_account_addresses
    pub keys : unmarshal_strings (getenv (text "SIGNER_ACCOUNT_PRIVATE_KEYS")) ≡ ok st.private_keys
    pub chain_id : atoi (getenv (text "PROST_CHAIN_ID")) ≡ some st.chain_id
    pub batch_size : atoi (getenv (text "BATCH_SIZE")) ≡ some st.batch_size
    pub permissible :
        atoi (getenv (text "PERMISSIBLE_BATCHES_PER_ACCOUNT"))
        ≡ some st.permissible_batches_per_account
    pub block_time : atoi (getenv (text "BLOCK_TIME")) ≡ some st.block_time
    pub http_timeout : atoi (getenv (text "HTTP_TIMEOUT")) ≡ some st.http_timeout
    pub client_url : st.client_url ≡ getenv (text "PROST_RPC_URL")
    pub contract_address : st.contract_address ≡ getenv (text "PROTOCOL_STATE_CONTRACT")
    pub redis_host : st.redis_host ≡ getenv (text "REDIS_HOST")
    pub redis_port : st.redis_port ≡ getenv (text "REDIS_PORT")
    pub redis_db : st.redis_db ≡ getenv (text "REDIS_DB")
    pub ipfs_url : st.ipfs_url ≡ getenv (text "IPFS_URL")
    pub data_market : st.data_market_address ≡ getenv (text "DATA_MARKET_CONTRACT")
    pub data_market_contract :
        st.data_market_contract_address ≡ hex_to_address (getenv (text "DATA_MARKET_CONTRACT"))
    pub read_token : st.auth_read_token ≡ getenv (text "AUTH_READ_TOKEN")
    pub write_token : st.auth_write_token ≡ getenv (text "AUTH_WRITE_TOKEN")
    pub slack_reporting_url : st.slack_reporting_url ≡ getenv (text "SLACK_REPORTING_URL")
    pub rewards_backend_url : st.rewards_backend_url ≡ getenv (text "REWARDS_BACKEND_URL")

  env-nil : (key : Text) → get_env getenv key [] ≡ getenv key
  unfolding get_env
  env-nil key = or_default-nil (getenv key)

  read_int-loaded :
      (key : Text) (z : ℤ) → read_int getenv key ≡ loaded z → atoi (getenv key) ≡ some z
  unfolding get_env
  read_int-loaded key z h = int_or_fatal-loaded key _ z (rw (← or_default-nil (getenv key)) h)

  read_list-loaded :
      (key : Text) (xs : List Text)
      → IsGiven getenv key
      → read_list getenv unmarshal_strings hex_to_address key ≡ loaded xs
      → unmarshal_strings (getenv key) ≡ ok xs
  unfolding get_env
  read_list-loaded key xs is_set h =
      rw (← or_default-set (getenv key) (text "[]") is_set) (list_or_fatal-loaded key _ xs h)

  int-read : (key : Text) (z : ℤ) → atoi (getenv key) ≡ some z → read_int getenv key ≡ loaded z
  unfolding get_env
  int-read key z h = rw (or_default-nil (getenv key), h)

  list-read :
      (key : Text) (xs : List Text)
      → IsGiven getenv key
      → unmarshal_strings (getenv key) ≡ ok xs
      → read_list getenv unmarshal_strings hex_to_address key ≡ loaded xs
  unfolding get_env
  list-read key xs is_set h = rw (or_default-set (getenv key) (text "[]") is_set, h)

  -- The variables of the lists stand ninth and tenth.
  addresses_set :
      All (IsGiven getenv) required_env_vars → IsGiven getenv (text "SIGNER_ACCOUNT_ADDRESSES")
  addresses_set h = h.1.1.1.1.1.1.1.1.0

  keys_set :
      All (IsGiven getenv) required_env_vars → IsGiven getenv (text "SIGNER_ACCOUNT_PRIVATE_KEYS")
  keys_set h = h.1.1.1.1.1.1.1.1.1.0

  abbrev settings : List Text → List Text → ℤ → ℤ → ℤ → ℤ → ℤ → Settings
  settings = settings_of getenv unmarshal_strings hex_to_address

  parse_settings-IsConfigured :
      (st : Settings)
      → All (IsGiven getenv) required_env_vars
      → parse_settings getenv unmarshal_strings hex_to_address ≡ loaded st
      → IsConfigured st
  unfolding parse_settings get_env
  parse_settings-IsConfigured st all h =
      let (addresses, e₁, h₁) = >>=-loaded _ _ st h in
      let (keys, e₂, h₂) = >>=-loaded _ _ st h₁ in
      let (chain_id, e₃, h₃) = >>=-loaded _ _ st h₂ in
      let (batch_size, e₄, h₄) = >>=-loaded _ _ st h₃ in
      let (permissible, e₅, h₅) = >>=-loaded _ _ st h₄ in
      let (block_time, e₆, h₆) = >>=-loaded _ _ st h₅ in
      let (http_timeout, e₇, h₇) = >>=-loaded _ _ st h₆ in
      let same : settings addresses keys chain_id batch_size permissible block_time http_timeout
          ≡ st =
        cc in
      subst IsConfigured same (record {
        all_set = all;
        addresses = read_list-loaded _ addresses (addresses_set all) e₁;
        keys = read_list-loaded _ keys (keys_set all) e₂;
        chain_id = read_int-loaded _ chain_id e₃;
        batch_size = read_int-loaded _ batch_size e₄;
        permissible = read_int-loaded _ permissible e₅;
        block_time = read_int-loaded _ block_time e₆;
        http_timeout = read_int-loaded _ http_timeout e₇;
        client_url = env-nil _;
        contract_address = env-nil _;
        redis_host = env-nil _;
        redis_port = env-nil _;
        redis_db = env-nil _;
        ipfs_url = env-nil _;
        data_market = env-nil _;
        data_market_contract = ap hex_to_address (env-nil _);
        read_token = env-nil _;
        write_token = env-nil _;
        slack_reporting_url = env-nil _;
        rewards_backend_url = env-nil _;
      })

  IsConfigured-settings :
      (st : Settings)
      → IsConfigured st
      → settings st.signer_account_addresses st.private_keys st.chain_id st.batch_size
          st.permissible_batches_per_account st.block_time st.http_timeout
        ≡ st
  unfolding get_env
  IsConfigured-settings st c = λ i. record st {
    client_url = (env-nil (text "PROST_RPC_URL") ∙ sym c.client_url) i;
    contract_address = (env-nil (text "PROTOCOL_STATE_CONTRACT") ∙ sym c.contract_address) i;
    redis_host = (env-nil (text "REDIS_HOST") ∙ sym c.redis_host) i;
    redis_port = (env-nil (text "REDIS_PORT") ∙ sym c.redis_port) i;
    redis_db = (env-nil (text "REDIS_DB") ∙ sym c.redis_db) i;
    ipfs_url = (env-nil (text "IPFS_URL") ∙ sym c.ipfs_url) i;
    data_market_address = (env-nil (text "DATA_MARKET_CONTRACT") ∙ sym c.data_market) i;
    data_market_contract_address =
        (ap hex_to_address (env-nil (text "DATA_MARKET_CONTRACT")) ∙ sym c.data_market_contract) i;
    auth_read_token = (env-nil (text "AUTH_READ_TOKEN") ∙ sym c.read_token) i;
    auth_write_token = (env-nil (text "AUTH_WRITE_TOKEN") ∙ sym c.write_token) i;
    slack_reporting_url = (env-nil (text "SLACK_REPORTING_URL") ∙ sym c.slack_reporting_url) i;
    rewards_backend_url = (env-nil (text "REWARDS_BACKEND_URL") ∙ sym c.rewards_backend_url) i;
  }

  IsConfigured-loaded :
      (st : Settings)
      → IsConfigured st
      → load_config getenv unmarshal_strings hex_to_address ≡ loaded st
  unfolding load_config
  IsConfigured-loaded st c =
      rw
        (
          All-missing getenv required_env_vars c.all_set,
          list-read _ _ (addresses_set c.all_set) c.addresses,
          list-read _ _ (keys_set c.all_set) c.keys,
          int-read _ _ c.chain_id,
          int-read _ _ c.batch_size,
          int-read _ _ c.permissible,
          int-read _ _ c.block_time,
          int-read _ _ c.http_timeout,
        )
        (ap loaded (IsConfigured-settings st c))

  loaded-IsConfigured :
      (st : Settings)
      → load_config getenv unmarshal_strings hex_to_address ≡ loaded st
      → IsConfigured st
  unfolding load_config
  loaded-IsConfigured st h =
      let (none_missing, parsed) = fatal_if_missing-loaded _ _ st h in
      parse_settings-IsConfigured st (missing-All getenv required_env_vars none_missing) parsed

  -- LoadConfig gives settings just when all required variables are set, the two lists of the signers
  -- can be decoded and the five numbers read as ints; each setting is then what its own variable
  -- holds. In all other cases the process ends.
  pub load_config-IsConfigured :
      (st : Settings)
      → (load_config getenv unmarshal_strings hex_to_address ≡ loaded st) ↔ IsConfigured st
  load_config-IsConfigured st = (loaded-IsConfigured st, IsConfigured-loaded st)
