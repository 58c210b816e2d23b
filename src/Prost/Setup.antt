-- ===== src/Prost/Setup.antt =====
-- The signers' accounts when the program starts: initializeAccounts and NewAccountHandler of
-- pkgs/helpers/prost/accountHandler.go, and InitializeTxManager of pkgs/helpers/prost/txManager.go.
-- The mutexes of the handler are those of Prost.Handler.
pub mod Pairs
use submission_sequencer_bat.Prelude.{ℕ, ◌+◌, List, [], ◌∷◌, ◌++◌, Option, none, some, get_elem?}
use submission_sequencer_bat.Prelude.Text.{Text}
use submission_sequencer_bat.Prelude.Effect.{Result, ok, err, Run, returns, exits, panics, then_run}

-- The private key is what crypto.HexToECDSA makes of its text.
pub record Account : Type 0 where
  pub address : Text
  pub private_key : Text

abbrev pub some_signer : List Account → Run (List Account)
some_signer [] = exits
some_signer (account ∷ accounts) = returns (account ∷ accounts)

module _ (hex_to_address : Text → Text) (hex_to_ecdsa : Text → Result Text) where
  abbrev pub parsed_account : Text → Result Text → Run Account
  parsed_account addr (err e) = exits
  parsed_account addr (ok key) =
      returns (record { address = hex_to_address addr; private_key = key })

  -- PrivateKeys[i] panics out of range, and a key that cannot be parsed ends the process.
  abbrev pub account_with : Text → Option Text → Run Account
  account_with addr none = panics
  account_with addr (some key) = parsed_account addr (hex_to_ecdsa key)

  -- The loop from address `i` on, with the accounts made so far.
  unfoldable pub initialize_from : List Text → ℕ → List Text → List Account → Run (List Account)
  initialize_from private_keys i [] accounts = returns accounts
  initialize_from private_keys i (addr ∷ addrs) accounts =
      then_run (account_with addr (get_elem? private_keys i))
        (λ account. initialize_from private_keys (i + 1) addrs (accounts ++ (account ∷ [])))

  unfoldable pub initialize_accounts : List Text → List Text → Run (List Account)
  unfolding initialize_from
  initialize_accounts addresses private_keys = initialize_from private_keys 0 addresses []

  -- NewAccountHandler: without signers the process ends.
  unfoldable pub initialize_tx_manager : List Text → List Text → Run (List Account)
  unfolding initialize_accounts
  initialize_tx_manager addresses private_keys =
      then_run (initialize_accounts addresses private_keys) some_signer
