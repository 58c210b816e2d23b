-- ===== src/Prost/Setup/Pairs.antt =====
-- Each address gets the key at its own place.
use mathlib.Core.List.{append_assoc, append-nil}
use submission_sequencer_bat.Prelude.{
  ℕ, zero, suc, ◌+◌, ◌≡◌, refl, sym, ap, ◌∙◌, List, [], ◌∷◌, ◌++◌, get_elem?, drop, arith,
}
use submission_sequencer_bat.Prelude.Text.{Text}
use submission_sequencer_bat.Prelude.Effect.{
  Result, ok, err, Run, returns, exits, panics, runs_on, then_run,
}
use submission_sequencer_bat.Prost.Setup.{
  Account, parsed_account, initialize_from, initialize_accounts,
}

get_elem?-drop : {A : Type 0} (xs : List A) (i : ℕ) → get_elem? xs i ≡ get_elem? (drop i xs) 0
get_elem?-drop [] zero = refl
get_elem?-drop [] (suc i) = refl
get_elem?-drop (x ∷ xs) zero = refl
get_elem?-drop (x ∷ xs) (suc i) = get_elem?-drop xs i

abbrev rest_of : {A : Type 0} → List A → List A
rest_of [] = []
rest_of (x ∷ xs) = xs

drop-suc : {A : Type 0} (xs : List A) (i : ℕ) → drop (suc i) xs ≡ rest_of (drop i xs)
drop-suc [] zero = refl
drop-suc [] (suc i) = refl
drop-suc (x ∷ xs) zero = refl
drop-suc (x ∷ xs) (suc i) = drop-suc xs i

drop_next : {A : Type 0} (xs : List A) (i : ℕ) → drop (i + 1) xs ≡ rest_of (drop i xs)
drop_next xs i = let next : i + 1 ≡ suc i = omega arith in rw next (drop-suc xs i)

module _ (hex_to_address : Text → Text) (hex_to_ecdsa : Text → Result Text) where
  -- Addresses and keys walked side by side: the first key that cannot be parsed ends the process,
  -- and an address without a key panics, whichever comes first. Keys left over are not looked at.
  unfoldable pub pair_up : List Text → List Text → Run (List Account)
  pair_up [] keys = returns []
  pair_up (addr ∷ addrs) [] = panics
  pair_up (addr ∷ addrs) (key ∷ keys) =
      then_run (parsed_account hex_to_address hex_to_ecdsa addr (hex_to_ecdsa key))
        (λ account. then_run (pair_up addrs keys) (λ accounts. returns (account ∷ accounts)))

  abbrev behind : List Account → Run (List Account) → Run (List Account)
  behind made r = then_run r (λ accounts. returns (made ++ accounts))

  behind-cons :
      (made : List Account) (account : Account) (r : Run (List Account))
      → behind (made ++ (account ∷ [])) r
        ≡ behind made (then_run r (λ accounts. returns (account ∷ accounts)))
  behind-cons made account (returns accounts) =
      ap returns (append_assoc made (account ∷ []) accounts)
  behind-cons made account exits = refl
  behind-cons made account panics = refl
  behind-cons made account runs_on = refl

  initialize_from-pair_up :
      (private_keys : List Text) (i : ℕ) (addrs keys : List Text) (made : List Account)
      → drop i private_keys ≡ keys
      → initialize_from hex_to_address hex_to_ecdsa private_keys i addrs made
        ≡ behind made (pair_up addrs keys)
  unfolding initialize_from pair_up
  initialize_from-pair_up private_keys i [] keys made e = ap returns (sym (append-nil made))
  initialize_from-pair_up private_keys i (addr ∷ addrs) [] made e =
      rw (get_elem?-drop private_keys i, e)
  initialize_from-pair_up private_keys i (addr ∷ addrs) (key ∷ keys) made e =
      rw (get_elem?-drop private_keys i, e)
        (go (hex_to_ecdsa key) (λ made.
          initialize_from-pair_up private_keys (i + 1) addrs keys made
            (drop_next private_keys i ∙ ap rest_of e)))
    where
      go :
          (r : Result Text)
          → ((made : List Account)
              → initialize_from hex_to_address hex_to_ecdsa private_keys (i + 1) addrs made
                ≡ behind made (pair_up addrs keys))
          → then_run (parsed_account hex_to_address hex_to_ecdsa addr r) (λ account.
            initialize_from hex_to_address hex_to_ecdsa private_keys
              (i + 1)
              addrs
              (made ++ (account ∷ [])))
            ≡ behind made (
                then_run (parsed_account hex_to_address hex_to_ecdsa addr r) (λ account.
                  then_run (pair_up addrs keys) (λ accounts. returns (account ∷ accounts))))
      go (err x) rest = refl
      go (ok parsed) rest =
          let account : Account = record { address = hex_to_address addr; private_key = parsed } in
          rest (made ++ (account ∷ [])) ∙ behind-cons made account (pair_up addrs keys)

  behind-nil : (r : Run (List Account)) → behind [] r ≡ r
  behind-nil (returns accounts) = refl
  behind-nil exits = refl
  behind-nil panics = refl
  behind-nil runs_on = refl

  -- initializeAccounts, which looks keys up by the index of the address, pairs the addresses and the
  -- keys as they stand side by side: an account has the address and the key of one place, all
  -- addresses get one, the process ends at the first key that cannot be parsed and panics at the
  -- first address without a key, and the keys left over are not looked at.
  pub initialize_accounts-pair_up :
      (addresses private_keys : List Text)
      → initialize_accounts hex_to_address hex_to_ecdsa addresses private_keys
        ≡ pair_up addresses private_keys
  unfolding initialize_accounts
  initialize_accounts-pair_up addresses private_keys =
      initialize_from-pair_up private_keys 0 addresses private_keys [] refl
      ∙ behind-nil (pair_up addresses private_keys)
