-- ===== src/Prost/Account.antt =====
-- A signer's transaction options: pkgs/helpers/prost/accountHandler.go, and extractNonceFromError of
-- pkgs/helpers/prost/txManager.go. Nonces are big integers, their differences are uint64.
pub mod Nonce
use submission_sequencer_bat.Prelude.{
  ℕ, zero, suc, ◌+◌, ◌-◌, ◌*◌, ◌%◌, ◌^◌, Bool, true, false, ◌||◌, List, [], ◌∷◌, ◌++◌, Option, none,
  some, ltb, if◌then◌else◌, ◌≡◌, refl,
}
use submission_sequencer_bat.Prelude.Text.{Text, text, contains, strip_prefix}
use submission_sequencer_bat.Prelude.Decimal.{parse_digits, is_digit}
use submission_sequencer_bat.Prelude.Effect.{Result, ok, err, Done, M, pure, ◌>>=◌, ◌>>◌}
use submission_sequencer_bat.Data.{Auth, high}
use submission_sequencer_bat.Services.{Services}
use submission_sequencer_bat.Clients.Reporting.{send_failure_notification}

abbrev pub default_gas_limit : ℕ
default_gas_limit = 20_000_000

abbrev pub uint64 : ℕ
uint64 = 2 ^ 64

-- The longest run of digits at the front, and what follows.
unfoldable pub span_digits : Text → Text × Text
span_digits [] = ([], [])
span_digits (c ∷ s) =
    let (run, rest) = span_digits s in if is_digit c then (c ∷ run, rest) else ([], c ∷ s)

abbrev starts_with_digit : Text → Bool
starts_with_digit [] = false
starts_with_digit (c ∷ s) = is_digit c

abbrev after_run : Text × Option Text → Option Text
after_run ([], rest) = none
after_run (c ∷ run, none) = none
after_run (c ∷ run, some rest) = if starts_with_digit rest then some (c ∷ run) else none

-- `(\d+), tx nonce \d+` at the front of a text: the digits of the group.
unfoldable pub nonce_group : Text → Option Text
unfolding span_digits
nonce_group s =
    let (run, rest) = span_digits s in after_run (run, strip_prefix (text ", tx nonce ") rest)

abbrev group_at : Option Text → Option Text
unfolding nonce_group
group_at none = none
group_at (some s) = nonce_group s

abbrev first_of_two : Option Text → Option Text → Option Text
first_of_two none b = b
first_of_two (some a) b = some a

-- The group of the leftmost match of `nonce too low: next nonce (\d+), tx nonce \d+`.
unfoldable pub find_nonce : Text → Option Text
unfolding nonce_group
find_nonce [] = none
find_nonce (c ∷ s) =
    first_of_two (group_at (strip_prefix (text "nonce too low: next nonce ") (c ∷ s)))
      (find_nonce s)

abbrev as_uint64 : Option ℕ → Option ℕ
as_uint64 none = none
as_uint64 (some n) = if ltb n uint64 then some n else none

abbrev parse_uint64 : Option Text → Option ℕ
parse_uint64 none = none
parse_uint64 (some digits) = as_uint64 (parse_digits 0 digits)

unfoldable pub extract_nonce_from_error : Text → Option ℕ
unfolding find_nonce
extract_nonce_from_error error = parse_uint64 (find_nonce error)

unfoldable pub update_auth : ℕ → Auth → Auth
update_auth num auth = record auth { nonce = auth.nonce + num }

-- a - b on uint64, after big.Int.Uint64 of both.
abbrev pub sub_uint64 : ℕ → ℕ → ℕ
sub_uint64 a b = (a % uint64 + uint64 - b % uint64) % uint64

abbrev mentions_nonce : Text → Bool
mentions_nonce error =
    contains error (text "nonce too low") || contains error (text "nonce too high")

module _ (s : Services) (base_fee : ℕ) where
  -- The fee cap and the tip, from the tip that the node suggests and the base fee of CurrentBlock.
  unfoldable pub suggest_eip1559_fees : ℕ → M s.World (Result (ℕ × ℕ))
  suggest_eip1559_fees multiplier w =
      let (r, w') = s.suggest_gas_tip_cap w in
      (elim r [ err e ↦ err e | ok tip ↦ ok (base_fee * multiplier + tip * multiplier, tip) ], w')

  abbrev set_fees : Auth → Result (ℕ × ℕ) → Result Done × Auth
  set_fees auth (err e) = (err e, record auth { gas_fee_cap = none; gas_tip_cap = none })
  set_fees auth (ok (cap, tip)) =
      (ok tt, record auth { gas_fee_cap = some cap; gas_tip_cap = some tip })

  -- Both fees are set, to nil on an error.
  unfoldable pub update_gas_price : ℕ → Auth → M s.World (Result Done × Auth)
  update_gas_price multiplier auth w =
      let (r, w') = suggest_eip1559_fees multiplier w in (set_fees auth r, w')

  set_fees_nonce : (auth : Auth) (r : Result (ℕ × ℕ)) → (set_fees auth r).1.nonce ≡ auth.nonce
  set_fees_nonce auth (err e) = refl
  set_fees_nonce auth (ok fees) = refl

  pub update_gas_price_nonce :
      (multiplier : ℕ) (auth : Auth) (w : s.World)
      → (update_gas_price multiplier auth w).0.1.nonce ≡ auth.nonce
  unfolding update_gas_price
  update_gas_price_nonce multiplier auth w = set_fees_nonce auth _

  abbrev default_price : Result Done × Auth → Auth
  default_price (ok _, auth) = auth
  default_price (err e, auth) = record auth { gas_price = some default_gas_limit }

  setup_with : Text → Result ℕ → Option Auth → M s.World (Option Auth)
  setup_with address (err e) old = pure old
  setup_with address (ok nonce) old = do
    priced ← update_gas_price 1 (record {
      nonce = nonce;
      gas_limit = default_gas_limit;
      from = address;
      gas_price = none;
      gas_fee_cap = none;
      gas_tip_cap = none;
    })
    pure (some (default_price priced))

  -- SetupAuth of an account: its options as they were, if the node does not give a nonce. (The
  -- keyed transactor is made from a parsed key and a chain identifier, which does not fail.)
  unfoldable pub setup_auth : Text → Option Auth → M s.World (Option Auth)
  unfolding setup_with
  setup_auth address old = do nonce ← s.pending_nonce_at address; setup_with address nonce old

  adjust : Auth → ℕ → Result ℕ → ℕ × Auth
  adjust auth multiplier (err e) = (multiplier, auth)
  adjust auth multiplier (ok target) = (multiplier, update_auth (sub_uint64 target auth.nonce) auth)

  nonce_error : Text → ℕ → Auth → M s.World (ℕ × Auth)
  unfolding adjust
  nonce_error error multiplier auth w = elim (extract_nonce_from_error error) [
    | some nonce ↦ (adjust auth multiplier (ok nonce), w)
    | none ↦
        let (pending, w') = s.pending_nonce_at auth.from w in (adjust auth multiplier pending, w')
  ]

  -- The multiplier to go on with, and the options that were adjusted to the error.
  unfoldable pub handle_transaction_error : Text → ℕ → Auth → M s.World (ℕ × Auth)
  unfolding nonce_error
  handle_transaction_error error multiplier auth w =
      if mentions_nonce error
      then nonce_error error multiplier auth w
      else if contains error (text "transaction underpriced")
      then (let (priced, w') = update_gas_price (suc multiplier) auth w in
          ((suc multiplier, priced.1), w'))
      else (
        (multiplier, auth),
        (send_failure_notification s (text "HandleTransactionError") high w).1,
      )
