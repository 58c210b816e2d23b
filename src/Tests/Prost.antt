-- ===== src/Tests/Prost.antt =====
-- pkgs/helpers/prost on small inputs.
use submission_sequencer_bat.Prelude.{
  ℕ, ◌/◌, ◌%◌, ◌≤◌, ◌≡◌, refl, true, false, List, [], ◌∷◌, some, arith, concat, get_elem?,
}
use submission_sequencer_bat.Prelude.Text.{text, contains, strip_prefix}
use submission_sequencer_bat.Prelude.Decimal.{parse_digits}
use submission_sequencer_bat.Prelude.Effect.{ok, err}
use submission_sequencer_bat.Data.{Auth}
use submission_sequencer_bat.Prost.Account.{
  extract_nonce_from_error, find_nonce, nonce_group, span_digits, handle_transaction_error,
}
use submission_sequencer_bat.Prost.Account.Nonce.{moved, nonce_error_moves}
use submission_sequencer_bat.Prost.Handler.{
  Reach, here, next, enter, take, new_account_handler, times,
}
use submission_sequencer_bat.Prost.Handler.Exclusion.{is_locked, held_once}
use submission_sequencer_bat.Prost.Handler.Wakeup.{waiting, lost, wakeup_lost}
use submission_sequencer_bat.Prost.TxManager.Send.{found, get_tx_receipt, get_tx_receipt_no_error}
use submission_sequencer_bat.Prost.TxManager.Commit.{divide_among}
use submission_sequencer_bat.Prost.TxManager.Commit.Division.{AreShares, divide_among_shares}
use submission_sequencer_bat.Tests.Memory.{memory, nothing, retries_stop}

abbrev pub signer : Auth
signer = record {
  nonce = 9;
  gas_limit = 20_000_000;
  from = text "0xa";
  gas_price = some 1;
  gas_fee_cap = some 1;
  gas_tip_cap = some 1;
}

too_low : extract_nonce_from_error (text "e: nonce too low: next nonce 12, tx nonce 9") ≡ some 12
unfolding extract_nonce_from_error find_nonce nonce_group span_digits strip_prefix parse_digits
too_low = refl

-- The node's nonce is 5, below the signer's 9.
nonce_error_moves_example :
    let (multiplier, auth) =
      (handle_transaction_error memory 10 (text "nonce too high") 1 signer nothing).0 in
    (auth.nonce ≡ moved 9 5) × (multiplier ≡ 1)
unfolding extract_nonce_from_error find_nonce nonce_group span_digits strip_prefix contains
nonce_error_moves_example =
    nonce_error_moves memory 10 (text "nonce too high") 1 5 signer nothing refl refl (omega arith)
      (omega arith)

two_free :
    Reach
      (new_account_handler 2)
      (record (new_account_handler 2) { locked = true ∷ false ∷ []; out = 0 ∷ [] })
unfolding new_account_handler
two_free = next (next here (enter true refl)) (take true 0 refl refl)

held_once_example :
    (times 0 (0 ∷ []) ≤ 1) × (times 0 (0 ∷ []) ≡ is_locked (get_elem? (true ∷ false ∷ []) 0))
unfolding new_account_handler
held_once_example =
    held_once 2 (record (new_account_handler 2) { locked = true ∷ false ∷ []; out = 0 ∷ [] })
      two_free 0

wakeup_lost_example :
    Reach (waiting (true ∷ []) 1 0) (lost (waiting (true ∷ []) 1 0) 0)
    × (lost (waiting (true ∷ []) 1 0) 0 ≡ lost (waiting (true ∷ []) 1 0) 0)
wakeup_lost_example = wakeup_lost (true ∷ []) 1 0 (lost (waiting (true ∷ []) 1 0) 0) here

get_tx_receipt_no_error_example :
    get_tx_receipt memory (text "0x1") (text "7") nothing
    ≡ (ok tt, (found memory (err (text "not found")), nothing))
get_tx_receipt_no_error_example =
    get_tx_receipt_no_error memory retries_stop (text "0x1") (text "7") nothing nothing refl

abbrev five : List ℕ
five = 1 ∷ 2 ∷ 3 ∷ 4 ∷ 5 ∷ []

divide_among_shares_example :
    (concat (divide_among 3 five) ≡ five) × AreShares (5 / 3) (5 % 3) (divide_among 3 five)
divide_among_shares_example = divide_among_shares 3 five (omega arith)
