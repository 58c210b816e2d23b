-- ===== src/Prost/Account/Nonce.antt =====
-- How an error about the nonce moves the nonce.
use submission_sequencer_bat.Prelude.{
  ℕ, ◌+◌, ◌<◌, ◌≡◌, refl, inl, inr, true, none, some, arith, leb, if◌then◌else◌, Option-cases,
}
use submission_sequencer_bat.Prelude.Text.{Text}
use submission_sequencer_bat.Prelude.Effect.{Result, ok, err}
use submission_sequencer_bat.Data.{Auth}
use submission_sequencer_bat.Services.{Services}
use submission_sequencer_bat.Prost.Account.{
  uint64, mentions_nonce, sub_uint64, update_auth, extract_nonce_from_error, adjust, nonce_error,
  handle_transaction_error,
}

-- The nonce that the error or, if it names none, the node asks for.
abbrev pub asked : (s : Services) → Text → Text → s.World → Result ℕ
asked s error from w = elim (extract_nonce_from_error error) [
  | some nonce ↦ ok nonce
  | none ↦ (s.pending_nonce_at from w).0
]

-- The asked nonce, if the current one is not above it; 2^64 more than it otherwise.
abbrev pub moved : ℕ → ℕ → ℕ
moved current target = if leb current target then target else target + uint64

add_sub_uint64 :
    (current target : ℕ)
    → current < uint64
    → target < uint64
    → current + sub_uint64 target current ≡ moved current target
add_sub_uint64 current target h k = ground arith

module _ (s : Services) (base_fee : ℕ) (error : Text) (multiplier target : ℕ) (auth : Auth)
    (w : s.World) where
  -- What an adjustment by the asked nonce gives.
  abbrev Moved : ℕ × Auth → Type 0
  Moved r = (r.1.nonce ≡ moved auth.nonce target) × (r.0 ≡ multiplier)

  adjust-Moved :
      auth.nonce < uint64
      → target < uint64
      → (r : Result ℕ) → r ≡ ok target
      → Moved (adjust s base_fee auth multiplier r)
  unfolding adjust update_auth
  adjust-Moved h k (err m) e = cc
  adjust-Moved h k (ok n) e =
      let same : n ≡ target = cc in rw same (add_sub_uint64 auth.nonce target h k, refl)

  nonce_error-Moved :
      asked s error auth.from w ≡ ok target
      → auth.nonce < uint64
      → target < uint64
      → Moved (nonce_error s base_fee error multiplier auth w).0
  unfolding nonce_error
  nonce_error-Moved e h k = elim (Option-cases (extract_nonce_from_error error)) [
    | inr (n, found) ↦ rw (found, nonce_error) (adjust-Moved h k (ok n) (rw (found, asked) at e))
    | inl missing ↦
        rw (missing, nonce_error)
          (adjust-Moved h k (s.pending_nonce_at auth.from w).0 (rw (missing, asked) at e))
  ]

  -- After an error about the nonce the nonce is the one asked for, when that is not below the
  -- current nonce. When it is below, as after "nonce too high", the nonce ends 2^64 above the one
  -- asked for. The multiplier stays.
  pub nonce_error_moves :
      mentions_nonce error ≡ true
      → asked s error auth.from w ≡ ok target
      → auth.nonce < uint64
      → target < uint64
      → let (multiplier', auth') =
          (handle_transaction_error s base_fee error multiplier auth w).0 in
        (auth'.nonce ≡ moved auth.nonce target) × (multiplier' ≡ multiplier)
  unfolding handle_transaction_error
  nonce_error_moves about e h k = rw about (nonce_error-Moved e h k)
