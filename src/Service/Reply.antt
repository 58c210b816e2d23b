-- ===== src/Service/Reply.antt =====
-- The requests and the replies of pkgs/service/api.go, and the tests that every handler begins with.
use submission_sequencer_bat.Prelude.{ℕ, Bool, ◌||◌, if◌then◌else◌}
use submission_sequencer_bat.Prelude.Text.{Text, text_eq}
use submission_sequencer_bat.Prelude.Int.{ℤ, pos, ltb_ℤ}
use submission_sequencer_bat.Prelude.Effect.{Result, ok, err}

pub record DailyRewardsRequest : Type 0 where
  pub slot_id : ℤ
  pub day : ℤ
  pub token : Text

pub record RewardsRequest : Type 0 where
  pub slot_id : ℤ
  pub token : Text

pub record SubmissionsRequest : Type 0 where
  pub slot_id : ℤ
  pub token : Text
  pub past_days : ℤ

pub record PastEpochsRequest : Type 0 where
  pub token : Text
  pub past_epochs : ℤ

pub record PastDaysRequest : Type 0 where
  pub token : Text
  pub past_days : ℤ

pub record PastBatchesRequest : Type 0 where
  pub token : Text
  pub past_batches : ℤ

pub record DailySubmissions : Type 0 where
  pub day : ℤ
  pub submissions : ℤ

-- An answer, a refusal with its status, or a panic of the handler.
pub data Reply (A : Type 0) : Type 0 where
  success : A → Reply A
  failure : ℕ → Reply A
  panics : Reply A

abbrev pub status_bad_request : ℕ
status_bad_request = 400

abbrev pub status_unauthorized : ℕ
status_unauthorized = 401

abbrev pub status_internal_server_error : ℕ
status_internal_server_error = 500

-- if slotID < 1 || slotID > 10000
unfoldable pub is_bad_slot : ℤ → Bool
is_bad_slot slot_id = ltb_ℤ slot_id (pos 1) || ltb_ℤ (pos 10000) slot_id

-- The request is decoded, its token is the one of the settings, and its numbers pass a test; then
-- the handler does its work.
unfoldable pub authorized :
    {R W A : Type 0}
    → Text
    → (R → Text)
    → (R → Bool)
    → (R → W → Reply A × W)
    → Result R
    → W
    → Reply A × W
authorized auth_read_token token bad work (err e) w = (failure status_bad_request, w)
authorized auth_read_token token bad work (ok request) w =
    if text_eq (token request) auth_read_token
    then (if bad request then (failure status_bad_request, w) else work request w)
    else (failure status_unauthorized, w)
