-- ===== src/Redis/Client.antt =====
-- pkgs/helpers/redis/client.go, over the operations of go-redis.
pub mod Tables
use submission_sequencer_bat.Prelude.{ℕ, List, [], ◌∷◌, ◌++◌, Option, none, some}
use submission_sequencer_bat.Prelude.Text.{Text, text, split, join}
use submission_sequencer_bat.Prelude.Effect.{Result, ok, err, Done, M, pure, ◌>>=◌, look, val_or}
use submission_sequencer_bat.Json.{Log}
use submission_sequencer_bat.Services.{Services}
use submission_sequencer_bat.Redis.Keys.{submission_set_by_header_key}

abbrev with_message : Text → Result Done → Result Done
with_message m (ok d) = ok d
with_message m (err e) = err (m ++ e)

-- A missing key reads as the empty text.
abbrev pub nil_as_empty : Result (Option Text) → Result Text
nil_as_empty (ok none) = ok []
nil_as_empty (ok (some v)) = ok v
nil_as_empty (err e) = err e

abbrev pub text_or_empty : Result (Option Text) → Text
text_or_empty r = val_or [] (nil_as_empty r)

abbrev pub parts_of : Text → List Text
parts_of [] = []
parts_of (c ∷ s) = split b',' (c ∷ s)

module _ (s : Services) where
  unfoldable pub add_to_set : Text → List Text → M s.World (Result Done)
  add_to_set set keys w =
      let (r, w') = s.redis_sadd set keys w in (with_message (text "Unable to add to set: ") r, w')

  unfoldable pub get_set_keys : Text → s.World → List Text
  get_set_keys set w = val_or [] (s.redis_smembers set w)

  unfoldable pub remove_from_set : Text → Text → M s.World (Result Done)
  remove_from_set set key = s.redis_srem set key

  unfoldable pub delete : Text → M s.World (Result Done)
  delete set = s.redis_del (set ∷ [])

  -- The key joins the set first, then gets its value.
  unfoldable pub set_submission : Text → Text → Text → ℕ → M s.World (Result Done)
  set_submission key value set expiration = do
    added ← s.redis_sadd set (key ∷ [])
    elim added [ err e ↦ pure (err e) | ok d ↦ s.redis_set key value expiration ]

  unfoldable pub get : Text → s.World → Result Text
  get key w = nil_as_empty (s.redis_get key w)

  unfoldable pub set : Text → Text → ℕ → M s.World (Result Done)
  set key value expiration = s.redis_set key value expiration

  unfoldable pub set_process_log : Text → Log → ℕ → M s.World (Result Done)
  set_process_log key entry expiration = elim (s.marshal_log entry) [
    | err e ↦ pure (err (text "failed to marshal log entry: " ++ e))
    | ok bytes ↦ do
      stored ← s.redis_set key bytes expiration
      pure (with_message (text "failed to set log entry in Redis: ") stored)
  ]

  -- The values of a hash field, joined by commas, and one more. The mutex makes it one step.
  unfoldable pub lock_update_hash_table : Text → Text → Text → M s.World (Result Done)
  lock_update_hash_table table key value = do
    existing ← look (λ w. text_or_empty (s.redis_hget table key w))
    s.redis_hset table key (join b',' (parts_of existing ++ (value ∷ [])))

  unfoldable pub get_valid_submission_keys : ℕ → List Text → s.World → List Text
  get_valid_submission_keys epoch_id [] w = []
  get_valid_submission_keys epoch_id (header ∷ headers) w =
      val_or [] (s.redis_smembers (submission_set_by_header_key epoch_id header) w)
      ++ get_valid_submission_keys epoch_id headers w

  -- Stops at the first set that cannot be read.
  unfoldable pub reset_collector_db_submissions : ℕ → List Text → M s.World Done
  reset_collector_db_submissions epoch_id [] w = (tt, w)
  reset_collector_db_submissions epoch_id (header ∷ headers) w =
      let set_key = submission_set_by_header_key epoch_id header in
      elim (s.redis_smembers set_key w) [
        | err e ↦ (tt, w)
        | ok [] ↦ reset_collector_db_submissions epoch_id headers w
        | ok (k ∷ ks) ↦
            let (_, w₁) = s.redis_del (k ∷ ks) w in
            let (_, w₂) = s.redis_del (set_key ∷ []) w₁ in
            reset_collector_db_submissions epoch_id headers w₂
      ]
