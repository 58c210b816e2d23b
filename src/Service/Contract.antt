-- ===== src/Service/Contract.antt =====
-- The queries of the contract in pkgs/service/api.go, each with at most five more attempts.
use submission_sequencer_bat.Prelude.{ℕ, [], ◌∷◌, Option, none, some, ◌≡◌, ◌≢◌, ◌⊎◌}
use submission_sequencer_bat.Prelude.Text.{Text}
use submission_sequencer_bat.Prelude.Int.{ℤ, pos}
use submission_sequencer_bat.Prelude.Decimal.{set_string}
use submission_sequencer_bat.Prelude.Effect.{Result, ok, err, Done, M, pure, ◌>>=◌, val_or}
use submission_sequencer_bat.Services.{Services}
use submission_sequencer_bat.Constants.{sequencer_day_key}
use submission_sequencer_bat.Redis.Client.{get}

-- dailySnapshotQuota and rewardBasePoints; nil before they are fetched.
pub record Constants : Type 0 where
  pub daily_snapshot_quota : Option ℕ
  pub reward_base_points : Option ℕ

abbrev fetched : Result ℕ → Option ℕ
fetched (ok n) = some n
fetched (err e) = none

module _ (s : Services) where
  unfoldable pub fetch_slot_rewards_points : ℤ → M s.World (Result ℕ)
  fetch_slot_rewards_points slot_id = s.retry s.World ℕ 5 (s.query_slot_reward_points slot_id)

  unfoldable pub fetch_day_counter : M s.World (Result ℕ)
  fetch_day_counter = s.retry s.World ℕ 5 s.query_day_counter

  unfoldable pub fetch_slot_submission_count : ℤ → ℤ → M s.World (Result ℕ)
  fetch_slot_submission_count slot_id day =
      s.retry s.World ℕ 5 (s.query_slot_submission_count slot_id day)

  abbrev counter_day : Result ℕ → Option ℤ
  counter_day (ok n) = some (pos n)
  counter_day (err e) = none

  unfoldable pub day_from : Text → M s.World (Option ℤ)
  unfolding fetch_day_counter
  day_from [] w = let (r, w') = fetch_day_counter w in (counter_day r, w')
  day_from (c ∷ t) w = (set_string (c ∷ t), w)

  -- The current day: of Redis, or of the contract; nil where that is no number, or fails.
  unfoldable pub sequencer_day : M s.World (Option ℤ)
  unfolding day_from get
  sequencer_day w = day_from (val_or [] (get s sequencer_day_key w)) w

  abbrev after_quota : Constants → Result ℕ → M s.World (Result Done × Constants)
  after_quota c (err e) = pure (err e, record c { daily_snapshot_quota = none })
  after_quota c (ok quota) = do
    points ← s.retry s.World ℕ 5 s.query_reward_base_points
    pure (
      elim points [ ok n ↦ ok tt | err e ↦ err e ],
      record { daily_snapshot_quota = some quota; reward_base_points = fetched points },
    )

  -- The points are not fetched when the quota is not.
  unfoldable pub fetch_contract_constants : Constants → M s.World (Result Done × Constants)
  fetch_contract_constants c = do
    quota ← s.retry s.World ℕ 5 s.query_daily_snapshot_quota
    after_quota c quota

  -- What the documentation of the services says: a retried call changes the world only by its
  -- attempts, a query of the contract leaves the values of Redis as they are, and setting a key
  -- leaves the values of the others, and either stores its value or fails and leaves the old one.
  pub record RedisApart : Type 1 where
    pub retry_keeps :
        (S A : Type 0) (n : ℕ) (op : S → Result A × S) (P : S → Type 0)
        → ((st : S) → P st → P (op st).1)
        → (st : S) → P st
        → P (s.retry S A n op st).1
    pub points_keeps :
        (slot : ℤ) (k : Text) (w : s.World)
        → s.redis_get k (s.query_slot_reward_points slot w).1 ≡ s.redis_get k w
    pub day_keeps :
        (k : Text) (w : s.World) → s.redis_get k (s.query_day_counter w).1 ≡ s.redis_get k w
    pub count_keeps :
        (slot day : ℤ) (k : Text) (w : s.World)
        → s.redis_get k (s.query_slot_submission_count slot day w).1 ≡ s.redis_get k w
    pub set_keeps :
        (k j v : Text) (expiration : ℕ) (w : s.World)
        → j ≢ k
        → s.redis_get j (s.redis_set k v expiration w).1 ≡ s.redis_get j w
    pub set_stores :
        (k v : Text) (expiration : ℕ) (w : s.World)
        → (s.redis_get k (s.redis_set k v expiration w).1 ≡ ok (some v))
          ⊎ (s.redis_get k (s.redis_set k v expiration w).1 ≡ s.redis_get k w)
