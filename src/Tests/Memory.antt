-- ===== src/Tests/Memory.antt =====
-- Services in memory: Redis is two maps, a transaction succeeds unless its nonce is to be refused,
-- and JSON is a fixed text. They meet what the theorems ask of the services.
use submission_sequencer_bat.Prelude.{
  ℕ, zero, suc, ◌+◌, ◌≡◌, ap, List, [], ◌∷◌, ◌++◌, some, filter_by, length, not,
}
use submission_sequencer_bat.Prelude.Text.{Text, text, text_eq, or_else}
use submission_sequencer_bat.Prelude.Int.{ℤ}
use submission_sequencer_bat.Prelude.Decimal.{digits}
use submission_sequencer_bat.Prelude.Dict.{Dict, lookup, insert}
use submission_sequencer_bat.Prelude.Effect.{Result, ok, err}
use submission_sequencer_bat.Json.{null, empty}
use submission_sequencer_bat.Data.{Auth, BatchSubmission, SnapshotSubmission, SequencerAlert}
use submission_sequencer_bat.Services.{Services}
use submission_sequencer_bat.Prost.TxManager.Rewards.Ledger.{zip}

pub record World : Type 0 where
  pub values : Dict Text
  pub sets : Dict (List Text)
  pub alerts : List SequencerAlert
  pub sent : List Text
  -- The batches that the contract has accepted, with their nonces.
  pub batches : List (ℕ × BatchSubmission)
  -- The slots that the rewards contract has been sent, with their counts.
  pub rewards : List (ℤ × ℤ)
  pub stored : ℕ
  -- How many of the next calls of the node or of IPFS fail.
  pub down : ℕ

abbrev pub set_of : Text → World → List Text
set_of k w = or_else (lookup k w.sets) []

abbrev pub add_all : List Text → List Text → List Text
add_all [] ys = ys
add_all (x ∷ xs) ys = x ∷ filter_by (λ y. not (text_eq x y)) (add_all xs ys)

abbrev pub remove : {V : Type 0} → Text → Dict V → Dict V
remove k m = filter_by (λ e. not (text_eq k e.0)) m

abbrev pub remove_keys : List Text → World → World
remove_keys [] w = w
remove_keys (k ∷ ks) w = record (remove_keys ks w) {
  values = remove k (remove_keys ks w).values;
  sets = remove k (remove_keys ks w).sets;
}

-- A submission's message is its CID.
abbrev pub read_submission : Text → Result SnapshotSubmission
read_submission [] = err (text "no message")
read_submission (c ∷ s) = ok (record {
  request =
      some
        (record { slot_id = 7; deadline = 0; snapshot_cid = c ∷ s; epoch_id = 1; project_id = [] });
  signature = [];
  header = [];
})

abbrev pub or_again : {S A : Type 0} → Result A × S → (S → Result A × S) → Result A × S
or_again (ok a, st) k = (ok a, st)
or_again (err e, st) k = k st

unfoldable pub retries : (S A : Type 0) → ℕ → (S → Result A × S) → S → Result A × S
retries S A zero op st = op st
retries S A (suc n) op st = or_again (op st) (λ st'. retries S A n op st')

pub retries_stop :
    (S A : Type 0) (n : ℕ) (op : S → Result A × S) (st st' : S) (a : A)
    → op st ≡ (ok a, st')
    → retries S A n op st ≡ (ok a, st')
unfolding retries
retries_stop S A zero op st st' a e = e
retries_stop S A (suc n) op st st' a e = ap (λ r. or_again r (λ st'. retries S A n op st')) e

abbrev pub send : Text → World → Result Text × World
send hash w = elim w.down [
  | zero ↦ (ok hash, record w { sent = w.sent ++ (hash ∷ []) })
  | suc n ↦ (err (text "no connection"), record w { down = n })
]

abbrev pub send_batch : Auth → BatchSubmission → World → Result Text × World
send_batch auth b w = elim w.down [
  | zero ↦ (
    ok (text "0xb"),
    record w { sent = w.sent ++ (text "0xb" ∷ []); batches = w.batches ++ ((auth.nonce, b) ∷ []) },
  )
  | suc n ↦ (err (text "no connection"), record w { down = n })
]

abbrev pub send_rewards : List ℤ → List ℤ → World → Result Text × World
send_rewards slots counts w = elim w.down [
  | zero ↦ (ok (text "0xr"), record w { rewards = w.rewards ++ zip slots counts })
  | suc n ↦ (err (text "no connection"), record w { down = n })
]

abbrev pub store : World → Result Text × World
store w = elim w.down [
  | zero ↦ (ok (text "cid" ++ digits w.stored), record w { stored = w.stored + 1 })
  | suc n ↦ (err (text "no node"), record w { down = n })
]

abbrev pub memory : Services
memory = record {
  World = World;
  now = λ w. 1000;
  redis_get = λ k w. ok (lookup k w.values);
  redis_keys = λ k w. ok [];
  redis_smembers = λ k w. ok (set_of k w);
  redis_hget = λ t k w. ok (lookup (t ++ k) w.values);
  redis_hgetall = λ t w. ok [];
  redis_set = λ k v e w. (ok tt, record w { values = insert k v w.values });
  redis_sadd = λ k vs w. (ok tt, record w { sets = insert k (add_all vs (set_of k w)) w.sets });
  redis_srem = λ k v w. (
    ok tt,
    record w { sets = insert k (filter_by (λ y. not (text_eq v y)) (set_of k w)) w.sets },
  );
  redis_del = λ ks w. (ok tt, remove_keys ks w);
  redis_incr = λ k w. (ok tt, w);
  redis_hset = λ t k v w. (ok tt, record w { values = insert (t ++ k) v w.values });
  redis_hdel = λ t k w. (ok tt, record w { values = remove (t ++ k) w.values });
  post_alert = λ a w. record w { alerts = w.alerts ++ (a ∷ []) };
  post_slot_reward = λ slot day w. (ok tt, w);
  pending_nonce_at = λ a w. (ok 5, w);
  suggest_gas_tip_cap = λ w. (ok 2, w);
  transaction_receipt = λ h w. (err (text "not found"), w);
  submit_submission_batch = send_batch;
  submit_rewards = λ a slots counts day w. send_rewards slots counts w;
  end_batch_submissions = λ a e w. send (text "0xe") w;
  query_slot_reward_points = λ slot w. (ok 100, w);
  query_day_counter = λ w. (ok 3, w);
  query_slot_submission_count = λ slot day w. (ok 4, w);
  query_daily_snapshot_quota = λ w. (ok 2, w);
  query_reward_base_points = λ w. (ok 100, w);
  query_current_epoch = λ w. (ok (some 11), w);
  query_current_batch_id = λ w. (ok 40, w);
  query_epochs_in_a_day = λ w. (err (text "no connection"), w);
  query_snapshot_submission_window = λ w. (ok 3, w);
  ipfs_add = λ json w. store w;
  Tree = List Text;
  new_tree = ok [];
  add_leaf = λ leaf tree. (ok tt, tree ++ (leaf ∷ []));
  root_digest = λ tree. digits (length tree);
  unmarshal_submission = read_submission;
  marshal_batch = λ b. ok (digits b.id);
  marshal_batch_submission = λ b. ok (text "{}");
  unmarshal_batch_submission = λ t. err (text "no batch");
  marshal_log = λ l. ok (text "{}");
  unmarshal_log = λ t. ok empty;
  unmarshal_json = λ t. ok null;
  retry = retries;
  range_map = λ V m. m;
  scheduled = λ ts. ts;
  bytes_to_hex = λ t. t;
}

abbrev pub nothing : World
nothing = record {
  values = [];
  sets = [];
  alerts = [];
  sent = [];
  batches = [];
  rewards = [];
  stored = 0;
  down = 0;
}
