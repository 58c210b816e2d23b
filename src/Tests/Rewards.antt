-- ===== src/Tests/Rewards.antt =====
-- pkgs/helpers/prost/rewardsHandler.go on small inputs.
use submission_sequencer_bat.Prelude.{
  List, ◌+◌, ◌≡◌, refl, ap, ◌∙◌, Bool, true, false, [], ◌∷◌, ◌++◌, Option, none, some, arith, All,
  if◌then◌else◌,
}
use submission_sequencer_bat.Prelude.Text.{Text, text, text_eq, text_eq_iff, split, join}
use submission_sequencer_bat.Prelude.Dict.{Dict, lookup, lookup-insert}
use submission_sequencer_bat.Prelude.Effect.{Result, ok}
use submission_sequencer_bat.Redis.Client.{get, get_set_keys}
use submission_sequencer_bat.Prost.Rewards.{update_submission_counts}
use submission_sequencer_bat.Data.{BatchSubmission}
use submission_sequencer_bat.Prost.Rewards.Keeps.{RedisStores}
use submission_sequencer_bat.Prost.Rewards.Totals.{Sound}
use submission_sequencer_bat.Prost.Rewards.Sums.{Reaches, submissions_of, update_counts-Reaches}
use submission_sequencer_bat.Prost.Rewards.Counts.{occurrences}
use submission_sequencer_bat.Prost.TxManager.Rewards.{read_entry, batch_update_rewards}
use submission_sequencer_bat.Prost.TxManager.Rewards.Ledger.{
  zip, counts_of, slot_texts, Observed, Ledger,
}
use submission_sequencer_bat.Prost.TxManager.Rewards.Sent.{batch_update-sends}
use submission_sequencer_bat.Prelude.Int.{ℤ, pos}
use submission_sequencer_bat.Prelude.Decimal.{digits, set_string, parse_digits}
use submission_sequencer_bat.Constants.{update_rewards_name}
use submission_sequencer_bat.Redis.Keys.{slot_submission_set_by_day, triggered_process_log}
use submission_sequencer_bat.Tests.Prost.{signer}
use submission_sequencer_bat.Tests.Memory.{
  World, memory, nothing, remove, retries_stop, send_rewards,
}
use submission_sequencer_bat.Tests.Service.{retries_keep}

ok_if :
    (b : Bool) (t : Text) (r : Option Text)
    → ◌≡◌ {A = Result (Option Text)}
        (ok (if b then some t else r))
        (if b then ok (some t) else ok r)
ok_if true t r = refl
ok_if false t r = refl

pub lookup-remove :
    {V : Type 0} (k j : Text) (m : Dict V)
    → text_eq k j ≡ false
    → lookup j (remove k m) ≡ lookup j m
unfolding lookup
lookup-remove k j [] h = refl
lookup-remove k j ((i, v) ∷ m) h =
    ground (arith, text_eq_iff k i, text_eq_iff i j, text_eq_iff k j, lookup-remove k j m h)

pub lookup-removed : {V : Type 0} (k : Text) (m : Dict V) → lookup k (remove k m) ≡ none
unfolding lookup
lookup-removed k [] = refl
lookup-removed k ((i, v) ∷ m) = ground (arith, text_eq_iff k i, text_eq_iff i k, lookup-removed k m)

pub stores : RedisStores memory
stores = record {
  set_gets =
      λ k j v e w. ap ok (lookup-insert k j v w.values) ∙ ok_if (text_eq k j) v (lookup j w.values);
  sadd_keeps = λ k j vs w. refl;
  del_keeps = λ k j w h. ap ok (lookup-remove k j w.values h);
  del_gets = λ k w. ap ok (lookup-removed k w.values);
  alert_keeps = λ j a w. refl;
  points_keeps = λ slot j w. refl;
  retry_keeps = retries_keep;
}

abbrev pub of_submissions : List Text → BatchSubmission
of_submissions subs = record {
  batch = record {
    id = 40;
    submission_ids = [];
    submissions = subs;
    root_hash = [];
    pids = [];
    cids = [];
  };
  cid = [];
  epoch_id = 7;
  finalized_cids_root_hash = [];
}

-- Two batches with two submissions of slot 7, one that cannot be read between them, and a quota of
-- two.
abbrev pub two_batches : List BatchSubmission
two_batches = of_submissions (text "a" ∷ [] ∷ []) ∷ of_submissions (text "b" ∷ []) ∷ []

none_stored : Sound memory stores nothing
unfolding get lookup
none_stored t = tt

update_counts-Reaches_example :
    Reaches memory stores 2 100 3 7
      (0 + occurrences memory stores (some 2) (some 100) 3 7 (submissions_of two_batches))
      (update_submission_counts memory (some 2) (some 100) two_batches 3 nothing)
unfolding get lookup
update_counts-Reaches_example =
    update_counts-Reaches memory stores 2 100 3 7 two_batches 0 nothing
      ((_, refl), (tt, ((_, refl), tt))) none_stored refl

-- Three slots with counts, and one without, on day 3.
abbrev counted : World
counted = record nothing {
  values =
      (text "SlotSubmissionsKey.3.7", text "4")
      ∷ (text "SlotSubmissionsKey.3.8", text "2")
      ∷ (text "SlotSubmissionsKey.3.9", text "5")
      ∷ [];
}

abbrev count_keys_of_three : List Text
count_keys_of_three =
    text "SlotSubmissionsKey.3.7"
    ∷ text "SlotSubmissionsKey.3.6"
    ∷ text "SlotSubmissionsKey.3.8"
    ∷ text "SlotSubmissionsKey.3.9"
    ∷ []

abbrev counted_day : World
counted_day = record counted { sets = (text "DaySubmissionsKey.3", count_keys_of_three) ∷ [] }

abbrev log_key : Text
log_key = triggered_process_log update_rewards_name (digits 3)

-- All is up, and the counts are those of the day.
abbrev Quiet : World → Type 0
Quiet w =
    (w.down ≡ 0)
    × ((key : Text) → text_eq log_key key ≡ false → lookup key w.values ≡ lookup key counted.values)

accepted :
    (slots counts : List ℤ) (w : World)
    → w.down ≡ 0
    → send_rewards slots counts w
      ≡ (ok (text "0xr"), record w { rewards = w.rewards ++ zip slots counts })
accepted slots counts w up = rw up refl

ledger : Observed memory 3
unfolding get
ledger = record {
  reads = λ key. get memory key counted;
  Quiet = Quiet;
  sent = λ w. w.rewards;
  reading = λ key w other quiet. rw (quiet.1 key other) refl;
  accepts =
      λ auth slots counts w quiet. (text "0xr", ap (λ r. r.0) (accepted slots counts w quiet.0));
  submit_sends = λ auth slots counts w quiet. rw (accepted slots counts w quiet.0) (quiet, refl);
  sadd_keeps = λ set keys w quiet. (quiet, refl);
  log_keeps = λ v expiration w quiet. (
    (quiet.0, λ key other. lookup-insert log_key key v w.values ∙ rw other (quiet.1 key other)),
    refl,
  );
  alert_keeps = λ alert w quiet. (quiet, refl);
}

others : All (λ key. text_eq log_key key ≡ false) count_keys_of_three
unfolding triggered_process_log join text_eq
others = (refl, (refl, (refl, (refl, tt))))

-- In batches of two, slots 7, 8 and 9 are sent.
batch_update-sends_example :
    Ledger memory 10 3 ledger
      (counts_of ledger.reads count_keys_of_three)
      (batch_update_rewards memory 10 2 3 signer counted_day).world
    × ((batch_update_rewards memory 10 2 3 signer counted_day).submitted_slots
        ≡ slot_texts (counts_of ledger.reads count_keys_of_three))
unfolding get_set_keys slot_submission_set_by_day join lookup text_eq digits ledger
batch_update-sends_example =
    batch_update-sends memory 10 3 ledger retries_stop 2 [] signer counted_day others
      ((refl, λ key other. refl), refl)

counts_of-three :
    counts_of ledger.reads count_keys_of_three
    ≡ (pos 7, pos 4) ∷ (pos 8, pos 2) ∷ (pos 9, pos 5) ∷ []
unfolding counts_of read_entry ledger get lookup text_eq split set_string parse_digits
counts_of-three = refl
