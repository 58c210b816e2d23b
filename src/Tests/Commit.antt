-- ===== src/Tests/Commit.antt =====
-- CommitSubmissionBatch over a contract that accepts every batch.
use submission_sequencer_bat.Prelude.{
  ℕ, ◌+◌, ◌≡◌, refl, sym, subst, inl, inr, true, false, not, List, [], ◌∷◌, ◌++◌, some, arith, any,
  All, filter_by, Bool-cases,
}
use submission_sequencer_bat.Prelude.Text.{Text, text, text_eq, text_eq_refl, text_eq_iff}
use submission_sequencer_bat.Prelude.Dict.{lookup-insert, lookup-insert_self}
use submission_sequencer_bat.Prelude.Effect.{ok}
use submission_sequencer_bat.Data.{BatchSubmission}
use submission_sequencer_bat.Services.{Services}
use submission_sequencer_bat.Redis.Client.{get_set_keys}
use submission_sequencer_bat.Prost.TxManager.Commit.{commit_all, commit_submission_batches}
use submission_sequencer_bat.Prost.TxManager.Commit.Keeps.{SetsGrow, Recorded, keys_from}
use submission_sequencer_bat.Prost.TxManager.Commit.Accounts.{
  AreCommitted, commit_batches-AreCommitted,
}
use submission_sequencer_bat.Prost.TxManager.Commit.Sends.{Sends}
use submission_sequencer_bat.Prost.TxManager.Commit.Recorded.{commit_all-IsRecorded}
use submission_sequencer_bat.Tests.Memory.{
  World, memory, nothing, add_all, set_of, remove_keys, retries_stop,
}
use submission_sequencer_bat.Tests.Prost.{signer}

abbrev pub accepting : Services
accepting = record memory {
  submit_submission_batch =
      λ auth b w. (ok (text "0xb"), record w { batches = w.batches ++ ((auth.nonce, b) ∷ []) });
}

pub remove_keys-batches : (keys : List Text) (w : World) → (remove_keys keys w).batches ≡ w.batches
remove_keys-batches [] w = refl
remove_keys-batches (k ∷ ks) w = remove_keys-batches ks w

abbrev pub accepting_sends : Sends accepting
accepting_sends = record {
  sent = λ w. w.batches;
  accepts = λ auth b w. (text "0xb", refl);
  submit_sends = λ auth b w. refl;
  sadd_keeps = λ set keys w. refl;
  set_keeps = λ k v expiration w. refl;
  del_keeps = remove_keys-batches;
  srem_keeps = λ set key w. refl;
  alert_keeps = λ alert w. refl;
  tip_keeps = λ w. refl;
}

any-filter :
    (key x : Text) (zs : List Text)
    → text_eq key x ≡ false
    → any (text_eq key) zs ≡ true
    → any (text_eq key) (filter_by (λ y. not (text_eq x y)) zs) ≡ true
any-filter key x [] e h = h
any-filter key x (z ∷ zs) e h = ground (arith, text_eq_iff x z, any-filter key x zs e)

any-add_all :
    (key : Text) (xs ys : List Text)
    → any (text_eq key) ys ≡ true
    → any (text_eq key) (add_all xs ys) ≡ true
any-add_all key [] ys h = h
any-add_all key (x ∷ xs) ys h =
    ground (arith, any-filter key x (add_all xs ys), any-add_all key xs ys h)

sadd_adds :
    (set key : Text) (w : World)
    → any (text_eq key) (get_set_keys accepting set (accepting.redis_sadd set (key ∷ []) w).1)
      ≡ true
unfolding get_set_keys
sadd_adds set key w =
    rw (lookup-insert_self set (add_all (key ∷ []) (set_of set w)) w.sets, text_eq_refl key)

sadd_keeps :
    (set key other : Text) (keys : List Text) (w : World)
    → any (text_eq key) (get_set_keys accepting set w) ≡ true
    → any (text_eq key) (get_set_keys accepting set (accepting.redis_sadd other keys w).1) ≡ true
unfolding get_set_keys
sadd_keeps set key other keys w h =
    rw (lookup-insert other set (add_all keys (set_of other w)) w.sets)
      (elim (Bool-cases (text_eq other set)) [
        | inl e ↦ rw e (
            any-add_all key keys (set_of other w) (
              subst (λ t. any (text_eq key) (set_of t w) ≡ true) (sym ((text_eq_iff other set).0 e))
                h))
        | inr e ↦ rw e h
      ])

grows : SetsGrow accepting
unfolding get_set_keys
grows = record {
  sadd_adds = sadd_adds;
  sadd_keeps = sadd_keeps;
  set_keeps = λ set key k v expiration w h. h;
  alert_keeps = λ set key alert w h. h;
  submit_keeps = λ set key auth submission w h. h;
}

abbrev pub batch : ℕ → BatchSubmission
batch id = record {
  batch = record {
    id = id;
    submission_ids = [];
    submissions = [];
    root_hash = [];
    pids = [];
    cids = [];
  };
  cid = text "cid";
  epoch_id = 7;
  finalized_cids_root_hash = [];
}

abbrev two_batches : List BatchSubmission
two_batches = batch 40 ∷ batch 41 ∷ []

commit_all-IsRecorded_example :
    (accepting_sends.sent (commit_all accepting 10 two_batches signer nothing).1
      ≡ (9, batch 40) ∷ (10, batch 41) ∷ [])
    × All
        (λ key. Recorded accepting 7 key (commit_all accepting 10 two_batches signer nothing).1)
        (keys_from 9 two_batches)
    × ((commit_all accepting 10 two_batches signer nothing).0.nonce ≡ 9 + 2)
commit_all-IsRecorded_example =
    commit_all-IsRecorded accepting grows accepting_sends retries_stop 10 7 two_batches signer
      nothing (refl, (refl, tt))

abbrev three_batches : List BatchSubmission
three_batches = batch 40 ∷ batch 41 ∷ batch 42 ∷ []

-- Two accounts are asked for, and one is free.
commit_batches-AreCommitted_example :
    AreCommitted accepting grows accepting_sends retries_stop 10 7 three_batches nothing (
      commit_submission_batches accepting 10 2
        (some signer ∷ [])
        (some signer)
        three_batches
        nothing)
commit_batches-AreCommitted_example =
    commit_batches-AreCommitted accepting grows accepting_sends retries_stop 10 7 2
      (some signer ∷ []) (some signer) three_batches nothing (omega arith) (tt, tt) tt
      (refl, (refl, (refl, tt)))
