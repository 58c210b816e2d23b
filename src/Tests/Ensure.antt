-- ===== src/Tests/Ensure.antt =====
-- EnsureBatchSubmissionSuccess on small inputs.
use submission_sequencer_bat.Prelude.{
  ◌≡◌, refl, sym, subst, ◌⊎◌, inl, inr, Bool-cases, false, not, List, [], ◌∷◌, none, arith,
  filter_by, any,
}
use submission_sequencer_bat.Prelude.Text.{Text, text, text_eq, text_eq_iff}
use submission_sequencer_bat.Prelude.Dict.{Dict, lookup, lookup-insert_self}
use submission_sequencer_bat.Prelude.Effect.{ok, err}
use submission_sequencer_bat.Services.{Services}
use submission_sequencer_bat.Redis.Client.{get_set_keys}
use submission_sequencer_bat.Prost.TxManager.Ensure.{ensure_key, ensure_batch_submission_success}
use submission_sequencer_bat.Prost.TxManager.Ensure.Cleared.{Cleared, ensure_batch-Cleared}
use submission_sequencer_bat.Prost.TxManager.Ensure.Dropped.{IsDropped, ensure_key-IsDropped}
use submission_sequencer_bat.Prost.TxManager.RewardEnsure.{ensure_hash}
use submission_sequencer_bat.Prost.TxManager.RewardEnsure.Forgotten.{
  SetsShrink, IsForgotten, ensure_hash-IsForgotten,
}
use submission_sequencer_bat.Tests.Memory.{World, memory, nothing, remove, set_of}
use submission_sequencer_bat.Tests.Rewards.{lookup-remove, lookup-removed}
use submission_sequencer_bat.Tests.Prost.{signer}
use submission_sequencer_bat.Tests.Merkle.{leaked}

-- No receipt can be had, and every value is a batch.
abbrev unsure : Services
unsure = record memory {
  redis_incr = λ k w. (err (text "no connection"), w);
  unmarshal_batch_submission = λ t. ok leaked;
}

-- The transaction of batch 9 with nonce 4, in epoch 1.
abbrev one_sent : World
one_sent = record nothing {
  values = (text "9.4", text "0x1.{}") ∷ [];
  sets = (text "SnapshotTransactions.1", text "9.4" ∷ []) ∷ [];
}

pub filter-any :
    (k : Text) (xs : List Text) → any (text_eq k) (filter_by (λ y. not (text_eq k y)) xs) ≡ false
filter-any k [] = refl
filter-any k (x ∷ xs) = ground (arith, filter-any k xs)

deletes : (set : Text) (w : World) → get_set_keys unsure set (unsure.redis_del (set ∷ []) w).1 ≡ []
unfolding get_set_keys
deletes set w = rw (lookup-removed set w.sets)

removes :
    (set key : Text) (w : World)
    → any (text_eq key) (get_set_keys unsure set (unsure.redis_srem set key w).1) ≡ false
unfolding get_set_keys
removes set key w =
    rw (lookup-insert_self set (filter_by (λ y. not (text_eq key y)) (set_of set w)) w.sets)
      (filter-any key (set_of set w))

ensure_batch-Cleared_example :
    Cleared unsure deletes 10 1 (ensure_batch_submission_success unsure 10 1 (signer, one_sent))
ensure_batch-Cleared_example = ensure_batch-Cleared unsure deletes 10 1 (signer, one_sent)

ensure_key-IsDropped_example :
    IsDropped unsure removes 10 1
      (text "9.4")
      (ensure_key unsure 10 1 (text "9.4") (signer, one_sent))
ensure_key-IsDropped_example =
    ensure_key-IsDropped unsure removes 10 1 (text "9.4") (signer, one_sent)

-- A reward update of day 3 that is to be confirmed.
abbrev one_update : World
one_update = record nothing {
  sets =
      (text "RewardTx.3", text "0x2" ∷ [])
      ∷ (text "0x2.Slots", text "7" ∷ text "8" ∷ [])
      ∷ (text "0x2.Submissions", text "4" ∷ [])
      ∷ [];
}

-- After a deletion a key has what it had, or nothing.
gone_or_kept :
    (k other : Text) (m : Dict (List Text))
    → (lookup k (remove other m) ≡ none) ⊎ (lookup k (remove other m) ≡ lookup k m)
gone_or_kept k other m = elim (Bool-cases (text_eq other k)) [
  | inl e ↦
      let same : other ≡ k = (text_eq_iff other k).0 e in
      inl (subst (λ t. lookup k (remove t m) ≡ none) (sym same) (lookup-removed k m))
  | inr e ↦ inr (lookup-remove other k m e)
]

shrinks : SetsShrink unsure
unfolding get_set_keys
shrinks = record {
  srem_removes = removes;
  del_empties = deletes;
  del_adds_none = λ set key other w h. elim (gone_or_kept set other w.sets) [
    | inl e ↦ rw e refl
    | inr e ↦ rw e h
  ];
  del_keeps_empty =
      λ set other w h. elim (gone_or_kept set other w.sets) [ inl e ↦ rw e refl | inr e ↦ rw e h ];
}

ensure_hash-IsForgotten_example :
    IsForgotten unsure shrinks 10 3
      (text "0x2")
      (ensure_hash unsure 10 3 (text "0x2") (signer, one_update))
ensure_hash-IsForgotten_example =
    ensure_hash-IsForgotten unsure shrinks 10 3 (text "0x2") (signer, one_update)
