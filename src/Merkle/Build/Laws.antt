-- ===== src/Merkle/Build/Laws.antt =====
-- What a batch that was built holds.
use submission_sequencer_bat.Prelude.{ℕ, ◌≡◌, ap, sym, inl, inr, List}
use submission_sequencer_bat.Prelude.Text.{Text}
use submission_sequencer_bat.Prelude.Effect.{Result, ok, err, Result-cases}
use submission_sequencer_bat.Data.{Batch, BatchSubmission}
use submission_sequencer_bat.Services.{Services}
use submission_sequencer_bat.Merkle.Build.{
  update_merkle_tree, get_root_hash, cids_root, finish_batch, after_store, store_batch, build_batch,
}
use submission_sequencer_bat.Ipfs.{store_on_ipfs}

abbrev ok_path {ℓ} : {A : Type ℓ} → A → Result A → A
ok_path d (ok a) = a
ok_path d (err e) = d

pub ok-injective {ℓ} : {A : Type ℓ} (a b : A) → ok a ≡ ok b → a ≡ b
ok-injective a b e = ap (ok_path a) e

module _ (s : Services) where
  finish_batch_ok :
      (batch : Batch) (epoch_id : ℕ) (cid : Text) (w : s.World) (sub : BatchSubmission)
      → (finish_batch s batch epoch_id cid w).0 ≡ ok sub
      → (sub.batch ≡ batch) × (sub.epoch_id ≡ epoch_id)
  unfolding finish_batch
  finish_batch_ok batch epoch_id cid w sub h = elim (Result-cases (cids_root s batch.cids)) [
    | inl (root, e) ↦
        let same = ok-injective _ sub (rw (e, finish_batch) at h) in
        (
          sym (ap (λ (b : BatchSubmission). b.batch) same),
          sym (ap (λ (b : BatchSubmission). b.epoch_id) same),
        )
    | inr (m, e) ↦ let k = rw (e, finish_batch) at h in cc
  ]

  after_store_ok :
      (batch : Batch) (epoch_id : ℕ) (r : Result Text) (w : s.World) (sub : BatchSubmission)
      → (after_store s batch epoch_id r w).0 ≡ ok sub
      → (sub.batch ≡ batch) × (sub.epoch_id ≡ epoch_id)
  unfolding after_store
  after_store_ok batch epoch_id (err e) w sub h = cc
  after_store_ok batch epoch_id (ok cid) w sub h = finish_batch_ok batch epoch_id cid w sub h

  store_batch_ok :
      (batch : Batch) (epoch_id : ℕ) (w : s.World) (sub : BatchSubmission)
      → (store_batch s batch epoch_id w).0 ≡ ok sub
      → (sub.batch ≡ batch) × (sub.epoch_id ≡ epoch_id)
  unfolding store_batch
  store_batch_ok batch epoch_id w sub h =
      let (r, w') = store_on_ipfs s batch w in after_store_ok batch epoch_id r w' sub h

  -- The batch has the identifier, the data, the projects and the CIDs that it was built from.
  pub build_batch_ok :
      (data_ids submissions : List Text) (id epoch_id : ℕ) (tree : s.Tree) (pids cids : List Text)
      (w : s.World) (sub : BatchSubmission)
      → (build_batch s data_ids submissions id epoch_id tree pids cids w).0.0 ≡ ok sub
      → (sub.batch ≡ record {
        id = id;
        submission_ids = data_ids;
        submissions = submissions;
        root_hash = get_root_hash s (update_merkle_tree s data_ids tree).1;
        pids = pids;
        cids = cids;
      })
        × (sub.epoch_id ≡ epoch_id)
  unfolding build_batch
  build_batch_ok data_ids submissions id epoch_id tree pids cids w sub h =
      elim (Result-cases (update_merkle_tree s data_ids tree).0) [
        | inl (_, e) ↦ store_batch_ok _ epoch_id w sub (rw (e, build_batch) at h)
        | inr (m, e) ↦ let k = rw (e, build_batch) at h in cc
      ]
