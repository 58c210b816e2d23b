-- ===== src/Merkle/Finalize/Ids.antt =====
-- The identifiers and the projects of the batches that finalizeBatches builds.
use submission_sequencer_bat.Prelude.{
  ℕ, ◌+◌, ◌≤◌, ◌≡◌, refl, ap, sym, subst, List, [], ◌∷◌, ◌++◌, arith, length, length-append,
  length-map, All, All-append,
}
use submission_sequencer_bat.Prelude.Text.{Text}
use submission_sequencer_bat.Prelude.Sort.{IsSorted, sort_texts-IsSorted}
use submission_sequencer_bat.Prelude.Effect.{Result, ok, err, Done}
use submission_sequencer_bat.Data.{Batch, BatchSubmission}
use submission_sequencer_bat.Services.{Services}
use submission_sequencer_bat.Merkle.Build.Laws.{build_batch_ok}
use submission_sequencer_bat.Merkle.Tally.{Tally, Outcome, goes_on, stops, panics, count_keys}
use submission_sequencer_bat.Merkle.Finalize.{
  State, project_ids, project_cids, after_build, build_tally, next, carried, unless, finalize_batch,
  finalize_loop, conclude, finalize_batches,
}

-- The identifiers count on from `n`.
abbrev pub Consecutive : ℕ → List BatchSubmission → Type 0
Consecutive n [] = Unit {0}
Consecutive n (b ∷ bs) = (b.batch.id ≡ n) × Consecutive (n + 1) bs

-- A batch is of the epoch, and lists its projects in order with a CID for each.
abbrev pub IsOrderly : ℕ → BatchSubmission → Type 0
IsOrderly epoch_id b =
    (b.epoch_id ≡ epoch_id) × IsSorted b.batch.pids × (length b.batch.cids ≡ length b.batch.pids)

Consecutive-append :
    (n : ℕ) (bs : List BatchSubmission) (b : BatchSubmission)
    → Consecutive n bs
    → b.batch.id ≡ n + length bs
    → Consecutive n (bs ++ (b ∷ []))
Consecutive-append n [] b h e = (omega arith, tt)
Consecutive-append n (x ∷ bs) b (e, h) k = (e, Consecutive-append (n + 1) bs b h (omega arith))

module _ (s : Services) (first epoch_id : ℕ) where
  -- What holds of the work so far.
  record Inv (st : State s) : Type 0 where
    numbered : Consecutive first st.built
    counted : st.batch_id ≡ first + length st.built
    orderly : All (IsOrderly epoch_id) st.built

  after_build-Inv :
      (t : Tally) (st : State s) (r : (Result BatchSubmission × s.Tree) × s.World)
      → Inv st
      → ((sub : BatchSubmission)
          → r.0.0 ≡ ok sub
          → (sub.batch.id ≡ st.batch_id) × IsOrderly epoch_id sub)
      → Inv (after_build s t st r)
  unfolding after_build
  after_build-Inv t st ((ok sub, tree), w) v h =
      let (id, orderly) = h sub refl in
      record {
        numbered = Consecutive-append first st.built sub v.numbered (omega (arith, id, v.counted));
        counted = omega (arith, v.counted, length-append st.built (sub ∷ []));
        orderly = All-append (IsOrderly epoch_id) st.built (sub ∷ []) v.orderly (orderly, tt);
      }
  after_build-Inv t st ((err e, tree), w) v h = record {
    numbered = v.numbered;
    counted = v.counted;
    orderly = v.orderly;
  }

  build_tally-Inv : (t : Tally) (st : State s) → Inv st → Inv (build_tally s epoch_id t st)
  unfolding build_tally
  build_tally-Inv t st v = after_build-Inv t st _ v λ sub e.
      let (batch, epoch) =
        build_batch_ok s t.all_ids t.all_data st.batch_id epoch_id st.tree
          (project_ids t.most_frequent) (project_cids t.most_frequent) st.world sub e in
      (
        ap (λ (b : Batch). b.id) batch,
        (
          epoch,
          subst (λ (b : Batch). IsSorted b.pids) (sym batch) (sort_texts-IsSorted _),
          subst (λ (b : Batch). length b.cids ≡ length b.pids) (sym batch)
              (length-map (project_ids t.most_frequent) _),
        ),
      )

  next-Inv : (st : State s) (o : Outcome Tally) → Inv st → Inv (next s epoch_id st o).1
  next-Inv st (goes_on t) v = build_tally-Inv t st v
  next-Inv st stops v = v
  next-Inv st panics v = v

  finalize_batch-Inv :
      (batch : List Text) (st : State s) → Inv st → Inv (finalize_batch s epoch_id batch st).1
  unfolding finalize_batch
  finalize_batch-Inv batch st v =
      let (o, w) = count_keys s batch (carried s st) st.world in
      next-Inv (record st { world = w }) o
        (record { numbered = v.numbered; counted = v.counted; orderly = v.orderly })

  unless-Inv :
      (o : Outcome Done) (rest : Outcome Done × State s) (st : State s)
      → Inv st
      → Inv rest.1
      → Inv (unless s o rest st).1
  unless-Inv (goes_on _) rest st v k = k
  unless-Inv stops rest st v k = v
  unless-Inv panics rest st v k = v

  finalize_loop-Inv :
      (batches : List (List Text)) (st : State s)
      → Inv st
      → Inv (finalize_loop s epoch_id batches st).1
  unfolding finalize_loop
  finalize_loop-Inv [] st v = v
  finalize_loop-Inv (batch ∷ batches) st v =
      let (o, st') = finalize_batch s epoch_id batch st in
      let v' = finalize_batch-Inv batch st v in
      unless-Inv o (finalize_loop s epoch_id batches st') st' v' (finalize_loop-Inv batches st' v')

  -- What the caller gets: the batches if the work went through, and the next identifier.
  abbrev pub Numbers : (Outcome (List BatchSubmission) × ℕ) × s.World → Type 0
  Numbers ((goes_on built, id), w) =
      Consecutive first built × (id ≡ first + length built) × All (IsOrderly epoch_id) built
  Numbers ((stops, id), w) = first ≤ id
  Numbers ((panics, id), w) = first ≤ id

  conclude-Numbers :
      (o : Outcome Done) (st : State s) → Inv st → Numbers (conclude s epoch_id (o, st))
  conclude-Numbers (goes_on _) st v = (v.numbered, v.counted, v.orderly)
  conclude-Numbers stops st v = omega (arith, v.counted)
  conclude-Numbers panics st v = omega (arith, v.counted)

-- The batches returned have consecutive identifiers from the one given on, belong to the epoch, and
-- list their projects in byte order with one CID each; the next identifier is the one after the
-- last. When the work ends early, the next identifier is not less than the one given.
pub finalize_batches-Numbers :
    (s : Services) (batches : List (List Text)) (epoch_id : ℕ) (tree : s.Tree) (first : ℕ)
    (w : s.World)
    → Numbers s first epoch_id (finalize_batches s batches epoch_id tree first w)
unfolding finalize_batches
finalize_batches-Numbers s batches epoch_id tree first w = conclude-Numbers s first epoch_id _ _ (
    finalize_loop-Inv s first epoch_id batches _
      (record { numbered = tt; counted = omega arith; orderly = tt }))
