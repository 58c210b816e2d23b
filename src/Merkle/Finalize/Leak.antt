-- ===== src/Merkle/Finalize/Leak.antt =====
-- A batch that could not be built leaves its projects to the next batch: the maps of finalizeBatches
-- start anew only after a batch that was built.
use submission_sequencer_bat.Prelude.{
  ℕ, ◌≡◌, refl, ap, sym, subst, ◌∙◌, Bool, true, ◌||◌, List, [], ◌∷◌, ◌++◌, arith, any,
}
use submission_sequencer_bat.Prelude.Text.{Text, text_eq}
use submission_sequencer_bat.Prelude.Sort.{sort_texts, insert_text}
use submission_sequencer_bat.Prelude.Dict.{Dict, insert, dict_keys}
use submission_sequencer_bat.Prelude.Effect.{Result, ok, err}
use submission_sequencer_bat.Data.{Batch, BatchSubmission}
use submission_sequencer_bat.Services.{Services}
use submission_sequencer_bat.Merkle.Build.{build_batch}
use submission_sequencer_bat.Merkle.Build.Laws.{build_batch_ok}
use submission_sequencer_bat.Merkle.Tally.{
  Tally, Outcome, goes_on, stops, panics, count_value, count_key, count_keys,
}
use submission_sequencer_bat.Merkle.Tally.Votes.{count_key_cases}
use submission_sequencer_bat.Merkle.Finalize.{
  State, project_ids, project_cids, after_build, build_tally, next, carried, finalize_batch,
}

-- The text is listed.
abbrev pub has : Text → List Text → Bool
has p = any (λ q. text_eq q p)

has-insert_text :
    (p x : Text) (ys : List Text) → has p (insert_text x ys) ≡ (text_eq x p || has p ys)
unfolding insert_text
has-insert_text p x [] = refl
has-insert_text p x (y ∷ ys) = ground (arith, has-insert_text p x ys)

has-sort_texts : (p : Text) (xs : List Text) → has p (sort_texts xs) ≡ has p xs
unfolding sort_texts
has-sort_texts p [] = refl
has-sort_texts p (x ∷ xs) =
    has-insert_text p x (sort_texts xs) ∙ ap (λ b. text_eq x p || b) (has-sort_texts p xs)

has-insert :
    {V : Type 0} (p k : Text) (v : V) (m : Dict V)
    → has p (dict_keys m) ≡ true
    → has p (dict_keys (insert k v m)) ≡ true
unfolding insert
has-insert p k v [] h = cc
has-insert p k v ((j, w) ∷ m) h = ground (arith, has-insert p k v m)

abbrev HasLeader : Text → Tally → Type 0
HasLeader p t = has p (dict_keys t.most_frequent) ≡ true

count_value-HasLeader :
    (p q v id body : Text) (t : Tally) → HasLeader p t → HasLeader p (count_value q v id body t)
unfolding count_value
count_value-HasLeader p q v id body t h = ground (arith, has-insert p q v t.most_frequent h)

module _ (s : Services) (p : Text) where
  abbrev Keeps : Tally → Outcome Tally × s.World → Type 0
  Keeps t r = (t' : Tally) → r.0 ≡ goes_on t' → HasLeader p t → HasLeader p t'

  count_key-Keeps : (key : Text) (t : Tally) (w : s.World) → Keeps t (count_key s key t w)
  count_key-Keeps key t w =
      count_key_cases s (Keeps t) key t w (λ e t' h k. let e' : t ≡ t' = cc in rw (← e') k)
        (λ t' h. cc) (λ t' h. cc)
        (λ q v id body e t' h k.
          let e' : count_value q v id body t ≡ t' = cc in
          rw (← e') (count_value-HasLeader p q v id body t k))

  abbrev then_keys : List Text → Outcome Tally × s.World → Outcome Tally × s.World
  then_keys keys (o, w') = elim o [
    | goes_on t' ↦ count_keys s keys t' w'
    | stops ↦ (stops, w')
    | panics ↦ (panics, w')
  ]

  then_keys-Keeps :
      (keys : List Text) (t : Tally) (o : Outcome Tally) (w : s.World)
      → Keeps t (o, w)
      → ((t₁ : Tally) → Keeps t₁ (count_keys s keys t₁ w))
      → Keeps t (then_keys keys (o, w))
  then_keys-Keeps keys t (goes_on t₁) w h ih t' e k = ih t₁ t' e (h t₁ refl k)
  then_keys-Keeps keys t stops w h ih t' e k = cc
  then_keys-Keeps keys t panics w h ih t' e k = cc

  count_keys-Keeps : (keys : List Text) (t : Tally) (w : s.World) → Keeps t (count_keys s keys t w)
  unfolding count_keys
  count_keys-Keeps [] t w t' h k = let e : t ≡ t' = cc in rw (← e) k
  count_keys-Keeps (key ∷ keys) t w t' e k =
      let (o, w') = count_key s key t w in
      then_keys-Keeps keys t o w' (count_key-Keeps key t w) (λ t₁. count_keys-Keeps keys t₁ w') t' e
        k

module _ (s : Services) (epoch_id : ℕ) (p : Text) where
  -- Every batch added from `before` on lists the project.
  abbrev AddsListed : List BatchSubmission → List BatchSubmission → Type 0
  AddsListed before after =
      (sub : BatchSubmission) → after ≡ before ++ (sub ∷ []) → has p sub.batch.pids ≡ true

  last_injective :
      (xs : List BatchSubmission) (a b : BatchSubmission) → xs ++ (a ∷ []) ≡ xs ++ (b ∷ []) → a ≡ b
  last_injective [] a b e = cc
  last_injective (x ∷ xs) a b e = last_injective xs a b (cc)

  not_longer : (xs : List BatchSubmission) (a : BatchSubmission) → ¬ (xs ≡ xs ++ (a ∷ []))
  not_longer [] a e = cc
  not_longer (x ∷ xs) a e = not_longer xs a (cc)

  after_build-AddsListed :
      (t : Tally) (st : State s) (r : (Result BatchSubmission × s.Tree) × s.World)
      → ((sub : BatchSubmission) → r.0.0 ≡ ok sub → has p sub.batch.pids ≡ true)
      → AddsListed st.built (after_build s t st r).built
  unfolding after_build
  after_build-AddsListed t st ((ok sub, tree), w) h sub' e =
      subst (λ (b : BatchSubmission). has p b.batch.pids ≡ true)
        (last_injective st.built sub sub' e) (h sub refl)
  after_build-AddsListed t st ((err m, tree), w) h sub' e = absurd (not_longer st.built sub' e)

  build_tally-AddsListed :
      (t : Tally) (st : State s)
      → HasLeader p t
      → AddsListed st.built (build_tally s epoch_id t st).built
  unfolding build_tally
  build_tally-AddsListed t st k = after_build-AddsListed t st _ λ sub e.
      let (batch, _) =
        build_batch_ok s t.all_ids t.all_data st.batch_id epoch_id st.tree
          (project_ids t.most_frequent) (project_cids t.most_frequent) st.world sub e in
      subst (λ (b : Batch). has p b.pids ≡ true) (sym batch)
        (has-sort_texts p (dict_keys t.most_frequent) ∙ k)

  next-AddsListed :
      (st : State s) (o : Outcome Tally)
      → ((t : Tally) → o ≡ goes_on t → HasLeader p t)
      → AddsListed st.built (next s epoch_id st o).1.built
  next-AddsListed st (goes_on t) h sub e = build_tally-AddsListed t st (h t refl) sub e
  next-AddsListed st stops h sub e = absurd (not_longer st.built sub e)
  next-AddsListed st panics h sub e = absurd (not_longer st.built sub e)

  failed_leaders :
      (t : Tally) (st : State s) (r : (Result BatchSubmission × s.Tree) × s.World) {m : Text}
      → r.0.0 ≡ err m
      → (carried s (after_build s t st r)).most_frequent ≡ t.most_frequent
  unfolding after_build
  failed_leaders t st ((ok sub, tree), w) e = cc
  failed_leaders t st ((err m, tree), w) e = refl

  -- When the batch of a project cannot be built, every batch that the next round adds lists that
  -- project, whatever keys the next batch has.
  pub failed_batch_leaks :
      (t : Tally) (st : State s) (next_batch : List Text) {m : Text}
      → has p (dict_keys t.most_frequent) ≡ true
      → (build_batch s t.all_ids t.all_data st.batch_id epoch_id st.tree
          (project_ids t.most_frequent)
          (project_cids t.most_frequent)
          st.world).0.0
        ≡ err m
      → (sub : BatchSubmission)
      → (finalize_batch s epoch_id next_batch (build_tally s epoch_id t st)).1.built
        ≡ (build_tally s epoch_id t st).built ++ (sub ∷ [])
      → has p sub.batch.pids ≡ true
  unfolding finalize_batch
  failed_batch_leaks t st next_batch k failed =
      let st' = build_tally s epoch_id t st in
      let (o, w) = count_keys s next_batch (carried s st') st'.world in
      next-AddsListed (record st' { world = w }) o
        (λ t' e.
          count_keys-Keeps s p next_batch (carried s st') st'.world t' e
            (subst (λ (l : Dict Text). has p (dict_keys l) ≡ true) (sym kept) k))
    where
      kept : (carried s (build_tally s epoch_id t st)).most_frequent ≡ t.most_frequent
      kept = unfold build_tally in failed_leaders t st _ failed
