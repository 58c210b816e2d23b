-- ===== src/Merkle/Arrange/Laws.antt =====
-- The promises of arrangeKeysInBatches.
use mathlib.Core.List.{Permᴰ, append-nil}
use mathlib.Core.List.Perm
use submission_sequencer_bat.Prelude.{
  ℕ, ◌+◌, ◌≤◌, ◌<◌, ◌≡◌, refl, subst, ◌⊎◌, inl, inr, List, [], ◌∷◌, Perm, some, arith, length,
  length-append, All, All-append, filter_by, concat,
}
use submission_sequencer_bat.Prelude.Text.{Text}
use submission_sequencer_bat.Prelude.Dict.{Dict}
use submission_sequencer_bat.Services.{Services}
use submission_sequencer_bat.Merkle.Arrange.{project_of, group_keys, arrange_keys_in_batches}
use submission_sequencer_bat.Merkle.Arrange.Grouping.{
  flatten, well_formed, count_project, Once, group_keys-Perm, group_keys-All, group_keys-Once,
}
use submission_sequencer_bat.Merkle.Arrange.Packing.{pack-concat, pack-All}
use submission_sequencer_bat.Merkle.Arrange.Orders.{All-Permᴰ, flatten-Perm, count-flatten}
use submission_sequencer_bat.Merkle.Arrange.Whole.{IsWhole, pack-IsWhole, Once-IsWhole, Once-count}

-- All keys are of the project `p`.
abbrev pub OfProject : Text → List Text → Type 0
OfProject p = All (λ k. project_of k ≡ some p)

-- A batch is not empty, and it stays within the size or holds the keys of one project only.
abbrev pub IsFit : ℕ → List Text → Type 0
IsFit size b = (0 < length b) × ((length b ≤ size) ⊎ ((p : Text) × OfProject p b))

abbrev IsGroup : Text × List Text → Type 0
IsGroup g = (0 < length g.1) × OfProject g.0 g.1

module _ (s : Services) (range_order : (m : Dict (List Text)) → Permᴰ m (s.range_map (List Text) m))
    (size : ℕ) (keys : List Text) (w : s.World) where
  -- The batches together hold every key of three parts as often as it was given, and no other key,
  -- in whatever order the map of projects is walked.
  pub arrange-Perm :
      Perm (concat (arrange_keys_in_batches s size keys w).0) (filter_by well_formed keys)
  unfolding arrange_keys_in_batches
  arrange-Perm =
      let m = (group_keys s keys [] w).0 in
      rw (pack-concat size (s.range_map (List Text) m) ([], [])) (
        Perm.trans (Perm.symm (flatten-Perm (range_order m))) (
          subst (Perm (flatten m)) (append-nil (filter_by well_formed keys))
            (group_keys-Perm s keys [] w)))

  -- No batch is empty, and a batch is larger than the size only if all its keys are of one project.
  pub arrange-IsFit : All (IsFit size) (arrange_keys_in_batches s size keys w).0
  unfolding arrange_keys_in_batches
  arrange-IsFit =
      pack-All size (IsFit size) (λ b. length b ≤ size) IsGroup (omega arith) (λ b h k. (k, inl h))
        (λ g h. ((h.0, inr (g.0, h.1)), h.0)) (λ g h k. omega arith)
        (λ g b h k le. omega (arith, length-append b g.1)) (s.range_map (List Text) m) ([], [])
        (All-Permᴰ IsGroup (range_order m) groups) tt (omega arith)
    where
      m : Dict (List Text)
      m = (group_keys s keys [] w).0

      groups : All IsGroup m
      groups =
          group_keys-All s IsGroup (λ p k e. (omega arith, (e, tt)))
            (λ p k v e h. (
              omega (arith, length-append v (k ∷ [])),
              All-append (λ j. project_of j ≡ some p) v (k ∷ []) h.1 (e, tt),
            ))
            keys [] w tt

  -- For each project, a batch has all the keys of that project that were given, or none of them.
  pub arrange-IsWhole :
      (p : Text) → All (IsWhole p (count_project p keys)) (arrange_keys_in_batches s size keys w).0
  unfolding arrange_keys_in_batches count_project
  arrange-IsWhole p =
      pack-IsWhole p n size (s.range_map (List Text) m) ([], []) tt (inl refl)
        (All-Permᴰ (λ g. IsWhole p n g.1) (range_order m) (Once-IsWhole p n m once))
        (omega (arith, count-flatten p (range_order m), Once-count p n m once))
    where
      n : ℕ
      n = count_project p keys

      m : Dict (List Text)
      m = (group_keys s keys [] w).0

      once : Once p n m
      once = let e : 0 + n ≡ n = omega arith in rw e at (group_keys-Once s p keys 0 [] w refl)
