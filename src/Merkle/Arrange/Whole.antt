-- ===== src/Merkle/Arrange/Whole.antt =====
-- The keys of a project never part: a batch has all of them or none.
use submission_sequencer_bat.Prelude.{
  ℕ, ◌+◌, ◌≤◌, ◌≡◌, refl, ◌⊎◌, inl, inr, List, [], ◌∷◌, ◌++◌, arith, leb, length, Bool-cases, All,
  All-append, All-imp,
}
use submission_sequencer_bat.Prelude.Text.{Text}
use submission_sequencer_bat.Prelude.Dict.{Dict}
use submission_sequencer_bat.Merkle.Arrange.{flush, place, close, pack}
use submission_sequencer_bat.Merkle.Arrange.Grouping.{
  flatten, count_project, count_project-append, Once,
}

module _ (p : Text) (n : ℕ) where
  -- None or all of the `n` keys of the project.
  abbrev pub IsWhole : List Text → Type 0
  IsWhole b = (count_project p b ≡ 0) ⊎ (count_project p b ≡ n)

  IsWhole-append :
      (xs ys : List Text)
      → IsWhole xs
      → IsWhole ys
      → count_project p xs + count_project p ys ≤ n
      → IsWhole (xs ++ ys)
  IsWhole-append xs ys h k le = ground (arith, count_project-append p xs ys)

  IsWhole-nil : IsWhole []
  unfolding count_project
  IsWhole-nil = inl refl

  flush-All :
      (bs : List (List Text)) (b : List Text)
      → All IsWhole bs
      → IsWhole b
      → All IsWhole (flush bs b)
  flush-All bs [] h k = h
  flush-All bs (x ∷ b) h k = All-append IsWhole bs ((x ∷ b) ∷ []) h (k, tt)

  step-All :
      (size : ℕ) (st : List (List Text) × List Text) (ks : List Text)
      → All IsWhole st.0
      → IsWhole st.1
      → IsWhole ks
      → count_project p st.1 + count_project p ks ≤ n
      → let st' = close size (place size st ks) in
        All IsWhole st'.0
        × IsWhole st'.1
        × (count_project p st'.1 ≤ count_project p st.1 + count_project p ks)
  unfolding close place
  step-All size (bs, cur) ks h c k le = elim (Bool-cases (leb (length cur + length ks) size)) [
    | inl e ↦ rw e (
        closed bs (cur ++ ks) h (IsWhole-append cur ks c k le)
          (omega (arith, count_project-append p cur ks)))
    | inr e ↦ rw e (closed (flush bs cur) ks (flush-All bs cur h c) k (omega arith))
  ]
    where
      closed :
          (bs' : List (List Text)) (b : List Text)
          → All IsWhole bs'
          → IsWhole b
          → count_project p b ≤ count_project p cur + count_project p ks
          → All IsWhole (close size (bs', b)).0
            × IsWhole (close size (bs', b)).1
            × (count_project p (close size (bs', b)).1 ≤ count_project p cur + count_project p ks)
      closed bs' b h' k' le' = elim (Bool-cases (leb size (length b))) [
        | inl e ↦ rw e (
          All-append IsWhole bs' (b ∷ []) h' (k', tt),
          IsWhole-nil,
          unfold count_project in omega arith,
        )
        | inr e ↦ rw e (h', k', le')
      ]

  pub pack-IsWhole :
      (size : ℕ) (groups : Dict (List Text)) (st : List (List Text) × List Text)
      → All IsWhole st.0
      → IsWhole st.1
      → All (λ g. IsWhole g.1) groups
      → count_project p st.1 + count_project p (flatten groups) ≤ n
      → All IsWhole (pack size groups st)
  unfolding pack
  pack-IsWhole size [] st h c k le = flush-All st.0 st.1 h c
  pack-IsWhole size ((q, ks) ∷ groups) st h c (k, k') le =
      let split_count = count_project-append p ks (flatten groups) in
      let (h', c', le') = step-All size st ks h c k (omega (arith, split_count)) in
      pack-IsWhole size groups (close size (place size st ks)) h' c' k' (omega (arith, split_count))

  zero-IsWhole :
      (m : Dict (List Text)) → All (λ e. count_project p e.1 ≡ 0) m → All (λ g. IsWhole g.1) m
  zero-IsWhole = All-imp (λ g z. inl z)

  zero-count :
      (m : Dict (List Text))
      → All (λ e. count_project p e.1 ≡ 0) m
      → count_project p (flatten m) ≡ 0
  unfolding count_project
  zero-count [] h = refl
  zero-count ((q, ks) ∷ m) (h, hs) =
      omega (arith, count_project-append p ks (flatten m), zero-count m hs)

  pub Once-IsWhole : (m : Dict (List Text)) → Once p n m → All (λ g. IsWhole g.1) m
  Once-IsWhole [] h = tt
  Once-IsWhole ((q, ks) ∷ m) (inl (e, c, z)) = (inr c, zero-IsWhole m z)
  Once-IsWhole ((q, ks) ∷ m) (inr (e, c, h)) = (inl c, Once-IsWhole m h)

  pub Once-count : (m : Dict (List Text)) → Once p n m → count_project p (flatten m) ≡ n
  unfolding count_project
  Once-count [] h = omega arith
  Once-count ((q, ks) ∷ m) (inl (e, c, z)) =
      omega (arith, count_project-append p ks (flatten m), zero-count m z)
  Once-count ((q, ks) ∷ m) (inr (e, c, h)) =
      omega (arith, count_project-append p ks (flatten m), Once-count m h)
