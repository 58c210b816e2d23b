-- ===== src/Service/Days/Placed.antt =====
-- Results that are placed at the indexes of their days stand there in whatever order they come.
use mathlib.Core.List.{Permᴰ}
use submission_sequencer_bat.Prelude.{
  ℕ, zero, suc, ◌+◌, ◌<◌, ◌≡◌, refl, sym, ap, ap₂, ◌∙◌, ◌⊎◌, inl, inr, Bool, true, false, ◌||◌,
  List, [], ◌∷◌, some, length, length-set, get_elem?, set, get_elem?-set_self, get_elem?-set_ne,
  arith, ◌==◌, ==_iff, lt→ltb, Bool-cases, All,
}
use submission_sequencer_bat.Prelude.Int.{ℤ, pos, negsuc}
use submission_sequencer_bat.Merkle.Arrange.Orders.{All-Permᴰ}
use submission_sequencer_bat.Service.Reply.{DailySubmissions}
use submission_sequencer_bat.Service.Days.{index_of, place_all}

in_range : {A : Type 0} (xs : List A) (i : ℕ) {a : A} → get_elem? xs i ≡ some a → i < length xs
in_range [] i e = cc
in_range (x ∷ xs) zero e = omega arith
in_range (x ∷ xs) (suc i) e = omega (arith, in_range xs i e)

-- Lists with the same elements at the same places are the same.
same_elements :
    {A : Type 0} (xs ys : List A)
    → length xs ≡ length ys
    → ((i : ℕ) → i < length ys → get_elem? xs i ≡ get_elem? ys i)
    → xs ≡ ys
same_elements [] [] e h = refl
same_elements [] (y ∷ ys) e h = absurd (omega arith)
same_elements (x ∷ xs) [] e h = absurd (omega arith)
same_elements (x ∷ xs) (y ∷ ys) e h =
    let head : some x ≡ some y = h 0 (omega arith) in
    let same : x ≡ y = cc in
    ap₂ (λ a as_. a ∷ as_) same (same_elements xs ys (omega arith) (λ i k. h (suc i) (omega arith)))

or_swap : (a b r : Bool) → (a || (b || r)) ≡ (b || (a || r))
or_swap a b r = ground arith

or_true : (a b : Bool) → b ≡ true → (a || b) ≡ true
or_true a b h = ground arith

module _ (c : ℤ) where
  -- The results stand at their indexes, from `i` on.
  abbrev pub Indexed : ℕ → List DailySubmissions → Type 0
  Indexed i [] = Unit {0}
  Indexed i (d ∷ ds) = (index_of c d ≡ pos i) × Indexed (i + 1) ds

  abbrev is_at : ℕ → ℤ → Bool
  is_at j (pos i) = i == j
  is_at j (negsuc i) = false

  abbrev has_index : ℕ → List DailySubmissions → Bool
  has_index j [] = false
  has_index j (d ∷ ds) = is_at j (index_of c d) || has_index j ds

  -- The result is the one at its index.
  abbrev IsEntry : List DailySubmissions → DailySubmissions → Type 0
  IsEntry all d = (j : ℕ) × (index_of c d ≡ pos j) × (get_elem? all j ≡ some d)

  has_index-Permᴰ :
      (j : ℕ) {xs ys : List DailySubmissions} → Permᴰ xs ys → has_index j xs ≡ has_index j ys
  has_index-Permᴰ j Permᴰ.nil = refl
  has_index-Permᴰ j (Permᴰ.cons e p) =
      ap₂ (λ a b. is_at j (index_of c a) || b) e (has_index-Permᴰ j p)
  has_index-Permᴰ j (Permᴰ.swap {a} {b} {a'} {b'} {l} e k) =
      or_swap (is_at j (index_of c a)) (is_at j (index_of c b)) (has_index j l)
      ∙ ap₂ (λ x y. is_at j (index_of c x) || (is_at j (index_of c y) || has_index j l)) k e
  has_index-Permᴰ j (Permᴰ.trans p q) = has_index-Permᴰ j p ∙ has_index-Permᴰ j q

  Indexed-IsEntry :
      (all ds : List DailySubmissions) (i : ℕ)
      → Indexed i ds
      → ((j : ℕ) → get_elem? ds j ≡ get_elem? all (i + j))
      → All (IsEntry all) ds
  Indexed-IsEntry all [] i h k = tt
  Indexed-IsEntry all (d ∷ ds) i (e, h) k =
      let here : i + 0 ≡ i = omega arith in
      (
        (i, e, sym (k 0 ∙ ap (get_elem? all) here)),
        Indexed-IsEntry all ds (i + 1) h (λ j.
            let next : i + suc j ≡ i + 1 + j = omega arith in k (suc j) ∙ ap (get_elem? all) next),
      )

  Indexed-has_index :
      (ds : List DailySubmissions) (i j : ℕ)
      → Indexed i ds
      → j < length ds
      → has_index (i + j) ds ≡ true
  Indexed-has_index [] i j h k = absurd (omega arith)
  Indexed-has_index (d ∷ ds) i zero (e, h) k = rw e (ground arith)
  Indexed-has_index (d ∷ ds) i (suc j) (e, h) k =
      let next : i + suc j ≡ i + 1 + j = omega arith in
      or_true (is_at (i + suc j) (index_of c d)) (has_index (i + suc j) ds)
        (ap (λ n. has_index n ds) next ∙ Indexed-has_index ds (i + 1) j h (omega arith))

  -- What placing the results leaves: at each index the result of it, or what stood there if none of
  -- them has that index.
  record IsPlaced (all xs response : List DailySubmissions) : Type 0 where
    end : List DailySubmissions
    is_end : place_all c xs response ≡ some end
    size : length end ≡ length all
    element :
        (j : ℕ)
        → (get_elem? end j ≡ get_elem? all j)
          ⊎ ((get_elem? end j ≡ get_elem? response j) × (has_index j xs ≡ false))

  place-element :
      (all xs response end : List DailySubmissions) (d : DailySubmissions) (i j : ℕ)
      → i < length response
      → index_of c d ≡ pos i
      → get_elem? all i ≡ some d
      → (get_elem? end j ≡ get_elem? all j)
        ⊎ ((get_elem? end j ≡ get_elem? (set response i d) j) × (has_index j xs ≡ false))
      → (get_elem? end j ≡ get_elem? all j)
        ⊎ ((get_elem? end j ≡ get_elem? response j) × (has_index j (d ∷ xs) ≡ false))
  place-element all xs response end d i j h e g (inl same) = inl same
  place-element all xs response end d i j h e g (inr (same, none_of)) = elim (Bool-cases (i == j)) [
    | inl eq ↦
        let here : i ≡ j = (==_iff i j).0 eq in
        inl (
          same
          ∙ ap (get_elem? (set response i d)) (sym here)
          ∙ get_elem?-set_self response i d h
          ∙ sym g
          ∙ ap (get_elem? all) here)
    | inr ne ↦
        inr (
          same ∙ get_elem?-set_ne response d (λ k. ground (arith, ==_iff i j)),
          rw (e, ne, none_of),
        )
  ]

  place-IsPlaced :
      (all xs response : List DailySubmissions)
      → length response ≡ length all
      → All (IsEntry all) xs
      → IsPlaced all xs response
  unfolding place_all
  place-IsPlaced all [] response e h = record {
    end = response;
    is_end = refl;
    size = e;
    element = λ j. inr (refl, refl);
  }
  place-IsPlaced all (d ∷ xs) response e ((i, at, found), h) =
      let fits : i < length response = omega (arith, in_range all i found) in
      let rest = place-IsPlaced all xs (set response i d) (length-set response i d ∙ e) h in
      record {
        end = rest.end;
        is_end = rw (at, lt→ltb i (length response) fits) rest.is_end;
        size = rest.size;
        element = λ j. place-element all xs response rest.end d i j fits at found (rest.element j);
      }

  whole_response :
      (all xs response : List DailySubmissions)
      → ((j : ℕ) → j < length all → has_index j xs ≡ true)
      → IsPlaced all xs response
      → place_all c xs response ≡ some all
  whole_response all xs response h p =
      p.is_end ∙ ap some (same_elements p.end all p.size (λ i k. from i (h i k) (p.element i)))
    where
      from :
          (i : ℕ)
          → has_index i xs ≡ true
          → (get_elem? p.end i ≡ get_elem? all i)
            ⊎ ((get_elem? p.end i ≡ get_elem? response i) × (has_index i xs ≡ false))
          → get_elem? p.end i ≡ get_elem? all i
      from i k (inl e) = e
      from i k (inr (e, none_of)) = cc

  -- Results that are placed in another order end at the same places.
  pub place-Permᴰ :
      (all xs response : List DailySubmissions)
      → Indexed 0 all
      → Permᴰ all xs
      → length response ≡ length all
      → place_all c xs response ≡ some all
  place-Permᴰ all xs response h p e =
      whole_response all xs response
        (λ j k.
          let first : 0 + j ≡ j = omega arith in
          sym (has_index-Permᴰ j p)
          ∙ ap (λ n. has_index n all) (sym first)
          ∙ Indexed-has_index all 0 j h k)
        (place-IsPlaced all xs response e (
          All-Permᴰ (IsEntry all) p (
            Indexed-IsEntry all all 0 h
              (λ j. let first : 0 + j ≡ j = omega arith in ap (get_elem? all) (sym first)))))
