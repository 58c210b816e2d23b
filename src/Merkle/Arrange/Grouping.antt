-- ===== src/Merkle/Arrange/Grouping.antt =====
-- What the map from projects to their keys holds after the first loop of arrangeKeysInBatches.
use mathlib.Core.List.{append_assoc, perm_middle}
use mathlib.Core.List.Perm
use submission_sequencer_bat.Prelude.{
  ℕ, ◌+◌, ◌≡◌, sym, ap, subst, ◌∙◌, ◌⊎◌, inl, inr, Bool, true, false, List, [], ◌∷◌, ◌++◌, Perm,
  Option, none, some, arith, if◌then◌else◌, Bool-cases, Option-cases, All, filter_by,
}
use submission_sequencer_bat.Prelude.Text.{
  Text, text_eq, text_eq_iff, text_eq_refl, text_eq_ne, or_else,
}
use submission_sequencer_bat.Prelude.Dict.{Dict, lookup, insert, lookup_other, insert_other}
use submission_sequencer_bat.Services.{Services}
use submission_sequencer_bat.Merkle.Arrange.{project_of, push, group_keys}

abbrev pub is_some {ℓ} : {A : Type ℓ} → Option A → Bool
is_some none = false
is_some (some a) = true

abbrev pub well_formed : Text → Bool
well_formed key = is_some (project_of key)

-- The keys of all groups, group by group.
abbrev pub flatten : Dict (List Text) → List Text
flatten [] = []
flatten ((p, keys) ∷ m) = keys ++ flatten m

abbrev pub named : Text → Option Text → Bool
named p none = false
named p (some q) = text_eq q p

-- How many of the keys belong to the project `p`.
unfoldable pub count_project : Text → List Text → ℕ
count_project p [] = 0
count_project p (k ∷ ks) = (if named p (project_of k) then 1 else 0) + count_project p ks

pub count_project-append :
    (p : Text) (xs ys : List Text)
    → count_project p (xs ++ ys) ≡ count_project p xs + count_project p ys
unfolding count_project
count_project-append p [] ys = omega arith
count_project-append p (x ∷ xs) ys = omega (arith, count_project-append p xs ys)

push_hit :
    (p k j : Text) (v : List Text) (m : Dict (List Text))
    → text_eq j p ≡ true
    → push p k ((j, v) ∷ m) ≡ (j, v ++ (k ∷ [])) ∷ m
unfolding push lookup insert
push_hit p k j v m e = rw e

push_miss :
    (p k j : Text) (v : List Text) (m : Dict (List Text))
    → text_eq j p ≡ false
    → push p k ((j, v) ∷ m) ≡ (j, v) ∷ push p k m
unfolding push
push_miss p k j v m e =
    rw (lookup_other p j v m e) (insert_other p j v (or_else (lookup p m) [] ++ (k ∷ [])) m e)

-- To prove of the map after a push: the map was empty, the key joined a group, or it passed one.
push_cases :
    (P : Dict (List Text) → Type 0) (p k j : Text) (v : List Text) (m : Dict (List Text))
    → (text_eq j p ≡ true → P ((j, v ++ (k ∷ [])) ∷ m))
    → (text_eq j p ≡ false → P ((j, v) ∷ push p k m))
    → P (push p k ((j, v) ∷ m))
push_cases P p k j v m hit miss = elim (Bool-cases (text_eq j p)) [
  | inl e ↦ rw (push_hit p k j v m e) (hit e)
  | inr e ↦ rw (push_miss p k j v m e) (miss e)
]

push-Perm : (p k : Text) (m : Dict (List Text)) → Perm (flatten (push p k m)) (k ∷ flatten m)
push-Perm p k [] = unfold push lookup insert in Perm.refl (k ∷ [])
push-Perm p k ((j, v) ∷ m) =
    push_cases (λ m'. Perm (flatten m') (k ∷ (v ++ flatten m))) p k j v m
      (λ e. rw (append_assoc v (k ∷ []) (flatten m)) (perm_middle v (flatten m)))
      (λ e. Perm.trans (Perm.append_left v (push-Perm p k m)) (perm_middle v (flatten m)))

-- A property of the groups is kept, if the new key can start a group and join one.
All-push :
    (Q : Text × List Text → Type 0) (p k : Text) (m : Dict (List Text))
    → Q (p, k ∷ [])
    → ((v : List Text) → Q (p, v) → Q (p, v ++ (k ∷ [])))
    → All Q m
    → All Q (push p k m)
All-push Q p k [] new more h = unfold push lookup insert in (new, tt)
All-push Q p k ((j, v) ∷ m) new more h =
    push_cases (All Q) p k j v m
      (λ e.
        let same : j ≡ p = (text_eq_iff j p).0 e in
        (
          subst (λ q. Q (q, v ++ (k ∷ []))) (sym same) (more v (subst (λ q. Q (q, v)) same h.0)),
          h.1,
        ))
      (λ e. (h.0, All-push Q p k m new more h.1))

-- One group has all `n` keys of the project `p`, and no other group has any.
abbrev pub Once : Text → ℕ → Dict (List Text) → Type 0
Once p n [] = n ≡ 0
Once p n ((q, keys) ∷ m) =
    ((text_eq q p ≡ true) × (count_project p keys ≡ n) × All (λ e. count_project p e.1 ≡ 0) m)
    ⊎ ((text_eq q p ≡ false) × (count_project p keys ≡ 0) × Once p n m)

module _ (p k : Text) (mine : project_of k ≡ some p) where
  count-one : count_project p (k ∷ []) ≡ 1
  unfolding count_project
  count-one = rw (mine, text_eq_refl p) (omega arith)

  push-Once : (n : ℕ) (m : Dict (List Text)) → Once p n m → Once p (n + 1) (push p k m)
  push-Once n [] h = unfold push lookup insert in inl (text_eq_refl p, omega (arith, count-one), tt)
  push-Once n ((q, v) ∷ m) (inl (e, c, z)) =
      rw (push_hit p k q v m e)
        (inl (e, omega (arith, count_project-append p v (k ∷ []), count-one), z))
  push-Once n ((q, v) ∷ m) (inr (e, c, h)) =
      rw (push_miss p k q v m e) (inr (e, c, push-Once n m h))

module _ (p r k : Text) (mine : project_of k ≡ some r) (other : text_eq r p ≡ false) where
  count-none : count_project p (k ∷ []) ≡ 0
  unfolding count_project
  count-none = rw (mine, other) (omega arith)

  other-All :
      (m : Dict (List Text))
      → All (λ e. count_project p e.1 ≡ 0) m
      → All (λ e. count_project p e.1 ≡ 0) (push r k m)
  other-All m =
      All-push (λ e. count_project p e.1 ≡ 0) r k m count-none
        (λ v z. omega (arith, count_project-append p v (k ∷ []), count-none))

  other-Once : (n : ℕ) (m : Dict (List Text)) → Once p n m → Once p n (push r k m)
  other-Once n [] h = unfold push lookup insert in inr (other, count-none, h)
  other-Once n ((q, v) ∷ m) (inl (e, c, z)) =
      rw (push_miss r k q v m apart) (inl (e, c, other-All m z))
    where
      apart : text_eq q r ≡ false
      apart = text_eq_ne q r λ same. cc (rw same at e, other)
  other-Once n ((q, v) ∷ m) (inr (e, c, h)) =
      push_cases (Once p n) r k q v m
        (λ hit. inr (e, omega (arith, count_project-append p v (k ∷ []), count-none), h))
        (λ miss. inr (e, c, other-Once n m h))

-- What the loop of group_keys keeps, for each project.
module _ (s : Services) where
  pub group_keys-Perm :
      (keys : List Text) (m : Dict (List Text)) (w : s.World)
      → Perm (flatten (group_keys s keys m w).0) (filter_by well_formed keys ++ flatten m)
  unfolding group_keys
  group_keys-Perm [] m w = Perm.refl (flatten m)
  group_keys-Perm (k ∷ ks) m w = elim (Option-cases (project_of k)) [
    | inl e ↦ rw (e, group_keys, filter_by) (group_keys-Perm ks m _)
    | inr (p, e) ↦
        rw (e, group_keys, filter_by)
          (Perm.trans (group_keys-Perm ks (push p k m) w) (
            Perm.trans (Perm.append_left (filter_by well_formed ks) (push-Perm p k m))
              (perm_middle (filter_by well_formed ks) (flatten m))))
  ]

  -- A property of the groups holds at the end, if a key can start its project's group and join it.
  pub group_keys-All :
      (Q : Text × List Text → Type 0)
      → ((p k : Text) → project_of k ≡ some p → Q (p, k ∷ []))
      → ((p k : Text) (v : List Text) → project_of k ≡ some p → Q (p, v) → Q (p, v ++ (k ∷ [])))
      → (keys : List Text) (m : Dict (List Text)) (w : s.World) → All Q m
      → All Q (group_keys s keys m w).0
  unfolding group_keys
  group_keys-All Q new more [] m w h = h
  group_keys-All Q new more (k ∷ ks) m w h = elim (Option-cases (project_of k)) [
    | inl e ↦ rw (e, group_keys) (group_keys-All Q new more ks m _ h)
    | inr (p, e) ↦
        rw (e, group_keys)
          (group_keys-All Q new more ks (push p k m) w
            (All-push Q p k m (new p k e) (λ v. more p k v e) h))
  ]

  pub group_keys-Once :
      (p : Text) (keys : List Text) (n : ℕ) (m : Dict (List Text)) (w : s.World)
      → Once p n m
      → Once p (n + count_project p keys) (group_keys s keys m w).0
  unfolding group_keys count_project
  group_keys-Once p [] n m w h = let e : n + 0 ≡ n = omega arith in rw e h
  group_keys-Once p (k ∷ ks) n m w h = elim (Option-cases (project_of k)) [
    | inl e ↦
        let e' : n + (0 + count_project p ks) ≡ n + count_project p ks = omega arith in
        rw (e, group_keys) (rw e' (group_keys-Once p ks n m _ h))
    | inr (r, e) ↦ elim (Bool-cases (text_eq r p)) [
      | inl same ↦
          let e' : n + (1 + count_project p ks) ≡ n + 1 + count_project p ks = omega arith in
          rw (e, group_keys, same)
            (rw e' (
              group_keys-Once p ks (n + 1) (push r k m) w (
                rw ((text_eq_iff r p).0 same)
                  (push-Once p k (e ∙ ap some ((text_eq_iff r p).0 same)) n m h))))
      | inr other ↦
          let e' : n + (0 + count_project p ks) ≡ n + count_project p ks = omega arith in
          rw (e, group_keys, other)
            (rw e' (group_keys-Once p ks n (push r k m) w (other-Once p r k e other n m h)))
    ]
  ]
