-- ===== src/Merkle/Arrange/Orders.antt =====
-- What does not depend on the order in which the map of projects is walked.
use mathlib.Core.List.{Permᴰ, perm_middle}
use mathlib.Core.List.Perm
use submission_sequencer_bat.Prelude.{
  ◌≡◌, refl, subst, ap, ◌∙◌, List, [], ◌∷◌, ◌++◌, Perm, arith, All,
}
use submission_sequencer_bat.Prelude.Text.{Text}
use submission_sequencer_bat.Prelude.Dict.{Dict}
use submission_sequencer_bat.Merkle.Arrange.Grouping.{flatten, count_project, count_project-append}

pub All-Permᴰ {ℓ κ} :
    {A : Type ℓ} (P : A → Type κ) {xs ys : List A} → Permᴰ xs ys → All P xs → All P ys
All-Permᴰ P Permᴰ.nil h = h
All-Permᴰ P (Permᴰ.cons e p) (h, hs) = (subst P e h, All-Permᴰ P p hs)
All-Permᴰ P (Permᴰ.swap e f) (h, (k, hs)) = (subst P f k, (subst P e h, hs))
All-Permᴰ P (Permᴰ.trans p q) h = All-Permᴰ P q (All-Permᴰ P p h)

append_swap : (xs ys zs : List Text) → Perm (xs ++ (ys ++ zs)) (ys ++ (xs ++ zs))
append_swap [] ys zs = Perm.refl (ys ++ zs)
append_swap (x ∷ xs) ys zs =
    Perm.trans (Perm.cons x (append_swap xs ys zs)) (Perm.symm (perm_middle ys (xs ++ zs)))

pub flatten-Perm : {m n : Dict (List Text)} → Permᴰ m n → Perm (flatten m) (flatten n)
flatten-Perm Permᴰ.nil = Perm.refl []
flatten-Perm (Permᴰ.cons {a} {b} {l₁} {l₂} e p) =
    subst (λ (t : Text × List Text). Perm (a.1 ++ flatten l₁) (t.1 ++ flatten l₂)) e
      (Perm.append_left a.1 (flatten-Perm p))
flatten-Perm (Permᴰ.swap {a} {b} {a'} {b'} {l} e f) =
    subst (λ (t : Text × List Text). Perm (a.1 ++ (b.1 ++ flatten l)) (a'.1 ++ (t.1 ++ flatten l)))
      e
      (subst
        (λ (t : Text × List Text). Perm (a.1 ++ (b.1 ++ flatten l)) (t.1 ++ (a.1 ++ flatten l))) f
        (append_swap a.1 b.1 (flatten l)))
flatten-Perm (Permᴰ.trans p q) = Perm.trans (flatten-Perm p) (flatten-Perm q)

-- The keys of a project are as many in every order of the groups.
pub count-flatten :
    (p : Text) {m n : Dict (List Text)}
    → Permᴰ m n
    → count_project p (flatten m) ≡ count_project p (flatten n)
count-flatten p Permᴰ.nil = refl
count-flatten p (Permᴰ.cons {a} {b} {l₁} {l₂} e q) = omega (
  arith,
  count_project-append p a.1 (flatten l₁),
  count_project-append p b.1 (flatten l₂),
  ap (λ (t : Text × List Text). count_project p t.1) e,
  count-flatten p q,
)
count-flatten p (Permᴰ.swap {a} {b} {a'} {b'} {l} e f) = omega (
  arith,
  count_project-append p a.1 (b.1 ++ flatten l),
  count_project-append p b.1 (flatten l),
  count_project-append p a'.1 (b'.1 ++ flatten l),
  count_project-append p b'.1 (flatten l),
  ap (λ (t : Text × List Text). count_project p t.1) e,
  ap (λ (t : Text × List Text). count_project p t.1) f,
)
count-flatten p (Permᴰ.trans q r) = count-flatten p q ∙ count-flatten p r
