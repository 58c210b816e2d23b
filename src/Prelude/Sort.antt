-- ===== src/Prelude/Sort.antt =====
-- sort.Strings: texts in bytewise order.
use Prim.Native.Nat.{compare, Ordering}
use mathlib.Core.Path.{◌≡◌, refl}
use mathlib.Core.Logic.{inl, inr}
use mathlib.Core.Bool.{Bool, true, false}
use mathlib.Core.List.{List, [], ◌∷◌, Perm}
use mathlib.Core.List.Perm
use native.Mathlib.Omega.{arith}
use submission_sequencer_bat.Prelude.Tests.{if◌then◌else◌, Bool-cases}
use submission_sequencer_bat.Prelude.Text.{Text}

unfoldable pub text_le : Text → Text → Bool
text_le [] t = true
text_le (c ∷ s) [] = false
text_le (c ∷ s) (d ∷ t) =
    let rest = text_le s t in
    elim (compare c d) [ Ordering.lt ↦ true | Ordering.eq ↦ rest | Ordering.gt ↦ false ]

pub text_le_total : (s t : Text) → text_le s t ≡ false → text_le t s ≡ true
unfolding text_le
text_le_total [] t h = ground arith
text_le_total (c ∷ s) [] h = refl
text_le_total (c ∷ s) (d ∷ t) h = ground (arith, text_le_total s t)

unfoldable pub insert_text : Text → List Text → List Text
insert_text x [] = x ∷ []
insert_text x (y ∷ ys) = let rest = insert_text x ys in if text_le x y then x ∷ y ∷ ys else y ∷ rest

unfoldable pub sort_texts : List Text → List Text
unfolding insert_text text_le
sort_texts [] = []
sort_texts (x ∷ xs) = insert_text x (sort_texts xs)

insert_text-Perm : (x : Text) (ys : List Text) → Perm (insert_text x ys) (x ∷ ys)
unfolding insert_text
insert_text-Perm x [] = Perm.refl (x ∷ [])
insert_text-Perm x (y ∷ ys) = elim (Bool-cases (text_le x y)) [
  | inl e ↦ rw e (Perm.refl (x ∷ y ∷ ys))
  | inr e ↦ rw e (Perm.trans (Perm.cons y (insert_text-Perm x ys)) (Perm.swap x y ys))
]

pub sort_texts-Perm : (xs : List Text) → Perm (sort_texts xs) xs
unfolding sort_texts
sort_texts-Perm [] = Perm.refl []
sort_texts-Perm (x ∷ xs) =
    Perm.trans (insert_text-Perm x (sort_texts xs)) (Perm.cons x (sort_texts-Perm xs))

-- Each text is at most the next.
abbrev pub IsSorted : List Text → Type 0
IsSorted [] = Unit {0}
IsSorted (x ∷ []) = Unit {0}
IsSorted (x ∷ y ∷ ys) = (text_le x y ≡ true) × IsSorted (y ∷ ys)

insert_text-IsSorted : (x : Text) (ys : List Text) → IsSorted ys → IsSorted (insert_text x ys)
unfolding insert_text
insert_text-IsSorted x [] h = tt
insert_text-IsSorted x (y ∷ []) h = elim (Bool-cases (text_le x y)) [
  | inl e ↦ rw e (e, tt)
  | inr e ↦ rw e (text_le_total x y e, tt)
]
insert_text-IsSorted x (y ∷ z ∷ zs) h = elim (Bool-cases (text_le x y)) [
  | inl e ↦ rw e (e, h)
  | inr e ↦ rw e (below (text_le_total x y e) (insert_text-IsSorted x (z ∷ zs) h.1))
]
  where
    below :
        text_le y x ≡ true
        → IsSorted (insert_text x (z ∷ zs))
        → IsSorted (y ∷ insert_text x (z ∷ zs))
    below small sorted = elim (Bool-cases (text_le x z)) [
      | inl e ↦ rw e (small, (rw e at sorted))
      | inr e ↦ rw e (h.0, (rw e at sorted))
    ]

pub sort_texts-IsSorted : (xs : List Text) → IsSorted (sort_texts xs)
unfolding sort_texts
sort_texts-IsSorted [] = tt
sort_texts-IsSorted (x ∷ xs) = insert_text-IsSorted x (sort_texts xs) (sort_texts-IsSorted xs)
