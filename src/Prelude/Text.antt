-- ===== src/Prelude/Text.antt =====
-- Texts as lists of bytes, and what the program uses of Go's `strings` package.
use Prim.Native.Char.{code}
use Prim.Native.String
use Prim.Native.Nat.{ℕ}
use mathlib.Core.Path.{◌≡◌, refl, ap, ◌∙◌}
use mathlib.Core.Logic.{◌≢◌, ◌↔◌, inl, inr}
use mathlib.Core.Bool.{Bool, true, false, ◌&&◌, ◌||◌}
use mathlib.Core.Option.{Option, none, some}
use mathlib.Core.List.{List, [], ◌∷◌, ◌++◌}
use native.Mathlib.Omega.{arith}
use submission_sequencer_bat.Prelude.Tests.{◌==◌, if◌then◌else◌, Bool-cases}
use submission_sequencer_bat.Prelude.Forall.{All}

-- A Go string: its bytes.
abbrev pub Text : Type 0
Text = List ℕ

-- The bytes of an ASCII literal.
abbrev pub text : String.String → Text
text String.[] = []
text (String.◌∷◌ c s) = code c ∷ text s

unfoldable pub text_eq : Text → Text → Bool
text_eq [] [] = true
text_eq [] (d ∷ t) = false
text_eq (c ∷ s) [] = false
text_eq (c ∷ s) (d ∷ t) = (c == d) && text_eq s t

text_eq_sound : (s t : Text) → text_eq s t ≡ true → s ≡ t
unfolding text_eq
text_eq_sound [] [] h = refl
text_eq_sound [] (d ∷ t) h = ground arith
text_eq_sound (c ∷ s) [] h = ground arith
text_eq_sound (c ∷ s) (d ∷ t) h = ground (arith, text_eq_sound s t)

pub text_eq_refl : (s : Text) → text_eq s s ≡ true
unfolding text_eq
text_eq_refl [] = refl
text_eq_refl (c ∷ s) = ground (arith, text_eq_refl s)

pub text_eq_iff : (s t : Text) → (text_eq s t ≡ true) ↔ (s ≡ t)
text_eq_iff s t = (text_eq_sound s t, λ e. rw e (text_eq_refl t))

pub text_eq_ne : (s t : Text) → s ≢ t → text_eq s t ≡ false
text_eq_ne s t n = elim (Bool-cases (text_eq s t)) [
  | inl h ↦ absurd (n (text_eq_sound s t h))
  | inr h ↦ h
]

-- The byte does not occur.
abbrev pub NoByte : ℕ → Text → Type 0
NoByte c = All (λ x. x ≢ c)

abbrev pub cons_head : ℕ → List Text → List Text
cons_head x [] = (x ∷ []) ∷ []
cons_head x (p ∷ ps) = (x ∷ p) ∷ ps

-- strings.Split by a separator of one byte.
unfoldable pub split : ℕ → Text → List Text
split c [] = [] ∷ []
split c (x ∷ xs) = let rest = split c xs in if x == c then [] ∷ rest else cons_head x rest

-- strings.Join by a separator of one byte.
unfoldable pub join : ℕ → List Text → Text
join c [] = []
join c (p ∷ []) = p
join c (p ∷ q ∷ ps) = p ++ (c ∷ join c (q ∷ ps))

pub split-append :
    (c : ℕ) (p rest : Text) → NoByte c p → split c (p ++ (c ∷ rest)) ≡ p ∷ split c rest
unfolding split
split-append c [] rest h = ground arith
split-append c (x ∷ p) rest h = ground (arith, split-append c p rest h.1)

pub split_plain : (c : ℕ) (p : Text) → NoByte c p → split c p ≡ p ∷ []
unfolding split
split_plain c [] h = refl
split_plain c (x ∷ p) h = ground (arith, split_plain c p h.1)

-- Splitting what was joined gives the parts back, if none of them holds the separator.
pub split-join :
    (c : ℕ) (p : Text) (ps : List Text)
    → NoByte c p
    → All (NoByte c) ps
    → split c (join c (p ∷ ps)) ≡ p ∷ ps
unfolding join
split-join c p [] h k = split_plain c p h
split-join c p (q ∷ ps) h k =
    split-append c p (join c (q ∷ ps)) h ∙ ap (λ t. p ∷ t) (split-join c q ps k.0 k.1)

-- Joining the parts of a text gives the text back.
pub split-ne-nil : (c : ℕ) (s : Text) → split c s ≢ []
unfolding split
split-ne-nil c [] h = ground arith
split-ne-nil c (x ∷ s) h = ground (arith, split-ne-nil c s)

unfoldable pub starts_with : Text → Text → Bool
starts_with [] t = true
starts_with (c ∷ s) [] = false
starts_with (c ∷ s) (d ∷ t) = (c == d) && starts_with s t

-- strings.Contains
unfoldable pub contains : Text → Text → Bool
unfolding starts_with
contains [] sub = starts_with sub []
contains (x ∷ s) sub = starts_with sub (x ∷ s) || contains s sub

unfoldable pub strip_prefix : Text → Text → Option Text
strip_prefix [] t = some t
strip_prefix (c ∷ s) [] = none
strip_prefix (c ∷ s) (d ∷ t) = let rest = strip_prefix s t in if c == d then rest else none

abbrev pub or_else {ℓ} : {A : Type ℓ} → Option A → A → A
or_else none a = a
or_else (some b) a = b

-- strings.TrimPrefix
unfoldable pub trim_prefix : Text → Text → Text
unfolding strip_prefix
trim_prefix s prefix = or_else (strip_prefix prefix s) s

pub trim_prefix-append : (p s : Text) → trim_prefix (p ++ s) p ≡ s
unfolding trim_prefix
trim_prefix-append p s = rw (strip_prefix-append p s)
  where
    strip_prefix-append : (p s : Text) → strip_prefix p (p ++ s) ≡ some s
    strip_prefix-append [] s = refl
    strip_prefix-append (c ∷ p) s = ground (arith, strip_prefix-append p s)

split_three : split b'.' (text "a.bc.d") ≡ text "a" ∷ text "bc" ∷ text "d" ∷ []
unfolding split
split_three = refl
