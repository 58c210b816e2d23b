-- ===== src/Prelude/Effect.antt =====
-- Errors as values, and code that changes a world: every call takes the world that the last one
-- left. An operation of a service fails or gives a value, and changes the world either way.
use mathlib.Core.Path.{◌≡◌, refl}
use mathlib.Core.Logic.{◌⊎◌, inl, inr}
use mathlib.Core.List.{List, [], ◌∷◌}
use submission_sequencer_bat.Prelude.Text.{Text}

-- Go's `(value, error)`; the error is its message.
pub data Result {ℓ} (A : Type ℓ) : Type ℓ where
  ok : A → Result A
  err : Text → Result A

abbrev pub val_or {ℓ} : {A : Type ℓ} → A → Result A → A
val_or d (ok a) = a
val_or d (err e) = d

-- Go's `value, _ := call()` for a text: the value, and the empty text on an error.
abbrev pub Done : Type 0
Done = Unit {0}

abbrev pub M : Type 0 → Type 0 → Type 0
M W A = W → A × W

abbrev pub pure : {W A : Type 0} → A → W → A × W
pure a w = (a, w)

infixl 5 ◌>>=◌ ◌>>◌
abbrev pub ◌>>=◌ : {W A B : Type 0} → (W → A × W) → (A → W → B × W) → W → B × W
◌>>=◌ m f w = let (a, w') = m w in f a w'

abbrev pub ◌>>◌ : {W A B : Type 0} → (W → A × W) → (W → B × W) → W → B × W
◌>>◌ m k w = let (a, w') = m w in k w'

-- Reading the world changes nothing.
abbrev pub look : {W A : Type 0} → (W → A) → W → A × W
look f w = (f w, w)

-- for _, x := range xs { ... }
unfoldable pub for_each : {W A : Type 0} → (A → W → Done × W) → List A → W → Done × W
for_each f [] w = (tt, w)
for_each f (x ∷ xs) w = for_each f xs (f x w).1

pub Result-cases {ℓ} :
    {A : Type ℓ} (r : Result A) → ((a : A) × (r ≡ ok a)) ⊎ ((e : Text) × (r ≡ err e))
Result-cases (ok a) = inl (a, refl)
Result-cases (err e) = inr (e, refl)

-- What a call of Go comes to when it can end the process, by log.Fatal or by a panic, or go on for
-- ever.
pub data Run (A : Type 0) : Type 0 where
  returns : A → Run A
  exits panics runs_on : Run A

abbrev pub then_run : {A B : Type 0} → Run A → (A → Run B) → Run B
then_run (returns a) f = f a
then_run exits f = exits
then_run panics f = panics
then_run runs_on f = runs_on

pub then_run-returns :
    {A B : Type 0} (m : Run A) (f : A → Run B) (b : B)
    → then_run m f ≡ returns b
    → (a : A) × (m ≡ returns a) × (f a ≡ returns b)
then_run-returns (returns a) f b h = (a, refl, h)
then_run-returns exits f b h = cc
then_run-returns panics f b h = cc
then_run-returns runs_on f b h = cc
