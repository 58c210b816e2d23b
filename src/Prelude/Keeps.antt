-- ===== src/Prelude/Keeps.antt =====
-- What an action leaves as it is, one rule for each way to build an action.
use submission_sequencer_bat.Prelude.Effect.{pure, look, ◌>>=◌, ◌>>◌}

-- `m` keeps `P`.
pub record Keeps {W A : Type 0} (P : W → Type 0) (m : W → A × W) : Type 0 where
  pub at : (w : W) → P w → P (m w).1

module _ {W : Type 0} {P : W → Type 0} where
  pub Keeps-pure : {A : Type 0} (a : A) → Keeps P (pure {W = W} a)
  Keeps-pure a = record { at = λ w h. h }

  pub Keeps-look : {A : Type 0} (f : W → A) → Keeps P (look f)
  Keeps-look f = record { at = λ w h. h }

  pub Keeps-bind :
      {A B : Type 0} (m : W → A × W) (f : A → W → B × W)
      → Keeps P m
      → ((a : A) → Keeps P (f a))
      → Keeps P (m >>= f)
  Keeps-bind m f k l = record { at = λ w h. (l (m w).0).at (m w).1 (k.at w h) }

  pub Keeps-then :
      {A B : Type 0} (m : W → A × W) (n : W → B × W) → Keeps P m → Keeps P n → Keeps P (m >> n)
  Keeps-then m n k l = record { at = λ w h. l.at (m w).1 (k.at w h) }
