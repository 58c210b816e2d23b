-- ===== src/Prelude/Dict.antt =====
-- A Go map with texts for keys: an association list in which a key stands once.
use mathlib.Core.Path.{◌≡◌, refl}
use mathlib.Core.Bool.{false}
use mathlib.Core.Option.{Option, none, some}
use mathlib.Core.List.{List, [], ◌∷◌}
use native.Mathlib.Omega.{arith}
use submission_sequencer_bat.Prelude.Tests.{if◌then◌else◌}
use submission_sequencer_bat.Prelude.Text.{Text, text_eq, text_eq_iff, text_eq_refl}

abbrev pub Dict : Type 0 → Type 0
Dict V = List (Text × V)

module _ {V : Type 0} where
  unfoldable pub lookup : Text → Dict V → Option V
  lookup k [] = none
  lookup k ((j, v) ∷ m) = if text_eq j k then some v else lookup k m

  unfoldable pub insert : Text → V → Dict V → Dict V
  insert k v [] = (k, v) ∷ []
  insert k v ((j, w) ∷ m) = if text_eq j k then (j, v) ∷ m else (j, w) ∷ insert k v m

  abbrev pub dict_keys : Dict V → List Text
  dict_keys [] = []
  dict_keys ((k, v) ∷ m) = k ∷ dict_keys m

  pub lookup-insert :
      (k j : Text) (v : V) (m : Dict V)
      → lookup j (insert k v m) ≡ (if text_eq k j then some v else lookup j m)
  unfolding lookup insert
  lookup-insert k j v [] = refl
  lookup-insert k j v ((i, w) ∷ m) = ground (
    arith,
    text_eq_iff k j,
    text_eq_iff i k,
    text_eq_iff i j,
    text_eq_refl k,
    lookup-insert k j v m,
  )

  pub lookup-insert_self : (k : Text) (v : V) (m : Dict V) → lookup k (insert k v m) ≡ some v
  lookup-insert_self k v m = rw (lookup-insert k k v m, text_eq_refl k)

  -- An entry of another key is passed.
  pub lookup_other :
      (k j : Text) (v : V) (m : Dict V) → text_eq j k ≡ false → lookup k ((j, v) ∷ m) ≡ lookup k m
  unfolding lookup
  lookup_other k j v m e = rw e

  pub insert_other :
      (k j : Text) (v w : V) (m : Dict V)
      → text_eq j k ≡ false
      → insert k w ((j, v) ∷ m) ≡ (j, v) ∷ insert k w m
  unfolding insert
  insert_other k j v w m e = rw e
