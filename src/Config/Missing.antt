-- ===== src/Config/Missing.antt =====
-- Which variables LoadConfig reports as missing.
use submission_sequencer_bat.Prelude.{
  ◌≡◌, ◌≢◌, ◌↔◌, refl, ap, ◌∙◌, List, [], ◌∷◌, All, filter_by, Bool, true, false,
}
use submission_sequencer_bat.Prelude.Text.{Text, text_eq}
use submission_sequencer_bat.Prelude.{Option, none, some}
use submission_sequencer_bat.Prelude.Int.{ℤ}
use submission_sequencer_bat.Prelude.Effect.{Result, ok, err}
use submission_sequencer_bat.Config.{
  Settings, Loaded, loaded, missing, unparsable, ◌>>=◌, required_env_vars, or_default, unset,
  list_or_fatal, int_or_fatal, fatal_if_missing, get_env, missing_env_vars, parse_settings,
  load_config,
}

pub or_default-nil : (value : Text) → or_default value [] ≡ value
or_default-nil [] = refl
or_default-nil (c ∷ value) = refl

pub or_default-set :
    (value default_value : Text) → value ≢ [] → or_default value default_value ≡ value
or_default-set [] d h = absurd (h refl)
or_default-set (c ∷ value) d h = refl

module _ (getenv : Text → Text) where
  abbrev pub IsGiven : Text → Type 0
  IsGiven name = getenv name ≢ []

  unset-nil :
      (value name : Text) (rest : List Text)
      → unset (or_default value []) name rest ≡ []
      → (value ≢ []) × (rest ≡ [])
  unset-nil [] name rest h = cc
  unset-nil (c ∷ value) name rest h = ((λ e. cc), h)

  unset-set :
      (value name : Text) (rest : List Text)
      → value ≢ []
      → unset (or_default value []) name rest ≡ rest
  unset-set [] name rest h = absurd (h refl)
  unset-set (c ∷ value) name rest h = refl

  pub missing-All : (names : List Text) → missing_env_vars getenv names ≡ [] → All IsGiven names
  unfolding missing_env_vars
  missing-All [] h = tt
  missing-All (name ∷ names) h =
      let (is_set, rest) = unset-nil (getenv name) name _ h in (is_set, missing-All names rest)

  pub All-missing : (names : List Text) → All IsGiven names → missing_env_vars getenv names ≡ []
  unfolding missing_env_vars
  All-missing [] h = refl
  All-missing (name ∷ names) (h, hs) = unset-set (getenv name) name _ h ∙ All-missing names hs

  abbrev pub is_unset : Text → Bool
  is_unset name = text_eq (getenv name) []

  unset-cond :
      (value name : Text) (rest rest' : List Text)
      → rest ≡ rest'
      → unset (or_default value []) name rest
        ≡ (elim (text_eq value []) [ true ↦ name ∷ rest' | false ↦ rest' ])
  unfolding text_eq
  unset-cond [] name rest rest' e = ap (λ t. name ∷ t) e
  unset-cond (c ∷ value) name rest rest' e = e

  missing_env_vars-filter :
      (names : List Text) → missing_env_vars getenv names ≡ filter_by is_unset names
  unfolding missing_env_vars get_env
  missing_env_vars-filter [] = refl
  missing_env_vars-filter (name ∷ names) =
      unset-cond (getenv name) name _ _ (missing_env_vars-filter names)

-- No missing variables are reported.
record NoMissing {A : Type 0} (m : Loaded A) : Type 0 where
  unreported : (names : List Text) → m ≢ missing names

>>=-NoMissing :
    {A B : Type 0} (m : Loaded A) (f : A → Loaded B)
    → NoMissing m
    → ((a : A) → NoMissing (f a))
    → NoMissing (m >>= f)
>>=-NoMissing (loaded a) f h k = k a
>>=-NoMissing (missing names) f h k = absurd (h.unreported names refl)
>>=-NoMissing (unparsable name) f h k = record { unreported = λ names e. cc }

loaded-NoMissing : {A : Type 0} (a : A) → NoMissing (loaded a)
loaded-NoMissing a = record { unreported = λ names e. cc }

list-NoMissing : (name : Text) (r : Result (List Text)) → NoMissing (list_or_fatal name r)
list-NoMissing name (ok xs) = record { unreported = λ names e. cc }
list-NoMissing name (err x) = record { unreported = λ names e. cc }

int-NoMissing : (name : Text) (o : Option ℤ) → NoMissing (int_or_fatal name o)
int-NoMissing name none = record { unreported = λ names e. cc }
int-NoMissing name (some z) = record { unreported = λ names e. cc }

ruleset no_missing = (>>=-NoMissing, loaded-NoMissing, list-NoMissing, int-NoMissing)

fatal_if_missing-missing :
    (xs names : List Text) (parsed : Loaded Settings)
    → NoMissing parsed
    → (fatal_if_missing xs parsed ≡ missing names) ↔ ((names ≡ xs) × (names ≢ []))
fatal_if_missing-missing [] names parsed h =
    ((λ e. absurd (h.unreported names e)), λ p. absurd (p.1 p.0))
fatal_if_missing-missing (x ∷ xs) names parsed h = ((λ e. (cc, λ k. cc)), λ p. cc)

module _ (getenv : Text → Text) (unmarshal_strings : Text → Result (List Text))
    (hex_to_address : Text → Text) where
  parse_settings-NoMissing : NoMissing (parse_settings getenv unmarshal_strings hex_to_address)
  unfolding parse_settings get_env
  parse_settings-NoMissing = search no_missing depth 20

  -- LoadConfig reports missing variables just when some of the required ones are not set, and it
  -- reports those, in the order in which they are required, whatever the others hold.
  pub load_config-missing :
      (names : List Text)
      → (load_config getenv unmarshal_strings hex_to_address ≡ missing names)
        ↔ ((names ≡ filter_by (is_unset getenv) required_env_vars) × (names ≢ []))
  unfolding load_config
  load_config-missing names =
      rw (← missing_env_vars-filter getenv required_env_vars)
        (fatal_if_missing-missing _ names _ parse_settings-NoMissing)
