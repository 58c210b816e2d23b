-- ===== src/Utils/Logger.antt =====
-- pkgs/helpers/utils/logger.go: InitLogger. Levels are logrus's numbers, from 0 for panics to 6 for
-- traces; what a hook writes where is logrus's.
use submission_sequencer_bat.Prelude.{
  ℕ, ◌^◌, ◌≡◌, List, [], ◌∷◌, Option, none, some, ltb, if◌then◌else◌, arith,
}
use submission_sequencer_bat.Prelude.Text.{Text}
use submission_sequencer_bat.Prelude.Decimal.{digits, unsigned, unsigned-digits}

pub record Logger : Type 0 where
  pub level : ℕ
  pub stderr_levels : List ℕ
  pub stdout_levels : List ℕ

abbrev pub debug_level : ℕ
debug_level = 5

-- strconv.ParseUint in base 10 with 32 bits, and the test for a level of logrus.
abbrev pub level_of : Option ℕ → ℕ
level_of none = debug_level
level_of (some n) = if ltb n (2 ^ 32) then (if ltb 6 n then debug_level else n) else debug_level

abbrev pub log_level : List Text → ℕ
log_level [] = debug_level
log_level (program ∷ []) = debug_level
log_level (program ∷ arg ∷ args) = level_of (unsigned arg)

-- `args` is os.Args.
unfoldable pub init_logger : List Text → Logger
init_logger args = record {
  level = log_level args;
  stderr_levels = 0 ∷ 1 ∷ 2 ∷ 3 ∷ [];
  stdout_levels = 6 ∷ 4 ∷ 5 ∷ [];
}

-- The level is the one that the first argument names, and otherwise Debug.
pub log_level-digits :
    (program : Text) (n : ℕ) (args : List Text)
    → log_level (program ∷ digits n ∷ args) ≡ (if ltb 6 n then debug_level else n)
log_level-digits program n args = rw (unsigned-digits n) (ground arith)
