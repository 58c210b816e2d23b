-- ===== src/Json.antt =====
-- JSON values, as encoding/json decodes them into `interface{}`. The numbers of the program's log
-- entries are integers.
use submission_sequencer_bat.Prelude.{Bool, List, [], ◌∷◌, Option, none, some, if◌then◌else◌}
use submission_sequencer_bat.Prelude.Text.{Text, text_eq}
use submission_sequencer_bat.Prelude.Int.{ℤ}

mutual
  pub data Json : Type 0 where
    null : Json
    boolean : Bool → Json
    number : ℤ → Json
    string : Text → Json
    array : Items → Json
    object : Log → Json

  pub data Items : Type 0 where
    nil : Items
    cons : Json → Items → Items

  -- A `map[string]interface{}`, such as a log entry.
  pub data Log : Type 0 where
    empty : Log
    field : Text → Json → Log → Log

abbrev pub strings : List Text → Items
strings [] = nil
strings (s ∷ ss) = cons (string s) (strings ss)

unfoldable pub get_field : Text → Log → Option Json
get_field k empty = none
get_field k (field j v m) = if text_eq j k then some v else get_field k m

unfoldable pub set_field : Text → Json → Log → Log
set_field k v empty = field k v empty
set_field k v (field j w m) = if text_eq j k then field j v m else field j w (set_field k v m)

unfoldable pub append_item : Items → Json → Items
append_item nil v = cons v nil
append_item (cons w ws) v = cons w (append_item ws v)
