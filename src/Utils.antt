-- ===== src/Utils.antt =====
-- pkgs/helpers/utils/strings.go: AppendToLogEntry.
pub mod Extract
pub mod Logger
use submission_sequencer_bat.Prelude.{Option, none, some}
use submission_sequencer_bat.Prelude.Text.{Text}
use submission_sequencer_bat.Json.{Json, array, nil, cons, Log, get_field, set_field, append_item}

-- A list gets one more entry, another value becomes a list of two, and a missing key a list of one.
abbrev pub appended : Option Json → Json → Json
appended none value = array (cons value nil)
appended (some (array items)) value = array (append_item items value)
appended (some other) value = array (cons other (cons value nil))

unfoldable pub append_to_log_entry : Log → Text → Json → Log
append_to_log_entry entry key value = set_field key (appended (get_field key entry) value) entry
