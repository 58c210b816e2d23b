-- ===== src/Utils/Extract.antt =====
-- ExtractField of pkgs/helpers/utils/strings.go: the quoted value behind a field's name in a text.
pub mod Laws
use submission_sequencer_bat.Prelude.{
  ℕ, suc, ◌+◌, ◌≤◌, Bool, List, [], ◌∷◌, ◌++◌, Option, none, some, length, drop, take, ltb,
  if◌then◌else◌, ◌==◌,
}
use submission_sequencer_bat.Prelude.Text.{Text, starts_with}

abbrev pub shift : Option ℕ → Option ℕ
shift none = none
shift (some i) = some (suc i)

-- strings.Index; `none` is -1.
unfoldable pub index : Text → Text → Option ℕ
unfolding starts_with
index [] sub = if starts_with sub [] then some 0 else none
index (x ∷ s) sub =
    let later = shift (index s sub) in if starts_with sub (x ∷ s) then some 0 else later

-- str[start:], which panics beyond the end.
unfoldable pub slice_from : ℕ → Text → Option Text
slice_from start str = if ltb (length str) start then none else some (drop start str)

-- What is left of the next quote, or nothing.
abbrev pub before_quote : Text → Option ℕ → Text
before_quote rest none = []
before_quote rest (some end) = take end rest

abbrev pub quoted : Option Text → Option Text
quoted none = none
quoted (some rest) = some (before_quote rest (index rest (b'"' ∷ [])))

abbrev pub value_at : Text → Text → Option ℕ → Option Text
value_at str field_name none = some []
value_at str field_name (some start) = quoted (slice_from (start + (length field_name + 2)) str)

-- `none` is a panic.
unfoldable pub extract_field : Text → Text → Option Text
unfolding index slice_from
extract_field str field_name = value_at str field_name (index str (field_name ++ (b':' ∷ [])))
