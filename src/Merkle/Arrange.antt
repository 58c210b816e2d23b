-- ===== src/Merkle/Arrange.antt =====
-- arrangeKeysInBatches of pkgs/helpers/merkle/merkle.go. A key of three dotted parts belongs to the
-- project that its second part names. `BatchSize` is taken to be no less than 0.
pub mod Grouping
pub mod Packing
pub mod Orders
pub mod Whole
pub mod Laws
use submission_sequencer_bat.Prelude.{
  ℕ, ◌+◌, List, [], ◌∷◌, ◌++◌, Option, none, some, leb, length, if◌then◌else◌,
}
use submission_sequencer_bat.Prelude.Text.{Text, text, split, or_else}
use submission_sequencer_bat.Prelude.Dict.{Dict, lookup, insert}
use submission_sequencer_bat.Prelude.Effect.{M}
use submission_sequencer_bat.Data.{high}
use submission_sequencer_bat.Clients.Reporting.{send_failure_notification}
use submission_sequencer_bat.Services.{Services}

abbrev pub second_of_three : List Text → Option Text
second_of_three (a ∷ b ∷ c ∷ []) = some b
second_of_three _ = none

-- strings.Split(key, "."): parts[1], if there are three parts.
unfoldable pub project_of : Text → Option Text
project_of key = second_of_three (split b'.' key)

-- projectMap[projectId] = append(projectMap[projectId], key)
unfoldable pub push : Text → Text → Dict (List Text) → Dict (List Text)
push p key m = insert p (or_else (lookup p m) [] ++ (key ∷ [])) m

-- if len(currentBatch) > 0 { batches = append(batches, currentBatch) }
abbrev pub flush : List (List Text) → List Text → List (List Text)
flush batches [] = batches
flush batches (k ∷ ks) = batches ++ ((k ∷ ks) ∷ [])

-- The batches so far and the current one, when the keys of one more project come.
unfoldable pub place : ℕ → List (List Text) × List Text → List Text → List (List Text) × List Text
place size (batches, current) keys =
    if leb (length current + length keys) size
    then (batches, current ++ keys)
    else (flush batches current, keys)

unfoldable pub close : ℕ → List (List Text) × List Text → List (List Text) × List Text
close size (batches, current) =
    if leb size (length current) then (batches ++ (current ∷ []), []) else (batches, current)

unfoldable pub pack : ℕ → Dict (List Text) → List (List Text) × List Text → List (List Text)
pack size [] st = flush st.0 st.1
pack size ((p, keys) ∷ groups) st = pack size groups (close size (place size st keys))

module _ (s : Services) where
  unfoldable pub group_keys : List Text → Dict (List Text) → M s.World (Dict (List Text))
  group_keys [] m w = (m, w)
  group_keys (key ∷ keys) m w = elim (project_of key) [
    | none ↦ group_keys keys m (send_failure_notification s (text "arrangeKeysInBatches") high w).1
    | some p ↦ group_keys keys (push p key m) w
  ]

  unfoldable pub arrange_keys_in_batches : ℕ → List Text → M s.World (List (List Text))
  arrange_keys_in_batches size keys w =
      let (projects, w') = group_keys keys [] w in
      (pack size (s.range_map (List Text) projects) ([], []), w')
