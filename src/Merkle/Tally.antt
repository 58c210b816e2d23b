-- ===== src/Merkle/Tally.antt =====
-- The inner loop of finalizeBatches of pkgs/helpers/merkle/merkle.go: the submissions of a batch are
-- read, and the CIDs of each project are counted.
pub mod Laws
pub mod Votes
use submission_sequencer_bat.Prelude.{
  ℕ, ◌+◌, List, [], ◌∷◌, ◌++◌, Option, none, some, ltb, if◌then◌else◌,
}
use submission_sequencer_bat.Prelude.Text.{Text, text, split, or_else}
use submission_sequencer_bat.Prelude.Dict.{Dict, lookup, insert}
use submission_sequencer_bat.Prelude.Effect.{Result, ok, err}
use submission_sequencer_bat.Data.{SnapshotSubmission, Request, Severity, high}
use submission_sequencer_bat.Services.{Services}
use submission_sequencer_bat.Clients.Reporting.{send_failure_notification}
use submission_sequencer_bat.Redis.Client.{get}
use submission_sequencer_bat.Merkle.Arrange.{project_of}

-- projectValueFrequencies and projectMostFrequent, with the data collected for the batch.
pub record Tally : Type 0 where
  pub frequencies : Dict (Dict ℕ)
  pub most_frequent : Dict Text
  pub all_ids : List Text
  pub all_data : List Text

-- A read of a missing entry gives the zero of its type: a map of no entries, 0, the empty text.
unfoldable pub frequency : Dict (Dict ℕ) → Text → Text → ℕ
frequency m project value = or_else (lookup value (or_else (lookup project m) [])) 0

unfoldable pub leader : Dict Text → Text → Text
leader m project = or_else (lookup project m) []

unfoldable pub add_one : Dict (Dict ℕ) → Text → Text → Dict (Dict ℕ)
unfolding frequency
add_one m project value =
    insert project (insert value (frequency m project value + 1) (or_else (lookup project m) [])) m

-- One more submission with the CID `value`.
unfoldable pub count_value : Text → Text → Text → Text → Tally → Tally
count_value project value id body t =
    let m = add_one t.frequencies project value in
    record {
      frequencies = m;
      most_frequent =
          if ltb (frequency m project (leader t.most_frequent project)) (frequency m project value)
          then insert project value t.most_frequent
          else t.most_frequent;
      all_ids = t.all_ids ++ (id ∷ []);
      all_data = t.all_data ++ (body ∷ []);
    }

-- What becomes of a key: its submission is counted or skipped, or the whole work stops with an
-- error, or the process panics at a message with no request.
pub data Outcome (A : Type 0) : Type 0 where
  goes_on : A → Outcome A
  stops : Outcome A
  panics : Outcome A

abbrev pub two_parts : List Text → Option (Text × Text)
two_parts (a ∷ b ∷ []) = some (a, b)
two_parts _ = none

abbrev count_message : Text → Text → Text → Option Request → Tally → Outcome Tally
count_message project id body none t = panics
count_message project id body (some request) t =
    goes_on (count_value project request.snapshot_cid id body t)

module _ (s : Services) where
  abbrev skip : Tally → s.World → Outcome Tally × s.World
  skip t w = (goes_on t, (send_failure_notification s (text "finalizeBatches") high w).1)

  count_body : Text → Text → Text → Tally → s.World → Outcome Tally × s.World
  count_body project id body t w = elim (s.unmarshal_submission body) [
    | err e ↦ skip t w
    | ok submission ↦ (count_message project id body submission.request t, w)
  ]

  unfoldable pub count_key : Text → Tally → s.World → Outcome Tally × s.World
  unfolding count_body send_failure_notification get
  count_key key t w = elim (get s key w) [
    | err e ↦ skip t w
    | ok [] ↦ (stops, (send_failure_notification s (text "finalizeBatches") high w).1)
    | ok (c ∷ val) ↦ elim (project_of key) [
      | none ↦ skip t w
      | some project ↦ elim (two_parts (split b'.' (c ∷ val))) [
        | none ↦ skip t w
        | some (id, body) ↦ count_body project id body t w
      ]
    ]
  ]

  unfoldable pub count_keys : List Text → Tally → s.World → Outcome Tally × s.World
  count_keys [] t w = (goes_on t, w)
  count_keys (key ∷ keys) t w =
      let (o, w') = count_key key t w in
      elim o [ goes_on t' ↦ count_keys keys t' w' | stops ↦ (stops, w') | panics ↦ (panics, w') ]

-- No submission has been read.
abbrev pub fresh : Tally
fresh = record { frequencies = []; most_frequent = []; all_ids = []; all_data = [] }
