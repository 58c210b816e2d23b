-- ===== src/Service/Epochs.antt =====
-- handleReceivedEpochSubmissions of pkgs/service/api.go.
use submission_sequencer_bat.Prelude.{List, [], ◌∷◌, ◌++◌}
use submission_sequencer_bat.Prelude.Text.{Text, text, join, trim_prefix}
use submission_sequencer_bat.Prelude.Int.{pos, ltb_ℤ}
use submission_sequencer_bat.Prelude.Dict.{Dict}
use submission_sequencer_bat.Prelude.Sort.{sort_texts}
use submission_sequencer_bat.Prelude.Effect.{Result, ok, err, val_or}
use submission_sequencer_bat.Json.{Json, string, object, Log, empty, field, set_field}
use submission_sequencer_bat.Constants.{epoch_submissions_key}
use submission_sequencer_bat.Services.{Services}
use submission_sequencer_bat.Service.Reply.{Reply, success, authorized, PastEpochsRequest}
use submission_sequencer_bat.Service.Logs.{keys_of, last_logs}

abbrev put_submission : Text → Result Json → Log → Log
put_submission id (ok submission) log = set_field id submission log
put_submission id (err e) log = log

module _ (s : Services) where
  unfoldable pub submissions_map : Dict Text → Log → Log
  submissions_map [] log = log
  submissions_map ((id, submission_data) ∷ submissions) log =
      submissions_map submissions (put_submission id (s.unmarshal_json submission_data) log)

  -- The log of the epoch that a key names: the submissions that are JSON.
  unfoldable pub epoch_log : Text → s.World → Log
  epoch_log key w =
      field (text "epoch_id") (string (trim_prefix key (epoch_submissions_key ++ text "."))) (
        field (text "submissions")
          (object (submissions_map (s.range_map Text (val_or [] (s.redis_hgetall key w))) empty))
          empty)

  unfoldable pub epoch_logs : List Text → s.World → List Log
  epoch_logs [] w = []
  epoch_logs (key ∷ keys) w = epoch_log key w ∷ epoch_logs keys w

  unfoldable pub handle_received_epoch_submissions :
      Text → Result PastEpochsRequest → s.World → Reply (List Log) × s.World
  handle_received_epoch_submissions auth_read_token body w =
      authorized auth_read_token (λ r. r.token) (λ r. ltb_ℤ r.past_epochs (pos 0))
        (λ r w. (
          success (
              last_logs r.past_epochs (
                epoch_logs
                  (sort_texts (keys_of s (join b'.' (epoch_submissions_key ∷ text "*" ∷ [])) w))
                  w)),
          w,
        ))
        body w
