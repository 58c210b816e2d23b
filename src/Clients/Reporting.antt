-- ===== src/Clients/Reporting.antt =====
-- pkgs/helpers/clients/reporting.go. An alert is posted and its answer is not read; a failure to
-- post it is only logged.
use submission_sequencer_bat.Prelude.Text.{Text}
use submission_sequencer_bat.Prelude.Effect.{Done}
use submission_sequencer_bat.Data.{Severity}
use submission_sequencer_bat.Services.{Services}

unfoldable pub send_failure_notification :
    (s : Services) → Text → Severity → s.World → Done × s.World
send_failure_notification s process_name severity w =
    (tt, s.post_alert (record { process_name = process_name; severity = severity }) w)
