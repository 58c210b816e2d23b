-- ===== src/Service/Logs/Order.antt =====
-- The bytewise order of the keys is not the order of the numbers in them.
use submission_sequencer_bat.Prelude.{ℕ, ◌<◌, ◌≡◌, refl, ◌∙◌, false, [], ◌∷◌, ◌++◌, arith}
use submission_sequencer_bat.Prelude.Text.{Text, text_eq_refl, join}
use submission_sequencer_bat.Prelude.Int.{pos}
use submission_sequencer_bat.Prelude.Decimal.{digits}
use submission_sequencer_bat.Prelude.Sort.{text_le, text_le_total, sort_texts, insert_text}
use submission_sequencer_bat.Prelude.Effect.{ok}
use submission_sequencer_bat.Json.{Log}
use submission_sequencer_bat.Constants.{process_trigger_key, finalize_batches_name}
use submission_sequencer_bat.Services.{Services}
use submission_sequencer_bat.Redis.Keys.{triggered_process_log}
use submission_sequencer_bat.Redis.Client.{get}
use submission_sequencer_bat.Service.Reply.{success, authorized}
use submission_sequencer_bat.Service.Logs.{
  process_pattern, last_logs, read_log, read_logs, keys_of, handle_finalized_batch_submissions,
}

text_le-append : (p a b : Text) → text_le (p ++ a) (p ++ b) ≡ text_le a b
unfolding text_le
text_le-append [] a b = refl
text_le-append (c ∷ p) a b = ground (arith, text_le-append p a b)

-- The key under which the log of an epoch's batches stands.
abbrev pub log_key : ℕ → Text
log_key epoch = triggered_process_log finalize_batches_name (digits epoch)

log_key-order : (a b : ℕ) → text_le (log_key a) (log_key b) ≡ text_le (digits a) (digits b)
unfolding triggered_process_log join
log_key-order a b =
    text_le-append (process_trigger_key ++ (b'.' ∷ (finalize_batches_name ++ (b'.' ∷ []))))
      (digits a) (digits b)

sort_two : (a b : Text) → text_le a b ≡ false → sort_texts (b ∷ a ∷ []) ≡ b ∷ a ∷ []
unfolding sort_texts insert_text
sort_two a b h = rw (text_le_total a b h)

-- Where the decimal text of a later epoch comes before that of an earlier one, as "10" comes before
-- "9", a request for the finalized batches of the last epoch gets the log of the earlier epoch, if
-- these two are logged.
pub last_epoch_is_earlier :
    (s : Services) (auth_read_token : Text) (earlier later : ℕ) (log_earlier log_later : Log)
    (w : s.World)
    → earlier < later
    → text_le (digits earlier) (digits later) ≡ false
    → s.redis_keys (process_pattern finalize_batches_name) w
      ≡ ok (log_key later ∷ log_key earlier ∷ [])
    → read_log s (get s (log_key earlier) w) ≡ ok log_earlier
    → read_log s (get s (log_key later) w) ≡ ok log_later
    → handle_finalized_batch_submissions s auth_read_token
        (ok (record { token = auth_read_token; past_epochs = pos 1 }))
        w
      ≡ (success (log_earlier ∷ []), w)
unfolding handle_finalized_batch_submissions authorized keys_of read_logs last_logs
last_epoch_is_earlier s token earlier later log_earlier log_later w h before listed e l = rw (
  text_eq_refl token,
  listed,
  sort_two (log_key earlier) (log_key later) (log_key-order earlier later ∙ before),
  read_logs,
  e,
  l,
)
