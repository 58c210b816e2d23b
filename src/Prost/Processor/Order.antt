-- ===== src/Prost/Processor/Order.antt =====
-- An epoch is processed once.
use submission_sequencer_bat.Prelude.{
  ℕ, ◌<◌, ◌≡◌, refl, inl, inr, List, [], ◌∷◌, ◌++◌, Option, none, some, arith, ltb, ltb→lt,
  Bool-cases,
}
use submission_sequencer_bat.Prelude.Text.{Text, text_eq}
use submission_sequencer_bat.Prelude.Effect.{Result, ok, err}
use submission_sequencer_bat.Services.{Services}
use submission_sequencer_bat.Prost.Processor.{
  EpochReleased, EventLog, Watched, Started, Events, start_epoch, handle_event, handle_topics,
  handle_log, then_logs, handle_logs, handle_receipts, process_events,
}

-- The epochs rise strictly from one above `first`, and end with `last`.
abbrev pub Rising : ℕ → ℕ → List Started → Type 0
Rising first last [] = first ≡ last
Rising first last (e ∷ es) = (first < e.epoch) × Rising e.epoch last es

Rising-append :
    (first last : ℕ) (es : List Started) (e : Started)
    → Rising first last es
    → last < e.epoch
    → Rising first e.epoch (es ++ (e ∷ []))
Rising-append first last [] e h k = (omega arith, refl)
Rising-append first last (x ∷ es) e (h, hs) k = (h, Rising-append x.epoch last es e hs k)

module _ (s : Services) (watched : Watched) (block first : ℕ) where
  abbrev IsRising : Events s.World → Type 0
  IsRising st = Rising first st.current_epoch st.started

  -- A panic aside.
  abbrev pub StartsRising : Option (Events s.World) → Type 0
  StartsRising none = Unit {0}
  StartsRising (some st) = Rising first st.current_epoch st.started

  handle_event-IsRising :
      (r : Result EpochReleased) (st : Events s.World)
      → IsRising st
      → IsRising (handle_event s watched block r st)
  unfolding handle_event start_epoch
  handle_event-IsRising (err e) st h = h
  handle_event-IsRising (ok event) st h =
      elim (Bool-cases (text_eq event.data_market_address watched.data_market_address)) [
        | inl ours ↦ elim (Bool-cases (ltb st.current_epoch event.epoch_id)) [
          | inl later ↦
              rw (ours, later)
                (Rising-append first st.current_epoch st.started _ h
                  (ltb→lt st.current_epoch event.epoch_id later))
          | inr old ↦ rw (ours, old) h
        ]
        | inr other ↦ rw other h
      ]

  handle_topics-StartsRising :
      (log : EventLog) (topics : List Text) (st : Events s.World)
      → IsRising st
      → StartsRising (handle_topics s watched block log topics st)
  unfolding handle_topics
  handle_topics-StartsRising log [] st h = tt
  handle_topics-StartsRising log (topic ∷ topics) st h =
      elim (Bool-cases (text_eq topic watched.epoch_released_id)) [
        | inl e ↦ rw e (handle_event-IsRising log.parsed st h)
        | inr e ↦ rw e h
      ]

  handle_log-StartsRising :
      (log : EventLog) (st : Events s.World)
      → IsRising st
      → StartsRising (handle_log s watched block log st)
  unfolding handle_log
  handle_log-StartsRising log st h =
      elim (Bool-cases (text_eq log.address watched.contract_address)) [
        | inl e ↦ rw e (handle_topics-StartsRising log log.topics st h)
        | inr e ↦ rw e h
      ]

  then_logs-StartsRising :
      (r : Option (Events s.World)) (next : Events s.World → Option (Events s.World))
      → StartsRising r
      → ((st : Events s.World) → IsRising st → StartsRising (next st))
      → StartsRising (then_logs s watched r next)
  then_logs-StartsRising none next h k = tt
  then_logs-StartsRising (some st) next h k = k st h

  handle_logs-StartsRising :
      (logs : List EventLog) (st : Events s.World)
      → IsRising st
      → StartsRising (handle_logs s watched block logs st)
  unfolding handle_logs
  handle_logs-StartsRising [] st h = h
  handle_logs-StartsRising (log ∷ logs) st h =
      then_logs-StartsRising (handle_log s watched block log st) (handle_logs s watched block logs)
        (handle_log-StartsRising log st h) (handle_logs-StartsRising logs)

  handle_receipts-StartsRising :
      (receipts : List (List EventLog)) (st : Events s.World)
      → IsRising st
      → StartsRising (handle_receipts s watched block receipts st)
  unfolding handle_receipts
  handle_receipts-StartsRising [] st h = h
  handle_receipts-StartsRising (logs ∷ rest) st h =
      then_logs-StartsRising (handle_logs s watched block logs st)
        (handle_receipts s watched block rest) (handle_logs-StartsRising logs st h)
        (handle_receipts-StartsRising rest)

  -- The epochs whose processing is started rise strictly from the one that was current, across all
  -- blocks that are processed one after another, and the last one is current afterwards. So no
  -- epoch is processed twice. A log of the contract that has no topics ends the process.
  pub process_events-StartsRising :
      (receipts : Result (List (List EventLog))) (st : Events s.World)
      → Rising first st.current_epoch st.started
      → StartsRising (process_events s watched block receipts st)
  unfolding process_events
  process_events-StartsRising (err e) st h = h
  process_events-StartsRising (ok receipts) st h = handle_receipts-StartsRising receipts st h
