-- ===== src/Prost/Processor/Race.antt =====
-- ProcessEvents of pkgs/helpers/prost/processor.go in the goroutines that StartFetchingBlocks of
-- pkgs/helpers/prost/chain.go starts for the blocks: they share CurrentEpochID without a lock.
use submission_sequencer_bat.Prelude.{
  sym, ℕ, ◌≤◌, ◌<◌, ◌≡◌, refl, subst, true, List, [], ◌∷◌, ◌++◌, ltb, ltb→lt, map, Bool-cases, inl,
  inr, All, All-append, All-append_left, All-append_right, arith,
}
use submission_sequencer_bat.Prelude.Text.{text_eq}
use submission_sequencer_bat.Prelude.Effect.{Result, ok, err}
use submission_sequencer_bat.Services.{Services}
use submission_sequencer_bat.Prost.Processor.{
  EpochReleased, Watched, Started, Events, start_epoch, handle_event,
}
use mathlib.Core.List.{append_assoc, map-append}

-- CurrentEpochID, the epochs of the goroutines that have compared it and not set it yet, and the
-- epochs whose processing was started.
pub record Racing : Type 0 where
  pub current_epoch : ℕ
  pub compared : List ℕ
  pub started : List ℕ

-- A goroutine finds its event's epoch later than the current one; or a goroutine that has found so
-- sets the current epoch and starts the epoch's processing. In between any others take their steps.
pub data Turn : Racing → Racing → Type 0 where
  compare :
      {r : Racing} (epoch : ℕ)
      → ltb r.current_epoch epoch ≡ true
      → Turn r (record r { compared = epoch ∷ r.compared })
  start :
      {r : Racing} (before : List ℕ) (epoch : ℕ) (after : List ℕ)
      → r.compared ≡ before ++ (epoch ∷ after)
      → Turn r (record {
        current_epoch = epoch;
        compared = before ++ after;
        started = r.started ++ (epoch ∷ []);
      })

pub data Turns : Racing → Racing → Type 0 where
  done : {r : Racing} → Turns r r
  then_turn : {r r' r'' : Racing} → Turns r r' → Turn r' r'' → Turns r r''

abbrev pub racing_from : ℕ → Racing
racing_from epoch = record { current_epoch = epoch; compared = []; started = [] }

module _ (first : ℕ) where
  abbrev IsLater : ℕ → Type 0
  IsLater epoch = first < epoch

  record AreLater (r : Racing) : Type 0 where
    current : first ≤ r.current_epoch
    waiting : All IsLater r.compared
    made : All IsLater r.started

  Turn-AreLater : {r r' : Racing} → Turn r r' → AreLater r → AreLater r'
  Turn-AreLater (compare {r} epoch e) h = record {
    current = h.current;
    waiting = (omega (arith, h.current, ltb→lt r.current_epoch epoch e), h.waiting);
    made = h.made;
  }
  Turn-AreLater (start {r} before epoch after e) h =
      let all = subst (All IsLater) e h.waiting in
      let rest = All-append_right IsLater before (epoch ∷ after) all in
      record {
        current = omega (arith, rest.0);
        waiting =
            All-append IsLater before after (All-append_left IsLater before (epoch ∷ after) all)
              rest.1;
        made = All-append IsLater r.started (epoch ∷ []) h.made (rest.0, tt);
      }

  Turns-AreLater : {r r' : Racing} → Turns r r' → AreLater r → AreLater r'
  Turns-AreLater done h = h
  Turns-AreLater (then_turn steps step) h = Turn-AreLater step (Turns-AreLater steps h)

  pub Turns-later :
      (r : Racing) → Turns (racing_from first) r → All (λ epoch. first < epoch) r.started
  Turns-later r steps =
      (Turns-AreLater steps (record { current = omega arith; waiting = tt; made = tt })).made

-- In every state, for every epoch later than the current one, there are steps of two goroutines that
-- see an event of that epoch which start its processing twice: both compare before one sets.
overlap-starts_twice :
    (r : Racing) (epoch : ℕ)
    → ltb r.current_epoch epoch ≡ true
    → (r' : Racing) × Turns r r' × (r'.started ≡ r.started ++ (epoch ∷ epoch ∷ []))
overlap-starts_twice r epoch later = (
  _,
  then_turn
      (then_turn (then_turn (then_turn done (compare epoch later)) (compare epoch later))
        (start [] epoch (epoch ∷ r.compared) refl))
      (start [] epoch r.compared refl),
  append_assoc r.started (epoch ∷ []) (epoch ∷ []),
)

-- The goroutine of one event, run on its own, is such steps.
module _ (s : Services) (watched : Watched) (block : ℕ) (compared : List ℕ) where
  abbrev racing : Events s.World → Racing
  racing st = record {
    current_epoch = st.current_epoch;
    compared = compared;
    started = map (λ (e : Started). e.epoch) st.started;
  }

  start_epoch-Turns :
      (epoch : ℕ) (st : Events s.World)
      → ltb st.current_epoch epoch ≡ true
      → Turns (racing st) (racing (start_epoch s watched block epoch st))
  unfolding start_epoch
  start_epoch-Turns epoch st later =
      subst
        (λ started.
          Turns (racing st)
            (record { current_epoch = epoch; compared = compared; started = started }))
        (sym (map-append (λ (e : Started). e.epoch) st.started _))
        (then_turn (then_turn done (compare epoch later)) (start [] epoch compared refl))

  handle_event-Turns :
      (r : Result EpochReleased) (st : Events s.World)
      → Turns (racing st) (racing (handle_event s watched block r st))
  unfolding handle_event
  handle_event-Turns (err e) st = done
  handle_event-Turns (ok event) st =
      elim (Bool-cases (text_eq event.data_market_address watched.data_market_address)) [
        | inl ours ↦ elim (Bool-cases (ltb st.current_epoch event.epoch_id)) [
          | inl later ↦ rw (ours, later) (start_epoch-Turns event.epoch_id st later)
          | inr old ↦ rw (ours, old) done
        ]
        | inr other ↦ rw other done
      ]
