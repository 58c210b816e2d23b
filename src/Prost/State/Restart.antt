-- ===== src/Prost/State/Restart.antt =====
-- Which epochs the sequencer processes after it was started.
use submission_sequencer_bat.Prelude.{ℕ, ◌<◌, ◌≡◌, ap, subst, ◌∙◌, sym, Option, none, some, All}
use submission_sequencer_bat.Prelude.Effect.{Result, ok}
use submission_sequencer_bat.Services.{Services}
use submission_sequencer_bat.Prost.Flow.{Block}
use submission_sequencer_bat.Prost.State.{
  StateVars, first_block, populated, populate_from_contract, populate_epoch, epoch_id_of,
  populate_state_vars,
}
use submission_sequencer_bat.Prost.Processor.Race.{Racing, Turns, racing_from, Turns-later}

module _ (s : Services) (latest_block : s.World → Result Block × s.World) (epoch : ℕ)
    (current : (w : s.World) → (s.query_current_epoch w).0 ≡ ok (some epoch)) where
  populate-epoch :
      (block : Block) (vars : StateVars) (w : s.World)
      → (populate_from_contract s block vars w).0.current_epoch_id ≡ epoch
  unfolding populate_from_contract populate_epoch
  populate-epoch block vars w =
      ap (λ output. (populate_epoch s (epoch_id_of output) (s.query_current_epoch w).1).0)
        (current w)

  epoch_of : Option (StateVars × s.World) → ℕ
  epoch_of none = epoch
  epoch_of (some (st, w)) = st.current_epoch_id

  populated-epoch :
      (r : Option (Block × s.World)) (vars st : StateVars) (w' : s.World)
      → populated s latest_block r vars ≡ some (st, w')
      → st.current_epoch_id ≡ epoch
  unfolding populate_from_contract epoch_of
  populated-epoch none vars st w' e = cc
  populated-epoch (some (block, w)) vars st w' e =
      ap (λ (o : Option (StateVars × s.World)). epoch_of o) (sym e) ∙ populate-epoch block vars w

  -- Where the contract gives its current epoch, the sequencer, once it was started, processes only
  -- later epochs, in whatever order the goroutines of the blocks take their steps.
  pub restart-starts_later :
      (tries : ℕ) (vars st : StateVars) (w w' : s.World)
      → populate_state_vars s latest_block tries vars w ≡ some (st, w')
      → (r : Racing) → Turns (racing_from st.current_epoch_id) r
      → All (λ started. epoch < started) r.started
  unfolding populate_state_vars
  restart-starts_later tries vars st w w' e r steps = Turns-later epoch r (
      subst (λ n. Turns (racing_from n) r)
        (populated-epoch (first_block s latest_block tries w) vars st w' e) steps)
