-- ===== src/Prost/State/First.antt =====
-- PopulateStateVars ends once the node answers.
use submission_sequencer_bat.Prelude.{ℕ, zero, suc, ◌<◌, ◌≡◌, refl, ap, ◌∙◌, some, arith, inl, inr}
use submission_sequencer_bat.Prelude.Effect.{Result, ok, err, Result-cases}
use submission_sequencer_bat.Services.{Services}
use submission_sequencer_bat.Prost.Flow.{Block}
use submission_sequencer_bat.Prost.State.{
  StateVars, or_retry, first_block, populated, populate_from_contract, populate_state_vars,
}

module _ (s : Services) (latest_block : s.World → Result Block × s.World) where
  -- The world after `n` calls for the latest block.
  abbrev pub after_calls : ℕ → s.World → s.World
  after_calls zero w = w
  after_calls (suc n) w = after_calls n (latest_block w).1

  -- The same block, however many tries are granted beyond those.
  abbrev Found : ℕ → s.World → Type 0
  Found n w =
      (block : Block) × (w' : s.World) × ((tries : ℕ)
        → n < tries
        → first_block s latest_block tries w ≡ some (block, w'))

  Found-ok : (n : ℕ) (w : s.World) (block : Block) → (latest_block w).0 ≡ ok block → Found n w
  unfolding first_block
  Found-ok n w block e = (block, (latest_block w).1, at_once)
    where
      at_once :
          (tries : ℕ)
          → n < tries
          → first_block s latest_block tries w ≡ some (block, (latest_block w).1)
      at_once zero h = absurd (omega arith)
      at_once (suc tries) h =
          ap
            (λ r.
              or_retry s latest_block (r, (latest_block w).1) (first_block s latest_block tries))
            e

  Found-err :
      (n : ℕ) (w : s.World) {e : _}
      → (latest_block w).0 ≡ err e
      → Found n (latest_block w).1
      → Found (suc n) w
  unfolding first_block
  Found-err n w failed (block, w', found) = (block, w', again)
    where
      again : (tries : ℕ) → suc n < tries → first_block s latest_block tries w ≡ some (block, w')
      again zero h = absurd (omega arith)
      again (suc tries) h =
          ap
            (λ r.
              or_retry s latest_block (r, (latest_block w).1) (first_block s latest_block tries))
            failed
          ∙ found tries (omega arith)

  first_block-Found :
      (n : ℕ) (w : s.World) (block : Block)
      → (latest_block (after_calls n w)).0 ≡ ok block
      → Found n w
  first_block-Found zero w block e = Found-ok 0 w block e
  first_block-Found (suc n) w block e = elim (Result-cases (latest_block w).0) [
    | inl (early, now) ↦ Found-ok (suc n) w early now
    | inr (failure, failed) ↦ Found-err n w failed (first_block-Found n (latest_block w).1 block e)
  ]

  -- If the node gives a block at some call, PopulateStateVars ends by that call, with the current
  -- block set; nothing else can keep it from ending, and granting more calls changes nothing.
  pub populate_state_vars-ends :
      (n : ℕ) (vars : StateVars) (w : s.World) (block : Block)
      → (latest_block (after_calls n w)).0 ≡ ok block
      → (first : Block) × (st : StateVars) × (w' : s.World) × ((tries : ℕ)
          → n < tries
          → populate_state_vars s latest_block tries vars w ≡ some (st, w'))
        × (st.current_block ≡ some first)
  unfolding populate_state_vars populate_from_contract
  populate_state_vars-ends n vars w block e =
      let (first, w', found) = first_block-Found n w block e in
      (
        first,
        (populate_from_contract s first vars w').0,
        (populate_from_contract s first vars w').1,
        λ tries h. ap (λ r. populated s latest_block r vars) (found tries h),
        refl,
      )
