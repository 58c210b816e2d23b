-- ===== src/Prost/Chain.antt =====
-- StartFetchingBlocks of pkgs/helpers/prost/chain.go: a round, and the first rounds of its endless
-- loop. The goroutines that process the blocks' events are what `processed` holds of them; the
-- sleeps between the rounds are left out.
pub mod Gaps
use submission_sequencer_bat.Prelude.{
  ℕ, zero, suc, ◌+◌, ◌-◌, List, [], ◌∷◌, ◌++◌, Option, none, some,
}
use submission_sequencer_bat.Prelude.Text.{Text}
use submission_sequencer_bat.Prelude.Decimal.{digits}
use submission_sequencer_bat.Prelude.Effect.{Result, ok, err}
use submission_sequencer_bat.Constants.{sequencer_current_block_number}
use submission_sequencer_bat.Services.{Services}
use submission_sequencer_bat.Redis.Client.{set}
use submission_sequencer_bat.Prost.Flow.{Block}

pub record Chain (World : Type 0) : Type 0 where
  -- CurrentBlock
  pub current : Block
  pub processed : List Block
  pub world : World

-- `block_by_number` is the node's; `none` is a nil block.
module _ (s : Services) (block_by_number : ℕ → s.World → Result (Option Block) × s.World) where
  take_block : Block → s.World → List Block → Chain s.World
  unfolding set
  take_block b w processed = record {
    current = b;
    processed = processed ++ (b ∷ []);
    world = (set s sequencer_current_block_number (digits b.block_number) 0 w).1;
  }

  -- Whether the loop goes on, and the chain.
  unfoldable pub fetched : Chain s.World → Result (Option Block) × s.World → Option (Chain s.World)
  unfolding take_block
  fetched st (err e, w) = none
  fetched st (ok none, w) = none
  fetched st (ok (some b), w) = some (take_block b w st.processed)

  abbrev pub or_stay :
      Option (Chain s.World) → Chain s.World → (Chain s.World → Chain s.World) → Chain s.World
  or_stay none st next = st
  or_stay (some st') st next = next st'

  -- The blocks from `block_num` on, `n` of them; a block that cannot be fetched ends the loop.
  unfoldable pub catch_up : ℕ → ℕ → Chain s.World → Chain s.World
  catch_up zero block_num st = st
  catch_up (suc n) block_num st =
      let r = block_by_number block_num st.world in
      or_stay (fetched st r) (record st { world = r.1 }) (catch_up n (block_num + 1))

  -- The latest block is known.
  unfoldable pub fetch_blocks : ℕ → Chain s.World → Chain s.World
  fetch_blocks latest st =
      catch_up (latest - st.current.block_number) (st.current.block_number + 1) st

  module _ (latest_block : s.World → Result Block × s.World) where
    abbrev pub round_with : Chain s.World → Result Block × s.World → Chain s.World
    unfolding fetch_blocks
    round_with st (err e, w) = record st { world = w }
    round_with st (ok latest, w) = fetch_blocks latest.block_number (record st { world = w })

    -- A round is skipped when the latest block cannot be fetched.
    unfoldable pub round : Chain s.World → Chain s.World
    round st = round_with st (latest_block st.world)

    -- The first `n` rounds of the loop.
    unfoldable pub start_fetching_blocks : ℕ → Chain s.World → Chain s.World
    unfolding round
    start_fetching_blocks zero st = st
    start_fetching_blocks (suc n) st = start_fetching_blocks n (round st)
