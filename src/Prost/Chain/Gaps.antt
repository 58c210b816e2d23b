-- ===== src/Prost/Chain/Gaps.antt =====
-- No block is left out.
use submission_sequencer_bat.Prelude.{
  ℕ, zero, suc, ◌+◌, ◌-◌, ◌≡◌, refl, List, [], ◌∷◌, ◌++◌, Option, none, some, arith, length,
  length-append,
}
use submission_sequencer_bat.Prelude.Effect.{Result, ok, err}
use submission_sequencer_bat.Services.{Services}
use submission_sequencer_bat.Prost.Flow.{Block}
use submission_sequencer_bat.Prost.Chain.{
  Chain, fetched, take_block, or_stay, catch_up, fetch_blocks, round_with, round,
  start_fetching_blocks,
}

-- The numbers count on from `n`.
abbrev pub CountOn : ℕ → List Block → Type 0
CountOn n [] = Unit {0}
CountOn n (b ∷ bs) = (b.block_number ≡ n) × CountOn (n + 1) bs

CountOn-append :
    (n : ℕ) (bs : List Block) (b : Block)
    → CountOn n bs
    → b.block_number ≡ n + length bs
    → CountOn n (bs ++ (b ∷ []))
CountOn-append n [] b h e = (omega arith, tt)
CountOn-append n (x ∷ bs) b (e, h) k = (e, CountOn-append (n + 1) bs b h (omega arith))

module _ (s : Services) (block_by_number : ℕ → s.World → Result (Option Block) × s.World)
    (numbered : (n : ℕ) (w : s.World) (b : Block)
      → (block_by_number n w).0 ≡ ok (some b)
      → b.block_number ≡ n)
    (first : ℕ) where
  -- The blocks processed so far are those after block `first` up to the current one.
  abbrev pub IsGapless : Chain s.World → Type 0
  IsGapless st =
      CountOn (first + 1) st.processed × (st.current.block_number ≡ first + length st.processed)

  step-IsGapless :
      (st : Chain s.World) (r : Result (Option Block) × s.World) (num : ℕ)
      (next : Chain s.World → Chain s.World)
      → ((b : Block) → r.0 ≡ ok (some b) → b.block_number ≡ num)
      → num ≡ st.current.block_number + 1
      → IsGapless st
      → ((st' : Chain s.World)
          → st'.current.block_number ≡ num
          → IsGapless st'
          → IsGapless (next st'))
      → IsGapless (
          or_stay s block_by_number
            (fetched s block_by_number st r)
            (record st { world = r.1 })
            next)
  unfolding fetched take_block
  step-IsGapless st (err e, w) num next f g h k = h
  step-IsGapless st (ok none, w) num next f g h k = h
  step-IsGapless st (ok (some b), w) num next f g (counted, current) k =
      let is_next = f b refl in
      k _ is_next (
        CountOn-append (first + 1) st.processed b counted (omega (arith, is_next, g, current)),
        omega (arith, is_next, g, current, length-append st.processed (b ∷ [])),
      )

  catch_up-IsGapless :
      (n num : ℕ) (st : Chain s.World)
      → num ≡ st.current.block_number + 1
      → IsGapless st
      → IsGapless (catch_up s block_by_number n num st)
  unfolding catch_up
  catch_up-IsGapless zero num st e h = h
  catch_up-IsGapless (suc n) num st e h =
      step-IsGapless st (block_by_number num st.world) num (catch_up s block_by_number n (num + 1))
        (numbered num st.world) e h
        (λ st' at k. catch_up-IsGapless n (num + 1) st' (omega (arith, at)) k)

  fetch_blocks-IsGapless :
      (latest : ℕ) (st : Chain s.World)
      → IsGapless st
      → IsGapless (fetch_blocks s block_by_number latest st)
  unfolding fetch_blocks
  fetch_blocks-IsGapless latest st h =
      catch_up-IsGapless (latest - st.current.block_number) (st.current.block_number + 1) st refl h

  module _ (latest_block : s.World → Result Block × s.World) where
    round-IsGapless :
        (st : Chain s.World) (r : Result Block × s.World)
        → IsGapless st
        → IsGapless (round_with s block_by_number latest_block st r)
    unfolding fetch_blocks
    round-IsGapless st (err e, w) h = h
    round-IsGapless st (ok latest, w) h =
        fetch_blocks-IsGapless latest.block_number (record st { world = w }) h

    -- Where the node gives the block of the number asked for, StartFetchingBlocks keeps it, however
    -- many rounds it has made, that the blocks whose events are processed are all blocks after block
    -- `first` up to the current one, each once and in order, also when the latest block or another
    -- one cannot be fetched.
    pub start_fetching-IsGapless :
        (n : ℕ) (st : Chain s.World)
        → IsGapless st
        → IsGapless (start_fetching_blocks s block_by_number latest_block n st)
    unfolding start_fetching_blocks round
    start_fetching-IsGapless zero st h = h
    start_fetching-IsGapless (suc n) st h =
        start_fetching-IsGapless n (round s block_by_number latest_block st)
          (round-IsGapless st (latest_block st.world) h)
