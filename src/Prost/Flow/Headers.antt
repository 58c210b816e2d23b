-- ===== src/Prost/Flow/Headers.antt =====
-- The headers that processEpoch collects.
use mathlib.Core.List.{append_assoc, append-nil}
use submission_sequencer_bat.Prelude.{
  ℕ, ◌+◌, ◌≤◌, ◌≡◌, sym, ◌∙◌, inl, inr, List, [], ◌∷◌, ◌++◌, arith, length, ltb, Bool-cases, ltb→lt,
  ◌-◌,
}
use Prim.Native.Nat.{max}
use submission_sequencer_bat.Prelude.Text.{Text}
use submission_sequencer_bat.Prost.Flow.{Block, collect_headers}

-- The headers are those there were and `more`, in this order, the last block is `last`, and there
-- are no more new headers than block numbers passed.
abbrev pub IsCollected : ℕ → ℕ → List Text → ℕ × List Text → Type 0
IsCollected limit start headers (last, collected) =
    (more : List Text) × (collected ≡ headers ++ more)
    × (length more + start ≤ last)
    × (last ≤ max start (limit - 1))

-- From a block on, the loop of processEpoch ends with a block that is not before it and not at the
-- limit or after, unless it is the block that the loop began with; it keeps the headers that there
-- were, in their order, and puts at most one behind them for each block number passed.
pub collect_headers-IsCollected :
    (limit : ℕ) (blocks : List Block) (start : ℕ) (headers : List Text)
    → IsCollected limit start headers (collect_headers limit blocks (start, headers))
unfolding collect_headers
collect_headers-IsCollected limit [] start headers =
    ([], sym (append-nil headers), omega arith, omega arith)
collect_headers-IsCollected limit (b ∷ blocks) start headers =
    elim (Bool-cases (ltb b.block_number limit)) [
      | inr reached ↦ rw reached ([], sym (append-nil headers), omega arith, omega arith)
      | inl before ↦ elim (Bool-cases (ltb start b.block_number)) [
        | inl later ↦
            let (more, whole, few, upper) =
              collect_headers-IsCollected limit blocks b.block_number (headers ++ (b.hash ∷ [])) in
            let in_window = ltb→lt b.block_number limit before in
            let risen = ltb→lt start b.block_number later in
            rw (before, later)
              (
                b.hash ∷ more,
                whole ∙ append_assoc headers (b.hash ∷ []) more,
                omega (arith, few, risen),
                omega (arith, upper, in_window, risen),
              )
        | inr same ↦ rw (before, same) (collect_headers-IsCollected limit blocks start headers)
      ]
    ]
