-- ===== src/Prost/Processor/Day.antt =====
-- The day of an epoch.
use native.Mathlib.Nat.{div-add-mod, mod-lt}
use submission_sequencer_bat.Prelude.{ℕ, ◌+◌, ◌-◌, ◌*◌, ◌/◌, ◌%◌, ◌^◌, ◌≤◌, ◌<◌, ◌≡◌, arith}
use submission_sequencer_bat.Prost.Processor.{updated_day}

no_wrap : (e : ℕ) → 0 < e → e < 2 ^ 64 → (e % 2 ^ 64 + 2 ^ 64 - 1) % 2 ^ 64 ≡ e - 1
no_wrap e h k = ground arith

quotient_fits : (a p : ℕ) → 0 < p → a + 1 < 2 ^ 64 → (a / p + 1 + 0) % 2 ^ 64 ≡ a / p + 1
quotient_fits a p h k = let q : a / p ≤ a = grind (arith, div-add-mod a p) in ground arith

-- Days hold `per_day` epochs each: an epoch from 1 on belongs to day 1 up to the epoch numbered
-- `per_day`, and so on. Epochs are below 2^64, and a day has an epoch at least.
pub updated_day_bounds :
    (per_day epoch : ℕ)
    → 0 < per_day
    → 0 < epoch
    → epoch < 2 ^ 64
    → ((updated_day per_day epoch - 1) * per_day < epoch)
      × (epoch ≤ updated_day per_day epoch * per_day)
unfolding updated_day
updated_day_bounds p e h k l =
    let q = (e - 1) / p in
    let split : p * ((e - 1) / p) + (e - 1) % p ≡ e - 1 = div-add-mod (e - 1) p in
    let small : (e - 1) % p < p = mod-lt (e - 1) h in
    rw (no_wrap e k l, quotient_fits (e - 1) p h (omega arith)) (grind arith, grind arith)
