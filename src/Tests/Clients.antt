-- ===== src/Tests/Clients.antt =====
-- pkgs/helpers/clients/rewardsBackend.go over a backend that refuses one slot.
use mathlib.Core.List.{Permᴰ}
use submission_sequencer_bat.Prelude.{
  Perm, ℕ, zero, suc, ◌≡◌, refl, ap, List, [], ◌∷◌, ◌++◌, ◌==◌, if◌then◌else◌,
}
use submission_sequencer_bat.Prelude.Text.{Text, text}
use submission_sequencer_bat.Prelude.Int.{ℤ, pos, negsuc}
use submission_sequencer_bat.Prelude.Dict.{lookup-insert_self}
use submission_sequencer_bat.Prelude.Effect.{Result, ok, err, Done}
use submission_sequencer_bat.Services.{Services}
use submission_sequencer_bat.Clients.RewardsBackend.{bulk_assign_slot_rewards}
use submission_sequencer_bat.Clients.RewardsBackend.Failures.{
  listed, failures, bulk_assign-failures,
}
use submission_sequencer_bat.Tests.Memory.{World, memory, nothing, retries}

-- Slot 7 is refused.
abbrev answer : ℤ → Result Done
answer (pos n) = if n == 7 then err (text "no slot") else ok tt
answer (negsuc n) = ok tt

-- The goroutines of the first two slots change places.
abbrev swapped : List Text → List Text
swapped (a ∷ b ∷ ts) = b ∷ a ∷ ts
swapped ts = ts

swapped-Permᴰ : (ts : List Text) → Permᴰ ts (swapped ts)
swapped-Permᴰ [] = Permᴰ.nil
swapped-Permᴰ (a ∷ []) = Permᴰ.cons refl Permᴰ.nil
swapped-Permᴰ (a ∷ b ∷ ts) = Permᴰ.swap refl refl

abbrev refusing : Services
refusing = record memory { post_slot_reward = λ slot day w. (answer slot, w); scheduled = swapped }

-- An operation that changes nothing is repeated with the same answer.
retries_same : (n : ℕ) (r : Result Done) (w : World) → retries World Done n (λ w. (r, w)) w ≡ (r, w)
unfolding retries
retries_same zero r w = refl
retries_same (suc n) (ok d) w = refl
retries_same (suc n) (err e) w = retries_same n (err e) w

abbrev slots : List Text
slots = text "8" ∷ text "7" ∷ text "x" ∷ text "7" ∷ []

bulk_assign-failures_example :
    Perm
      (listed refusing (pos 3) (bulk_assign_slot_rewards refusing (pos 3) slots nothing))
      (listed refusing (pos 3) nothing ++ failures answer slots)
bulk_assign-failures_example =
    bulk_assign-failures refusing (pos 3) answer
      (λ table key value w. ap ok (lookup-insert_self (table ++ key) value w.values))
      (λ slot w. ap (λ r. r.0) (retries_same 3 (answer slot) w))
      (λ slot table key w.
        ap (λ r. refusing.redis_hget table key r.1) (retries_same 3 (answer slot) w))
      (λ alert table key w. refl) swapped-Permᴰ slots nothing
