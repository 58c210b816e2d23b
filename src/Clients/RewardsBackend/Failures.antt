-- ===== src/Clients/RewardsBackend/Failures.antt =====
-- The slots that the rewards backend does not take.
use mathlib.Core.List.{append-nil, append_assoc, Permᴰ}
use mathlib.Core.List.Permᴰ
use submission_sequencer_bat.Prelude.{
  suc, ◌≡◌, ◌≢◌, refl, sym, ap, ap₂, subst, Perm, ◌∙◌, List, [], ◌∷◌, ◌++◌, Option, none, some,
  arith,
}
use submission_sequencer_bat.Prelude.Text.{Text, NoByte}
use submission_sequencer_bat.Prelude.Int.{ℤ, pos, negsuc}
use submission_sequencer_bat.Prelude.Decimal.{to_string, atoi, digits-NoByte, digits-ne-nil}
use submission_sequencer_bat.Prelude.Effect.{Result, ok, err, Done}
use submission_sequencer_bat.Data.{SequencerAlert}
use submission_sequencer_bat.Constants.{rewards_backend_failures}
use submission_sequencer_bat.Services.{Services}
use submission_sequencer_bat.Clients.Reporting.{send_failure_notification}
use submission_sequencer_bat.Redis.Client.{text_or_empty, parts_of}
use submission_sequencer_bat.Redis.Client.Tables.{lock_update-parts}
use submission_sequencer_bat.Clients.RewardsBackend.{
  notify, assign_slot_reward, keep_failure, assign_slot, assign_slots, bulk_assign_slot_rewards,
}

to_string-ne-nil : (z : ℤ) → to_string z ≢ []
unfolding to_string
to_string-ne-nil (pos n) e = digits-ne-nil n e
to_string-ne-nil (negsuc n) e = cc

to_string-NoByte : (z : ℤ) → NoByte b',' (to_string z)
unfolding to_string
to_string-NoByte (pos n) = digits-NoByte b',' n (omega arith)
to_string-NoByte (negsuc n) = (omega arith, digits-NoByte b',' (suc n) (omega arith))

-- The slots listed for the day.
abbrev pub listed : (s : Services) → ℤ → s.World → List Text
listed s day w = parts_of (text_or_empty (s.redis_hget rewards_backend_failures (to_string day) w))

abbrev failure_of : ℤ → Result Done → List Text
failure_of slot (ok d) = []
failure_of slot (err e) = to_string slot ∷ []

module _ (answer : ℤ → Result Done) where
  abbrev failure_at : Option ℤ → List Text
  failure_at none = []
  failure_at (some slot) = failure_of slot (answer slot)

  -- Those of the slots that are numbers and are not taken, in order.
  abbrev pub failures : List Text → List Text
  failures [] = []
  failures (slot ∷ slots) = failure_at (atoi slot) ++ failures slots

  failures-Permᴰ : {xs ys : List Text} → Permᴰ xs ys → Permᴰ (failures xs) (failures ys)
  failures-Permᴰ Permᴰ.nil = Permᴰ.nil
  failures-Permᴰ (Permᴰ.cons {a} {b} {l₁} {l₂} e p) =
      subst (λ t. Permᴰ (failures (a ∷ l₁)) (failure_at (atoi t) ++ failures l₂)) e
        (Permᴰ.append_left (failure_at (atoi a)) (failures-Permᴰ p))
  failures-Permᴰ (Permᴰ.swap {a} {b} {a'} {b'} {l} e k) =
      let same : failures (b ∷ a ∷ l) ≡ failures (a' ∷ b' ∷ l) =
        ap₂ (λ x y. failures (x ∷ y ∷ l)) k e in
      subst (λ t. Permᴰ (failures (a ∷ b ∷ l)) t) same
        (subst (λ t. Permᴰ t (failures (b ∷ a ∷ l)))
          (append_assoc (failure_at (atoi a)) (failure_at (atoi b)) (failures l))
          (subst (λ t. Permᴰ ((failure_at (atoi a) ++ failure_at (atoi b)) ++ failures l) t)
            (append_assoc (failure_at (atoi b)) (failure_at (atoi a)) (failures l))
            (Permᴰ.append_right (failures l)
              (Permᴰ.append_comm (failure_at (atoi a)) (failure_at (atoi b))))))
  failures-Permᴰ (Permᴰ.trans p q) = Permᴰ.trans (failures-Permᴰ p) (failures-Permᴰ q)

module _ (s : Services) (day : ℤ) (answer : ℤ → Result Done)
    -- Setting a field of a hash stores its value.
    (stores : (table key value : Text) (w : s.World)
      → s.redis_hget table key (s.redis_hset table key value w).1 ≡ ok (some value))
    -- The answer after the retries depends on the slot alone, and neither the requests nor the alerts
    -- change Redis.
    (answers : (slot : ℤ) (w : s.World)
      → (s.retry s.World Done 3 (s.post_slot_reward slot day) w).0 ≡ answer slot)
    (requests_apart : (slot : ℤ) (table key : Text) (w : s.World)
      → s.redis_hget table key (s.retry s.World Done 3 (s.post_slot_reward slot day) w).1
        ≡ s.redis_hget table key w)
    (alerts_apart : (alert : SequencerAlert) (table key : Text) (w : s.World)
      → s.redis_hget table key (s.post_alert alert w) ≡ s.redis_hget table key w) where
  notify-listed : (r : Result Done) (w : s.World) → listed s day (notify s r w) ≡ listed s day w
  unfolding send_failure_notification
  notify-listed (ok d) w = refl
  notify-listed (err e) w = ap (λ r. parts_of (text_or_empty r)) (alerts_apart _ _ _ w)

  keep_failure-listed :
      (slot : ℤ) (r : Result Done) (w : s.World)
      → listed s day (keep_failure s slot day r w) ≡ listed s day w ++ failure_of slot r
  unfolding keep_failure
  keep_failure-listed slot (ok d) w = sym (append-nil (listed s day w))
  keep_failure-listed slot (err e) w =
      notify-listed _ _
      ∙ lock_update-parts s stores rewards_backend_failures (to_string day) (to_string slot) w
          (to_string-ne-nil slot) (to_string-NoByte slot)

  assign_slot-listed :
      (slot : Option ℤ) (w : s.World)
      → listed s day (assign_slot s day slot w) ≡ listed s day w ++ failure_at answer slot
  unfolding assign_slot assign_slot_reward
  assign_slot-listed none w = sym (append-nil (listed s day w))
  assign_slot-listed (some slot) w = rw (answers slot w) (
      keep_failure-listed slot (answer slot) _
      ∙ ap (λ t. t ++ failure_of slot (answer slot))
          (notify-listed (answer slot) _
            ∙ ap (λ r. parts_of (text_or_empty r)) (requests_apart slot _ _ w)))

  assign_slots-listed :
      (slots : List Text) (w : s.World)
      → listed s day (assign_slots s day slots w) ≡ listed s day w ++ failures answer slots
  unfolding assign_slots
  assign_slots-listed [] w = sym (append-nil (listed s day w))
  assign_slots-listed (slot ∷ slots) w =
      assign_slots-listed slots (assign_slot s day (atoi slot) w)
      ∙ ap (λ t. t ++ failures answer slots) (assign_slot-listed (atoi slot) w)
      ∙ append_assoc (listed s day w) (failure_at answer (atoi slot)) (failures answer slots)

  -- Where Redis stores what it is given, the answer to a request depends on the slot alone, and
  -- requests and alerts leave Redis alone, BulkAssignSlotRewards adds the slots that the rewards
  -- backend does not take, also after the retries, to those listed for the day, each as often as it
  -- was given, and no others, in whatever order the goroutines of the slots come to work.
  pub bulk_assign-failures :
      ((ts : List Text) → Permᴰ ts (s.scheduled ts))
      → (slots : List Text) (w : s.World)
      → Perm
          (listed s day (bulk_assign_slot_rewards s day slots w))
          (listed s day w ++ failures answer slots)
  unfolding bulk_assign_slot_rewards
  bulk_assign-failures scheduled slots w =
      subst (λ t. Perm t (listed s day w ++ failures answer slots))
        (sym (assign_slots-listed (s.scheduled slots) w))
        ∣ Permᴰ.append_left (listed s day w)
          (failures-Permᴰ answer (Permᴰ.symm (scheduled slots))) ∣₁
