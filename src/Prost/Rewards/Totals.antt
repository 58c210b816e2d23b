-- ===== src/Prost/Rewards/Totals.antt =====
-- The totals of the slots in Redis are numbers, and storing rewards keeps them so.
use submission_sequencer_bat.Prelude.{
  ℕ, ◌≡◌, refl, sym, ap, subst, ◌∙◌, inl, inr, false, [], ◌∷◌, Option, none, some, Bool-cases,
}
use submission_sequencer_bat.Prelude.Text.{Text, text, text_eq, text_eq_iff}
use submission_sequencer_bat.Prelude.Int.{ℤ, pos}
use submission_sequencer_bat.Prelude.Decimal.{digits, to_string, set_string, set_string-to_string}
use submission_sequencer_bat.Prelude.Effect.{Result, ok, err, Done}
use submission_sequencer_bat.Data.{high}
use submission_sequencer_bat.Services.{Services}
use submission_sequencer_bat.Clients.Reporting.{send_failure_notification}
use submission_sequencer_bat.Redis.Keys.{total_slot_rewards}
use submission_sequencer_bat.Redis.Client.{delete, get, set, nil_as_empty}
use submission_sequencer_bat.Merkle.Build.{report}
use submission_sequencer_bat.Prost.Contract.{must_query, must_value}
use submission_sequencer_bat.Prost.Rewards.Keeps.{RedisStores}

-- A total that was read: an error, none, or a number.
abbrev pub Readable : Result Text → Type 0
Readable (err e) = Unit {0}
Readable (ok []) = Unit {0}
Readable (ok (c ∷ v)) = (z : ℤ) × (set_string (c ∷ v) ≡ some z)

number-Readable : (v : Text) (z : ℤ) → set_string v ≡ some z → Readable (ok v)
number-Readable [] z e = tt
number-Readable (c ∷ v) z e = (z, e)

-- No panic, and then `P`.
abbrev pub Runs : {W : Type 0} → (W → Type 0) → Option Done × W → Type 0
Runs P (none, w) = ⊥
Runs P (some d, w) = P w

module _ (s : Services) (stores : RedisStores s) where
  abbrev total_key : ℕ → Text
  total_key t = total_slot_rewards (digits t)

  -- The total of every slot is a number, if there is one.
  abbrev pub Sound : s.World → Type 0
  Sound w = (t : ℕ) → Readable (get s (total_key t) w)

  pub same-Sound :
      (w w' : s.World)
      → ((t : ℕ) → s.redis_get (total_key t) w' ≡ s.redis_get (total_key t) w)
      → Sound w
      → Sound w'
  unfolding get
  same-Sound w w' e h t = subst Readable (ap nil_as_empty (sym (e t))) (h t)

  pub set_other-Sound :
      (k v : Text) (expiration : ℕ) (w : s.World)
      → ((t : ℕ) → text_eq k (total_key t) ≡ false)
      → Sound w
      → Sound (set s k v expiration w).1
  unfolding set
  set_other-Sound k v x w differs h =
      same-Sound w _ (λ t. stores.set_gets k (total_key t) v x w ∙ rw (differs t) refl) h

  pub set_total-Sound :
      (u : ℕ) (z : ℤ) (expiration : ℕ) (w : s.World)
      → Sound w
      → Sound (set s (total_key u) (to_string z) expiration w).1
  unfolding set get
  set_total-Sound u z x w h t = elim (Bool-cases (text_eq (total_key u) (total_key t))) [
    | inl e ↦
        rw (stores.set_gets (total_key u) (total_key t) (to_string z) x w, e)
          (number-Readable (to_string z) z (set_string-to_string z))
    | inr e ↦ rw (stores.set_gets (total_key u) (total_key t) (to_string z) x w, e) (h t)
  ]

  pub delete-Sound : (u : ℕ) (w : s.World) → Sound w → Sound (delete s (total_key u) w).1
  unfolding delete get
  delete-Sound u w h t = elim (Bool-cases (text_eq (total_key u) (total_key t))) [
    | inl e ↦
        let same = (text_eq_iff (total_key u) (total_key t)).0 e in
        rw (sym same, stores.del_gets (total_key u) w) tt
    | inr e ↦ rw (stores.del_keeps (total_key u) (total_key t) w e) (h t)
  ]

  pub alert-Sound :
      (process : Text) (w : s.World)
      → Sound w
      → Sound (send_failure_notification s process high w).1
  unfolding send_failure_notification
  alert-Sound process w h = same-Sound w _ (λ t. stores.alert_keeps (total_key t) _ w) h

  pub report-Sound :
      (process : Text) (r : Result Done) (w : s.World)
      → Sound w
      → Sound (report s process high r w).1
  unfolding report
  report-Sound process (ok d) w h = h
  report-Sound process (err e) w h = alert-Sound process w h

  pub must_query-Sound :
      (u : ℕ) (w : s.World)
      → Sound w
      → Sound (must_query s (s.query_slot_reward_points (pos u)) w).1
  unfolding must_query
  must_query-Sound u w h = after (s.retry s.World ℕ 3 (s.query_slot_reward_points (pos u)) w) (
      stores.retry_keeps s.World ℕ 3 (s.query_slot_reward_points (pos u)) Sound
        (λ st k. same-Sound st _ (λ t. stores.points_keeps (pos u) (total_key t) st) k) w h)
    where
      after : (r : Result ℕ × s.World) → Sound r.1 → Sound (must_value s r.0 r.1).1
      after (ok p, w') k = k
      after (err e, w') k = alert-Sound (text "Contract query error [MustQuery]") w' k
