-- ===== src/Prost/Handler/Wakeup.antt =====
-- A wakeup that is lost: the last account is released between the last TryLock of a caller and its
-- wait, and nobody can signal again.
use submission_sequencer_bat.Prelude.{
  ℕ, ◌+◌, ◌-◌, ◌<◌, ◌≡◌, refl, sym, subst, Bool, false, List, [], ◌∷◌, arith, set,
}
use submission_sequencer_bat.Prost.Handler.{
  Handler, parking, asleep, Step, enter, pass, take, give_up, hold, sleep, unlock, wake, miss,
  Reach, here, next, take_out, times,
}

-- A caller sleeps inside, no account is out and no signal is due.
pub record IsStuck (h : Handler) : Type 0 where
  pub sleeps : h.inside ≡ asleep
  pub none_out : h.out ≡ []
  pub no_signal : h.signals ≡ 0

no_times : (i : ℕ) (out : List ℕ) → out ≡ [] → ¬ (0 < times i out)
unfolding times
no_times i [] e k = omega arith
no_times i (x ∷ out) e k = cc

-- No step is possible.
stuck-Step : {h h' : Handler} → IsStuck h → ¬ Step h h'
stuck-Step st (enter c e) = let e' = st.sleeps in cc
stuck-Step st (pass c i e l) = let e' = st.sleeps in cc
stuck-Step st (take c i e l) = let e' = st.sleeps in cc
stuck-Step st (give_up e) = let e' = st.sleeps in cc
stuck-Step st (hold e) = let e' = st.sleeps in cc
stuck-Step st (sleep e) = let e' = st.sleeps in cc
stuck-Step {h} st (unlock i k) = no_times i h.out st.none_out k
stuck-Step st (wake k e) = omega (arith, st.no_signal)
stuck-Step st (miss k e) = omega (arith, st.no_signal)

pub stuck-Reach : {h h' : Handler} → IsStuck h → Reach h h' → h' ≡ h
stuck-Reach st here = refl
stuck-Reach {h} st (next {h₁} r step) =
    let e = stuck-Reach st r in absurd (stuck-Step (rw (sym e) at st) step)

-- The state after the last account is released, its signal is missed, and the caller goes to sleep.
abbrev pub lost : Handler → ℕ → Handler
lost h i = record h { locked = set h.locked i false; out = []; signals = 0; inside = asleep }

-- A handler whose caller is about to wait, with one account out.
abbrev pub waiting : List Bool → ℕ → ℕ → Handler
waiting locked on_hold i = record {
  locked = locked;
  inside = parking;
  on_hold = on_hold;
  out = i ∷ [];
  signals = 0;
}

out_none : (i : ℕ) → take_out i (i ∷ []) ≡ []
unfolding take_out
out_none i = ground arith

-- Whenever a caller is about to wait while a single account `i` is out, the steps that release `i`
-- and put the caller to sleep lead to a state with that account free which no step leaves: the
-- caller sleeps for ever inside the handler's mutex, and no other caller gets an account.
pub wakeup_lost :
    (locked : List Bool) (on_hold i : ℕ) (h : Handler)
    → Reach (lost (waiting locked on_hold i) i) h
    → Reach (waiting locked on_hold i) (lost (waiting locked on_hold i) i)
      × (h ≡ lost (waiting locked on_hold i) i)
wakeup_lost locked on_hold i h r =
    (path, stuck-Reach (record { sleeps = refl; none_out = refl; no_signal = refl }) r)
  where
    missed : Reach (waiting locked on_hold i) (record (waiting locked on_hold i) {
      locked = set locked i false;
      out = [];
      signals = 0 + 1 - 1;
    })
    missed =
        subst
          (λ o. Reach (waiting locked on_hold i) (record (waiting locked on_hold i) {
            locked = set locked i false;
            out = o;
            signals = 0 + 1 - 1;
          }))
          (out_none i)
          (next (next here (unlock i (unfold times in ground arith)))
            (miss (omega arith) (λ e. cc)))

    path : Reach (waiting locked on_hold i) (lost (waiting locked on_hold i) i)
    path = next missed (sleep refl)
