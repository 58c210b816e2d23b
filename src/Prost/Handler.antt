-- ===== src/Prost/Handler.antt =====
-- GetFreeAccount and ReleaseAccount of pkgs/helpers/prost/accountHandler.go, as the steps that
-- concurrent callers make.
--
-- GetFreeAccount holds the handler's mutex from its first line to its return, so at most one caller
-- is inside: it tries the accounts in order, and waits on the condition variable when all are taken
-- and it may wait. ReleaseAccount takes no mutex: it unlocks the account, and signals in a later
-- step. A signal wakes the caller that sleeps, and is lost if none does.
pub mod Exclusion
pub mod Wakeup
use submission_sequencer_bat.Prelude.{
  ℕ, suc, ◌+◌, ◌-◌, ◌<◌, ◌≡◌, Bool, true, false, List, [], ◌∷◌, Option, some, length, get_elem?,
  set, replicate, if◌then◌else◌, ◌==◌, ltb,
}

pub data Inside : Type 0 where
  vacant : Inside
  -- Trying the accounts from an index on; whether the caller may wait.
  scanning : Bool → ℕ → Inside
  -- About to wait, and waiting.
  parking asleep : Inside

pub record Handler : Type 0 where
  -- Which account mutexes are locked.
  pub locked : List Bool
  pub inside : Inside
  -- ProcessesOnHold
  pub on_hold : ℕ
  -- The accounts that callers have got and not released.
  pub out : List ℕ
  -- The releases that have unlocked and not yet signalled.
  pub signals : ℕ

-- NewAccountHandler, with `n` signers.
unfoldable pub new_account_handler : ℕ → Handler
new_account_handler n = record {
  locked = replicate n false;
  inside = vacant;
  on_hold = 0;
  out = [];
  signals = 0;
}

-- The first occurrence is taken out.
unfoldable pub take_out : ℕ → List ℕ → List ℕ
take_out i [] = []
take_out i (j ∷ js) = if j == i then js else j ∷ take_out i js

unfoldable pub times : ℕ → List ℕ → ℕ
times i [] = 0
times i (j ∷ js) = (if j == i then 1 else 0) + times i js

pub data Step (h : Handler) : Handler → Type 0 where
  -- GetFreeAccount(canWait): the mutex is free.
  enter : (can_wait : Bool) → h.inside ≡ vacant → Step h (record h { inside = scanning can_wait 0 })
  -- TryLock fails.
  pass :
      (can_wait : Bool) (i : ℕ)
      → h.inside ≡ scanning can_wait i
      → get_elem? h.locked i ≡ some true
      → Step h (record h { inside = scanning can_wait (i + 1) })
  -- TryLock succeeds, and the account is returned.
  take :
      (can_wait : Bool) (i : ℕ)
      → h.inside ≡ scanning can_wait i
      → get_elem? h.locked i ≡ some false
      → Step h (record h {
        inside = vacant;
        locked = set h.locked i true;
        out = i ∷ h.out;
        on_hold = h.on_hold - 1;
      })
  -- All are occupied: nil for a caller that may not wait.
  give_up : h.inside ≡ scanning false (length h.locked) → Step h (record h { inside = vacant })
  hold :
      h.inside ≡ scanning true (length h.locked)
      → Step h (record h { inside = parking; on_hold = h.on_hold + 1 })
  sleep : h.inside ≡ parking → Step h (record h { inside = asleep })
  -- ReleaseAccount of an account that a caller has: account.mu.Unlock().
  unlock :
      (i : ℕ)
      → 0 < times i h.out
      → Step h (record h {
        locked = set h.locked i false;
        out = take_out i h.out;
        signals = h.signals + 1;
      })
  -- ah.cond.Signal()
  wake :
      0 < h.signals
      → h.inside ≡ asleep
      → Step h (record h { signals = h.signals - 1; inside = scanning true 0 })
  miss : 0 < h.signals → ¬ (h.inside ≡ asleep) → Step h (record h { signals = h.signals - 1 })

pub data Reach (h : Handler) : Handler → Type 0 where
  here : Reach h h
  next : {h₁ h₂ : Handler} → Reach h h₁ → Step h₁ h₂ → Reach h h₂
