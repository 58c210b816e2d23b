-- ===== src/Prost/Handler/Exclusion.antt =====
-- No account is in two hands.
use submission_sequencer_bat.Prelude.{
  ℕ, zero, suc, ◌+◌, ◌≤◌, ◌<◌, ◌≡◌, refl, sym, inl, inr, Bool, true, false, List, [], ◌∷◌, Option,
  some, none, arith, length, get_elem?, set, get_elem?-set_self, get_elem?-set_ne, replicate,
  if◌then◌else◌, ◌==◌, ==_iff, Bool-cases,
}
use submission_sequencer_bat.Prost.Handler.{
  Handler, Step, enter, pass, take, give_up, hold, sleep, unlock, wake, miss, Reach, here, next,
  new_account_handler, take_out, times,
}

abbrev pub is_locked : Option Bool → ℕ
is_locked none = 0
is_locked (some false) = 0
is_locked (some true) = 1

-- Each account is out exactly once if its mutex is locked, and not at all otherwise.
abbrev pub IsExclusive : Handler → Type 0
IsExclusive h = (i : ℕ) → times i h.out ≡ is_locked (get_elem? h.locked i)

in_range : {A : Type 0} (xs : List A) (i : ℕ) {a : A} → get_elem? xs i ≡ some a → i < length xs
in_range [] i e = cc
in_range (x ∷ xs) zero e = omega arith
in_range (x ∷ xs) (suc i) e = omega (arith, in_range xs i e)

get-set :
    (xs : List Bool) (i j : ℕ) (b : Bool)
    → i < length xs
    → get_elem? (set xs i b) j ≡ (if i == j then some b else get_elem? xs j)
get-set xs i j b h = elim (Bool-cases (i == j)) [
  | inl e ↦ rw (e, ← (==_iff i j).0 e) (get_elem?-set_self xs i b h)
  | inr e ↦ rw e (get_elem?-set_ne xs b (λ k. ground (arith, ==_iff i j)))
]

times-take_out :
    (i j : ℕ) (xs : List ℕ)
    → 0 < times i xs
    → times j (take_out i xs) + (if i == j then 1 else 0) ≡ times j xs
unfolding times take_out
times-take_out i j [] h = absurd (omega arith)
times-take_out i j (x ∷ xs) h = ground (arith, times-take_out i j xs)

out_in_range :
    (h : Handler) (i : ℕ) → IsExclusive h → 0 < times i h.out → get_elem? h.locked i ≡ some true
out_in_range h i v k = ground (arith, v i)

take-IsExclusive :
    (h : Handler) (i j : ℕ)
    → IsExclusive h
    → get_elem? h.locked i ≡ some false
    → times j (i ∷ h.out) ≡ is_locked (get_elem? (set h.locked i true) j)
unfolding times
take-IsExclusive h i j v l =
    rw (get-set h.locked i j true (in_range h.locked i l)) (ground (arith, v i, v j, ==_iff i j))

unlock-IsExclusive :
    (h : Handler) (i j : ℕ)
    → IsExclusive h
    → 0 < times i h.out
    → times j (take_out i h.out) ≡ is_locked (get_elem? (set h.locked i false) j)
unlock-IsExclusive h i j v k =
    rw (get-set h.locked i j false (in_range h.locked i (out_in_range h i v k)))
      (ground (arith, v i, v j, ==_iff i j, times-take_out i j h.out k, out_in_range h i v k))

Step-IsExclusive : {h h' : Handler} → Step h h' → IsExclusive h → IsExclusive h'
Step-IsExclusive (enter c e) v = v
Step-IsExclusive (pass c i e l) v = v
Step-IsExclusive {h} (take c i e l) v = λ j. take-IsExclusive h i j v l
Step-IsExclusive (give_up e) v = v
Step-IsExclusive (hold e) v = v
Step-IsExclusive (sleep e) v = v
Step-IsExclusive {h} (unlock i k) v = λ j. unlock-IsExclusive h i j v k
Step-IsExclusive (wake k e) v = v
Step-IsExclusive (miss k e) v = v

pub Reach-IsExclusive : {h h' : Handler} → Reach h h' → IsExclusive h → IsExclusive h'
Reach-IsExclusive here v = v
Reach-IsExclusive (next r st) v = Step-IsExclusive st (Reach-IsExclusive r v)

all_free : (n i : ℕ) → is_locked (get_elem? (replicate n false) i) ≡ 0
all_free zero i = refl
all_free (suc n) zero = refl
all_free (suc n) (suc i) = all_free n i

-- Whatever callers do, in every order of their steps, no account is held more than once, and it is
-- held by a caller, since GetFreeAccount returned it and it was not released yet, just when its
-- mutex is locked.
pub held_once :
    (n : ℕ) (h : Handler)
    → Reach (new_account_handler n) h
    → (i : ℕ) → (times i h.out ≤ 1) × (times i h.out ≡ is_locked (get_elem? h.locked i))
unfolding new_account_handler
held_once n h r i = let v = Reach-IsExclusive r start in (ground (arith, v i), v i)
  where
    start : IsExclusive (new_account_handler n)
    start j = unfold times in sym (all_free n j)
