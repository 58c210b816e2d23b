-- ===== src/Prelude/Decimal.antt =====
-- Decimal texts: strconv.Itoa, big.Int.String, strconv.Atoi and big.Int.SetString in base 10.
use Prim.Native.Nat.{ℕ, zero, suc, ◌+◌, ◌-◌, ◌*◌, ◌/◌, ◌%◌, ◌^◌, ◌≤◌, ◌<◌}
use mathlib.Core.Path.{◌≡◌, refl, ◌∙◌}
use mathlib.Core.Logic.{◌≢◌, inl, inr}
use mathlib.Core.Bool.{Bool, ◌&&◌}
use mathlib.Core.Option.{Option, none, some}
use mathlib.Core.List.{[], ◌∷◌}
use native.Mathlib.Omega.{arith}
use submission_sequencer_bat.Prelude.Tests.{ltb, leb, ◌==◌, if◌then◌else◌, Bool-cases}
use submission_sequencer_bat.Prelude.Forall.{All}
use submission_sequencer_bat.Prelude.Text.{Text, NoByte}
use submission_sequencer_bat.Prelude.Int.{ℤ, pos, negsuc}

-- The digits of `n`, put in front of `acc`; the fuel is above `n`.
digits_from : ℕ → ℕ → Text → Text
digits_from zero n acc = acc
digits_from (suc f) n acc =
    let more = digits_from f (n / 10) ((48 + n % 10) ∷ acc) in
    if ltb n 10 then (48 + n) ∷ acc else more

unfoldable pub digits : ℕ → Text
unfolding digits_from
digits n = digits_from (suc n) n []

abbrev pub is_digit : ℕ → Bool
is_digit c = leb 48 c && leb c 57

unfoldable pub parse_digits : ℕ → Text → Option ℕ
parse_digits acc [] = some acc
parse_digits acc (c ∷ s) =
    let rest = parse_digits (acc * 10 + (c - 48)) s in if is_digit c then rest else none

parse_digits-digits_from :
    (f n : ℕ) (acc : Text) → n < f → parse_digits 0 (digits_from f n acc) ≡ parse_digits n acc
unfolding digits_from parse_digits
parse_digits-digits_from zero n acc h = absurd (omega arith)
parse_digits-digits_from (suc f) n acc h = elim (Bool-cases (ltb n 10)) [
  | inl small ↦ ground arith
  | inr large ↦
      rw large
        (parse_digits-digits_from f (n / 10) ((48 + n % 10) ∷ acc) (ground arith) ∙ ground arith)
]

digits_from-digit :
    (f n : ℕ) (acc : Text)
    → All (λ c. (48 ≤ c) × (c ≤ 57)) acc
    → All (λ c. (48 ≤ c) × (c ≤ 57)) (digits_from f n acc)
unfolding digits_from
digits_from-digit zero n acc h = h
digits_from-digit (suc f) n acc h =
    ground
      (arith, digits_from-digit f (n / 10) ((48 + n % 10) ∷ acc) ((omega arith, omega arith), h))

digits_from-NoByte :
    (c f n : ℕ) (acc : Text) → c < 48 → NoByte c acc → NoByte c (digits_from f n acc)
unfolding digits_from
digits_from-NoByte c zero n acc h k = k
digits_from-NoByte c (suc f) n acc h k =
    ground (arith, digits_from-NoByte c f (n / 10) ((48 + n % 10) ∷ acc) h (omega arith, k))

-- A separator below the digits, such as "." or ",", does not occur.
pub digits-NoByte : (c n : ℕ) → c < 48 → NoByte c (digits n)
unfolding digits
digits-NoByte c n h = digits_from-NoByte c (suc n) n [] h tt

digits_from-ne-nil : (f n : ℕ) (acc : Text) → n < f → digits_from f n acc ≢ []
unfolding digits_from
digits_from-ne-nil zero n acc h = absurd (omega arith)
digits_from-ne-nil (suc f) n acc h =
    ground (arith, digits_from-ne-nil f (n / 10) ((48 + n % 10) ∷ acc))

pub digits-ne-nil : (n : ℕ) → digits n ≢ []
unfolding digits
digits-ne-nil n = digits_from-ne-nil (suc n) n [] (omega arith)

pub parse_digits-digits : (n : ℕ) → parse_digits 0 (digits n) ≡ some n
unfolding digits parse_digits
parse_digits-digits n = parse_digits-digits_from (suc n) n [] (omega arith)

-- big.Int.String and strconv.Itoa.
unfoldable pub to_string : ℤ → Text
to_string (pos n) = digits n
to_string (negsuc n) = b'-' ∷ digits (suc n)

abbrev pub unsigned : Text → Option ℕ
unsigned [] = none
unsigned (c ∷ s) = parse_digits 0 (c ∷ s)

abbrev pub negative : Option ℕ → Option ℤ
negative none = none
negative (some zero) = some (pos 0)
negative (some (suc n)) = some (negsuc n)

abbrev pub positive : Option ℕ → Option ℤ
positive none = none
positive (some n) = some (pos n)

-- new(big.Int).SetString(s, 10): a sign or none, and at least one digit.
unfoldable pub set_string : Text → Option ℤ
set_string [] = none
set_string (c ∷ s) =
    if c == b'-'
    then negative (unsigned s)
    else if c == b'+'
    then positive (unsigned s)
    else positive (unsigned (c ∷ s))

abbrev in_int64 : ℤ → Bool
in_int64 (pos n) = ltb n (2 ^ 63)
in_int64 (negsuc n) = ltb n (2 ^ 63)

abbrev check_int64 : Option ℤ → Option ℤ
check_int64 none = none
check_int64 (some z) = if in_int64 z then some z else none

-- strconv.Atoi, and strconv.ParseInt in base 10 with 64 bits; `none` is its error.
unfoldable pub atoi : Text → Option ℤ
unfolding set_string
atoi s = check_int64 (set_string s)

pub unsigned-digits : (n : ℕ) → unsigned (digits n) ≡ some n
unsigned-digits n = plain (digits n) (digits-ne-nil n) (parse_digits-digits n)
  where
    plain : (s : Text) → s ≢ [] → parse_digits 0 s ≡ some n → unsigned s ≡ some n
    plain [] h e = absurd (h refl)
    plain (c ∷ s) h e = e

set_string_plain :
    (s : Text) (n : ℕ)
    → NoByte b'-' s
    → NoByte b'+' s
    → unsigned s ≡ some n
    → set_string s ≡ some (pos n)
unfolding set_string
set_string_plain [] n h k e = cc
set_string_plain (c ∷ s) n h k e = ground arith

-- Reading a printed integer gives it back.
pub set_string-to_string : (z : ℤ) → set_string (to_string z) ≡ some z
unfolding to_string set_string
set_string-to_string (pos n) =
    set_string_plain (digits n) n (digits-NoByte b'-' n (omega arith))
      (digits-NoByte b'+' n (omega arith)) (unsigned-digits n)
set_string-to_string (negsuc n) = rw (unsigned-digits (suc n))

pub atoi-digits : (n : ℕ) → n < 2 ^ 63 → atoi (digits n) ≡ some (pos n)
unfolding atoi to_string
atoi-digits n h = rw (set_string-to_string (pos n)) (ground arith)
