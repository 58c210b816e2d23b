-- ===== src/Prelude/Machine.antt =====
-- Go's int and int64, which wrap around, and the reads of texts into them.
use mathlib.Core.Option.{Option, none, some}
use Prim.Native.Nat.{ℕ, ◌-◌, ◌%◌, ◌^◌}
use submission_sequencer_bat.Prelude.Tests.{ltb, if◌then◌else◌}
use submission_sequencer_bat.Prelude.Text.{Text}
use submission_sequencer_bat.Prelude.Int.{ℤ, pos, negsuc}
use submission_sequencer_bat.Prelude.Decimal.{set_string}

-- The 64 bits of an integer in two's complement.
abbrev pub bits : ℤ → ℕ
bits (pos n) = n % 2 ^ 64
bits (negsuc n) = 2 ^ 64 - 1 - n % 2 ^ 64

abbrev pub signed : ℕ → ℤ
signed b = if ltb b (2 ^ 63) then pos b else negsuc (2 ^ 64 - 1 - b)

-- The integer that the 64 lowest bits stand for: big.Int.Int64, and the result of a sum on int.
unfoldable pub int64 : ℤ → ℤ
int64 z = signed (bits z)

abbrev clip : Option ℤ → ℤ
clip none = pos 0
clip (some (pos n)) = if ltb n (2 ^ 63) then pos n else pos (2 ^ 63 - 1)
clip (some (negsuc n)) = if ltb n (2 ^ 63) then negsuc n else negsuc (2 ^ 63 - 1)

-- The value that strconv.ParseInt gives beside its error, and without one: 0 for what is no number,
-- and the nearest one for a number out of range.
unfoldable pub parse_int_value : Text → ℤ
parse_int_value s = clip (set_string s)
