-- ===== src/Prelude/Lenient.antt =====
-- What `strconv` answers beside an error that the program drops.
use Prim.Native.Nat.{ℕ, ◌+◌, ◌-◌, ◌*◌}
use Prim.Native.String.{String}
use mathlib.Core.Bool.{Bool, true, false}
use mathlib.Core.Option.{none, some}
use text.Mathlib.Text.{◌==◌ as str_eq}
use chaospay.Prelude.Tests.{ltb, leb, if◌then◌else◌}
use chaospay.Prelude.Words.{ℤ, pos, negsuc, neg, half_word, word_size}
use chaospay.Prelude.Decimal.{digit_value}

-- `strconv.ParseUint` with its two errors: on a number that is too large it still answers the largest one.
pub data Scanned : Type 0 where
  number : ℕ → Scanned
  no_number too_large : Scanned

unfoldable pub scan_uint : String → ℕ → Scanned
scan_uint String.[] n = number n
scan_uint (String.◌∷◌ c s) n = elim (digit_value c) [
  | none ↦ no_number
  | some d ↦ if ltb (n * 10 + d) word_size then scan_uint s (n * 10 + d) else too_large
]

-- What `strconv.ParseInt` makes of it; an error is dropped.
abbrev pub clamped : Bool → Scanned → ℤ
clamped negative no_number = pos 0
clamped true too_large = negsuc (half_word - 1)
clamped false too_large = pos (half_word - 1)
clamped true (number n) = if leb n half_word then neg n else negsuc (half_word - 1)
clamped false (number n) = if ltb n half_word then pos n else pos (half_word - 1)

abbrev pub scan_digits : String → Scanned
scan_digits s = if str_eq s "" then no_number else scan_uint s 0

-- `n, _ := strconv.Atoi(s)`, which is `ParseInt` at 64 bits; an empty text is 0.
unfoldable pub lenient_atoi : String → ℤ
unfolding scan_uint
lenient_atoi String.[] = pos 0
lenient_atoi (String.◌∷◌ c s) =
    if str_eq (String.◌∷◌ c "") "-"
    then clamped true (scan_digits s)
    else if str_eq (String.◌∷◌ c "") "+"
    then clamped false (scan_digits s)
    else clamped false (scan_digits (String.◌∷◌ c s))

-- `n, _ := strconv.ParseUint(s, 10, 64)`
abbrev pub lenient : Scanned → ℕ
lenient no_number = 0
lenient too_large = word_size - 1
lenient (number n) = n

unfoldable pub lenient_uint : String → ℕ
unfolding scan_uint
lenient_uint s = lenient (scan_digits s)
