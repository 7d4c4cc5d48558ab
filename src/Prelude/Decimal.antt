-- ===== src/Prelude/Decimal.antt =====
-- `fmt.Sprintf` and `strconv` on unsigned numbers: `%d`, `%0wd` and `%0wx`.
pub mod Reading
use Prim.Native.Char.{Char, code}
use text.Mathlib.Text.{◌==◌ as str_eq}
use mathlib.Core.Option.{Option, none, some}
use mathlib.Core.Bool.{◌&&◌}
use Prim.Native.String.{◌++◌ as str_append}
use chaospay.Prelude.Words.{word_size, ℤ, pos, negsuc}
use Prim.Native.Nat.{ℕ, ◌+◌, ◌*◌, zero, suc, ◌-◌, ◌/◌, ◌%◌}
use Prim.Native.String.{String}
use mathlib.Core.Path.{◌≡◌, refl}
use mathlib.Core.List.{List, [], ◌∷◌, ◌++◌}
use chaospay.Prelude.Tests.{ltb, leb, ◌==◌, if◌then◌else◌}
use chaospay.Prelude.Lists.{length, replicate}

unfoldable pub digit_char : ℕ → Char
digit_char d =
    if d == 0
    then "0"
    else if d == 1
    then "1"
    else if d == 2
    then "2"
    else if d == 3
    then "3"
    else if d == 4
    then "4"
    else if d == 5
    then "5"
    else if d == 6
    then "6"
    else if d == 7
    then "7"
    else if d == 8
    then "8"
    else if d == 9
    then "9"
    else if d == 10
    then "a"
    else if d == 11
    then "b"
    else if d == 12
    then "c"
    else if d == 13
    then "d"
    else if d == 14
    then "e"
    else "f"

-- The digits of `n` in front of `out`. The fuel bounds the number of digits.
pub digits : ℕ → ℕ → ℕ → List ℕ → List ℕ
digits base zero n out = out
digits base (suc f) n out =
    let rest = digits base f (n / base) ((n % base) ∷ out) in if ltb n base then n ∷ out else rest

-- 20 digits hold every `uint` in base 10 and in base 16.
pub max_digits : ℕ
max_digits = 20

unfoldable pub render : List ℕ → String
unfolding digit_char
render [] = ""
render (d ∷ ds) = String.◌∷◌ (digit_char d) (render ds)

pad : ℕ → List ℕ → List ℕ
pad w ds = replicate (w - length ds) 0 ++ ds

-- `%d`
unfoldable pub decimal : ℕ → String
unfolding digits render max_digits
decimal n = render (digits 10 max_digits n [])

-- `%0wd`
unfoldable pub decimal_padded : ℕ → ℕ → String
unfolding digits render pad max_digits
decimal_padded w n = render (pad w (digits 10 max_digits n []))

-- `%0wx`
unfoldable pub hex_padded : ℕ → ℕ → String
unfolding digits render pad max_digits
hex_padded w n = render (pad w (digits 16 max_digits n []))

-- `strconv.Itoa`
unfoldable pub itoa : ℤ → String
itoa (pos n) = decimal n
itoa (negsuc n) = str_append "-" (decimal (suc n))

-- The value of a decimal digit.
unfoldable pub digit_value : Char → Option ℕ
digit_value c = if leb b'0' (code c) && leb (code c) b'9' then some (code c - b'0') else none

unfoldable pub scan : String → ℕ → Option ℕ
unfolding digit_value
scan String.[] n = some n
scan (String.◌∷◌ c s) n = elim (digit_value c) [
  | none ↦ none
  | some d ↦ if ltb (n * 10 + d) word_size then scan s (n * 10 + d) else none
]

-- `strconv.ParseUint(s, 10, 64)`
unfoldable pub parse_uint : String → Option ℕ
unfolding scan
parse_uint s = if str_eq s "" then none else scan s 0

decimal_sample : decimal 1700000000 ≡ "1700000000"
unfolding decimal
decimal_sample = refl

padded_sample : (decimal_padded 4 42 ≡ "0042") × (hex_padded 12 255 ≡ "0000000000ff")
unfolding decimal_padded hex_padded
padded_sample = (refl, refl)
