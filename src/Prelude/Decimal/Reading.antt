-- ===== src/Prelude/Decimal/Reading.antt =====
-- `strconv.ParseUint` reads back what `%d` prints, also behind zeros.
use Prim.Native.Char.{Char}
use Prim.Native.String.{String}
use Prim.Native.Nat.{ℕ, zero, suc, ◌+◌, ◌*◌, ◌/◌, ◌%◌, ◌<◌}
use mathlib.Core.Path.{◌≡◌, refl, ap, ◌∙◌}
use mathlib.Core.Logic.{inl, inr}
use mathlib.Core.Bool.{false}
use mathlib.Core.Option.{Option, none, some}
use mathlib.Core.List.{List, [], ◌∷◌}
use native.Mathlib.Omega.{arith}
use text.Mathlib.Text.{◌==◌ as str_eq}
use text.Mathlib.TextEquality.{eq_iff}
use chaospay.Prelude.Tests.{ltb, if◌then◌else◌, Bool-cases}
use chaospay.Prelude.Lists.{All}
use chaospay.Prelude.Words.{word_size}
use chaospay.Prelude.Decimal.{
  digit_char, digits, render, max_digits, decimal, digit_value, scan, parse_uint,
}

-- `scan` on digits.
scan_digits : List ℕ → ℕ → Option ℕ
scan_digits [] n = some n
scan_digits (d ∷ ds) n =
    let rest = scan_digits ds (n * 10 + d) in if ltb (n * 10 + d) word_size then rest else none

abbrev AllDigits : List ℕ → Type 0
AllDigits = All (λ d. d < 10)

digit_value-digit_char : (d : ℕ) → d < 10 → digit_value (digit_char d) ≡ some d
unfolding digit_value digit_char
digit_value-digit_char zero h = refl
digit_value-digit_char (suc zero) h = refl
digit_value-digit_char (suc (suc zero)) h = refl
digit_value-digit_char (suc (suc (suc zero))) h = refl
digit_value-digit_char (suc (suc (suc (suc zero)))) h = refl
digit_value-digit_char (suc (suc (suc (suc (suc zero))))) h = refl
digit_value-digit_char (suc (suc (suc (suc (suc (suc zero)))))) h = refl
digit_value-digit_char (suc (suc (suc (suc (suc (suc (suc zero))))))) h = refl
digit_value-digit_char (suc (suc (suc (suc (suc (suc (suc (suc zero)))))))) h = refl
digit_value-digit_char (suc (suc (suc (suc (suc (suc (suc (suc (suc zero))))))))) h = refl
digit_value-digit_char (suc (suc (suc (suc (suc (suc (suc (suc (suc (suc n)))))))))) h =
    absurd (omega (arith, h))

scan-render : (ds : List ℕ) (n : ℕ) → AllDigits ds → scan (render ds) n ≡ scan_digits ds n
unfolding scan scan_digits render
scan-render [] n h = refl
scan-render (d ∷ ds) n h =
    ground (arith, digit_value-digit_char d h.0, scan-render ds (n * 10 + d) h.1)

-- What `f` digits can write lies below.
abbrev reach : ℕ → ℕ
reach zero = 1
reach (suc f) = 10 * reach f

scan_digits-digits :
    (f n : ℕ) (out : List ℕ)
    → n < reach f
    → n < word_size
    → scan_digits (digits 10 f n out) 0 ≡ scan_digits out n
unfolding scan_digits digits
scan_digits-digits zero n out h w = ap (scan_digits out) (omega (arith, h))
scan_digits-digits (suc f) n out h w =
    ground (arith, scan_digits-digits f (n / 10) ((n % 10) ∷ out))

AllDigits-digits : (f n : ℕ) (out : List ℕ) → AllDigits out → AllDigits (digits 10 f n out)
unfolding digits
AllDigits-digits zero n out h = h
AllDigits-digits (suc f) n out h = elim (Bool-cases (ltb n 10)) [
  | inl small ↦ rw small (ground (arith, small), h)
  | inr large ↦ rw large (AllDigits-digits f (n / 10) ((n % 10) ∷ out) (omega arith, h))
]

pub scan-decimal : (n : ℕ) → n < word_size → scan (decimal n) 0 ≡ some n
unfolding decimal max_digits scan_digits
scan-decimal n h =
    scan-render (digits 10 20 n []) 0 (AllDigits-digits 20 n [] tt)
    ∙ scan_digits-digits 20 n [] (omega (arith, h)) h

pub scan-zero : (s : String) → scan (String.◌∷◌ "0" s) 0 ≡ scan s 0
unfolding scan digit_value
scan-zero s = refl

-- There is at least one digit.
digits-cons :
    (f n d : ℕ) (out : List ℕ) → (x : ℕ) × (xs : List ℕ) × (digits 10 f n (d ∷ out) ≡ x ∷ xs)
unfolding digits
digits-cons zero n d out = (d, out, refl)
digits-cons (suc f) n d out = elim (Bool-cases (ltb n 10)) [
  | inl small ↦ (n, d ∷ out, rw small refl)
  | inr large ↦ rw large (digits-cons f (n / 10) (n % 10) (d ∷ out))
]

pub str_eq-cons : (c : Char) (s : String) → str_eq (String.◌∷◌ c s) "" ≡ false
str_eq-cons c s = elim (Bool-cases (str_eq (String.◌∷◌ c s) "")) [
  | inl e ↦ let same = (eq_iff (String.◌∷◌ c s) "").0 e in cc
  | inr e ↦ e
]

is_printed : (f n : ℕ) → str_eq (render (digits 10 (suc f) n [])) "" ≡ false
unfolding digits render
is_printed f n = elim (Bool-cases (ltb n 10)) [
  | inl small ↦ rw small (str_eq-cons (digit_char n) "")
  | inr large ↦
      let (x, xs, e) = digits-cons f (n / 10) (n % 10) [] in
      rw large (ap (λ ds. str_eq (render ds) "") e ∙ str_eq-cons (digit_char x) (render xs))
]

pub parse_uint-decimal : (n : ℕ) → n < word_size → parse_uint (decimal n) ≡ some n
unfolding parse_uint decimal max_digits
parse_uint-decimal n h = rw (is_printed 19 n) (scan-decimal n h)
