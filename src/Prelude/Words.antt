-- ===== src/Prelude/Words.antt =====
-- `uint` and `int` of the program are 64 bits wide, and wrap.
use Prim.Native.Nat.{ℕ, zero, suc, ◌+◌, ◌-◌, ◌%◌, ◌<◌}
use mathlib.Core.Path.{◌≡◌}
use mathlib.Core.Bool.{Bool, true, false}
use native.Mathlib.Omega.{arith}
use chaospay.Prelude.Tests.{ltb, leb, ◌==◌, if◌then◌else◌}

abbrev pub word_size : ℕ
word_size = 18446744073709551616

abbrev pub half_word : ℕ
half_word = 9223372036854775808

-- `a + b` and `a - b` on `uint`.
abbrev pub add64 : ℕ → ℕ → ℕ
add64 a b = (a + b) % word_size

abbrev pub sub64 : ℕ → ℕ → ℕ
sub64 a b = (a + word_size - b) % word_size

-- `negsuc n` is -(n + 1).
pub data ℤ : Type 0 where
  pos : ℕ → ℤ
  negsuc : ℕ → ℤ

-- -n, as an integer.
abbrev pub neg : ℕ → ℤ
neg zero = pos 0
neg (suc n) = negsuc n

-- `-int(n)` for `n : uint`: both the conversion and the negation wrap.
unfoldable pub neg_int : ℕ → ℤ
neg_int n = if leb n half_word then neg n else pos (word_size - n)

-- `int64(n)` for `n : uint`.
unfoldable pub to_int : ℕ → ℤ
to_int n = if ltb n half_word then pos n else negsuc (word_size - 1 - n)

-- `uint(a)` for `a : int`.
abbrev pub to_uint : ℤ → ℕ
to_uint (pos n) = n
to_uint (negsuc n) = word_size - 1 - n

abbrev pub is_neg : ℤ → Bool
is_neg (pos n) = false
is_neg (negsuc n) = true

-- `a <= 0`.
abbrev pub is_nonpos : ℤ → Bool
is_nonpos (pos n) = n == 0
is_nonpos (negsuc n) = true

-- Adding back what was subtracted gives the minuend, also where the difference wrapped.
pub add64-sub64 : (a b : ℕ) → a < word_size → b < word_size → add64 b (sub64 a b) ≡ a
add64-sub64 a b ha hb = omega arith
