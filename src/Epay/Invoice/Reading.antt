-- ===== src/Epay/Invoice/Reading.antt =====
-- The names that the mock gives out are read back as what they stand for.
use Prim.Native.Char.{Char}
use Prim.Native.String.{len, ◌++◌ as str_append}
use chaospay.Prelude.{
  ℕ, zero, suc, ◌-◌, ◌<◌, String, ◌≡◌, refl, sym, ap, ◌∙◌, true, some, inl, inr, ◌==◌, ==_iff,
  eq_iff, leb, str_eq, Bool-cases,
}
use text.Mathlib.TextLemmas.{nil-append, cons-append, head-eq_of_cons-eq}
use text.Mathlib.TextPositions.{eq_refl}
use chaospay.Prelude.Words.{word_size}
use chaospay.Prelude.Decimal.{decimal, parse_uint, scan}
use chaospay.Prelude.Decimal.Reading.{str_eq-cons, scan-zero, scan-decimal, parse_uint-decimal}
use chaospay.Epay.Invoice.{
  behind_zeros, format_invoice, trim_zeros, or_zero, parse_invoice, strip_prefix,
  operation_id_from_path,
}

is_zero-eq : (c : Char) → str_eq (String.◌∷◌ c "") "0" ≡ true → c ≡ "0"
is_zero-eq c h = head-eq_of_cons-eq ((eq_iff (String.◌∷◌ c "") "0").0 h)

scan-trimmed : (c : Char) (s : String) → c ≡ "0" → scan (String.◌∷◌ c s) 0 ≡ scan s 0
scan-trimmed c s e = ap (λ x. scan (String.◌∷◌ x s) 0) e ∙ scan-zero s

scan-trim_zeros : (s : String) → scan (trim_zeros s) 0 ≡ scan s 0
unfolding trim_zeros
scan-trim_zeros String.[] = refl
scan-trim_zeros (String.◌∷◌ c s) = elim (Bool-cases (str_eq (String.◌∷◌ c "") "0")) [
  | inl zero_digit ↦
      rw zero_digit (scan-trim_zeros s ∙ sym (scan-trimmed c s (is_zero-eq c zero_digit)))
  | inr other ↦ rw other refl
]

-- `ParseInvoice` reads all digits; an error gives 0.
parse_invoice-scan : (s : String) → parse_invoice s ≡ or_zero (scan s 0)
unfolding parse_invoice parse_uint
parse_invoice-scan String.[] = refl
parse_invoice-scan (String.◌∷◌ c s) = elim (Bool-cases (str_eq (trim_zeros (String.◌∷◌ c s)) "")) [
  | inl empty ↦
      let none_left = (eq_iff (trim_zeros (String.◌∷◌ c s)) "").0 empty in
      rw (str_eq-cons c s, empty)
        (ap (λ t. or_zero (scan t 0)) (sym none_left)
          ∙ ap or_zero (scan-trim_zeros (String.◌∷◌ c s)))
  | inr some_left ↦ rw (str_eq-cons c s, some_left) (ap or_zero (scan-trim_zeros (String.◌∷◌ c s)))
]

scan-behind_zeros : (n : ℕ) (s : String) → scan (behind_zeros n s) 0 ≡ scan s 0
unfolding behind_zeros
scan-behind_zeros zero s = refl
scan-behind_zeros (suc n) s = scan-zero (behind_zeros n s) ∙ scan-behind_zeros n s

-- `ParseInvoice` reads every order's number from the invoice that `FormatInvoice` writes for it, with the
-- zeros that fill it up to six digits.
pub parse-format_invoice : (n : ℕ) → n < word_size → parse_invoice (format_invoice n) ≡ n
unfolding format_invoice parse_invoice
parse-format_invoice n h = elim (Bool-cases (n == 0)) [
  | inl nothing ↦ rw nothing (sym ((==_iff n 0).0 nothing))
  | inr some_order ↦ elim (Bool-cases (leb 6 (len (decimal n)))) [
    | inl long ↦
        rw (some_order, long) (parse_invoice-scan (decimal n) ∙ ap or_zero (scan-decimal n h))
    | inr short ↦
        rw (some_order, short)
          (parse_invoice-scan (behind_zeros (6 - len (decimal n)) (decimal n))
            ∙ ap or_zero (scan-behind_zeros (6 - len (decimal n)) (decimal n) ∙ scan-decimal n h))
  ]
]

strip_prefix-append : (p s : String) → strip_prefix p (str_append p s) ≡ some s
unfolding strip_prefix
strip_prefix-append String.[] s = ap some (nil-append s)
strip_prefix-append (String.◌∷◌ c p) s =
    rw (cons-append c p s, eq_refl (String.◌∷◌ c "")) (strip_prefix-append p s)

-- The operation under which Epay answers a payment leads back to that payment.
pub operation_id-payment :
    (n : ℕ) → n < word_size → operation_id_from_path (str_append "mock-epay-" (decimal n)) ≡ n
unfolding operation_id_from_path
operation_id-payment n h =
    rw (operation_id_from_path, strip_prefix-append "mock-epay-" (decimal n))
      (ap or_zero (parse_uint-decimal n h))
