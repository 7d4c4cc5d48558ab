-- ===== src/Epay/Invoice.antt =====
-- internal/infrastructure/epay/invoice.go and `operationIDFromPath` of internal/ports/api/epay/handler.go:
-- how an order and a payment are named towards the gateway.
pub mod Reading
use Prim.Native.Char.{Char}
use Prim.Native.String.{len, ◌++◌ as str_append}
use chaospay.Prelude.{
  ℕ, zero, suc, ◌-◌, String, Option, none, some, ◌==◌, leb, str_eq, if◌then◌else◌,
}
use chaospay.Prelude.Decimal.{decimal, parse_uint}

-- `MinInvoiceLen`
abbrev pub min_invoice_len : ℕ
min_invoice_len = 6

-- `strings.Repeat("0", n)` in front of a text.
unfoldable pub behind_zeros : ℕ → String → String
behind_zeros zero s = s
behind_zeros (suc n) s = String.◌∷◌ "0" (behind_zeros n s)

-- `FormatInvoice`
unfoldable pub format_invoice : ℕ → String
unfolding behind_zeros
format_invoice order_id =
    if order_id == 0
    then ""
    else if leb min_invoice_len (len (decimal order_id))
    then decimal order_id
    else behind_zeros (min_invoice_len - len (decimal order_id)) (decimal order_id)

-- `strings.TrimLeft(s, "0")`
unfoldable pub trim_zeros : String → String
trim_zeros String.[] = ""
trim_zeros (String.◌∷◌ c s) =
    let rest = trim_zeros s in if str_eq (String.◌∷◌ c "") "0" then rest else String.◌∷◌ c s

-- A number, or 0 where Go has an error.
abbrev pub or_zero : Option ℕ → ℕ
or_zero none = 0
or_zero (some n) = n

-- `ParseInvoice`
unfoldable pub parse_invoice : String → ℕ
unfolding trim_zeros
parse_invoice invoice_id =
    if str_eq invoice_id ""
    then 0
    else if str_eq (trim_zeros invoice_id) ""
    then 0
    else or_zero (parse_uint (trim_zeros invoice_id))

-- What follows a prefix, where the text has it.
unfoldable pub strip_prefix : String → String → Option String
strip_prefix String.[] s = some s
strip_prefix (String.◌∷◌ p ps) String.[] = none
strip_prefix (String.◌∷◌ p ps) (String.◌∷◌ c s) =
    let rest = strip_prefix ps s in
    if str_eq (String.◌∷◌ p "") (String.◌∷◌ c "") then rest else none

-- `operationIDFromPath`, at the value of `{operationID}`: the payment's number, 0 where the text names none.
unfoldable pub operation_id_from_path : String → ℕ
unfolding strip_prefix
operation_id_from_path raw = elim (strip_prefix "mock-epay-" raw) [
  | none ↦ 0
  | some rest ↦ or_zero (parse_uint rest)
]
