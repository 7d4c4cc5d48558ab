-- ===== src/Flitt/Signature.antt =====
-- internal/infrastructure/flitt/signature.go: the signature of Flitt. `sha1` is the digest as hexadecimal
-- text, Go's library.
use Prim.Native.String.{◌++◌ as str_append}
use chaospay.Prelude.{
  Option, String, Bool, true, false, none, some, List, [], ◌∷◌, str_eq, if◌then◌else◌,
}
use chaospay.Prelude.Words.{ℤ}
use chaospay.Prelude.Decimal.{itoa}
use chaospay.Prelude.Assoc.{Assoc, lookup, string_eq}
use chaospay.FreedomPay.{sort_texts}

-- A value of `map[string]any`, by the cases of `valueToString`. A `float64` is the text that
-- `strconv.FormatFloat` prints; `other` is any other type.
pub data Param : Type 0 where
  text_param : String → Param
  int_param : ℤ → Param
  int64_param : ℤ → Param
  float64_param : String → Param
  bool_param : Bool → Param
  other_param : Param

-- `valueToString`
unfoldable pub value_to_string : Param → String
unfolding itoa
value_to_string (text_param s) = s
value_to_string (int_param n) = itoa n
value_to_string (int64_param n) = itoa n
value_to_string (float64_param s) = s
value_to_string (bool_param true) = "Y"
value_to_string (bool_param false) = "N"
value_to_string other_param = ""

-- The loop over the map: every key but `signature`.
unfoldable pub signed_keys : Assoc String Param → List String
signed_keys [] = []
signed_keys ((k, v) ∷ m) =
    let rest = signed_keys m in if str_eq k "signature" then rest else k ∷ rest

-- `v, ok := params[k]; if !ok { continue }`, and the test for an empty text.
unfoldable pub keep_value : Option Param → List String → List String
unfolding value_to_string
keep_value none values = values
keep_value (some v) values =
    if str_eq (value_to_string v) "" then values else value_to_string v ∷ values

-- The loop over the sorted keys.
unfoldable pub signed_values : List String → Assoc String Param → List String
unfolding keep_value lookup
signed_values [] m = []
signed_values (k ∷ ks) m = keep_value (lookup k m) (signed_values ks m)

-- `strings.Join(values, "|")`
unfoldable pub join_bars : List String → String
join_bars [] = ""
join_bars (s ∷ []) = s
join_bars (s ∷ t ∷ ts) = str_append s (str_append "|" (join_bars (t ∷ ts)))

-- `Sign`
unfoldable pub flitt_sign : (String → String) → String → Assoc String Param → String
unfolding signed_keys signed_values join_bars sort_texts
flitt_sign sha1 secret params = sha1 (
    str_append secret
      (str_append "|" (join_bars (signed_values (sort_texts (signed_keys params)) params))))
