-- ===== src/Config.antt =====
-- internal/config/config.go: the cabinets of Freedom Pay and their secrets. What is printed to the log is
-- left out.
mod Tests
use Prim.Native.String.{◌++◌ as str_append}
use chaospay.Prelude.{
  ℕ, ◌≡◌, refl, String, Bool, Option, none, some, List, [], ◌∷◌, ltb, str_eq, if◌then◌else◌,
}
use chaospay.Prelude.Assoc.{Assoc, lookup, insert, nat_eq}
use chaospay.Prelude.Decimal.{parse_uint}
use chaospay.Prelude.Trim.{trim_space}

-- `Merchants`, and the secret for the other cabinets.
pub record Cabinets : Type 0 where
  pub secret : String
  pub merchants : Assoc ℕ String

-- `SecretFor`
unfoldable pub secret_of : Cabinets → ℕ → String
unfolding lookup
secret_of c merchant_id = elim (lookup merchant_id c.merchants) [
  | none ↦ c.secret
  | some secret ↦ secret
]

-- `KnownMerchant`
unfoldable pub known_merchant : Cabinets → ℕ → Bool
unfolding lookup
known_merchant c merchant_id = elim (lookup merchant_id c.merchants) [
  | none ↦ Bool.false
  | some secret ↦ Bool.true
]

-- `strings.Split` at a text of one character.
unfoldable pub split : String → String → List String
split sep String.[] = "" ∷ []
split sep (String.◌∷◌ c s) = elim (split sep s) [
  | [] ↦ []
  | part ∷ parts ↦
      if str_eq (String.◌∷◌ c "") sep then "" ∷ part ∷ parts else String.◌∷◌ c part ∷ parts
]

-- `strings.Cut` at a text of one character.
unfoldable pub cut : String → String → Option (String × String)
cut sep String.[] = none
cut sep (String.◌∷◌ c s) =
    let rest = cut sep s in
    if str_eq (String.◌∷◌ c "") sep
    then some ("", s)
    else elim rest [ none ↦ none | some (before, after) ↦ some (String.◌∷◌ c before, after) ]

-- One pair of the list; a bad one is skipped.
unfoldable pub add_merchant : String → Assoc ℕ String → Assoc ℕ String
unfolding trim_space cut insert
add_merchant pair out =
    if str_eq (trim_space pair) "" then out else elim (cut ":" (trim_space pair)) [
      | none ↦ out
      | some (id, secret) ↦ elim (parse_uint (trim_space id)) [
        | none ↦ out
        | some merchant_id ↦ insert merchant_id (trim_space secret) out
      ]
    ]

-- The loop of `parseMerchants`.
unfoldable pub add_merchants : List String → Assoc ℕ String → Assoc ℕ String
unfolding add_merchant
add_merchants [] out = out
add_merchants (pair ∷ pairs) out = add_merchants pairs (add_merchant pair out)

-- `parseMerchants`
unfoldable pub parse_merchants : String → Assoc ℕ String
unfolding split add_merchants
parse_merchants raw = add_merchants (split "," raw) []
