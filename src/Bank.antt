-- ===== src/Bank.antt =====
-- internal/domain/bank/bank.go: the banks that the mock plays, and how a request's path is
-- classified. `Bank` has a constructor for each constant; `slug` is the text that Go stores.
pub mod Routes
mod Tests
use Prim.Native.String.{◌++◌ as str_append}
use text.Mathlib.Text.{starts_with}
use chaospay.Prelude.{String, Bool, true, false, List, [], ◌∷◌, ◌||◌, str_eq, if◌then◌else◌}

pub data Bank : Type 0 where
  any freedom epay flitt qr loyalty kaspi : Bank

abbrev pub slug : Bank → String
slug any = ""
slug freedom = "freedom"
slug epay = "epay"
slug flitt = "flitt"
slug qr = "qr"
slug loyalty = "loyalty"
slug kaspi = "kaspi"

-- Go compares the texts; the constants are different texts.
unfoldable pub bank_eq : Bank → Bank → Bool
bank_eq any any = true
bank_eq freedom freedom = true
bank_eq epay epay = true
bank_eq flitt flitt = true
bank_eq qr qr = true
bank_eq loyalty loyalty = true
bank_eq kaspi kaspi = true
bank_eq _ _ = false

-- `All`
abbrev pub all_banks : List Bank
all_banks = freedom ∷ epay ∷ flitt ∷ qr ∷ kaspi ∷ loyalty ∷ []

-- `RoutePrefixes`, in the order in which they are tried.
abbrev pub route_prefixes : List (String × Bank)
route_prefixes =
    ("/authservice/", loyalty)
    ∷ ("/loyaltyservice/", loyalty)
    ∷ ("/qr-code/", qr)
    ∷ ("/r3/", kaspi)
    ∷ ("/v01/", kaspi)
    ∷ ("/oauth2/token", epay)
    ∷ ("/epay/", epay)
    ∷ ("/api/checkout/", flitt)
    ∷ ("/api/recurring", flitt)
    ∷ ("/api/capture/", flitt)
    ∷ ("/api/reverse/", flitt)
    ∷ ("/api/status/", flitt)
    ∷ ("/api/3dsecure_step1", flitt)
    ∷ ("/api/3dsecure_step2", flitt)
    ∷ ("/v1/merchant/", freedom)
    ∷ ("/v2/", freedom)
    ∷ ("/customer/", freedom)
    ∷ ("/pay/", freedom)
    ∷ ("/get_status3.php", freedom)
    ∷ ("/do_capture.php", freedom)
    ∷ ("/cancel.php", freedom)
    ∷ ("/revoke.php", freedom)
    ∷ ("/init_payment.php", freedom)
    ∷ []

-- The loop of `FromPath`.
unfoldable pub first_route : List (String × Bank) → String → Bank
first_route [] path = any
first_route ((prefix, b) ∷ rest) path =
    let later = first_route rest path in if starts_with path prefix then b else later

unfoldable pub from_path : String → Bank
unfolding first_route
from_path path = first_route route_prefixes path

-- The loop of `Valid`.
unfoldable pub is_listed : List Bank → String → Bool
is_listed [] s = false
is_listed (b ∷ bs) s = str_eq s (slug b) || is_listed bs s

unfoldable pub valid : String → Bool
unfolding is_listed
valid s = if str_eq s (slug any) then true else is_listed all_banks s
