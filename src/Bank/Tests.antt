-- ===== src/Bank/Tests.antt =====
-- The theorems of the banks at a path and a text.
use chaospay.Prelude.{◌≡◌, ◌⊎◌}
use chaospay.Bank.{any, route_prefixes, from_path}
use chaospay.Bank.Routes.{NoPrefix, Decides, from_path_first}

from_path_first_example :
    (NoPrefix route_prefixes "/r3/qr" × (from_path "/r3/qr" ≡ any))
    ⊎ Decides route_prefixes "/r3/qr" (from_path "/r3/qr")
from_path_first_example = from_path_first "/r3/qr"
