-- ===== src/FreedomPay.antt =====
-- internal/infrastructure/freedompay/signature.go: ordered maps and the signature of Freedom Pay. A
-- value is a text, a map or a list of maps. `md5` is the digest as hexadecimal text, Go's library.
pub mod Signature
pub mod Sorting
pub mod Requests
pub mod Rendering
pub mod Replies
pub mod Endpoint
pub mod Webhooks
pub mod Accepted
pub mod Refusals
pub mod Handlers
pub mod Statuses
pub mod Operations
pub mod Effects
pub mod Answers
pub mod Incidents
pub mod Forced
pub mod Shown
mod Tests
mod EndpointTests
use Prim.Native.String.{◌++◌ as str_append, compare}
use Prim.Native.Nat.{Ordering}
use chaospay.Prelude.{
  String, Bool, true, false, ◌&&◌, Option, none, some, List, [], ◌∷◌, ◌++◌, map, str_eq,
  if◌then◌else◌,
}
use chaospay.Prelude.Assoc.{Assoc, lookup, string_eq}

-- `OrdMap` with its pairs, and the values in them.
mutual
  pub data Value : Type 0 where
    text : String → Value
    child : OrdMap → Value
    children : Maps → Value

  pub data OrdMap : Type 0 where
    end : OrdMap
    pair : String → Value → OrdMap → OrdMap

  pub data Maps : Type 0 where
    no_maps : Maps
    more_maps : OrdMap → Maps → Maps

-- `Set`: the first pair of the key gets the value; a new key goes to the end.
unfoldable pub set : String → Value → OrdMap → OrdMap
set key value end = pair key value end
set key value (pair k v m) =
    let rest = set key value m in if str_eq k key then pair k value m else pair k v rest

-- `Get`
unfoldable pub get : String → OrdMap → Option Value
get key end = none
get key (pair k v m) = let rest = get key m in if str_eq k key then some v else rest

-- `Delete`
unfoldable pub delete : String → OrdMap → OrdMap
delete key end = end
delete key (pair k v m) = let rest = delete key m in if str_eq k key then m else pair k v rest

-- `WithoutKey`
unfoldable pub without_key : String → OrdMap → OrdMap
without_key key end = end
without_key key (pair k v m) =
    let rest = without_key key m in if str_eq k key then rest else pair k v rest

-- `sort.Strings`
unfoldable pub insert_text : String → List String → List String
insert_text s [] = s ∷ []
insert_text s (t ∷ ts) =
    let rest = insert_text s ts in elim (compare s t) [ Ordering.gt ↦ t ∷ rest | _ ↦ s ∷ t ∷ ts ]

unfoldable pub sort_texts : List String → List String
unfolding insert_text
sort_texts [] = []
sort_texts (s ∷ ss) = insert_text s (sort_texts ss)

abbrev pub keys : OrdMap → List String
keys end = []
keys (pair k v m) = k ∷ keys m

-- `SortedKeys`
unfoldable pub sorted_keys : OrdMap → List String
unfolding sort_texts
sorted_keys m = sort_texts (keys m)

-- The texts under each of the keys: `Get` answers the first pair of a key.
abbrev or_nothing : Option (List String) → List String
or_nothing none = []
or_nothing (some texts) = texts

abbrev pub gather : List String → Assoc String (List String) → List String
gather [] m = []
gather (k ∷ ks) m = or_nothing (lookup k m) ++ gather ks m

-- `collectValues`: `collected` has the texts of each pair, `gather` puts them in the order of the keys.
unfoldable mutual
  unfolding sorted_keys lookup

  pub collect_values : Value → List String
  collect_values (text s) = if str_eq s "" then [] else s ∷ []
  collect_values (child m) = gather (sorted_keys m) (collected m)
  collect_values (children ms) = collect_maps ms

  pub collected : OrdMap → Assoc String (List String)
  collected end = []
  collected (pair k v m) = (k, collect_values v) ∷ collected m

  pub collect_maps : Maps → List String
  collect_maps no_maps = []
  collect_maps (more_maps m ms) = gather (sorted_keys m) (collected m) ++ collect_maps ms

-- `strings.Join(parts, ";")`
unfoldable pub join : List String → String
join [] = ""
join (s ∷ []) = s
join (s ∷ t ∷ ts) = str_append s (str_append ";" (join (t ∷ ts)))

-- `Sign`
unfoldable pub sign : (String → String) → String → OrdMap → String → String
unfolding collect_values join
sign md5 script_name m secret_key =
    let start = if str_eq script_name "" then [] else script_name ∷ [] in
    md5 (join (start ++ collect_values (child m) ++ secret_key ∷ []))

-- `Verify`
unfoldable pub verify : (String → String) → String → OrdMap → String → String → String × Bool
unfolding sign without_key
verify md5 script_name m secret_key signature =
    let expected = sign md5 script_name (without_key "pg_sig" m) secret_key in
    (expected, str_eq expected signature)

-- `signedXML` of internal/ports/api/pay/handler.go, up to the printing: the salt, which comes from a
-- random source, and the signature are set.
unfoldable pub signed_fields : (String → String) → String → String → OrdMap → String → OrdMap
unfolding set sign
signed_fields md5 salt response_script_name fields secret =
    let salted = set "pg_salt" (text salt) fields in
    set "pg_sig" (text (sign md5 response_script_name salted secret)) salted
