-- ===== src/Flitt/KeyOrder.antt =====
-- The signature of internal/infrastructure/flitt/signature.go and the order of Go's maps.
use mathlib.Core.List.{Perm}
use chaospay.Prelude.{String, ◌≡◌, refl, ap, ◌∙◌, List, [], ◌∷◌}
use chaospay.Prelude.Assoc.{Assoc, lookup, string_eq}
use chaospay.FreedomPay.{sort_texts}
use chaospay.FreedomPay.Sorting.{sort_texts-Perm}
use chaospay.Flitt.Signature.{Param, keep_value, signed_keys, signed_values, flitt_sign}

-- Two listings of one map: each key under the same value.
abbrev pub SameMap : Assoc String Param → Assoc String Param → Type 0
SameMap m m' = (key : String) → lookup key m ≡ lookup key m'

signed_values-SameMap :
    (ks : List String) (m m' : Assoc String Param)
    → SameMap m m'
    → signed_values ks m ≡ signed_values ks m'
unfolding signed_values
signed_values-SameMap [] m m' same = refl
signed_values-SameMap (k ∷ ks) m m' same =
    ap (λ v. keep_value v (signed_values ks m)) (same k)
    ∙ ap (keep_value (lookup k m')) (signed_values-SameMap ks m m' same)

-- The signature is one of the map: two listings of it, in whatever orders Go ranges over its keys, have
-- the same signature, for every digest and secret.
pub sign_ignores_order :
    (sha1 : String → String) (secret : String) (m m' : Assoc String Param)
    → ((key : String) → lookup key m ≡ lookup key m')
    → Perm (signed_keys m) (signed_keys m')
    → flitt_sign sha1 secret m ≡ flitt_sign sha1 secret m'
unfolding flitt_sign
sign_ignores_order sha1 secret m m' same rearranged =
    rw (sort_texts-Perm rearranged, signed_values-SameMap (sort_texts (signed_keys m')) m m' same)
      refl
