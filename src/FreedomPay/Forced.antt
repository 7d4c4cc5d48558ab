-- ===== src/FreedomPay/Forced.antt =====
-- What the scenario `force_status` of internal/ports/api/pay/scenario.go leaves of an answer. The keys of
-- an answer are distinct, since it is built by `Set`.
use chaospay.Prelude.{
  String, ◌≡◌, refl, ◌∙◌, ap, Bool, true, false, ◌||◌, Option, none, some, List, [], ◌∷◌, arith,
  inl, inr, str_eq, eq_iff, Bool-cases, if◌then◌else◌,
}
use chaospay.Scenario.{is_one_of}
use chaospay.FreedomPay.{Value, OrdMap, text, end, pair, set, get, delete}
use chaospay.FreedomPay.Signature.{get-set}
use chaospay.FreedomPay.Effects.{strip_terminal_fields}

-- No key stands twice.
abbrev pub IsDistinct : OrdMap → Type 0
IsDistinct end = Unit
IsDistinct (pair k v m) = (get k m ≡ none) × IsDistinct m

get-delete :
    (key other : String) (m : OrdMap)
    → IsDistinct m
    → get other (delete key m) ≡ (if str_eq key other then none else get other m)
unfolding get delete
get-delete key other end d = ground arith
get-delete key other (pair k v m) d =
    ground (arith, eq_iff k key, eq_iff k other, eq_iff key other, d.0, get-delete key other m d.1)

IsDistinct-set : (key : String) (v : Value) (m : OrdMap) → IsDistinct m → IsDistinct (set key v m)
unfolding get set
IsDistinct-set key v end d = (refl, tt)
IsDistinct-set key v (pair k u m) d = elim (Bool-cases (str_eq k key)) [
  | inl hit ↦ rw hit d
  | inr miss ↦ rw miss (go miss, IsDistinct-set key v m d.1)
]
  where
    go : str_eq k key ≡ false → get k (set key v m) ≡ none
    go miss = ground (arith, eq_iff k key, eq_iff key k, get-set key k v m, d.0)

IsDistinct-delete : (key : String) (m : OrdMap) → IsDistinct m → IsDistinct (delete key m)
unfolding get delete
IsDistinct-delete key end d = tt
IsDistinct-delete key (pair k u m) d = elim (Bool-cases (str_eq k key)) [
  | inl hit ↦ rw hit d.1
  | inr miss ↦ rw miss (go miss, IsDistinct-delete key m d.1)
]
  where
    go : str_eq k key ≡ false → get k (delete key m) ≡ none
    go miss = ground (arith, eq_iff k key, eq_iff key k, get-delete key k m d.1, d.0)

-- The keys that go, the last one first.
abbrev pub terminal_keys : List String
terminal_keys =
    "pg_payment_date" ∷ "pg_captured" ∷ "pg_card_token" ∷ "pg_card_pan" ∷ "pg_reference"
    ∷ "pg_auth_code" ∷ "pg_order_id" ∷ []

abbrev delete_all : List String → OrdMap → OrdMap
delete_all [] m = m
delete_all (k ∷ ks) m = delete k (delete_all ks m)

IsDistinct-delete_all :
    (ks : List String) (m : OrdMap) → IsDistinct m → IsDistinct (delete_all ks m)
IsDistinct-delete_all [] m d = d
IsDistinct-delete_all (k ∷ ks) m d =
    IsDistinct-delete k (delete_all ks m) (IsDistinct-delete_all ks m d)

get-delete_all :
    (ks : List String) (other : String) (m : OrdMap)
    → IsDistinct m
    → get other (delete_all ks m) ≡ (if is_one_of ks other then none else get other m)
unfolding is_one_of
get-delete_all [] other m d = refl
get-delete_all (k ∷ ks) other m d =
    get-delete k other (delete_all ks m) (IsDistinct-delete_all ks m d)
    ∙ ap (λ o. if str_eq k other then none else o) (get-delete_all ks other m d)
    ∙ both (str_eq k other) (is_one_of ks other) (get other m)
  where
    both :
        (a b : Bool) (x : Option Value)
        → (if a then none else (if b then none else x)) ≡ (if a || b then none else x)
    both true b x = refl
    both false b x = refl

-- An answer with distinct keys that is forced to a status which is not final (waiting, process or new)
-- says nothing any more about the order, the authorization, the reference, the card, the capture and
-- the date; its payment method is "none", and every other field is as it was.
pub forced_strips :
    (fields : OrdMap) (payment_status other : String)
    → IsDistinct fields
    → (str_eq payment_status "waiting"
        || str_eq payment_status "process"
        || str_eq payment_status "new")
      ≡ true
    → get other (strip_terminal_fields fields payment_status) ≡ (
        if is_one_of terminal_keys other
        then none
        else if str_eq "pg_payment_method" other
        then some (text "none")
        else get other fields)
unfolding strip_terminal_fields
forced_strips fields payment_status other d early = rw early (
    get-delete_all terminal_keys other (set "pg_payment_method" (text "none") fields)
      (IsDistinct-set "pg_payment_method" (text "none") fields d)
    ∙ ap (λ o. if is_one_of terminal_keys other then none else o)
        (get-set "pg_payment_method" other (text "none") fields))

-- A field that is taken out leaves the others.
delete_other :
    (key other : String) (m : OrdMap)
    → str_eq key other ≡ false
    → get other (delete key m) ≡ get other m
unfolding get delete
delete_other key other end h = refl
delete_other key other (pair k v m) h =
    ground (arith, h, eq_iff k key, eq_iff k other, eq_iff key other, delete_other key other m h)

pub or_false : {a b : Bool} → (a || b) ≡ false → (a ≡ false) × (b ≡ false)
or_false {a} {b} h = ground arith

delete_all_other :
    (ks : List String) (other : String) (m : OrdMap)
    → is_one_of ks other ≡ false
    → get other (delete_all ks m) ≡ get other m
unfolding is_one_of
delete_all_other [] other m h = refl
delete_all_other (k ∷ ks) other m h =
    delete_other k other (delete_all ks m) (or_false h).0
    ∙ delete_all_other ks other m (or_false h).1

-- A forced status strips these fields only.
pub strip_other :
    (fields : OrdMap) (v other : String)
    → str_eq "pg_payment_method" other ≡ false
    → is_one_of terminal_keys other ≡ false
    → get other (strip_terminal_fields fields v) ≡ get other fields
unfolding strip_terminal_fields
strip_other fields v other h k =
    elim (Bool-cases (str_eq v "waiting" || str_eq v "process" || str_eq v "new")) [
      | inl early ↦ rw early (
          delete_all_other terminal_keys other (set "pg_payment_method" (text "none") fields) k
          ∙ get-set "pg_payment_method" other (text "none") fields
          ∙ rw h refl)
      | inr late ↦ rw late refl
    ]
