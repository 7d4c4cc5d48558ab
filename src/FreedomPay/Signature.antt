-- ===== src/FreedomPay/Signature.antt =====
-- Ordered maps and signatures of internal/infrastructure/freedompay/signature.go.
use chaospay.Prelude.{
  String, ◌≡◌, refl, ◌∙◌, ap, true, none, some, inl, inr, arith, str_eq, eq_iff, Bool-cases,
  if◌then◌else◌,
}
use chaospay.FreedomPay.{
  Value, OrdMap, text, end, pair, set, get, without_key, sign, verify, signed_fields,
}

-- `Set` writes the key that is named and no other: afterwards `Get` answers the value at that key, and
-- what it answered before at every other.
pub get-set :
    (key other : String) (v : Value) (m : OrdMap)
    → get other (set key v m) ≡ (if str_eq key other then some v else get other m)
unfolding get set
get-set key other v end = refl
get-set key other v (pair k u m) =
    ground (arith, eq_iff k key, eq_iff k other, eq_iff key other, get-set key other v m)

without-set :
    (key : String) (v : Value) (m : OrdMap) → without_key key (set key v m) ≡ without_key key m
unfolding without_key set
without-set key v end = rw ((eq_iff key key).1 refl) refl
without-set key v (pair k u m) = elim (Bool-cases (str_eq k key)) [
  | inl hit ↦ rw (hit, hit) refl
  | inr miss ↦ rw (miss, miss) (ap (pair k u) (without-set key v m))
]

without_absent : (key : String) (m : OrdMap) → get key m ≡ none → without_key key m ≡ m
unfolding without_key get
without_absent key end h = refl
without_absent key (pair k v m) h = elim (Bool-cases (str_eq k key)) [
  | inl hit ↦ absurd (there (rw hit at h))
  | inr miss ↦ rw miss (ap (pair k v) (without_absent key m (rw miss at h)))
]
  where
    there : some v ≡ none → ⊥
    there e = cc

-- What the mock signs, its own check accepts: for every digest, script name, secret, salt and fields
-- without a signature, the signature in the signed fields is the one that `Verify` expects of them.
pub verify-signed :
    (md5 : String → String) (salt script secret : String) (fields : OrdMap)
    → get "pg_sig" fields ≡ none
    → (signature : String) × (get "pg_sig" (signed_fields md5 salt script fields secret)
        ≡ some (text signature))
      × (verify md5 script (signed_fields md5 salt script fields secret) secret signature
          ≡ (signature, true))
unfolding signed_fields verify
verify-signed md5 salt script secret fields h =
    let salted = set "pg_salt" (text salt) fields in
    let signature = sign md5 script salted secret in
    let bare : get "pg_sig" salted ≡ none = get-set "pg_salt" "pg_sig" (text salt) fields ∙ h in
    let same : without_key "pg_sig" (set "pg_sig" (text signature) salted) ≡ salted =
      without-set "pg_sig" (text signature) salted ∙ without_absent "pg_sig" salted bare in
    let expected : sign md5 script (without_key "pg_sig" (set "pg_sig" (text signature) salted))
          secret
        ≡ signature =
      ap (λ m. sign md5 script m secret) same in
    (
      signature,
      get-set "pg_sig" "pg_sig" (text signature) salted,
      ap (λ s. (s, str_eq s signature)) expected
          ∙ ap (λ b. (signature, b)) ((eq_iff signature signature).1 refl),
    )
