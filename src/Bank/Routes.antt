-- ===== src/Bank/Routes.antt =====
-- What `FromPath` and `Valid` of internal/domain/bank/bank.go promise.
use text.Mathlib.Text.{starts_with}
use chaospay.Prelude.{
  String, ◌≡◌, refl, sym, true, false, List, [], ◌∷◌, arith, eq_iff, ◌⊎◌, inl, inr, ◌++◌,
  Bool-cases, str_eq, ◌↔◌,
}
use chaospay.Bank.{
  Bank, any, freedom, epay, flitt, qr, loyalty, kaspi, slug, route_prefixes, first_route, from_path,
  is_listed, valid, bank_eq, all_banks,
}

-- A path has none of the prefixes.
abbrev pub NoPrefix : List (String × Bank) → String → Type 0
NoPrefix [] path = Unit
NoPrefix ((prefix, b) ∷ rest) path = (starts_with path prefix ≡ false) × NoPrefix rest path

-- What is in front of the rule that decides, the rule, and what comes after it.
pub record Decides (routes : List (String × Bank)) (path : String) (b : Bank) : Type 0 where
  pub before : List (String × Bank)
  pub prefix : String
  pub after : List (String × Bank)
  pub split : routes ≡ before ++ (prefix, b) ∷ after
  pub earlier : NoPrefix before path
  pub fits : starts_with path prefix ≡ true

module _ (prefix : String) (b : Bank) (rest : List (String × Bank)) (path : String) where
  first_route_hit : starts_with path prefix ≡ true → first_route ((prefix, b) ∷ rest) path ≡ b
  unfolding first_route
  first_route_hit h = rw h

  first_route_miss :
      starts_with path prefix ≡ false
      → first_route ((prefix, b) ∷ rest) path ≡ first_route rest path
  unfolding first_route
  first_route_miss h = rw h

first_route_nil : (path : String) → first_route [] path ≡ any
unfolding first_route
first_route_nil path = refl

abbrev Outcome : List (String × Bank) → String → Bank → Type 0
Outcome routes path b = (NoPrefix routes path × (b ≡ any)) ⊎ Decides routes path b

further :
    (prefix : String) (b : Bank) {rest : List (String × Bank)} {path : String} {c : Bank}
    → starts_with path prefix ≡ false
    → Outcome rest path c
    → Outcome ((prefix, b) ∷ rest) path c
further prefix b miss (inl (none_fits, e)) = inl ((miss, none_fits), e)
further prefix b miss (inr d) = inr (record {
  before = (prefix, b) ∷ d.before;
  prefix = d.prefix;
  after = d.after;
  split = cc d.split;
  earlier = (miss, d.earlier);
  fits = d.fits;
})

first_route-Decides :
    (routes : List (String × Bank)) (path : String) → Outcome routes path (first_route routes path)
first_route-Decides [] path = inl (tt, first_route_nil path)
first_route-Decides ((prefix, b) ∷ rest) path = elim (Bool-cases (starts_with path prefix)) [
  | inl hit ↦ rw (first_route_hit prefix b rest path hit) (
      inr (record {
        before = [];
        prefix = prefix;
        after = rest;
        split = refl;
        earlier = tt;
        fits = hit;
      }))
  | inr miss ↦
      rw (first_route_miss prefix b rest path miss)
        (further prefix b miss (first_route-Decides rest path))
]

-- `FromPath` answers with the bank of the first prefix in the table that the path has, and with
-- `Any` where the path has none of them.
pub from_path_first :
    (path : String)
    → (NoPrefix route_prefixes path × (from_path path ≡ any))
      ⊎ Decides route_prefixes path (from_path path)
unfolding from_path
from_path_first path = first_route-Decides route_prefixes path

valid-slug : (b : Bank) → valid (slug b) ≡ true
unfolding valid is_listed
valid-slug any = refl
valid-slug freedom = refl
valid-slug epay = refl
valid-slug flitt = refl
valid-slug qr = refl
valid-slug loyalty = refl
valid-slug kaspi = refl

slug_of_listed : (bs : List Bank) (s : String) → is_listed bs s ≡ true → (b : Bank) × (slug b ≡ s)
unfolding is_listed
slug_of_listed [] s h = cc
slug_of_listed (b ∷ bs) s h = elim (Bool-cases (str_eq s (slug b))) [
  | inl e ↦ (b, sym ((eq_iff s (slug b)).0 e))
  | inr e ↦ slug_of_listed bs s (rw e at h)
]

-- `Valid` accepts exactly the texts of the bank constants, the empty one of `Any` among them.
pub valid_iff : (s : String) → (valid s ≡ true) ↔ ((b : Bank) × (slug b ≡ s))
unfolding valid
valid_iff s = (back, λ (b, e). rw (← e) (valid-slug b))
  where
    back : valid s ≡ true → (b : Bank) × (slug b ≡ s)
    back h = elim (Bool-cases (str_eq s (slug any))) [
      | inl e ↦ (any, sym ((eq_iff s (slug any)).0 e))
      | inr e ↦ slug_of_listed all_banks s (rw e at h)
    ]

pub bank_eq_iff : (a b : Bank) → (bank_eq a b ≡ true) ↔ (a ≡ b)
unfolding bank_eq
bank_eq_iff a b = ground arith
