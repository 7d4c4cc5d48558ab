-- ===== src/Scenario/Offered.antt =====
-- What a preset of internal/application/scenario/service.go does to the rules that are in force.
use mathlib.Core.Path.{subst}
use chaospay.Prelude.{
  ℕ, suc, ◌<◌, String, ◌≡◌, refl, sym, ap, ◌∙◌, Bool, true, false, ◌&&◌, ◌||◌, none, some, List, [],
  ◌∷◌, ◌++◌, inl, inr, arith, str_eq, eq_iff, Bool-cases, Option-cases, All, find_first, length,
}
use chaospay.Prelude.Words.{add64}
use mathlib.Core.List.{append-nil, append_assoc}
use chaospay.Bank.{Bank, any, bank_eq}
use chaospay.Payment.{Time}
use chaospay.Scenario.{matches, match_bank, match_value, Scenario, is_one_of, endpoints_for}
use chaospay.Scenario.Store.{ScenarioStore, add, filled_in}
use chaospay.Scenario.Presets.{
  Rule, Params, PresetInfo, all_presets, preset_overrides, rule_scenario, add_rules, rules_of,
  apply_preset_with_params, is_non_empty,
}

-- A rule that can reach requests of the bank: it is for the bank or for all banks, and its endpoint is
-- one that the panel offers for that bank (`*` is one of them).
abbrev pub reaches : Bank → Bank → String → Bool
reaches b bank endpoint =
    (bank_eq bank b || bank_eq bank any) && is_one_of (endpoints_for b) endpoint

-- Some rules, all of which reach the bank.
abbrev pub all_reach : Bank → List Rule → Bool
all_reach b [] = true
all_reach b (r ∷ rs) = reaches b r.bank r.endpoint && all_reach b rs

abbrev is_offer : PresetInfo → Bool
is_offer p = is_non_empty (rules_of p.name) && all_reach p.bank (rules_of p.name)

abbrev all_offers : List PresetInfo → Bool
all_offers [] = true
all_offers (p ∷ ps) = is_offer p && all_offers ps

table : all_offers all_presets ≡ true
unfolding all_presets rules_of is_one_of endpoints_for bank_eq
table = refl

and_left : (a b : Bool) → (a && b) ≡ true → a ≡ true
and_left true b h = refl
and_left false b h = cc

and_right : (a b : Bool) → (a && b) ≡ true → b ≡ true
and_right true b h = h
and_right false b h = cc

-- A stored rule that is offered for the bank, and that takes a request of the bank by its endpoint alone,
-- whatever payment, order and merchant the request names.
pub record Answers (b : Bank) (sc : Scenario) : Type 0 where
  pub offered : reaches b sc.bank sc.endpoint ≡ true
  pub every :
      (endpoint payment_id order_id merchant_id : String)
      → matches sc (record {
        bank = b;
        endpoint = endpoint;
        payment_id = payment_id;
        order_id = order_id;
        merchant_id = merchant_id;
      })
        ≡ match_value sc.endpoint endpoint

match_bank-reaches :
    (b bank : Bank) (endpoint : String) → reaches b bank endpoint ≡ true → match_bank bank b ≡ true
unfolding match_bank
match_bank-reaches b bank endpoint h = ground (arith, h)

and_trues : (a : Bool) → (a && true && true && true) ≡ a
and_trues true = refl
and_trues false = refl

module _ (b : Bank) (allowed : Params) where
  rule-Answers :
      (now : Time) (number : ℕ) (r : Rule)
      → reaches b r.bank r.endpoint ≡ true
      → Answers b (filled_in now number (rule_scenario now allowed r))
  unfolding filled_in rule_scenario matches
  rule-Answers now number r h = record {
    offered = h;
    every = λ endpoint payment_id order_id merchant_id.
        rw (match_bank-reaches b r.bank r.endpoint h) (and_trues (match_value r.endpoint endpoint));
  }

  add_rules-append :
      (clock : ℕ → Time) (n : ℕ) (rs : List Rule) (s : ScenarioStore)
      → all_reach b rs ≡ true
      → (added : List Scenario) × ((add_rules clock n allowed rs s).scenarios
          ≡ s.scenarios ++ added)
        × (length added ≡ length rs)
        × All (Answers b) added
  unfolding add_rules add
  add_rules-append clock n [] s h = ([], sym (append-nil s.scenarios), refl, tt)
  add_rules-append clock n (r ∷ rs) s h =
      let number = add64 s.next_id 1 in
      let sc = filled_in (clock n) number (rule_scenario (clock n) allowed r) in
      let s' = add (clock n) (rule_scenario (clock n) allowed r) s in
      let (added, e, len, each) =
        add_rules-append clock (suc n) rs s' (and_right (reaches b r.bank r.endpoint) _ h) in
      (
        sc ∷ added,
        e ∙ append_assoc s.scenarios (sc ∷ []) added,
        omega (arith, len),
        (rule-Answers (clock n) number r (and_left (reaches b r.bank r.endpoint) _ h), each),
      )

some_inj {ℓ} : {A : Type ℓ} {a b : A} → some a ≡ some b → a ≡ b
some_inj e = cc

find_offer :
    (name : String) (ps : List PresetInfo) (p : PresetInfo)
    → all_offers ps ≡ true
    → find_first (λ p. str_eq p.name name) ps ≡ some p
    → (is_offer p ≡ true) × (p.name ≡ name)
find_offer name [] p sound found = cc
find_offer name (q ∷ ps) p sound found = elim (Bool-cases (str_eq q.name name)) [
  | inl hit ↦
      let same : q ≡ p = some_inj (rw hit at found) in
      (
        subst (λ x. is_offer x ≡ true) same (and_left (is_offer q) _ sound),
        subst (λ x. x.name ≡ name) same ((eq_iff q.name name).0 hit),
      )
  | inr miss ↦ find_offer name ps p (and_right (is_offer q) _ sound) (rw miss at found)
]

non_empty-length : (rs : List Rule) → is_non_empty rs ≡ true → 0 < length rs
non_empty-length [] h = cc
non_empty-length (r ∷ rs) h = omega arith

applied :
    (clock : ℕ → Time) (name : String) (overrides : Params) (s s' : ScenarioStore)
    → apply_preset_with_params clock name overrides s ≡ some s'
    → (allowed : Params) × (add_rules clock 0 allowed (rules_of name) s ≡ s')
unfolding apply_preset_with_params
applied clock name overrides s s' h = elim (Option-cases (preset_overrides name overrides)) [
  | inl refused ↦ let none_left : none ≡ some s' = rw (apply_preset_with_params, refused) at h in cc
  | inr (allowed, fine) ↦ (allowed, some_inj (rw (apply_preset_with_params, fine) at h))
]

-- A preset of the panel, applied with parameters that it accepts, leaves the rules that are in force as
-- they are and puts at least one rule behind them. Each new rule is for the preset's bank or for all
-- banks, at an endpoint that the panel offers for that bank, and it matches a request of that bank
-- exactly if its endpoint fits, whatever payment, order and merchant the request names.
pub preset_takes_effect :
    (clock : ℕ → Time) (name : String) (overrides : Params) (p : PresetInfo) (s s' : ScenarioStore)
    → find_first (λ q. str_eq q.name name) all_presets ≡ some p
    → apply_preset_with_params clock name overrides s ≡ some s'
    → (added : List Scenario) × (s'.scenarios ≡ s.scenarios ++ added)
      × (0 < length added)
      × All (Answers p.bank) added
preset_takes_effect clock name overrides p s s' found done =
    let (sound, named) = find_offer name all_presets p table found in
    let (allowed, result) = applied clock name overrides s s' done in
    let reach = and_right (is_non_empty (rules_of p.name)) _ sound in
    let some_rules = non_empty-length (rules_of p.name) (and_left _ _ sound) in
    let (added, e, len, each) = add_rules-append p.bank allowed clock 0 (rules_of p.name) s reach in
    (
      added,
      sym (ap (λ x. x.scenarios) result)
          ∙ ap (λ n. (add_rules clock 0 allowed (rules_of n) s).scenarios) (sym named)
          ∙ e,
      omega (arith, len, some_rules),
      each,
    )
