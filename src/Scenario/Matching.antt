-- ===== src/Scenario/Matching.antt =====
-- Which rule `Match` of internal/infrastructure/memstore/scenario.go picks, and what it does to the list.
use chaospay.Prelude.Words.{add64}
use chaospay.Prelude.{
  ℕ, String, ◌≡◌, ◌≢◌, refl, sym, ◌∙◌, ap, Bool, true, false, not, Option, none, some, List, [],
  ◌∷◌, ◌++◌, inl, inr, arith, All, select, str_eq, eq_iff, Bool-cases, if◌then◌else◌,
}
use mathlib.Core.List.{Perm, map, perm_middle}
use mathlib.Core.List.Perm
use mathlib.Core.Path.{subst}
use chaospay.Payment.{Time}
use chaospay.Scenario.{Scenario, MatchInput, matches}
use chaospay.Scenario.Store.{
  ScenarioStore, hit, behind, first_match, match_, remove, add, filled_in,
}

-- No rule of the list is for the request.
abbrev pub NoneMatches : MatchInput → List Scenario → Type 0
NoneMatches in_ = All (λ sc. matches sc in_ ≡ false)

-- The rule that is picked, and the lists before and after it.
pub record Picked (in_ : MatchInput) (rules : List Scenario) (reply : Scenario)
    (left : List Scenario) : Type 0 where
  pub before : List Scenario
  pub rule : Scenario
  pub after : List Scenario
  pub split : rules ≡ before ++ rule ∷ after
  pub earlier : NoneMatches in_ before
  pub fits : matches rule in_ ≡ true
  pub counted : reply ≡ hit rule
  pub kept : left ≡ before ++ (if rule.consume_once then after else hit rule ∷ after)

-- The outcome of a search.
abbrev pub Found : MatchInput → List Scenario → Option Scenario × List Scenario → Type 0
Found in_ rules (none, left) = NoneMatches in_ rules × (left ≡ rules)
Found in_ rules (some reply, left) = Picked in_ rules reply left

miss :
    (in_ : MatchInput) (sc : Scenario) (rest : List Scenario) (x : Option Scenario × List Scenario)
    → matches sc in_ ≡ false
    → Found in_ rest x
    → Found in_ (sc ∷ rest) (behind sc x)
miss in_ sc rest (none, left) no_match (all, e) = ((no_match, all), ap (λ l. sc ∷ l) e)
miss in_ sc rest (some reply, left) no_match p = record {
  before = sc ∷ p.before;
  rule = p.rule;
  after = p.after;
  split = ap (λ l. sc ∷ l) p.split;
  earlier = (no_match, p.earlier);
  fits = p.fits;
  counted = p.counted;
  kept = ap (λ l. sc ∷ l) p.kept;
}

first_match-Found :
    (in_ : MatchInput) (rules : List Scenario) → Found in_ rules (first_match in_ rules)
unfolding first_match
first_match-Found in_ [] = (tt, refl)
first_match-Found in_ (sc ∷ rest) = elim (Bool-cases (matches sc in_)) [
  | inl is_match ↦ rw is_match (record {
    before = [];
    rule = sc;
    after = rest;
    split = refl;
    earlier = tt;
    fits = is_match;
    counted = refl;
    kept = refl;
  })
  | inr no_match ↦
      rw no_match (miss in_ sc rest (first_match in_ rest) no_match (first_match-Found in_ rest))
]

-- `Match` answers no rule just if no rule of the list is for the request, and then the list is
-- unchanged. Otherwise it answers the first one that is, with its counter raised; that rule leaves the
-- list if it is for one use and is replaced by what was answered if not, and no other rule changes.
pub match-Found :
    (in_ : MatchInput) (s : ScenarioStore)
    → Found in_ s.scenarios ((match_ in_ s).0, (match_ in_ s).1.scenarios)
unfolding match_
match-Found in_ s = first_match-Found in_ s.scenarios

-- A rule, apart from how often it has been hit.
unfoldable pub bare : Scenario → Scenario
bare sc = record sc { hit_count = 0 }

-- A run of requests: the rules for one use that they got, in order, and the store at the end.
unfoldable pub spent : Option Scenario → List Scenario
spent none = []
spent (some sc) = if sc.consume_once then sc ∷ [] else []

unfoldable pub serve : List MatchInput → ScenarioStore → List Scenario × ScenarioStore
unfolding spent
serve [] s = ([], s)
serve (in_ ∷ more) s =
    let (found, s') = match_ in_ s in let (used, s'') = serve more s' in (spent found ++ used, s'')

hit_middle :
    (xs ys : List Scenario) (a : Scenario) → map bare (xs ++ hit a ∷ ys) ≡ map bare (xs ++ a ∷ ys)
unfolding bare
hit_middle [] ys a = refl
hit_middle (x ∷ xs) ys a = ap (λ l. bare x ∷ l) (hit_middle xs ys a)

-- The rule that is picked is spent or left, and the others are left.
picked-Perm :
    (xs ys : List Scenario) (a : Scenario) (once : Bool)
    → Perm
        (map bare ((if once then hit a ∷ [] else []) ++ (xs ++ (if once then ys else hit a ∷ ys))))
        (map bare (xs ++ a ∷ ys))
unfolding bare
picked-Perm xs ys a true = Perm.symm (Perm.map bare (perm_middle xs ys))
picked-Perm xs ys a false = rw (hit_middle xs ys a) (Perm.refl _)

spent-Perm :
    (in_ : MatchInput) (rules : List Scenario) (x : Option Scenario × List Scenario)
    → Found in_ rules x
    → Perm (map bare (spent x.0 ++ x.1)) (map bare rules)
unfolding spent
spent-Perm in_ rules (none, left) (all, e) = rw e (Perm.refl _)
spent-Perm in_ rules (some reply, left) p =
    rw (p.kept, p.split, p.counted) (picked-Perm p.before p.after p.rule p.rule.consume_once)

-- More rules that were spent before.
Perm-behind :
    (first used left rules : List Scenario)
    → Perm (map bare (used ++ left)) (map bare rules)
    → Perm (map bare ((first ++ used) ++ left)) (map bare (first ++ rules))
Perm-behind [] used left rules p = p
Perm-behind (x ∷ first) used left rules p = Perm.cons (bare x) (Perm-behind first used left rules p)

-- However many requests come, the rules for one use that they got, together with the rules that are
-- left, are a rearrangement of the rules that there were, if the counters of hits are left aside. So a
-- rule for one use is got by one request at most, and is gone then; and every other rule is left.
pub serve_once :
    (requests : List MatchInput) (s : ScenarioStore)
    → Perm
        (map bare ((serve requests s).0 ++ (serve requests s).1.scenarios))
        (map bare s.scenarios)
unfolding serve
serve_once [] s = Perm.refl _
serve_once (in_ ∷ more) s =
    let (found, s') = match_ in_ s in
    let (used, s'') = serve more s' in
    Perm.trans (Perm-behind (spent found) used s''.scenarios s'.scenarios (serve_once more s'))
      (spent-Perm in_ s.scenarios (found, s'.scenarios) (match-Found in_ s))

first_match-append :
    (in_ : MatchInput) (rules more : List Scenario) (reply : Scenario)
    → (first_match in_ rules).0 ≡ some reply
    → first_match in_ (rules ++ more) ≡ (some reply, (first_match in_ rules).1 ++ more)
unfolding first_match
first_match-append in_ [] more reply h = absurd (no_reply h)
  where
    no_reply : none ≡ some reply → ⊥
    no_reply e = cc
first_match-append in_ (sc ∷ rest) more reply h = elim (Bool-cases (matches sc in_)) [
  | inl is_match ↦ rw is_match (first_kept sc.consume_once (rw is_match at h))
  | inr no_match ↦
      rw no_match (ap (behind sc) (first_match-append in_ rest more reply (rw no_match at h)))
]
  where
    first_kept :
        (once : Bool)
        → some (hit sc) ≡ some reply
        → ◌≡◌ {A = Option Scenario × List Scenario}
            (some (hit sc), if once then rest ++ more else hit sc ∷ (rest ++ more))
            (some reply, (if once then rest else hit sc ∷ rest) ++ more)
    first_kept true e = cc
    first_kept false e = cc

abbrev with_next : ℕ → Option Scenario × List Scenario → Option Scenario × ScenarioStore
with_next n (found, rules) = (found, record { scenarios = rules; next_id = n })

-- A rule that is added has the lowest rank: a request that a rule was there for gets the same answer as
-- before, and the addition and the request may change places.
pub match-add :
    (now : Time) (sc : Scenario) (in_ : MatchInput) (s : ScenarioStore) (reply : Scenario)
    → (match_ in_ s).0 ≡ some reply
    → match_ in_ (add now sc s) ≡ (some reply, add now sc (match_ in_ s).1)
unfolding match_ add
match-add now sc in_ s reply h =
    let number = add64 s.next_id 1 in
    let next : ℕ = if str_eq sc.id "" then number else s.next_id in
    ap (with_next next) (first_match-append in_ s.scenarios (filled_in now number sc ∷ []) reply h)

All-select :
    (p : Scenario → Bool) (rules : List Scenario) → All (λ sc. p sc ≡ true) (select p rules)
All-select p [] = tt
All-select p (sc ∷ rest) = elim (Bool-cases (p sc)) [
  | inl yes_ ↦ rw yes_ (yes_, All-select p rest)
  | inr no_ ↦ rw no_ (All-select p rest)
]

All-middle :
    (P : Scenario → Type 0) (xs : List Scenario) (a : Scenario) (ys : List Scenario)
    → All P (xs ++ a ∷ ys)
    → P a
All-middle P [] a ys h = h.0
All-middle P (x ∷ xs) a ys h = All-middle P xs a ys h.1

-- A rule that has been removed is never picked again.
pub removed_never_picked :
    (id : String) (in_ : MatchInput) (s : ScenarioStore) (reply : Scenario)
    → (match_ in_ (remove id s)).0 ≡ some reply
    → reply.id ≢ id
unfolding remove
removed_never_picked id in_ s reply h e =
    let p =
      subst (λ o. Found in_ (remove id s).scenarios (o, (match_ in_ (remove id s)).1.scenarios)) h
        (match-Found in_ (remove id s)) in
    let kept =
      All-middle (λ sc. not (str_eq sc.id id) ≡ true) p.before p.rule p.after
        (subst (All (λ sc. not (str_eq sc.id id) ≡ true)) p.split
          (All-select (λ sc. not (str_eq sc.id id)) s.scenarios)) in
    both p.rule.id (ap (λ (sc : Scenario). sc.id) (sym p.counted) ∙ e) kept
  where
    both : (a : String) → a ≡ id → not (str_eq a id) ≡ true → ⊥
    both a q k = ground (arith, q, k, (eq_iff a id).1 q)
