-- ===== src/PayService/Answers.antt =====
-- What the methods of internal/application/pay answer: the conditions on a record and the world after
-- it, and the rules by which they pass through the steps of a method.
pub mod Holds
pub mod Outcomes
pub mod Refunds
pub mod Sums
pub mod Ledger
pub mod Races
pub mod Cards
pub mod Reversals
pub mod Hidden
pub mod Quiet
pub mod Silence
use chaospay.Prelude.{
  ℕ, String, ◌≡◌, refl, sym, ◌∙◌, ap, Bool, true, false, not, Option, none, some, inl, inr, arith,
  Bool-cases, Option-cases, ◌==◌, if◌then◌else◌, ==_iff,
}
use mathlib.Core.Path.{subst}
use chaospay.Prelude.Assoc.{lookup, nat_eq}
use chaospay.Payment.{Status, unset, Record, status_eq, allowed_transitions}
use chaospay.Payment.Repo.{
  PayError, PayRepo, Reply, ok, err, ok_err, Clock, UpdateFn, Verdict, move, refuse, update, plain,
  transition, transition_fn, entered, settle, get, payment_not_found, is_refused, stamp,
  invalid_transition,
}
use chaospay.Payment.Repo.Frame.{update_missing, update_found, lookup-update, written}
use chaospay.PayService.{
  World, Exec, ServiceConfig, ◌>>=◌, continue, answer, in_repo, fetch, after, maybe_webhook,
  ensure_reference, fill_reference, reply_or,
}
use chaospay.PayService.Evolution.{find}

-- If a record is answered without an error, the condition holds of it and of the world.
abbrev pub Post : (Record → World → Type 0) → Reply × World → Type 0
Post P (ok rec, w) = P rec w
Post P (err e, w) = Unit
Post P (ok_err rec e, w) = Unit

-- What is answered is what the store holds, and it is in one of the statuses.
pub record Answered (id : ℕ) (S : Record → Type 0) (rec : Record) (w : World) : Type 0 where
  pub stored : find id w ≡ some rec
  pub fits : S rec

pub Post-continue :
    (P Q : Record → World → Type 0) (x : Reply × World) (f : Record → Exec)
    → Post P x
    → ((rec : Record) (w : World) → P rec w → Post Q (f rec w))
    → Post Q (continue x f)
Post-continue P Q (ok rec, w) f p k = k rec w p
Post-continue P Q (err e, w) f p k = tt
Post-continue P Q (ok_err rec e, w) f p k = tt

pub Post-bind :
    (P Q : Record → World → Type 0) (w : World) (m : Exec) (f : Record → Exec)
    → Post P (m w)
    → ((rec : Record) (w' : World) → P rec w' → Post Q (f rec w'))
    → Post Q ((m >>= f) w)
Post-bind P Q w m f p k = Post-continue P Q (m w) f p k

pub Post-if :
    (P : Record → World → Type 0) (w : World) (t : Bool) (m n : Exec)
    → (t ≡ true → Post P (m w))
    → (t ≡ false → Post P (n w))
    → Post P ((if t then m else n) w)
Post-if P w true m n p q = p refl
Post-if P w false m n p q = q refl

-- A lookup that succeeds.
pub fetch_found :
    (w : World) (id : ℕ) {rec : Record} → find id w ≡ some rec → fetch id w ≡ (ok rec, w)
unfolding get
fetch_found w id h = rw (h, get)

pub fetch_missing :
    (w : World) (id : ℕ) → find id w ≡ none → fetch id w ≡ (err payment_not_found, w)
unfolding get
fetch_missing w id h = rw (h, get)

pub bind_found :
    (w : World) (id : ℕ) (f : Record → Exec) {rec : Record}
    → find id w ≡ some rec
    → (fetch id >>= f) w ≡ f rec w
bind_found w id f h = ap (λ x. continue x f) (fetch_found w id h)

pub bind_missing :
    (w : World) (id : ℕ) (f : Record → Exec)
    → find id w ≡ none
    → (fetch id >>= f) w ≡ (err payment_not_found, w)
bind_missing w id f h = ap (λ x. continue x f) (fetch_missing w id h)

pub Post-fetch :
    (P : Record → World → Type 0) (w : World) (id : ℕ) (f : Record → Exec)
    → ((rec : Record) → find id w ≡ some rec → Post P (f rec w))
    → Post P ((fetch id >>= f) w)
Post-fetch P w id f k = elim (Option-cases (find id w)) [
  | inl missing ↦ subst (Post P) (sym (bind_missing w id f missing)) tt
  | inr (rec, h) ↦ subst (Post P) (sym (bind_found w id f h)) (k rec h)
]

beq_refl : (k : ℕ) → (k == k) ≡ true
beq_refl k = (==_iff k k).1 refl

-- The record that an accepted update answers and stores.
pub accepted :
    (at : Clock) (i id : ℕ) (fn : UpdateFn) (w : World) {rec rec' : Record} {seed : ℕ} {to : Status}
    {reason : String}
    → find id w ≡ some rec
    → fn rec w.repo.ref_seed ≡ (rec', seed, move to reason)
    → ((in_repo (update (at i) id fn) w).0 ≡ ok (entered (at i) rec.status to reason rec'))
      × (find id (in_repo (update (at i) id fn) w).1
          ≡ some (entered (at i) rec.status to reason rec'))
unfolding settle
accepted at i id fn w {rec} {rec'} {seed} {to} {reason} h e = (
  ap (λ x. x.0) (update_found (at i) id fn w.repo h)
      ∙ ap (λ y. (settle (at i) id rec.status y w.repo).0) e,
  lookup-update (at i) id fn w.repo id h
      ∙ ap (λ b. if b then some (written (at i) rec.status (fn rec w.repo.ref_seed)) else find id w)
          (beq_refl id)
      ∙ ap (λ y. some (written (at i) rec.status y)) e,
)

-- An update answers what it stores, at every callback.
pub Post-update :
    (S : Record → Type 0) (at : Clock) (i id : ℕ) (fn : UpdateFn) (w : World)
    → ((rec : Record) (seed : ℕ) (rec' : Record) (seed' : ℕ) (to : Status) (reason : String)
        → find id w ≡ some rec
        → fn rec seed ≡ (rec', seed', move to reason)
        → S (entered (at i) rec.status to reason rec'))
    → Post (Answered id S) (in_repo (update (at i) id fn) w)
unfolding settle
Post-update S at i id fn w k = elim (Option-cases (find id w)) [
  | inl missing ↦
      subst (λ (x : Reply × PayRepo). Post (Answered id S) (x.0, record w { repo = x.1 }))
        (sym (update_missing (at i) id fn w.repo missing)) tt
  | inr (rec, h) ↦ go rec h (fn rec w.repo.ref_seed) refl
]
  where
    go :
        (rec : Record)
        → find id w ≡ some rec
        → (y : Record × ℕ × Verdict) → fn rec w.repo.ref_seed ≡ y
        → Post (Answered id S) (in_repo (update (at i) id fn) w)
    go rec h (rec', seed, refuse e) p =
        subst (λ (x : Reply × PayRepo). Post (Answered id S) (x.0, record w { repo = x.1 }))
          (sym
            (update_found (at i) id fn w.repo h ∙ ap (λ y. settle (at i) id rec.status y w.repo) p))
          tt
    go rec h (rec', seed, move to reason) p =
        let a = accepted at i id fn w h p in
        subst (λ x. Post (Answered id S) (x, (in_repo (update (at i) id fn) w).1)) (sym a.0)
          (record { stored = a.1; fits = k rec w.repo.ref_seed rec' seed to reason h p })

-- Two worlds with the same payments.
abbrev pub SameRecords : World → World → Type 0
SameRecords w w' = (j : ℕ) → find j w' ≡ find j w

-- A rejected update whose callback has written nothing.
pub rejected :
    (at : Clock) (i id : ℕ) (fn : UpdateFn) (w : World) {rec : Record} {seed : ℕ} {e : PayError}
    → find id w ≡ some rec
    → fn rec w.repo.ref_seed ≡ (rec, seed, refuse e)
    → ((in_repo (update (at i) id fn) w).0 ≡ err e)
      × SameRecords w (in_repo (update (at i) id fn) w).1
unfolding settle
rejected at i id fn w {rec} {seed} {e} h p = (
  ap (λ x. x.0) (update_found (at i) id fn w.repo h)
      ∙ ap (λ y. (settle (at i) id rec.status y w.repo).0) p,
  λ j.
      lookup-update (at i) id fn w.repo j h
      ∙ ap (λ y. if id == j then some (written (at i) rec.status y) else find j w) p
      ∙ same_key j,
)
  where
    same_key : (j : ℕ) → (if id == j then some rec else find j w) ≡ find j w
    same_key j = elim (Bool-cases (id == j)) [
      | inl hit ↦ rw hit (sym h ∙ ap (λ k. find k w) ((==_iff id j).0 hit))
      | inr miss ↦ rw miss refl
    ]
