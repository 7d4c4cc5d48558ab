-- ===== src/PayService/Evolution.antt =====
-- How the methods of the payment service may change the store: the invariant between two calls, the
-- relation between the stores before and after, and the rules by which methods are put together.
pub mod Creation
pub mod Freedom
pub mod Epay
pub mod Flitt
pub mod Forced
pub mod Webhooks
pub mod Transitions
use chaospay.Prelude.{
  ℕ, zero, suc, ◌+◌, ◌≤◌, ◌<◌, String, ◌≡◌, ◌≢◌, refl, sym, ◌∙◌, ap, Bool, true, false, Option,
  none, some, List, [], ◌∷◌, ◌++◌, ◌==◌, arith, ◌⊎◌, inl, inr, Bool-cases, Option-cases, ==_iff,
  if◌then◌else◌,
}
use mathlib.Core.Path.{subst}
use chaospay.Prelude.Words.{word_size, add64}
use chaospay.Prelude.Assoc.{lookup, insert, lookup-insert, nat_eq}
use chaospay.Payment.{Time, Status, unset, new, status_eq, Record}
use chaospay.Payment.Diagram.{◌⟶*◌}
use chaospay.Payment.Evolution.{Linked, Moves, Moves-refl, Moves-trans, Touches, Moves-entered}
use chaospay.Payment.Repo.{
  PayRepo, Reply, ok, err, ok_err, PayError, Clock, UpdateFn, Verdict, move, refuse, plain, update,
  get, create, prepare, next_payment_id, payment_not_found, entered,
}
use chaospay.Payment.Repo.Frame.{
  written, update_missing, update_found, lookup-update, next_id-update,
}
use chaospay.PayService.{World, Exec, ◌>>=◌, continue, answer, in_repo, fetch}

abbrev pub find : ℕ → World → Option Record
find id w = lookup id w.repo.by_id

-- What the store promises of the record under a key, between two calls.
pub record IsSoundRecord (next k : ℕ) (rec : Record) : Type 0 where
  pub key : rec.payment_id ≡ k
  pub issued : k ≤ next
  pub linked : Linked rec.history rec.status

pub record IsSound (w : World) : Type 0 where
  pub at_key : (k : ℕ) (rec : Record) → find k w ≡ some rec → IsSoundRecord w.repo.next_id k rec

-- A payment of the old store is in the new one, moved along the diagram.
pub record Survives (rec : Record) (found : Option Record) : Type 0 where
  pub now : Record
  pub is_found : found ≡ some now
  pub moves : Moves rec now

pub record Evolves (w w' : World) : Type 0 where
  pub payments : (k : ℕ) (rec : Record) → find k w ≡ some rec → Survives rec (find k w')
  pub counter : w.repo.next_id ≤ w'.repo.next_id

pub record IsGood (w w' : World) : Type 0 where
  pub sound : IsSound w'
  pub evolves : Evolves w w'

-- A number is left for a new payment.
abbrev pub HasRoom : World → Type 0
HasRoom w = w.repo.next_id + 1 < word_size

-- The rule for a method.
pub record Keeps (m : Exec) : Type 0 where
  pub at : (w : World) → IsSound w → HasRoom w → IsGood w (m w).1

pub Evolves-refl : (w : World) → Evolves w w
Evolves-refl w = record {
  payments = λ k rec h. record { now = rec; is_found = h; moves = Moves-refl rec };
  counter = omega arith;
}

pub Evolves-trans : {u v w : World} → Evolves u v → Evolves v w → Evolves u w
Evolves-trans p q = record {
  payments = λ k rec h.
      let s = p.payments k rec h in
      let t = q.payments k s.now s.is_found in
      record { now = t.now; is_found = t.is_found; moves = Moves-trans s.moves t.moves };
  counter = omega (arith, p.counter, q.counter);
}

pub IsGood-refl : (w : World) → IsSound w → IsGood w w
IsGood-refl w s = record { sound = s; evolves = Evolves-refl w }

pub IsGood-trans : {u v w : World} → IsGood u v → IsGood v w → IsGood u w
IsGood-trans p q = record { sound = q.sound; evolves = Evolves-trans p.evolves q.evolves }

-- Two worlds with the same records and counter.
pub record SameStore (w w' : World) : Type 0 where
  pub by_id : w'.repo.by_id ≡ w.repo.by_id
  pub next_id : w'.repo.next_id ≡ w.repo.next_id

pub IsGood-same : {w w' : World} → IsSound w → SameStore w w' → IsGood w w'
IsGood-same {w} {w'} s e = record {
  sound = record {
    at_key = λ k rec h. rw e.next_id (s.at_key k rec (sym (ap (lookup k) e.by_id) ∙ h));
  };
  evolves = record {
    payments = λ k rec h. record {
      now = rec;
      is_found = ap (lookup k) e.by_id ∙ h;
      moves = Moves-refl rec;
    };
    counter = omega (arith, e.next_id);
  };
}

some_inj : {a b : Record} → some a ≡ some b → a ≡ b
some_inj e = cc

sound_moved :
    {next k : ℕ} {rec now : Record}
    → IsSoundRecord next k rec
    → Moves rec now
    → IsSoundRecord next k now
sound_moved s m = record {
  key = m.same.payment_id ∙ s.key;
  issued = s.issued;
  linked = m.linked s.linked;
}

beq_refl : (k : ℕ) → (k == k) ≡ true
beq_refl k = (==_iff k k).1 refl

-- One key written, by a move of what it held.
module _ (w w' : World) (id : ℕ) (rec now : Record) (h : find id w ≡ some rec)
    (written_key : (j : ℕ) → find j w' ≡ (if id == j then some now else find j w))
    (same_next : w'.repo.next_id ≡ w.repo.next_id) (m : Moves rec now) (s : IsSound w) where
  write_sound : (k : ℕ) (x : Record) → find k w' ≡ some x → IsSoundRecord w'.repo.next_id k x
  write_sound k x e = rw same_next (elim (Bool-cases (id == k)) [
    | inl hit ↦
        let there : id ≡ k = (==_iff id k).0 hit in
        let found : find k w' ≡ some now =
          written_key k ∙ ap (λ b. if b then some now else find k w) hit in
        subst (IsSoundRecord w.repo.next_id k) (some_inj (sym found ∙ e))
          (sound_moved (s.at_key k rec (subst (λ j. find j w ≡ some rec) there h)) m)
    | inr miss ↦
        s.at_key k x (sym (written_key k ∙ ap (λ b. if b then some now else find k w) miss) ∙ e)
  ])

  write-Survives : (k : ℕ) (x : Record) → find k w ≡ some x → Survives x (find k w')
  write-Survives k x e = elim (Bool-cases (id == k)) [
    | inl hit ↦
        let there : id ≡ k = (==_iff id k).0 hit in
        record {
          now = now;
          is_found = written_key k ∙ ap (λ b. if b then some now else find k w) hit;
          moves =
              subst (λ y. Moves y now)
                (some_inj (sym (subst (λ j. find j w ≡ some rec) there h) ∙ e)) m;
        }
    | inr miss ↦ record {
      now = x;
      is_found = written_key k ∙ ap (λ b. if b then some now else find k w) miss ∙ e;
      moves = Moves-refl x;
    }
  ]

  pub IsGood-write : IsGood w w'
  IsGood-write = record {
    sound = record { at_key = write_sound };
    evolves = record { payments = write-Survives; counter = omega (arith, same_next) };
  }

module _ (w : World) (at : Time) (id : ℕ) (fn : UpdateFn) (s : IsSound w) where
  pub IsGood-update :
      (rec : Record)
      → find id w ≡ some rec
      → Moves rec (written at rec.status (fn rec w.repo.ref_seed))
      → IsGood w (in_repo (update at id fn) w).1
  IsGood-update rec h m =
      IsGood-write w (in_repo (update at id fn) w).1 id rec
        (written at rec.status (fn rec w.repo.ref_seed)) h (λ j. lookup-update at id fn w.repo j h)
        (next_id-update at id fn w.repo h) m s

  -- An update is good if it is good at the record that it finds.
  pub IsGood-in_repo :
      ((rec : Record)
        → find id w ≡ some rec
        → Moves rec (written at rec.status (fn rec w.repo.ref_seed)))
      → IsGood w (in_repo (update at id fn) w).1
  IsGood-in_repo m = elim (Option-cases (find id w)) [
    | inl missing ↦ IsGood-same s (record {
      by_id = ap (λ (x : Reply × PayRepo). x.1.by_id) (update_missing at id fn w.repo missing);
      next_id = ap (λ (x : Reply × PayRepo). x.1.next_id) (update_missing at id fn w.repo missing);
    })
    | inr (rec, h) ↦ IsGood-update rec h (m rec h)
  ]

-- The rules for sequences.
pub Keeps-answer : (reply : Reply) → Keeps (answer reply)
Keeps-answer reply = record { at = λ w s room. IsGood-refl w s }

-- What a method does to a world is what its steps do, one after the other.
pub IsGood-continue :
    {w : World} (x : Reply × World) (f : Record → Exec)
    → IsGood w x.1
    → ((rec : Record) → x.0 ≡ ok rec → IsGood x.1 (f rec x.1).1)
    → IsGood w (continue x f).1
IsGood-continue (ok rec, w') f g k = IsGood-trans g (k rec refl)
IsGood-continue (err e, w') f g k = g
IsGood-continue (ok_err rec e, w') f g k = g

get_missing : (id : ℕ) (w : World) → find id w ≡ none → get id w.repo ≡ err payment_not_found
unfolding get
get_missing id w h = rw (h, get)

get_found : (id : ℕ) (w : World) {rec : Record} → find id w ≡ some rec → get id w.repo ≡ ok rec
unfolding get
get_found id w h = rw (h, get)

-- After a lookup the rest may use what was found.
pub IsGood-fetch :
    (w : World) (id : ℕ) (f : Record → Exec)
    → IsSound w
    → ((rec : Record) → find id w ≡ some rec → IsGood w (f rec w).1)
    → IsGood w ((fetch id >>= f) w).1
IsGood-fetch w id f s k = elim (Option-cases (find id w)) [
  | inl missing ↦
      subst (λ x. IsGood w (continue (x, w) f).1) (sym (get_missing id w missing)) (IsGood-refl w s)
  | inr (rec, h) ↦ subst (λ x. IsGood w (continue (x, w) f).1) (sym (get_found id w h)) (k rec h)
]

pub IsGood-if :
    {w : World} (t : Bool) (m n : Exec)
    → (t ≡ true → IsGood w (m w).1)
    → (t ≡ false → IsGood w (n w).1)
    → IsGood w ((if t then m else n) w).1
IsGood-if true m n p q = p refl
IsGood-if false m n p q = q refl

pub IsGood-bind :
    (w : World) (m : Exec) (f : Record → Exec)
    → IsGood w (m w).1
    → ((rec : Record) → (m w).0 ≡ ok rec → IsGood (m w).1 (f rec (m w).1).1)
    → IsGood w ((m >>= f) w).1
IsGood-bind w m f g k = IsGood-continue (m w) f g k
