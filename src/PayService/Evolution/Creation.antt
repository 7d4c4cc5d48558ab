-- ===== src/PayService/Evolution/Creation.antt =====
-- A new payment leaves the others alone: `NextPaymentID` and `Create` of
-- internal/infrastructure/memstore/pay.go under the methods of internal/application/pay.
use mathlib.Core.Path.{subst}
use chaospay.Prelude.{
  ℕ, ◌+◌, ◌≡◌, refl, sym, ◌∙◌, ap, false, some, [], ◌==◌, arith, inl, inr, Bool-cases, ==_iff,
  if◌then◌else◌,
}
use chaospay.Prelude.Words.{add64}
use chaospay.Prelude.Assoc.{lookup-insert, nat_eq}
use chaospay.Payment.{new, status_eq, Record, Time}
use chaospay.Payment.Evolution.{Linked, Moves-refl}
use chaospay.Payment.Repo.{ok, Clock, prepare, create, next_payment_id}
use chaospay.PayService.{World}
use chaospay.PayService.Freedom.{create_fresh}
use chaospay.PayService.Evolution.{find, IsSound, IsSoundRecord, IsGood, HasRoom}

-- The number of the next payment.
abbrev pub fresh_id : World → ℕ
fresh_id w = add64 w.repo.next_id 1

fresh_id_lem : (w : World) → HasRoom w → fresh_id w ≡ w.repo.next_id + 1
fresh_id_lem w room = omega arith

-- What the literal of a creation looks like.
pub record IsLiteral (id : ℕ) (rec : Record) : Type 0 where
  pub payment_id : rec.payment_id ≡ id
  pub no_history : rec.history ≡ []

prepare-Linked :
    (now : Time) (rec : Record)
    → rec.history ≡ []
    → Linked (prepare now rec).history (prepare now rec).status
unfolding prepare
prepare-Linked now rec h = rw h refl

prepare-payment_id : (now : Time) (rec : Record) → (prepare now rec).payment_id ≡ rec.payment_id
unfolding prepare
prepare-payment_id now rec = refl

prepare-status : (now : Time) (rec : Record) → rec.status ≡ new → (prepare now rec).status ≡ new
unfolding prepare status_eq
prepare-status now rec h = rw h refl

module _ (clock : Clock) (literal : ℕ → Record) (w : World) where
  abbrev stored : Record
  stored = prepare (clock 0) (literal (fresh_id w))

  pub create_fresh_reply : (create_fresh clock literal w).0 ≡ ok stored
  unfolding create_fresh create next_payment_id
  create_fresh_reply = refl

  next_id-create_fresh : (create_fresh clock literal w).1.repo.next_id ≡ fresh_id w
  unfolding create_fresh create next_payment_id
  next_id-create_fresh = refl

  find-create_fresh :
      (j : ℕ)
      → find j (create_fresh clock literal w).1
        ≡ (if stored.payment_id == j then some stored else find j w)
  unfolding create_fresh create next_payment_id
  find-create_fresh j = lookup-insert stored.payment_id j stored w.repo.by_id

module _ (clock : Clock) (literal : ℕ → Record) (w : World)
    (lit : IsLiteral (fresh_id w) (literal (fresh_id w))) (s : IsSound w) (room : HasRoom w) where
  id_of_stored : (stored clock literal w).payment_id ≡ w.repo.next_id + 1
  id_of_stored =
      prepare-payment_id (clock 0) (literal (fresh_id w)) ∙ lit.payment_id ∙ fresh_id_lem w room

  -- No old payment has the new number.
  old_differs :
      (k : ℕ) (rec : Record)
      → find k w ≡ some rec
      → ((stored clock literal w).payment_id == k) ≡ false
  old_differs k rec h = elim (Bool-cases ((stored clock literal w).payment_id == k)) [
    | inl same ↦ absurd (
        omega (
          arith,
          (==_iff (stored clock literal w).payment_id k).0 same,
          id_of_stored,
          (s.at_key k rec h).issued,
        ))
    | inr differs ↦ differs
  ]

  found_at_old :
      (k : ℕ) (rec : Record)
      → find k w ≡ some rec
      → find k (create_fresh clock literal w).1 ≡ some rec
  found_at_old k rec h =
      find-create_fresh clock literal w k
      ∙ ap (λ b. if b then some (stored clock literal w) else find k w) (old_differs k rec h)
      ∙ h

  sound_after :
      (k : ℕ) (rec : Record)
      → find k (create_fresh clock literal w).1 ≡ some rec
      → IsSoundRecord (create_fresh clock literal w).1.repo.next_id k rec
  sound_after k rec h = elim (Bool-cases ((stored clock literal w).payment_id == k)) [
    | inl same ↦
        let e : stored clock literal w ≡ rec = cc (
          find-create_fresh clock literal w k,
          ap (λ b. if b then some (stored clock literal w) else find k w) same,
        ) in
        subst (IsSoundRecord (create_fresh clock literal w).1.repo.next_id k) e (record {
          key = (==_iff (stored clock literal w).payment_id k).0 same;
          issued = omega (
            arith,
            (==_iff (stored clock literal w).payment_id k).0 same,
            id_of_stored,
            next_id-create_fresh clock literal w,
            fresh_id_lem w room,
          );
          linked = prepare-Linked (clock 0) (literal (fresh_id w)) lit.no_history;
        })
    | inr differs ↦
        let old : find k w ≡ some rec = cc (
          find-create_fresh clock literal w k,
          ap (λ b. if b then some (stored clock literal w) else find k w) differs,
        ) in
        record {
          key = (s.at_key k rec old).key;
          issued = omega (
            arith,
            (s.at_key k rec old).issued,
            next_id-create_fresh clock literal w,
            fresh_id_lem w room,
          );
          linked = (s.at_key k rec old).linked;
        }
  ]

  pub IsGood-create_fresh : IsGood w (create_fresh clock literal w).1
  IsGood-create_fresh = record {
    sound = record { at_key = sound_after };
    evolves = record {
      payments =
          λ k rec h. record { now = rec; is_found = found_at_old k rec h; moves = Moves-refl rec };
      counter = omega (arith, next_id-create_fresh clock literal w, fresh_id_lem w room);
    };
  }

  -- The new payment is there.
  pub created_found :
      find (stored clock literal w).payment_id (create_fresh clock literal w).1
      ≡ some (stored clock literal w)
  created_found =
      find-create_fresh clock literal w (stored clock literal w).payment_id
      ∙ ap
          (λ b.
            if b then some (stored clock literal w) else find (stored clock literal w).payment_id w)
          ((==_iff (stored clock literal w).payment_id (stored clock literal w).payment_id).1 refl)

  -- What a creation returns is what it stored, with the status of the literal.
  pub created_record :
      (rec : Record)
      → (create_fresh clock literal w).0 ≡ ok rec
      → find rec.payment_id (create_fresh clock literal w).1 ≡ some rec
  created_record rec h =
      let e : stored clock literal w ≡ rec = cc (create_fresh_reply clock literal w) in
      subst (λ r. find r.payment_id (create_fresh clock literal w).1 ≡ some r) e created_found

  pub created_status :
      (rec : Record)
      → (create_fresh clock literal w).0 ≡ ok rec
      → (literal (fresh_id w)).status ≡ new
      → rec.status ≡ new
  created_status rec h n =
      let e : stored clock literal w ≡ rec = cc (create_fresh_reply clock literal w) in
      ap (λ (r : Record). r.status) (sym e) ∙ prepare-status (clock 0) (literal (fresh_id w)) n
