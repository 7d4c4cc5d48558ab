-- ===== src/PayService/Evolution/Epay.antt =====
-- The methods of internal/application/pay/epay.go keep the store sound and move payments along the
-- diagram.
use mathlib.Core.Path.{subst}
use chaospay.Prelude.{
  ℕ, String, ◌≡◌, refl, sym, ◌∙◌, ap, Bool, true, false, not, some, List, [], ◌∷◌, arith, inl, inr,
  Bool-cases, if◌then◌else◌,
}
use chaospay.Prelude.Words.{ℤ, is_nonpos, to_uint, sub64}
use chaospay.Bank.{Bank, bank_eq}
use chaospay.Payment.{Time, unset, new, authorized, failed, status_eq, Record}
use chaospay.Payment.Diagram.{one, decline, ◌⟶*◌}
use chaospay.Payment.Evolution.{Touches, Moves, Moves-refl}
use chaospay.Payment.Repo.{Reply, ok, err, ok_err, Clock, plain, Verdict, list_records, message}
use chaospay.Payment.Repo.Frame.{written}
use chaospay.PayService.{World}
use chaospay.PayService.Freedom.{create_fresh, set_captured, add_refund, is_refundable}
use chaospay.PayService.Epay.{
  EpayAuthorizeInput, is_bad_amount, epay_record, build_epay_record, new_epay_record, wrap,
  epay_authorize, late_record, epay_late_operation, reveal_fn, epay_reveal, is_hidden_of,
  reveal_all, epay_reveal_invoice, decline_fn, epay_decline, epay_charge, epay_cancel, epay_refund,
}
use chaospay.PayService.Evolution.{
  find, IsSound, IsGood, IsGood-refl, IsGood-trans, IsGood-update, IsGood-in_repo, IsGood-fetch,
  IsGood-if, IsGood-bind, Keeps, HasRoom,
}
use chaospay.PayService.Evolution.Creation.{
  IsLiteral, IsGood-create_fresh, created_record, created_status,
}
use chaospay.PayService.Evolution.Transitions.{Moves-plain, Moves-refund}
use chaospay.PayService.Evolution.Freedom.{
  IsGood-authorize, IsGood-cancel, Moves-capture, is_held, is_refundable_of,
}

world-wrap : (text : String) (x : Reply × World) → (wrap text x).1 ≡ x.1
world-wrap text (ok rec, w) = refl
world-wrap text (err e, w) = refl
world-wrap text (ok_err rec e, w) = refl

pub IsGood-wrap :
    (w : World) (text : String) (x : Reply × World) → IsGood w x.1 → IsGood w (wrap text x).1
IsGood-wrap w text x g = subst (IsGood w) (sym (world-wrap text x)) g

epay-IsLiteral : (in_ : EpayAuthorizeInput) (id : ℕ) → IsLiteral id (epay_record in_ id)
unfolding epay_record
epay-IsLiteral in_ id = record { payment_id = refl; no_history = refl }

late-IsLiteral :
    (clock : Clock) (taken : Bool) (visible_at : Time) (id : ℕ) (rec : Record)
    → IsLiteral id rec
    → IsLiteral id (late_record clock taken visible_at rec)
unfolding late_record
late-IsLiteral clock true visible_at id rec l = record {
  payment_id = l.payment_id;
  no_history = l.no_history;
}
late-IsLiteral clock false visible_at id rec l = record {
  payment_id = l.payment_id;
  no_history = l.no_history;
}

-- An accepted Epay payment is a new record.
module _ (clock : Clock) (in_ : EpayAuthorizeInput) (w : World) where
  new_epay_refused :
      is_bad_amount in_ ≡ true
      → new_epay_record clock in_ w ≡ (err (message "amount must be positive"), w)
  unfolding new_epay_record build_epay_record
  new_epay_refused h = rw (h, build_epay_record)

  new_epay_fresh :
      is_bad_amount in_ ≡ false
      → new_epay_record clock in_ w ≡ create_fresh (λ _. clock 4) (epay_record in_) w
  unfolding new_epay_record build_epay_record create_fresh
  new_epay_fresh h = rw (h, build_epay_record)

pub IsGood-new_epay :
    (clock : Clock) (in_ : EpayAuthorizeInput) (w : World)
    → IsSound w
    → HasRoom w
    → IsGood w (new_epay_record clock in_ w).1
IsGood-new_epay clock in_ w s room = elim (Bool-cases (is_bad_amount in_)) [
  | inl bad ↦
      subst (λ (x : Reply × World). IsGood w x.1) (sym (new_epay_refused clock in_ w bad))
        (IsGood-refl w s)
  | inr fine ↦
      subst (λ (x : Reply × World). IsGood w x.1) (sym (new_epay_fresh clock in_ w fine))
        (IsGood-create_fresh (λ _. clock 4) (epay_record in_) w (epay-IsLiteral in_ _) s room)
]

pub Keeps-epay_authorize :
    (clock : Clock) (in_ : EpayAuthorizeInput) → Keeps (epay_authorize clock in_)
unfolding epay_authorize
Keeps-epay_authorize clock in_ = record {
  at = λ w s room.
      let made = IsGood-new_epay clock in_ w s room in
      IsGood-bind w (new_epay_record clock in_) _ made (λ rec _.
        IsGood-if in_.requires_3ds _ _ (λ _. IsGood-refl _ made.sound)
          (λ _.
            IsGood-wrap _ "authorize transition" _
              (IsGood-authorize clock rec.payment_id "epay authorize" _ made.sound)));
}

module _ (clock : Clock) (in_ : EpayAuthorizeInput) (w : World) (s : IsSound w) (room : HasRoom w)
    (rec : Record) (made : (new_epay_record clock in_ w).0 ≡ ok rec) where
  not_bad : is_bad_amount in_ ≡ false
  not_bad = elim (Bool-cases (is_bad_amount in_)) [
    | inl bad ↦ cc (ap (λ (x : Reply × World). x.0) (new_epay_refused clock in_ w bad), made)
    | inr fine ↦ fine
  ]

  made_fresh : (create_fresh (λ _. clock 4) (epay_record in_) w).0 ≡ ok rec
  made_fresh = ap (λ (x : Reply × World). x.0) (sym (new_epay_fresh clock in_ w not_bad)) ∙ made

  pub new_epay_found : find rec.payment_id (new_epay_record clock in_ w).1 ≡ some rec
  new_epay_found =
      subst (λ (x : Reply × World). find rec.payment_id x.1 ≡ some rec)
        (sym (new_epay_fresh clock in_ w not_bad))
        (created_record (λ _. clock 4) (epay_record in_) w (epay-IsLiteral in_ _) s room rec
          made_fresh)

  pub new_epay_status : rec.status ≡ new
  unfolding epay_record
  new_epay_status =
      created_status (λ _. clock 4) (epay_record in_) w (epay-IsLiteral in_ _) s room rec made_fresh
        refl

decline-Touches :
    (code : ℤ) (reason : String) (rec : Record) → Touches rec (decline_fn code reason rec).0
unfolding decline_fn
decline-Touches code reason rec = ground arith

decline-Moves :
    (at : Time) (code : ℤ) (reason : String) (seed : ℕ) (rec : Record)
    → rec.status ≡ new
    → Moves rec (written at rec.status (plain (decline_fn code reason) rec seed))
unfolding decline_fn
decline-Moves at code reason seed rec h =
    Moves-plain at rec seed (decline_fn code reason) (decline-Touches code reason rec)
      (inr (subst (λ t. t ⟶* failed) (sym h) (one decline)))

pub Keeps-epay_decline :
    (clock : Clock) (in_ : EpayAuthorizeInput) (code : ℤ) (reason : String)
    → Keeps (epay_decline clock in_ code reason)
unfolding epay_decline
Keeps-epay_decline clock in_ code reason = record {
  at = λ w s room.
      let new_epay = IsGood-new_epay clock in_ w s room in
      IsGood-bind w (new_epay_record clock in_) _ new_epay (λ rec made.
        IsGood-wrap _ "decline transition" _ (
          IsGood-update (new_epay_record clock in_ w).1 (clock 0) rec.payment_id
            (plain (decline_fn code reason)) new_epay.sound rec
            (new_epay_found clock in_ w s room rec made)
            (decline-Moves (clock 0) code reason (new_epay_record clock in_ w).1.repo.ref_seed rec
              (new_epay_status clock in_ w s room rec made))));
}

-- `EpayLateOperation` is one creation, followed by a lookup.
late_create : Clock → EpayAuthorizeInput → Bool → Time → ℕ → Record
late_create clock in_ taken visible_at id = late_record clock taken visible_at (epay_record in_ id)

module _ (clock : Clock) (in_ : EpayAuthorizeInput) (taken : Bool) (visible_at : Time)
    (w : World) where
  late_refused : is_bad_amount in_ ≡ true → (epay_late_operation clock in_ taken visible_at w).1 ≡ w
  unfolding epay_late_operation build_epay_record
  late_refused h = rw (h, build_epay_record)

  late_fresh :
      is_bad_amount in_ ≡ false
      → (epay_late_operation clock in_ taken visible_at w).1
        ≡ (create_fresh (λ _. clock 1) (late_create clock in_ taken visible_at) w).1
  unfolding epay_late_operation build_epay_record create_fresh late_create
  late_fresh h = rw (h, build_epay_record)

pub Keeps-epay_late_operation :
    (clock : Clock) (in_ : EpayAuthorizeInput) (taken : Bool) (visible_at : Time)
    → Keeps (epay_late_operation clock in_ taken visible_at)
unfolding late_create
Keeps-epay_late_operation clock in_ taken visible_at = record {
  at = λ w s room. elim (Bool-cases (is_bad_amount in_)) [
    | inl bad ↦
        subst (IsGood w) (sym (late_refused clock in_ taken visible_at w bad)) (IsGood-refl w s)
    | inr fine ↦ subst (IsGood w) (sym (late_fresh clock in_ taken visible_at w fine)) (
        IsGood-create_fresh (λ _. clock 1) (late_create clock in_ taken visible_at) w
          (late-IsLiteral clock taken visible_at _ (epay_record in_ _) (epay-IsLiteral in_ _)) s
          room)
  ];
}

reveal-Moves :
    (at : Time) (seed : ℕ) (rec : Record)
    → Moves rec (written at rec.status (plain reveal_fn rec seed))
unfolding reveal_fn
reveal-Moves at seed rec = elim (Bool-cases (not (bank_eq rec.bank Bank.epay))) [
  | inl other ↦ rw other (Moves-refl rec)
  | inr own ↦ rw own (
      Moves-plain at rec seed
        (λ r. (record r { epay = record r.epay { visible_at = 0 } }, Verdict.move unset ""))
        (ground arith) (inl refl))
]

pub IsGood-epay_reveal :
    (clock : Clock) (id : ℕ) (w : World) → IsSound w → IsGood w (epay_reveal clock id w).1
unfolding epay_reveal
IsGood-epay_reveal clock id w s =
    IsGood-in_repo w (clock 0) id (plain reveal_fn) s
      (λ rec h. reveal-Moves (clock 0) w.repo.ref_seed rec)

IsGood-reveal_all :
    (clock : Clock) (invoice_id : String) (listed : List Record) (w : World)
    → IsSound w
    → IsGood w (reveal_all clock invoice_id listed w).1
unfolding reveal_all
IsGood-reveal_all clock invoice_id [] w s = IsGood-refl w s
IsGood-reveal_all clock invoice_id (rec ∷ rest) w s =
    elim (Bool-cases (is_hidden_of (clock 0) invoice_id rec)) [
      | inl hidden ↦
          let shown = IsGood-epay_reveal clock rec.payment_id w s in
          rw hidden (
            IsGood-trans shown (
              IsGood-reveal_all clock invoice_id rest (epay_reveal clock rec.payment_id w).1
                shown.sound))
      | inr visible ↦ rw visible (IsGood-reveal_all clock invoice_id rest w s)
    ]

pub IsGood-epay_reveal_invoice :
    (order : List Record → List Record) (clock : Clock) (invoice_id : String) (w : World)
    → IsSound w
    → IsGood w (epay_reveal_invoice order clock invoice_id w).1
unfolding epay_reveal_invoice
IsGood-epay_reveal_invoice order clock invoice_id w s =
    IsGood-reveal_all clock invoice_id (list_records order w.repo) w s

pub Keeps-epay_charge : (clock : Clock) (id : ℕ) (amount : ℤ) → Keeps (epay_charge clock id amount)
unfolding epay_charge
Keeps-epay_charge clock id amount = record {
  at = λ w s room. IsGood-fetch w id _ s (λ rec h.
      IsGood-if (not (bank_eq rec.bank Bank.epay)) _ _ (λ _. IsGood-refl w s)
        (λ _.
          IsGood-if (not (status_eq rec.status authorized)) _ _ (λ _. IsGood-refl w s)
            (λ e.
              let target = if is_nonpos amount then rec.amount else to_uint amount in
              IsGood-update w (clock 0) id (plain (set_captured target "epay charge")) s rec h (
                Moves-capture clock target "epay charge" rec w.repo.ref_seed
                  (is_held rec.status e)))));
}

pub Keeps-epay_cancel : (clock : Clock) (id : ℕ) → Keeps (epay_cancel clock id)
unfolding epay_cancel
Keeps-epay_cancel clock id = record {
  at = λ w s room. IsGood-fetch w id _ s (λ rec h.
      IsGood-if (not (bank_eq rec.bank Bank.epay)) _ _ (λ _. IsGood-refl w s)
        (λ _.
          IsGood-if (not (status_eq rec.status authorized)) _ _ (λ _. IsGood-refl w s)
            (λ e. IsGood-cancel clock id "epay cancel" w s)));
}

pub Keeps-epay_refund : (clock : Clock) (id : ℕ) (amount : ℤ) → Keeps (epay_refund clock id amount)
unfolding epay_refund
Keeps-epay_refund clock id amount = record {
  at = λ w s room. IsGood-fetch w id _ s (λ rec h.
      IsGood-if (not (bank_eq rec.bank Bank.epay)) _ _ (λ _. IsGood-refl w s)
        (λ _.
          IsGood-if (not (is_refundable rec.status)) _ _ (λ _. IsGood-refl w s)
            (λ e.
              let delta =
                if is_nonpos amount
                then sub64 rec.captured_amount rec.refunded_amount
                else to_uint amount in
              IsGood-update w (clock 0) id
                (plain (add_refund delta "epay refund full" "epay refund partial")) s rec h
                (Moves-refund (clock 0) w.repo.ref_seed delta "epay refund full"
                  "epay refund partial" rec (is_refundable_of rec.status e)))));
}
