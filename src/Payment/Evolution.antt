-- ===== src/Payment/Evolution.antt =====
-- How one payment may change: along the diagram, with its history extended and its identity kept.
use chaospay.Prelude.{
  String, ◌≡◌, refl, sym, ◌∙◌, ap, true, not, ◌&&◌, List, [], ◌∷◌, ◌++◌, arith, ◌⊎◌, inl, inr,
  Bool-cases,
}
use mathlib.Core.List.{append_assoc, append-nil}
use chaospay.Payment.{Time, Status, unset, status_eq, HistoryEntry, Record}
use chaospay.Payment.Repo.{entered}
use chaospay.Payment.Diagram.{◌⟶*◌, here, path_trans, status_eq_iff}

-- The history begins somewhere, each entry leaves the status that the one before it entered, and the
-- last one entered `s`.
abbrev pub Linked : List HistoryEntry → Status → Type 0
Linked [] s = ⊥
Linked (e ∷ []) s = e.to ≡ s
Linked (e ∷ f ∷ es) s = (f.from ≡ e.to) × Linked (f ∷ es) s

pub Linked-append :
    (h : List HistoryEntry) (s : Status) (e : HistoryEntry)
    → Linked h s
    → e.from ≡ s
    → Linked (h ++ e ∷ []) e.to
Linked-append [] s e l p = elim l [ ]
Linked-append (f ∷ []) s e l p = (p ∙ sym l, refl)
Linked-append (f ∷ g ∷ h) s e l p = (l.0, Linked-append (g ∷ h) s e l.1 p)

-- What no operation changes.
pub record SameIdentity (a b : Record) : Type 0 where
  pub payment_id : b.payment_id ≡ a.payment_id
  pub bank : b.bank ≡ a.bank
  pub order_id : b.order_id ≡ a.order_id
  pub merchant_id : b.merchant_id ≡ a.merchant_id
  pub amount : b.amount ≡ a.amount
  pub created_at : b.created_at ≡ a.created_at

pub record Moves (a b : Record) : Type 0 where
  pub same : SameIdentity a b
  pub path : a.status ⟶* b.status
  pub more : List HistoryEntry
  pub history : b.history ≡ a.history ++ more
  pub linked : Linked a.history a.status → Linked b.history b.status

-- A callback has written other fields only.
pub record Touches (a b : Record) : Type 0 where
  pub same : SameIdentity a b
  pub status : b.status ≡ a.status
  pub history : b.history ≡ a.history

SameIdentity-trans : {a b c : Record} → SameIdentity a b → SameIdentity b c → SameIdentity a c
SameIdentity-trans p q = record {
  payment_id = q.payment_id ∙ p.payment_id;
  bank = q.bank ∙ p.bank;
  order_id = q.order_id ∙ p.order_id;
  merchant_id = q.merchant_id ∙ p.merchant_id;
  amount = q.amount ∙ p.amount;
  created_at = q.created_at ∙ p.created_at;
}

pub Moves-trans : {a b c : Record} → Moves a b → Moves b c → Moves a c
Moves-trans {a} p q = record {
  same = SameIdentity-trans p.same q.same;
  path = path_trans p.path q.path;
  more = p.more ++ q.more;
  history = q.history ∙ ap (λ h. h ++ q.more) p.history ∙ append_assoc a.history p.more q.more;
  linked = λ l. q.linked (p.linked l);
}

pub Moves-touch : {a b : Record} → Touches a b → Moves a b
Moves-touch {a} {b} t = record {
  same = t.same;
  path = rw t.status here;
  more = [];
  history = t.history ∙ sym (append-nil a.history);
  linked = λ l. rw (t.status, t.history) l;
}

pub Moves-refl : (a : Record) → Moves a a
Moves-refl a = Moves-touch (record {
  same = record {
    payment_id = refl;
    bank = refl;
    order_id = refl;
    merchant_id = refl;
    amount = refl;
    created_at = refl;
  };
  status = refl;
  history = refl;
})

module _ (at : Time) (to : Status) (reason : String) {a b : Record} (t : Touches a b) where
  entry : HistoryEntry
  entry = record { at = at; from = a.status; to = to; reason = reason }

  moved : a.status ⟶* to → Moves a (record b { status = to; history = b.history ++ entry ∷ [] })
  unfolding entry
  moved p = record {
    same = record {
      payment_id = t.same.payment_id;
      bank = t.same.bank;
      order_id = t.same.order_id;
      merchant_id = t.same.merchant_id;
      amount = t.same.amount;
      created_at = t.same.created_at;
    };
    path = p;
    more = entry ∷ [];
    history = ap (λ h. h ++ entry ∷ []) t.history;
    linked = λ l. rw t.history (Linked-append a.history a.status entry l refl);
  }

  -- The end of `Update` keeps to the diagram where the callback names no status, or one that the
  -- diagram has on from the old one.
  pub Moves-entered : (to ≡ unset) ⊎ (a.status ⟶* to) → Moves a (entered at a.status to reason b)
  unfolding entered entry
  Moves-entered h = elim (Bool-cases (not (status_eq to unset) && not (status_eq to a.status))) [
    | inr stays ↦ rw stays (Moves-touch t)
    | inl goes ↦ rw goes (elim h [ inl e ↦ absurd (absent e goes) | inr p ↦ moved p ])
  ]
    where
      absent : to ≡ unset → (not (status_eq to unset) && not (status_eq to a.status)) ≡ true → ⊥
      absent e g = ground (arith, (status_eq_iff to unset).1 e)
