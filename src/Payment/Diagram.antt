-- ===== src/Payment/Diagram.antt =====
-- The state diagram of a card payment, as docs/architecture.md draws it and as the operations of
-- internal/application/pay use it. The panel's force action is outside it.
use chaospay.Prelude.{◌≡◌, refl, true, arith, ◌↔◌}
use chaospay.Payment.{
  Status, new, hold_pending, authorized, captured, cancelled, refunded, partial_refunded, failed,
  status_eq,
}

infix 40 ◌⟶◌ ◌⟶*◌
pub data ◌⟶◌ : Status → Status → Type 0 where
  hold : new ⟶ authorized
  hold_on : hold_pending ⟶ authorized
  decline : new ⟶ failed
  capture : authorized ⟶ captured
  cancel : authorized ⟶ cancelled
  refund_part : captured ⟶ partial_refunded
  refund_all : captured ⟶ refunded
  refund_rest : partial_refunded ⟶ refunded

pub data ◌⟶*◌ : Status → Status → Type 0 where
  here : {s : Status} → s ⟶* s
  then : {s t u : Status} → s ⟶ t → t ⟶* u → s ⟶* u

pub path_trans : {s t u : Status} → s ⟶* t → t ⟶* u → s ⟶* u
path_trans here q = q
path_trans (then e p) q = then e (path_trans p q)

pub one : {s t : Status} → s ⟶ t → s ⟶* t
one e = then e here

pub status_eq_iff : (s t : Status) → (status_eq s t ≡ true) ↔ (s ≡ t)
unfolding status_eq
status_eq_iff s t = ground arith

-- The statuses that no arrow leaves.
pub data IsFinal : Status → Type 0 where
  cancelled_final : IsFinal cancelled
  refunded_final : IsFinal refunded
  failed_final : IsFinal failed

pub final_stays : {s t : Status} → IsFinal s → s ⟶* t → t ≡ s
final_stays f here = refl
final_stays cancelled_final (then e p) = absurd (no_edge e)
  where
    no_edge : {t : Status} → cancelled ⟶ t → ⊥
    no_edge e = elim e [ ]
final_stays refunded_final (then e p) = absurd (no_edge e)
  where
    no_edge : {t : Status} → refunded ⟶ t → ⊥
    no_edge e = elim e [ ]
final_stays failed_final (then e p) = absurd (no_edge e)
  where
    no_edge : {t : Status} → failed ⟶ t → ⊥
    no_edge e = elim e [ ]
