-- ===== src/PayService/Answers/Races.antt =====
-- Capture and Cancel of internal/application/pay/service.go when they overlap. `Capture` reads the
-- payment, and writes it in a second critical section that does not look at the status again.
use chaospay.Prelude.{ℕ, ◌≡◌, refl, some, inl, inr}
use chaospay.Payment.{authorized, captured, cancelled, Record, status_eq}
use chaospay.Payment.Repo.{ok, Clock}
use chaospay.PayService.{World, ServiceConfig}
use chaospay.PayService.Freedom
use chaospay.PayService.Freedom.{capture_commit}
use chaospay.PayService.Evolution.{find}
use chaospay.PayService.Answers.Holds.{status-entered}
use chaospay.PayService.Answers.Outcomes.{cancel_branches}
use chaospay.PayService.Answers.Refunds.{Answers, commit_found}

-- Where `Cancel` runs between the two critical sections of `Capture`, both calls succeed: the payment
-- is answered as cancelled first, and answered and stored as captured afterwards.
pub capture_after_cancel :
    (cfg : ServiceConfig) (clock clock' : Clock) (id clearing : ℕ) (w : World) (rec : Record)
    → find id w ≡ some rec
    → rec.status ≡ authorized
    → (dead : Record) × ((Freedom.cancel cfg clock id w).0 ≡ ok dead)
      × (dead.status ≡ cancelled)
      × (rec' : Record) × Answers id rec'
          (capture_commit cfg clock' id clearing rec (Freedom.cancel cfg clock id w).1)
      × (rec'.status ≡ captured)
unfolding status_eq
capture_after_cancel cfg clock clock' id clearing w rec h held =
    elim (cancel_branches cfg clock id w rec h) [
      | inl (e, dead, reply, stored, is_cancelled) ↦ (
        dead,
        reply,
        is_cancelled,
        _,
        commit_found cfg clock' id (Freedom.cancel cfg clock id w).1 stored clearing rec,
        status-entered (clock' 0) dead.status captured "capture" _ refl refl,
      )
      | inr (other, e) ↦ absurd (other held)
    ]
