-- ===== src/PayService/Evolution/Forced.antt =====
-- ApplyForce and the second critical section of Capture (internal/application/pay/service.go) look at no
-- status. They keep to the diagram where the status that they find allows it.
use chaospay.Prelude.{ℕ, Bool, true, ap, arith, ◌||◌, ◌≡◌, some, inr, if◌then◌else◌, ◌==◌}
use chaospay.Payment.{Status, authorized, captured, status_eq, Record}
use chaospay.Payment.Diagram.{◌⟶*◌}
use chaospay.Payment.Evolution.{Touches}
use chaospay.Payment.Repo.{Clock, ok, plain, update}
use chaospay.PayService.{
  World, ServiceConfig, answer, in_repo, after, ensure_reference, send_auto_webhook_for_record,
}
use chaospay.PayService.Freedom.{apply_force, force_fn, capture_commit, set_captured}
use chaospay.PayService.Evolution.{
  find, IsSound, IsGood, IsGood-refl, IsGood-same, IsGood-in_repo, IsGood-bind, IsGood-if,
}
use chaospay.PayService.Evolution.Transitions.{Moves-plain}
use chaospay.PayService.Evolution.Freedom.{IsGood-after, IsGood-ensure_reference, Moves-capture}

repo-send_auto_webhook :
    (cfg : ServiceConfig) (rec : Record) (success taken : Bool) (w : World)
    → (send_auto_webhook_for_record cfg rec success taken w).repo ≡ w.repo
unfolding send_auto_webhook_for_record
repo-send_auto_webhook cfg rec success taken w = ground arith

IsGood-sent :
    (cfg : ServiceConfig) (rec : Record) (success taken : Bool) (w : World)
    → IsSound w
    → IsGood w (after rec (send_auto_webhook_for_record cfg rec success taken) w).1
IsGood-sent cfg rec success taken w s = IsGood-same s (record {
  by_id = ap (λ r. r.by_id) (repo-send_auto_webhook cfg rec success taken w);
  next_id = ap (λ r. r.next_id) (repo-send_auto_webhook cfg rec success taken w);
})

force_fn-Touches : (target : Status) (rec : Record) → Touches rec (force_fn target rec).0
unfolding force_fn status_eq
force_fn-Touches target rec = ground arith

-- A force to a status that the diagram reaches from the one that it finds.
pub IsGood-apply_force :
    (cfg : ServiceConfig) (clock : Clock) (id : ℕ) (target : Status) (w : World)
    → ((rec : Record) → find id w ≡ some rec → rec.status ⟶* target)
    → IsSound w
    → IsGood w (apply_force cfg clock id target w).1
unfolding apply_force force_fn
IsGood-apply_force cfg clock id target w reaches s =
    let written = IsGood-in_repo w (clock 0) id (plain (force_fn target)) s (λ rec h.
      Moves-plain (clock 0) rec w.repo.ref_seed (force_fn target) (force_fn-Touches target rec)
        (inr (reaches rec h))) in
    IsGood-bind w (in_repo (update (clock 0) id (plain (force_fn target)))) _ written (λ updated _.
      let filled =
        IsGood-if (status_eq target authorized || status_eq target captured)
          (ensure_reference clock id updated) (answer (ok updated))
          (λ _. IsGood-ensure_reference clock id updated _ written.sound)
          (λ _. IsGood-refl _ written.sound) in
      IsGood-bind _
        (if status_eq target authorized || status_eq target captured
          then ensure_reference clock id updated
          else answer (ok updated))
        _ filled (λ updated' _. IsGood-sent cfg updated' _ _ _ filled.sound))

-- The second section of a capture, of a payment that is on hold.
pub IsGood-capture_commit :
    (cfg : ServiceConfig) (clock : Clock) (id clearing : ℕ) (seen : Record) (w : World)
    → ((rec : Record) → find id w ≡ some rec → rec.status ≡ authorized)
    → IsSound w
    → IsGood w (capture_commit cfg clock id clearing seen w).1
unfolding capture_commit
IsGood-capture_commit cfg clock id clearing seen w held s =
    let target = if clearing == 0 then seen.amount else clearing in
    let moved =
      IsGood-in_repo w (clock 0) id (plain (set_captured target "capture")) s
        (λ rec h. Moves-capture clock target "capture" rec w.repo.ref_seed (held rec h)) in
    IsGood-bind w (in_repo (update (clock 0) id (plain (set_captured target "capture")))) _ moved
      (λ updated _. IsGood-after cfg updated true true _ moved.sound)
