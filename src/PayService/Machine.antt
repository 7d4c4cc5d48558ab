-- ===== src/PayService/Machine.antt =====
-- The payment service as a machine: a step is a call of one of its methods, from its start to its end,
-- a goroutine that a handler starts, or one that has been started and now gets the answer of its
-- webhook client. The force action is a step only where the diagram reaches its status from the
-- payment's. The two critical sections of a Capture may also be apart, with other steps between them,
-- where the payment is still on hold at the second one. Other methods that overlap are no steps here,
-- nor is a Capture that overtakes a Cancel (PayService/Answers/Races), nor is `Reset`, with which the
-- panel empties the store. Each step has a number left for a new payment (there are 2^64 of them).
use chaospay.Prelude.{ℕ, String, ◌≡◌, refl, sym, Bool, Option, none, some, List, [], ◌∷◌, ◌++◌}
use mathlib.Core.Path.{subst}
use chaospay.Prelude.Words.{ℤ}
use chaospay.Prelude.Assoc.{lookup, nat_eq}
use chaospay.Payment.{Time, Status, authorized, Kind, Record, RefundStatus}
use chaospay.Payment.Diagram.{◌⟶*◌, IsFinal, final_stays}
use chaospay.Payment.Repo.{PayError, Clock, mark_webhook_sent, new_pay_repo}
use chaospay.PayService.{World, ServiceConfig, Task, finish_task, maybe_flitt_callback}
use chaospay.PayService.Freedom
use chaospay.PayService.Freedom.{
  HoldInitInput, HostedInput, BindInput, hold_init, create_hosted, create_bind, revoke_with_outcome,
  authorize_wallet, apply_force, capture_commit,
}
use chaospay.PayService.Epay.{
  EpayAuthorizeInput, epay_authorize, epay_late_operation, epay_reveal, epay_reveal_invoice,
  epay_decline, epay_charge, epay_cancel, epay_refund,
}
use chaospay.PayService.Flitt.{
  FlittCheckoutInput, FlittDirectInput, FlittRecurringInput, flitt_checkout_url, flitt_direct,
  flitt_recurring_charge, flitt_capture, flitt_reverse, flitt_complete_3ds,
}
use chaospay.PayService.Evolution.{
  find, IsSound, IsGood, IsGood-refl, IsGood-trans, IsGood-same, Evolves, HasRoom,
}
use chaospay.PayService.Evolution.Freedom.{
  Keeps-hold_init, Keeps-hold, Keeps-capture, Keeps-cancel, Keeps-revoke, Keeps-create_hosted,
  Keeps-create_bind, Keeps-authorize_wallet,
}
use chaospay.PayService.Evolution.Epay.{
  Keeps-epay_authorize, Keeps-epay_late_operation, Keeps-epay_decline, Keeps-epay_charge,
  Keeps-epay_cancel, Keeps-epay_refund, IsGood-epay_reveal, IsGood-epay_reveal_invoice,
}
use chaospay.PayService.Evolution.Flitt.{
  Keeps-flitt_checkout_url, Keeps-flitt_direct, Keeps-flitt_recurring_charge, Keeps-flitt_capture,
  Keeps-flitt_reverse, Keeps-flitt_complete_3ds,
}
use chaospay.PayService.Webhooks.{
  Client, send_webhook, send_card_webhook, send_epay_postlink, send_epay_bind_postlink,
  send_flitt_callback, send_flitt_bind_callback,
}
use chaospay.PayService.Evolution.Webhooks.{
  IsGood-mark, IsGood-send_webhook, IsGood-send_card_webhook, IsGood-send_epay_postlink,
  IsGood-send_epay_bind_postlink, IsGood-send_flitt_callback, IsGood-send_flitt_bind_callback,
  IsGood-maybe_flitt_callback,
}
use chaospay.PayService.Evolution.Forced.{IsGood-apply_force, IsGood-capture_commit}

-- A call with its arguments.
pub data Call : Type 0 where
  hold_init_call : HoldInitInput → Call
  hosted_call : HostedInput → Call
  bind_call : BindInput → Call
  hold_call cancel_call : ℕ → Call
  capture_call : ℕ → ℕ → Call
  revoke_call : ℕ → ℕ → RefundStatus → Call
  wallet_call : ℕ → Kind → Call
  epay_authorize_call : EpayAuthorizeInput → Call
  epay_late_call : EpayAuthorizeInput → Bool → Time → Call
  epay_decline_call : EpayAuthorizeInput → ℤ → String → Call
  epay_charge_call epay_refund_call : ℕ → ℤ → Call
  epay_cancel_call epay_reveal_call : ℕ → Call
  epay_reveal_invoice_call : (List Record → List Record) → String → Call
  flitt_checkout_call : FlittCheckoutInput → Call
  flitt_direct_call : FlittDirectInput → Call
  flitt_recurring_call : FlittRecurringInput → Call
  flitt_capture_call flitt_reverse_call : ℕ → ℕ → Call
  flitt_complete_call : ℕ → Call
  webhook_call flitt_callback_call flitt_bind_callback_call : Client → ℕ → Bool → Call
  card_webhook_call : Client → ℕ → Call
  epay_postlink_call : Client → ℕ → Bool → String → Call
  epay_bind_postlink_call : Client → ℕ → Bool → Call
  maybe_flitt_callback_call : Record → Bool → Call

-- What a call leaves behind.
unfoldable pub run : ServiceConfig → Clock → Call → World → World
run cfg clock (hold_init_call in_) w = (hold_init clock in_ w).1
run cfg clock (hosted_call in_) w = (create_hosted clock in_ w).1
run cfg clock (bind_call in_) w = (create_bind clock in_ w).1
run cfg clock (hold_call id) w = (Freedom.hold cfg clock id w).1
run cfg clock (cancel_call id) w = (Freedom.cancel cfg clock id w).1
run cfg clock (capture_call id amount) w = (Freedom.capture cfg clock id amount w).1
run cfg clock (revoke_call id amount outcome) w =
    (revoke_with_outcome cfg clock id amount outcome w).1
run cfg clock (wallet_call id kind) w = (authorize_wallet cfg clock id kind w).1
run cfg clock (epay_authorize_call in_) w = (epay_authorize clock in_ w).1
run cfg clock (epay_late_call in_ taken visible_at) w =
    (epay_late_operation clock in_ taken visible_at w).1
run cfg clock (epay_decline_call in_ code reason) w = (epay_decline clock in_ code reason w).1
run cfg clock (epay_charge_call id amount) w = (epay_charge clock id amount w).1
run cfg clock (epay_refund_call id amount) w = (epay_refund clock id amount w).1
run cfg clock (epay_cancel_call id) w = (epay_cancel clock id w).1
run cfg clock (epay_reveal_call id) w = (epay_reveal clock id w).1
run cfg clock (epay_reveal_invoice_call order invoice_id) w =
    (epay_reveal_invoice order clock invoice_id w).1
run cfg clock (flitt_checkout_call in_) w = (flitt_checkout_url clock in_ w).1
run cfg clock (flitt_direct_call in_) w = (flitt_direct clock in_ w).1
run cfg clock (flitt_recurring_call in_) w = (flitt_recurring_charge clock in_ w).1
run cfg clock (flitt_capture_call id amount) w = (flitt_capture clock id amount w).1
run cfg clock (flitt_reverse_call id amount) w = (flitt_reverse clock id amount w).1
run cfg clock (flitt_complete_call id) w = (flitt_complete_3ds clock id w).1
run cfg clock (webhook_call send id success) w = (send_webhook send id success w).1
run cfg clock (card_webhook_call send id) w = (send_card_webhook send id w).1
run cfg clock (flitt_callback_call send id success) w =
    (send_flitt_callback cfg send id success w).1
run cfg clock (flitt_bind_callback_call send id success) w =
    (send_flitt_bind_callback cfg send id success w).1
run cfg clock (epay_postlink_call send id success variant) w =
    (send_epay_postlink cfg send id success variant w).1
run cfg clock (epay_bind_postlink_call send id success) w =
    (send_epay_bind_postlink cfg send id success w).1
run cfg clock (maybe_flitt_callback_call rec success) w = maybe_flitt_callback cfg rec success w

-- One of the started goroutines is taken off, and finishes.
unfoldable pub deliver : List Task → Task → List Task → Option PayError → World → World
deliver before t after answer w = finish_task t answer (record w { spawned = before ++ after })

pub data Step (cfg : ServiceConfig) (w w' : World) : Type 0 where
  call : (clock : Clock) (c : Call) → w' ≡ run cfg clock c w → Step cfg w w'
  forced :
      (clock : Clock) (id : ℕ) (target : Status)
      → ((rec : Record) → find id w ≡ some rec → rec.status ⟶* target)
      → w' ≡ (apply_force cfg clock id target w).1
      → Step cfg w w'
  committed :
      (clock : Clock) (id clearing : ℕ) (seen : Record)
      → ((rec : Record) → find id w ≡ some rec → rec.status ≡ authorized)
      → w' ≡ (capture_commit cfg clock id clearing seen w).1
      → Step cfg w w'
  started : (t : Task) → w' ≡ record w { spawned = w.spawned ++ t ∷ [] } → Step cfg w w'
  delivery :
      (before : List Task) (t : Task) (after : List Task) (answer : Option PayError)
      → w.spawned ≡ before ++ t ∷ after
      → w' ≡ deliver before t after answer w
      → Step cfg w w'

pub data Steps (cfg : ServiceConfig) (w : World) : World → Type 0 where
  none_yet : Steps cfg w w
  step_on : {u v : World} → Steps cfg w u → HasRoom u → Step cfg u v → Steps cfg w v

run-IsGood :
    (cfg : ServiceConfig) (clock : Clock) (c : Call) (w : World)
    → IsSound w
    → HasRoom w
    → IsGood w (run cfg clock c w)
unfolding run
run-IsGood cfg clock (hold_init_call in_) w s room = (Keeps-hold_init clock in_).at w s room
run-IsGood cfg clock (hosted_call in_) w s room = (Keeps-create_hosted clock in_).at w s room
run-IsGood cfg clock (bind_call in_) w s room = (Keeps-create_bind clock in_).at w s room
run-IsGood cfg clock (hold_call id) w s room = (Keeps-hold cfg clock id).at w s room
run-IsGood cfg clock (cancel_call id) w s room = (Keeps-cancel cfg clock id).at w s room
run-IsGood cfg clock (capture_call id amount) w s room =
    (Keeps-capture cfg clock id amount).at w s room
run-IsGood cfg clock (revoke_call id amount outcome) w s room =
    (Keeps-revoke cfg clock id amount outcome).at w s room
run-IsGood cfg clock (wallet_call id kind) w s room =
    (Keeps-authorize_wallet cfg clock id kind).at w s room
run-IsGood cfg clock (epay_authorize_call in_) w s room =
    (Keeps-epay_authorize clock in_).at w s room
run-IsGood cfg clock (epay_late_call in_ taken visible_at) w s room =
    (Keeps-epay_late_operation clock in_ taken visible_at).at w s room
run-IsGood cfg clock (epay_decline_call in_ code reason) w s room =
    (Keeps-epay_decline clock in_ code reason).at w s room
run-IsGood cfg clock (epay_charge_call id amount) w s room =
    (Keeps-epay_charge clock id amount).at w s room
run-IsGood cfg clock (epay_refund_call id amount) w s room =
    (Keeps-epay_refund clock id amount).at w s room
run-IsGood cfg clock (epay_cancel_call id) w s room = (Keeps-epay_cancel clock id).at w s room
run-IsGood cfg clock (epay_reveal_call id) w s room = IsGood-epay_reveal clock id w s
run-IsGood cfg clock (epay_reveal_invoice_call order invoice_id) w s room =
    IsGood-epay_reveal_invoice order clock invoice_id w s
run-IsGood cfg clock (flitt_checkout_call in_) w s room =
    (Keeps-flitt_checkout_url clock in_).at w s room
run-IsGood cfg clock (flitt_direct_call in_) w s room = (Keeps-flitt_direct clock in_).at w s room
run-IsGood cfg clock (flitt_recurring_call in_) w s room =
    (Keeps-flitt_recurring_charge clock in_).at w s room
run-IsGood cfg clock (flitt_capture_call id amount) w s room =
    (Keeps-flitt_capture clock id amount).at w s room
run-IsGood cfg clock (flitt_reverse_call id amount) w s room =
    (Keeps-flitt_reverse clock id amount).at w s room
run-IsGood cfg clock (flitt_complete_call id) w s room =
    (Keeps-flitt_complete_3ds clock id).at w s room
run-IsGood cfg clock (webhook_call send id success) w s room =
    IsGood-send_webhook cfg send id success w s
run-IsGood cfg clock (card_webhook_call send id) w s room = IsGood-send_card_webhook send id w s
run-IsGood cfg clock (flitt_callback_call send id success) w s room =
    IsGood-send_flitt_callback cfg send id success w s
run-IsGood cfg clock (flitt_bind_callback_call send id success) w s room =
    IsGood-send_flitt_bind_callback cfg send id success w s
run-IsGood cfg clock (epay_postlink_call send id success variant) w s room =
    IsGood-send_epay_postlink cfg send id success w s variant
run-IsGood cfg clock (epay_bind_postlink_call send id success) w s room =
    IsGood-send_epay_bind_postlink cfg send id success w s
run-IsGood cfg clock (maybe_flitt_callback_call rec success) w s room =
    IsGood-maybe_flitt_callback cfg rec success w s

finish_task-IsGood :
    (t : Task) (answer : Option PayError) (w : World)
    → IsSound w
    → IsGood w (finish_task t answer w)
unfolding finish_task
finish_task-IsGood t (some e) w s = IsGood-refl w s
finish_task-IsGood t none w s = go t.mark
  where
    go :
        (m : Option ℕ)
        → IsGood w (elim m [ none ↦ w | some id ↦ record w { repo = mark_webhook_sent id w.repo } ])
    go none = IsGood-refl w s
    go (some id) = IsGood-mark id w s

Step-IsGood :
    {cfg : ServiceConfig} {w w' : World} → Step cfg w w' → IsSound w → HasRoom w → IsGood w w'
unfolding deliver
Step-IsGood {cfg} {w} (call clock c e) s room =
    subst (IsGood w) (sym e) (run-IsGood cfg clock c w s room)
Step-IsGood {cfg} {w} (forced clock id target reaches e) s room =
    subst (IsGood w) (sym e) (IsGood-apply_force cfg clock id target w reaches s)
Step-IsGood {cfg} {w} (committed clock id clearing seen held e) s room =
    subst (IsGood w) (sym e) (IsGood-capture_commit cfg clock id clearing seen w held s)
Step-IsGood {w = w} (started t e) s room =
    subst (IsGood w) (sym e) (IsGood-same s (record { by_id = refl; next_id = refl }))
Step-IsGood {w = w} (delivery before t after answer split e) s room =
    let popped =
      IsGood-same {w' = record w { spawned = before ++ after }} s
        (record { by_id = refl; next_id = refl }) in
    subst (IsGood w) (sym e) (
      IsGood-trans popped
        (finish_task-IsGood t answer (record w { spawned = before ++ after }) popped.sound))

-- A run of the machine: methods of the service called one after the other, in any order, with any
-- arguments and at any times, and goroutines that start and finish at any point between them.
-- `ApplyForce` is in the run only where the diagram reaches its target from the payment's status, and
-- the second section of a `Capture` on its own only where the payment is still on hold. From a sound
-- store such a run leaves a sound store (each key holds the payment of that number, no number is ahead
-- of the counter, each history is an unbroken chain that ends in the payment's status), and no payment
-- is lost: it keeps its number, bank, order, merchant, amount and creation time, its status has moved
-- along the arrows of the diagram, and its history has only been extended.
pub Steps-IsGood :
    {cfg : ServiceConfig} {w w' : World} → IsSound w → Steps cfg w w' → IsSound w' × Evolves w w'
Steps-IsGood s steps = let g = go s steps in (g.sound, g.evolves)
  where
    go : {cfg : ServiceConfig} {w w' : World} → IsSound w → Steps cfg w w' → IsGood w w'
    go s none_yet = IsGood-refl _ s
    go s (step_on before room st) =
        let g = go s before in IsGood-trans g (Step-IsGood st g.sound room)

-- A payment that is cancelled, fully refunded or failed keeps that status over any run of the machine:
-- over any methods of the service called one after the other, and any goroutines that start and finish
-- between them. A run has no `ApplyForce` to a status that the diagram does not reach from the
-- payment's, and no methods that overlap, except that other steps may stand in front of the second
-- section of a `Capture` that finds the payment on hold.
pub final_for_ever :
    {cfg : ServiceConfig} {w w' : World} (id : ℕ) (rec : Record)
    → IsSound w
    → find id w ≡ some rec
    → IsFinal rec.status
    → Steps cfg w w'
    → (now : Record) × (find id w' ≡ some now) × (now.status ≡ rec.status)
final_for_ever id rec s h f steps =
    let there = (Steps-IsGood s steps).1.payments id rec h in
    (there.now, there.is_found, final_stays f there.moves.path)

-- The world of a new process.
abbrev pub start : Time → World
start now = record { repo = new_pay_repo now; spawned = [] }

pub start-IsSound : (now : Time) → IsSound (start now)
unfolding new_pay_repo lookup
start-IsSound now = record { at_key = λ k rec h. cc }
