-- ===== src/PayService/Answers/Silence.antt =====
-- The automatic webhooks of internal/application/pay/service.go: `maybeWebhook` sends one only for a
-- record whose bank is Freedom, and the methods that create Freedom's payments set no bank.
use chaospay.Prelude.{ℕ, ◌≡◌, refl, ◌∙◌, ◌||◌, some, ◌==◌, str_eq}
use chaospay.Payment.{Record, RefundStatus}
use chaospay.Payment.Repo.{ok, Clock, next_payment_id, create, prepare}
use chaospay.PayService.{World, Exec, ServiceConfig}
use chaospay.PayService.Freedom
use chaospay.PayService.Freedom.{
  HoldInitInput, HostedInput, BindInput, hold_init, hold_init_record, create_hosted, hosted_record,
  create_bind, bind_record, create_fresh, capture_commit, set_captured, revoke_with_outcome,
  revoke_fn, refund_delta, is_refundable, add_refund,
}
use chaospay.PayService.Evolution.{find, IsSound, HasRoom, Keeps}
use chaospay.PayService.Evolution.Creation.{IsLiteral, created_found, fresh_id}
use chaospay.PayService.Machine.{Steps, Steps-IsGood}
use chaospay.PayService.Evolution.Freedom.{
  Keeps-hold_init, Keeps-create_hosted, Keeps-create_bind, hold_init-IsLiteral, hosted-IsLiteral,
  bind-IsLiteral,
}
use chaospay.PayService.Answers.{Post, Post-if}
use chaospay.PayService.Answers.Holds.{Post-at}
use chaospay.PayService.Answers.Quiet.{
  NoBank, Silent-hold, Silent-capture, Silent-cancel, Silent-revoke,
}

-- A payment that has just been created without a bank.
abbrev Bare : Record → World → Type 0
Bare rec w = (find rec.payment_id w ≡ some rec) × NoBank rec

Bare-fresh :
    (clock : Clock) (literal : ℕ → Record) (w : World)
    → IsLiteral (fresh_id w) (literal (fresh_id w))
    → ((id : ℕ) → NoBank (literal id))
    → IsSound w
    → HasRoom w
    → Post Bare (create_fresh clock literal w)
unfolding create_fresh create next_payment_id prepare
Bare-fresh clock literal w l bare s room =
    (created_found clock literal w l s room, bare (fresh_id w))

-- The three ways in which a payment of Freedom is created.
pub data FreedomInput : Type 0 where
  by_hold : HoldInitInput → FreedomInput
  by_form : HostedInput → FreedomInput
  by_bind : BindInput → FreedomInput

abbrev pub create_freedom : Clock → FreedomInput → Exec
create_freedom clock (by_hold in_) = hold_init clock in_
create_freedom clock (by_form in_) = create_hosted clock in_
create_freedom clock (by_bind in_) = create_bind clock in_

Bare-created :
    (clock : Clock) (in_ : FreedomInput) (w : World)
    → IsSound w
    → HasRoom w
    → Post Bare (create_freedom clock in_ w)
unfolding hold_init create_hosted create_bind hold_init_record hosted_record bind_record
Bare-created clock (by_hold in_) w s room =
    Post-if Bare w (str_eq in_.card_token "") _ _ (λ _. tt)
      (λ _.
        Post-if Bare w (in_.amount == 0) _ _ (λ _. tt)
          (λ _.
            Post-if Bare w (in_.user_id == 0) _ _ (λ _. tt)
              (λ _.
                Bare-fresh clock (hold_init_record in_) w (hold_init-IsLiteral in_ _) (λ id. refl) s
                  room)))
Bare-created clock (by_form in_) w s room =
    Post-if Bare w (in_.order_id == 0 || in_.amount == 0) _ _ (λ _. tt)
      (λ _. Bare-fresh clock (hosted_record in_) w (hosted-IsLiteral in_ _) (λ id. refl) s room)
Bare-created clock (by_bind in_) w s room =
    Post-if Bare w (in_.user_id == 0) _ _ (λ _. tt)
      (λ _. Bare-fresh clock (bind_record in_) w (bind-IsLiteral in_ _) (λ id. refl) s room)

Keeps-created : (clock : Clock) (in_ : FreedomInput) → Keeps (create_freedom clock in_)
Keeps-created clock (by_hold in_) = Keeps-hold_init clock in_
Keeps-created clock (by_form in_) = Keeps-create_hosted clock in_
Keeps-created clock (by_bind in_) = Keeps-create_bind clock in_

-- A payment that HoldInit, CreateHosted or CreateBind has created never gets an automatic webhook from
-- Hold, Capture, Cancel or a refund, whatever the configuration says and whatever run of the machine
-- there has been in between: none of these calls starts a goroutine.
pub freedom_webhooks_never_start :
    {cfg : ServiceConfig} (clock clock' : Clock) (in_ : FreedomInput) (w w' : World) (rec : Record)
    (amount : ℕ) (outcome : RefundStatus)
    → IsSound w
    → HasRoom w
    → (create_freedom clock in_ w).0 ≡ ok rec
    → Steps cfg (create_freedom clock in_ w).1 w'
    → ((Freedom.hold cfg clock' rec.payment_id w').1.spawned ≡ w'.spawned)
      × ((Freedom.capture cfg clock' rec.payment_id amount w').1.spawned ≡ w'.spawned)
      × ((Freedom.cancel cfg clock' rec.payment_id w').1.spawned ≡ w'.spawned)
      × ((revoke_with_outcome cfg clock' rec.payment_id amount outcome w').1.spawned ≡ w'.spawned)
freedom_webhooks_never_start {cfg} clock clock' in_ w w' rec amount outcome s room e steps =
    let bare = Post-at Bare (create_freedom clock in_ w) (Bare-created clock in_ w s room) e in
    let sound = ((Keeps-created clock in_).at w s room).sound in
    let there = (Steps-IsGood sound steps).1.payments rec.payment_id rec bare.0 in
    let none_set = there.moves.same.bank ∙ bare.1 in
    let id = rec.payment_id in
    (
      (Silent-hold cfg clock' id w' there.now there.is_found none_set).quiet,
      (Silent-capture cfg clock' id w' there.now there.is_found none_set amount).quiet,
      (Silent-cancel cfg clock' id w' there.now there.is_found none_set).quiet,
      (Silent-revoke cfg clock' id w' there.now there.is_found none_set amount outcome).quiet,
    )
