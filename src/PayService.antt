-- ===== src/PayService.antt =====
-- internal/application/pay: the service of card payments. A method is an action on the `World`: the
-- store, and the goroutines that a method has started and that have not run yet (each sends one
-- webhook). What a webhook client answers is an argument, since the client calls another system.
pub mod Freedom
pub mod Epay
pub mod Flitt
pub mod Webhooks
pub mod Evolution
pub mod Answers
mod Samples
mod Tests
mod BankTests
pub mod Machine
use chaospay.Prelude.{
  ℕ, ◌+◌, String, Bool, true, false, not, ◌&&◌, ◌||◌, Option, none, some, List, [], ◌∷◌, ◌++◌, ◌==◌,
  str_eq, if◌then◌else◌,
}
use chaospay.Prelude.Words.{ℤ, add64}
use chaospay.Bank.{Bank, freedom, epay, flitt, bank_eq}
use chaospay.Payment.{Record, Status}
use chaospay.Payment.Repo.{
  PayError, PayRepo, Reply, ok, err, ok_err, Clock, get, update, plain, move, mark_webhook_sent,
}

-- What a webhook client is asked to send.
pub data Delivery : Type 0 where
  freedom_webhook : Record → Bool → Bool → Delivery
  card_webhook : Record → Delivery
  epay_success : Record → Delivery
  epay_failure : Record → ℤ → String → Delivery
  epay_bind : Record → Bool → ℤ → String → Delivery
  flitt_callback : Record → Bool → Delivery
  flitt_bind_callback : Record → Bool → Delivery

-- A started goroutine: the delivery, and the payment to mark when it succeeds.
pub record Task : Type 0 where
  pub delivery : Delivery
  pub mark : Option ℕ

pub record World : Type 0 where
  pub repo : PayRepo
  pub spawned : List Task

-- `AutoWebhookConfig`
pub record AutoWebhookConfig : Type 0 where
  pub freedom : Bool
  pub epay : Bool
  pub flitt : Bool

-- `Service`, without its store: which clients are not nil, and the flags.
pub record ServiceConfig : Type 0 where
  pub webhook : Bool
  pub epay_webhook : Bool
  pub flitt_webhook : Bool
  pub auto_webhook : AutoWebhookConfig

abbrev pub Exec : Type 0
Exec = World → Reply × World

abbrev pub continue : Reply × World → (Record → Exec) → Reply × World
continue (ok rec, w) f = f rec w
continue (err e, w) f = (err e, w)
continue (ok_err rec e, w) f = (err e, w)

-- `rec, err := m; if err != nil { return nil, err }`
infixl 10 ◌>>=◌
abbrev pub ◌>>=◌ : Exec → (Record → Exec) → Exec
◌>>=◌ m f w = continue (m w) f

abbrev pub answer : Reply → Exec
answer reply w = (reply, w)

-- A method of the store.
abbrev pub in_repo : (PayRepo → Reply × PayRepo) → Exec
in_repo m w = let (reply, repo) = m w.repo in (reply, record w { repo = repo })

abbrev pub fetch : ℕ → Exec
fetch id w = (get id w.repo, w)

-- `return rec, nil` after an effect.
abbrev pub after : Record → (World → World) → Exec
after rec effect w = (ok rec, effect w)

-- `go func() { … }()`
unfoldable pub spawn : Delivery → Option ℕ → World → World
spawn d mark w = record w { spawned = w.spawned ++ record { delivery = d; mark = mark } ∷ [] }

abbrev pub reference_base : ℕ
reference_base = 613554000000

-- `defaultStr`
unfoldable pub default_str : String → String → String
default_str v def = if str_eq v "" then def else v

-- The callback of `ensureReference`.
unfoldable pub fill_reference : Record → Record
fill_reference r =
    if r.reference == 0 then record r { reference = add64 reference_base r.payment_id } else r

abbrev pub reply_or : Record → Reply × World → Reply × World
reply_or rec (ok updated, w) = (ok updated, w)
reply_or rec (err e, w) = (ok rec, w)
reply_or rec (ok_err updated e, w) = (ok rec, w)

-- `ensureReference`
unfoldable pub ensure_reference : Clock → ℕ → Record → Exec
unfolding fill_reference
ensure_reference clock id rec w =
    if not (rec.reference == 0)
    then (ok rec, w)
    else reply_or rec
        (in_repo (update (clock 3) id (plain (λ r. (fill_reference r, move r.status "")))) w)

-- `maybeWebhook`
unfoldable pub maybe_webhook : ServiceConfig → Record → Bool → Bool → World → World
unfolding spawn bank_eq
maybe_webhook cfg rec success captured w =
    if not cfg.auto_webhook.freedom || not cfg.webhook
    then w
    else if not (bank_eq rec.bank freedom)
    then w
    else spawn (freedom_webhook rec success captured) (some rec.payment_id) w

-- `sendAutoWebhookForRecord`, at a record that is not nil.
auto_webhook_for : Bank → ServiceConfig → Record → Bool → Bool → World → World
unfolding spawn
auto_webhook_for epay cfg rec success captured w =
    if not cfg.auto_webhook.epay || not cfg.epay_webhook
    then w
    else spawn
        (if success then epay_success rec else epay_failure rec (ℤ.pos 477) "panel force fail") none
        w
auto_webhook_for flitt cfg rec success captured w =
    if not cfg.auto_webhook.flitt || not cfg.flitt_webhook
    then w
    else spawn (flitt_callback rec success) none w
auto_webhook_for _ cfg rec success captured w =
    if not cfg.auto_webhook.freedom || not cfg.webhook
    then w
    else spawn (freedom_webhook rec success captured) none w

unfoldable pub send_auto_webhook_for_record : ServiceConfig → Record → Bool → Bool → World → World
unfolding auto_webhook_for
send_auto_webhook_for_record cfg rec success captured w =
    auto_webhook_for rec.bank cfg rec success captured w

-- `MaybeFlittCallback`
unfoldable pub maybe_flitt_callback : ServiceConfig → Record → Bool → World → World
unfolding spawn
maybe_flitt_callback cfg rec success w =
    if not cfg.auto_webhook.flitt || not cfg.flitt_webhook
    then w
    else spawn (flitt_callback rec success) (some rec.payment_id) w

-- The body of a goroutine, once its client has answered: a delivered webhook marks its payment.
unfoldable pub finish_task : Task → Option PayError → World → World
finish_task t (some e) w = w
finish_task t none w = elim t.mark [
  | none ↦ w
  | some id ↦ record w { repo = mark_webhook_sent id w.repo }
]
