-- ===== src/PayService/Webhooks.antt =====
-- The webhooks that the panel sends at once: `SendWebhook`, `SendCardWebhook`, `SendEpayPostlink` and
-- `SendEpayBindPostlink` of internal/application/pay/service.go, `SendFlittCallback` and
-- `SendFlittBindCallback` of internal/application/pay/flitt.go. `send` is the webhook client: it
-- answers a delivery with its error, if any.
use chaospay.Prelude.{ℕ, String, Bool, true, false, not, Option, none, some, str_eq, if◌then◌else◌}
use chaospay.Prelude.Words.{ℤ}
use chaospay.Payment.{captured, status_eq, Record}
use chaospay.Payment.Repo.{
  PayError, epay_webhook_not_configured, flitt_webhook_not_configured, Reply, ok, err, ok_err, get,
  mark_webhook_sent,
}
use chaospay.PayService.{
  Delivery, freedom_webhook, card_webhook, epay_success, epay_failure, epay_bind, flitt_callback,
  flitt_bind_callback, World, ServiceConfig,
}

abbrev pub Client : Type 0
Client = Delivery → Option PayError

-- `rec, err := s.repo.Get(id); if err != nil { return err }`
abbrev pub with_record :
    Reply → (Record → Option PayError × World) → World → Option PayError × World
with_record (ok rec) f w = f rec
with_record (err e) f w = (some e, w)
with_record (ok_err rec e) f w = (some e, w)

-- Send, and mark the payment if the client reports no error.
unfoldable pub send_and_mark : Client → Delivery → ℕ → World → Option PayError × World
send_and_mark send d id w = elim (send d) [
  | some e ↦ (some e, w)
  | none ↦ (none, record w { repo = mark_webhook_sent id w.repo })
]

-- `SendWebhook`
unfoldable pub send_webhook : Client → ℕ → Bool → World → Option PayError × World
unfolding send_and_mark status_eq
send_webhook send id success w =
    with_record (get id w.repo)
      (λ rec. send_and_mark send (freedom_webhook rec success (status_eq rec.status captured)) id w)
      w

-- `SendCardWebhook`
unfoldable pub send_card_webhook : Client → ℕ → World → Option PayError × World
unfolding send_and_mark
send_card_webhook send id w =
    with_record (get id w.repo) (λ rec. send_and_mark send (card_webhook rec) id w) w

-- The `switch` on the variant of `SendEpayPostlink`; `rec` is a copy.
unfoldable pub postlink_variant : String → Record → Record
postlink_variant variant rec =
    if str_eq variant "lost-order"
    then record rec { epay = record rec.epay { invoice_id = "999999999" } }
    else if str_eq variant "missing-fields"
    then record rec { card = record rec.card { pan = ""; brand = ""; owner = "" }; reference = 0 }
    else rec

-- `SendEpayPostlink`
unfoldable pub send_epay_postlink :
    ServiceConfig → Client → ℕ → Bool → String → World → Option PayError × World
unfolding postlink_variant
send_epay_postlink cfg send id success variant w =
    if not cfg.epay_webhook
    then (some epay_webhook_not_configured, w)
    else with_record (get id w.repo)
        (λ rec.
          let sent = postlink_variant variant rec in
          (
            send (
                if success
                then epay_success sent
                else epay_failure sent (ℤ.pos 484) "Insufficient funds"),
            w,
          ))
        w

-- `SendEpayBindPostlink`
unfoldable pub send_epay_bind_postlink :
    ServiceConfig → Client → ℕ → Bool → World → Option PayError × World
send_epay_bind_postlink cfg send id success w =
    if not cfg.epay_webhook
    then (some epay_webhook_not_configured, w)
    else with_record (get id w.repo)
        (λ rec. (
          send (
              if success
              then epay_bind rec true (ℤ.pos 0) "success"
              else epay_bind rec false (ℤ.negsuc 443) "Card binding failed"),
          w,
        ))
        w

-- `SendFlittCallback`
unfoldable pub send_flitt_callback :
    ServiceConfig → Client → ℕ → Bool → World → Option PayError × World
unfolding send_and_mark
send_flitt_callback cfg send id success w =
    if not cfg.flitt_webhook
    then (some flitt_webhook_not_configured, w)
    else with_record (get id w.repo) (λ rec. send_and_mark send (flitt_callback rec success) id w) w

-- `SendFlittBindCallback`
unfoldable pub send_flitt_bind_callback :
    ServiceConfig → Client → ℕ → Bool → World → Option PayError × World
unfolding send_and_mark
send_flitt_bind_callback cfg send id success w =
    if not cfg.flitt_webhook
    then (some flitt_webhook_not_configured, w)
    else with_record (get id w.repo)
        (λ rec. send_and_mark send (flitt_bind_callback rec success) id w) w
