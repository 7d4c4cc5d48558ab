-- ===== src/PayService/Evolution/Webhooks.antt =====
-- The deliveries of internal/application/pay/service.go and flitt.go that the panel asks for: a payment gets
-- its mark at most.
use chaospay.Prelude.{
  ℕ, String, ◌≡◌, ◌∙◌, ap, Bool, true, false, not, Option, none, some, arith, inl, inr,
  Option-cases, if◌then◌else◌,
}
use chaospay.Prelude.Assoc.{lookup, insert, lookup-insert, nat_eq}
use chaospay.Payment.{Record}
use chaospay.Payment.Evolution.{Touches, Moves-touch}
use chaospay.Payment.Repo.{PayError, PayRepo, Reply, ok, err, ok_err, get, mark_webhook_sent}
use chaospay.PayService.{Delivery, World, ServiceConfig, maybe_flitt_callback}
use chaospay.PayService.Webhooks.{
  Client, with_record, send_and_mark, send_webhook, send_card_webhook, send_epay_postlink,
  send_epay_bind_postlink, send_flitt_callback, send_flitt_bind_callback,
}
use chaospay.PayService.Evolution.{find, IsSound, IsGood, IsGood-refl, IsGood-same, IsGood-write}

mark-Touches : (rec : Record) → Touches rec (record rec { webhook_sent = true })
mark-Touches rec = ground arith

mark_missing : (id : ℕ) (r : PayRepo) → lookup id r.by_id ≡ none → mark_webhook_sent id r ≡ r
unfolding mark_webhook_sent
mark_missing id r h = rw (h, mark_webhook_sent)

mark_found :
    (id : ℕ) (r : PayRepo) {rec : Record}
    → lookup id r.by_id ≡ some rec
    → mark_webhook_sent id r
      ≡ record r { by_id = insert id (record rec { webhook_sent = true }) r.by_id }
unfolding mark_webhook_sent
mark_found id r h = rw (h, mark_webhook_sent)

pub IsGood-mark :
    (id : ℕ) (w : World) → IsSound w → IsGood w (record w { repo = mark_webhook_sent id w.repo })
IsGood-mark id w s = elim (Option-cases (find id w)) [
  | inl missing ↦ IsGood-same s (record {
    by_id = ap (λ r. r.by_id) (mark_missing id w.repo missing);
    next_id = ap (λ r. r.next_id) (mark_missing id w.repo missing);
  })
  | inr (rec, h) ↦
      let marked = record rec { webhook_sent = true } in
      IsGood-write w (record w { repo = mark_webhook_sent id w.repo }) id rec marked h
        (λ j.
          ap (λ (r : PayRepo). lookup j r.by_id) (mark_found id w.repo h)
          ∙ lookup-insert id j marked w.repo.by_id)
        (ap (λ (r : PayRepo). r.next_id) (mark_found id w.repo h)) (Moves-touch (mark-Touches rec))
        s
]

IsGood-send_and_mark :
    (send : Client) (d : Delivery) (id : ℕ) (w : World)
    → IsSound w
    → IsGood w (send_and_mark send d id w).1
unfolding send_and_mark
IsGood-send_and_mark send d id w s = elim (Option-cases (send d)) [
  | inl arrived ↦ rw (arrived, send_and_mark) (IsGood-mark id w s)
  | inr (e, failed) ↦ rw (failed, send_and_mark) (IsGood-refl w s)
]

IsGood-with_record :
    (reply : Reply) (f : Record → Option PayError × World) (w : World)
    → IsSound w
    → ((rec : Record) → IsGood w (f rec).1)
    → IsGood w (with_record reply f w).1
IsGood-with_record (ok rec) f w s h = h rec
IsGood-with_record (err e) f w s h = IsGood-refl w s
IsGood-with_record (ok_err rec e) f w s h = IsGood-refl w s

IsGood-guard :
    (b : Bool) (e : PayError) (x : Option PayError × World) (w : World)
    → IsSound w
    → IsGood w x.1
    → IsGood w (if b then (some e, w) else x).1
IsGood-guard true e x w s h = IsGood-refl w s
IsGood-guard false e x w s h = h

module _ (cfg : ServiceConfig) (send : Client) (id : ℕ) (success : Bool) (w : World)
    (s : IsSound w) where
  pub IsGood-send_webhook : IsGood w (send_webhook send id success w).1
  unfolding send_webhook
  IsGood-send_webhook =
      IsGood-with_record (get id w.repo) _ w s (λ rec. IsGood-send_and_mark send _ id w s)

  pub IsGood-send_flitt_callback : IsGood w (send_flitt_callback cfg send id success w).1
  unfolding send_flitt_callback
  IsGood-send_flitt_callback =
      IsGood-guard (not cfg.flitt_webhook) _ _ w s
        (IsGood-with_record (get id w.repo) _ w s (λ rec. IsGood-send_and_mark send _ id w s))

  pub IsGood-send_flitt_bind_callback : IsGood w (send_flitt_bind_callback cfg send id success w).1
  unfolding send_flitt_bind_callback
  IsGood-send_flitt_bind_callback =
      IsGood-guard (not cfg.flitt_webhook) _ _ w s
        (IsGood-with_record (get id w.repo) _ w s (λ rec. IsGood-send_and_mark send _ id w s))

  pub IsGood-send_epay_postlink :
      (variant : String) → IsGood w (send_epay_postlink cfg send id success variant w).1
  unfolding send_epay_postlink
  IsGood-send_epay_postlink variant =
      IsGood-guard (not cfg.epay_webhook) _ _ w s
        (IsGood-with_record (get id w.repo) _ w s (λ rec. IsGood-refl w s))

  pub IsGood-send_epay_bind_postlink : IsGood w (send_epay_bind_postlink cfg send id success w).1
  unfolding send_epay_bind_postlink
  IsGood-send_epay_bind_postlink =
      IsGood-guard (not cfg.epay_webhook) _ _ w s
        (IsGood-with_record (get id w.repo) _ w s (λ rec. IsGood-refl w s))

pub IsGood-send_card_webhook :
    (send : Client) (id : ℕ) (w : World) → IsSound w → IsGood w (send_card_webhook send id w).1
unfolding send_card_webhook
IsGood-send_card_webhook send id w s =
    IsGood-with_record (get id w.repo) _ w s (λ rec. IsGood-send_and_mark send _ id w s)

repo-maybe_flitt_callback :
    (cfg : ServiceConfig) (rec : Record) (success : Bool) (w : World)
    → (maybe_flitt_callback cfg rec success w).repo ≡ w.repo
unfolding maybe_flitt_callback
repo-maybe_flitt_callback cfg rec success w = ground arith

pub IsGood-maybe_flitt_callback :
    (cfg : ServiceConfig) (rec : Record) (success : Bool) (w : World)
    → IsSound w
    → IsGood w (maybe_flitt_callback cfg rec success w)
IsGood-maybe_flitt_callback cfg rec success w s = IsGood-same s (record {
  by_id = ap (λ r. r.by_id) (repo-maybe_flitt_callback cfg rec success w);
  next_id = ap (λ r. r.next_id) (repo-maybe_flitt_callback cfg rec success w);
})
