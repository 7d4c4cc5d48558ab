-- ===== src/FreedomPay/Operations.antt =====
-- The other requests of internal/ports/api/pay/handlers.go: capture, cancel, refund, the hosted form and
-- the storage of cards.
use Prim.Native.String.{◌++◌ as str_append}
use chaospay.Prelude.{not, ◌==◌, if◌then◌else◌, inl, inr}
use chaospay.Prelude.Words.{pos}
use chaospay.Prelude.Decimal.{decimal}
use chaospay.Prelude.Assoc.{insert, nat_eq}
use chaospay.Payment.{Record}
use chaospay.Payment.Repo.{message, Clock}
use chaospay.PayService.{World}
use chaospay.PayService.Freedom
use chaospay.PayService.Freedom.{create_hosted, create_bind, revoke_with_outcome}
use chaospay.FreedomPay.{text, set}
use chaospay.FreedomPay.Requests.{request_get, uint_from_req, merchant_param_int, set_if}
use chaospay.FreedomPay.Handlers.{HandlerConfig, Handler, answer_with, ok_fields, refund_outcome}

-- `handleCapture`
unfoldable pub handle_capture : HandlerConfig → Clock → Handler
unfolding uint_from_req set
handle_capture cfg clock req sc w =
    if uint_from_req req "pg_payment_id" 0 == 0
    then (inr (message "payment id is required"), w)
    else answer_with
        (Freedom.capture cfg.service clock (uint_from_req req "pg_payment_id" 0)
          (uint_from_req req "pg_clearing_amount" 0) w)
        (λ updated w'. (
          set "pg_clearing_amount" (text (decimal updated.captured_amount))
              (set "pg_amount" (text (decimal updated.amount)) ok_fields),
          w',
        ))

-- `handleCancel`
unfoldable pub handle_cancel : HandlerConfig → Clock → Handler
unfolding uint_from_req
handle_cancel cfg clock req sc w =
    if uint_from_req req "pg_payment_id" 0 == 0
    then (inr (message "payment id is required"), w)
    else answer_with (Freedom.cancel cfg.service clock (uint_from_req req "pg_payment_id" 0) w)
        (λ updated w'. (ok_fields, w'))

-- `handleRevoke`
unfoldable pub handle_revoke : HandlerConfig → Clock → Handler
unfolding uint_from_req set refund_outcome
handle_revoke cfg clock req sc w =
    if uint_from_req req "pg_payment_id" 0 == 0
    then (inr (message "payment id is required"), w)
    else answer_with
        (revoke_with_outcome cfg.service clock (uint_from_req req "pg_payment_id" 0)
          (uint_from_req req "pg_refund_amount" 0) (refund_outcome sc) w)
        (λ updated w'.
          (set "pg_revoke_payment_id" (text (decimal updated.payment_id)) ok_fields, w'))

-- A write through the pointer that `CreateHosted` and `CreateBind` return, which is the stored one.
unfoldable pub write_through : Record → World → World
write_through rec w = record w {
  repo = record w.repo { by_id = insert rec.payment_id rec w.repo.by_id };
}

-- `handleInitPayment`
unfoldable pub handle_init_payment : HandlerConfig → Clock → Handler
unfolding uint_from_req merchant_param_int request_get set write_through
handle_init_payment cfg clock req sc w =
    answer_with
      (create_hosted clock
        (record {
          order_id = uint_from_req req "pg_order_id" 0;
          merchant_id = uint_from_req req "pg_merchant_id" 0;
          terminal_id = merchant_param_int req "terminal_id" cfg.default_terminal_id;
          cabinet_id = merchant_param_int req "cabinet_id" (pos 0);
          user_id = uint_from_req req "pg_user_id" 0;
          amount = uint_from_req req "pg_amount" 0;
          currency = request_get req "pg_currency" "";
          description = request_get req "pg_description" "";
          user_phone = request_get req "pg_user_phone" "";
          user_email = request_get req "pg_user_contact_email" "";
          redirect_url = "";
        })
        w)
      (λ rec w'.
        let url =
          str_append cfg.hosted_form_url (str_append "&customer=" (decimal rec.payment_id)) in
        let out1 = set "pg_payment_id" (text (decimal rec.payment_id)) ok_fields in
        let out2 = set "pg_redirect_url" (text url) out1 in
        (
          set "pg_redirect_url_type" (text "auto") out2,
          write_through (record rec { hosted_redirect_url = url }) w',
        ))

-- `handleAddCard`
unfoldable pub handle_add_card : HandlerConfig → Clock → Handler
unfolding uint_from_req merchant_param_int request_get set set_if write_through
handle_add_card cfg clock req sc w =
    answer_with
      (create_bind clock
        (record {
          order_id = uint_from_req req "pg_order_id" 0;
          merchant_id = uint_from_req req "pg_merchant_id" 0;
          terminal_id = merchant_param_int req "terminal_id" cfg.default_terminal_id;
          cabinet_id = merchant_param_int req "cabinet_id" (pos 0);
          user_id = uint_from_req req "pg_user_id" 0;
          post_link = request_get req "pg_post_link" "";
          redirect_url = "";
        })
        w)
      (λ rec w'.
        let url = str_append cfg.hosted_form_url (str_append "&bind=" (decimal rec.payment_id)) in
        let out1 = set "pg_payment_id" (text (decimal rec.payment_id)) ok_fields in
        let out2 = set "pg_redirect_url" (text url) out1 in
        (
          set_if (not (rec.order_id == 0)) "pg_order_id" (text (decimal rec.order_id)) out2,
          write_through (record rec { bind_redirect_url = url }) w',
        ))

-- `handleRemoveCard`
unfoldable pub handle_remove_card : Handler
handle_remove_card req sc w = (inl ok_fields, w)
