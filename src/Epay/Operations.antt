-- ===== src/Epay/Operations.antt =====
-- internal/ports/api/epay/handlers.go and handler.go: the handlers of a payment that exists.
use chaospay.Prelude.{
  ℕ, ◌==◌, ltb, String, Bool, not, ◌&&◌, ◌||◌, Option, none, some, List, [], ◌∷◌, str_eq,
  if◌then◌else◌,
}
use chaospay.Prelude.Words.{ℤ, pos}
use chaospay.Prelude.Lenient.{lenient_atoi}
use chaospay.Bank.{Bank, bank_eq}
use chaospay.Payment.{Time, failed, Record, epay_hidden}
use chaospay.Payment.Repo.{message, Clock, get, list_records}
use chaospay.PayService.{World}
use chaospay.PayService.Freedom.{authorize_wallet, apply_force}
use chaospay.PayService.Epay.{epay_charge, epay_cancel, epay_refund}
use chaospay.Scenario.{Scenario}
use chaospay.Scenario.Params.{param, param_int}
use chaospay.Http.{
  Handler, Outcome, broken, has_action, invalid_json, names_order, names_payment, replied,
  reply_with,
}
use chaospay.Epay.Invoice.{operation_id_from_path}
use chaospay.Epay.Bodies.{Body, ConfirmRequest, operation_body, status_body, error_body}
use chaospay.Epay.Handlers.{EpayConfig, schedule_success_postlink, status_response_of}

-- The loop over the listed records, for the first one under Epay's identifier.
unfoldable pub find_epay_id : String → List Record → Option ℕ
find_epay_id raw [] = none
find_epay_id raw (rec ∷ rest) =
    let later = find_epay_id raw rest in
    if str_eq rec.epay.id raw then some rec.payment_id else later

-- `paymentIDByEpayID`
unfoldable pub payment_id_by_epay_id : EpayConfig → String → World → Option ℕ
unfolding find_epay_id
payment_id_by_epay_id cfg epay_id w = find_epay_id epay_id (list_records cfg.order w.repo)

-- `resolveOperation`
unfoldable pub resolve_operation : EpayConfig → String → World → Option ℕ
unfolding operation_id_from_path find_epay_id
resolve_operation cfg raw w =
    if not (operation_id_from_path raw == 0)
    then some (operation_id_from_path raw)
    else if str_eq raw ""
    then none
    else find_epay_id raw (list_records cfg.order w.repo)

abbrev pub operation_not_found : Outcome Body
operation_not_found = broken (message "operation not found")

-- `paymentID, ok := c.resolveOperation(r); if !ok { return … }`
abbrev pub at_operation : Option ℕ → (ℕ → Handler Body) → Handler Body
at_operation none f sc entry w = (operation_not_found, entry, w)
at_operation (some id) f sc entry w = f id sc (names_payment id entry) w

abbrev pub done : String → String → Outcome Body
done text external_id =
    replied (pos 200)
      (operation_body (record { code = pos 0; message = text; external_id = external_id }))

-- `handleCharge`; `amount` is 0 where the body holds none.
unfoldable pub handle_charge : EpayConfig → Clock → String → ℤ → Handler Body
unfolding resolve_operation schedule_success_postlink
handle_charge cfg clock raw amount sc entry w =
    at_operation (resolve_operation cfg raw w)
      (λ id sc' entry' w'. reply_with (epay_charge clock id amount w') entry' λ rec entry2 w2. (
        done "Operation completed successfully" "",
        entry2,
        schedule_success_postlink cfg sc' rec w2,
      ))
      sc entry w

-- `handleCancel`
unfoldable pub handle_cancel : EpayConfig → Clock → String → Handler Body
unfolding resolve_operation schedule_success_postlink
handle_cancel cfg clock raw sc entry w =
    at_operation (resolve_operation cfg raw w)
      (λ id sc' entry' w'. reply_with (epay_cancel clock id w') entry' λ rec entry2 w2.
        (done "Operation cancelled" "", entry2, schedule_success_postlink cfg sc' rec w2))
      sc entry w

-- The amount in the query: `n, _ := strconv.Atoi(v)`, and 0 without one.
unfoldable pub query_amount : String → ℤ
unfolding lenient_atoi
query_amount v = lenient_atoi v

-- `handleRefund`; `query` is the parameter `amount`.
unfoldable pub handle_refund : EpayConfig → Clock → String → String → Handler Body
unfolding resolve_operation query_amount schedule_success_postlink
handle_refund cfg clock raw query sc entry w =
    at_operation (resolve_operation cfg raw w)
      (λ id sc' entry' w'.
        reply_with (epay_refund clock id (query_amount query) w') entry' λ rec entry2 w2.
          (done "Refund processed" rec.epay.id, entry2, schedule_success_postlink cfg sc' rec w2))
      sc entry w

-- `handleStatus`
unfoldable pub handle_status : EpayConfig → Time → String → Handler Body
unfolding resolve_operation epay_hidden status_response_of
handle_status cfg now raw sc entry w =
    at_operation (resolve_operation cfg raw w)
      (λ id sc' entry' w'.
        reply_with (get id w'.repo, w') entry'
          λ rec entry2 w2. (
            if epay_hidden now rec
                then operation_not_found
                else replied (pos 200) (status_body (status_response_of cfg.format rec)),
            entry2,
            w2,
          ))
      sc entry w

-- Whether `paymentByInvoice` considers a record.
unfoldable pub is_shown_of : Time → String → Record → Bool
unfolding bank_eq epay_hidden
is_shown_of now invoice_id rec =
    bank_eq rec.bank Bank.epay && str_eq rec.epay.invoice_id invoice_id && not (epay_hidden now rec)

-- `found == nil || rec.PaymentID > found.PaymentID`
abbrev pub newer_of : Option Record → Record → Option Record
newer_of none rec = some rec
newer_of (some found) rec = if ltb found.payment_id rec.payment_id then some rec else some found

-- The loop of `paymentByInvoice`.
unfoldable pub pick_newest : Time → String → Option Record → List Record → Option Record
unfolding is_shown_of
pick_newest now invoice_id found [] = found
pick_newest now invoice_id found (rec ∷ rest) =
    pick_newest now invoice_id
      (if is_shown_of now invoice_id rec then newer_of found rec else found) rest

-- `paymentByInvoice`
unfoldable pub payment_by_invoice : EpayConfig → Time → String → World → Option Record
unfolding pick_newest
payment_by_invoice cfg now invoice_id w =
    pick_newest now invoice_id none (list_records cfg.order w.repo)

-- `handleStatusByInvoice`
unfoldable pub handle_status_by_invoice : EpayConfig → Time → String → Handler Body
unfolding payment_by_invoice status_response_of
handle_status_by_invoice cfg now invoice_id sc entry w =
    elim (payment_by_invoice cfg now invoice_id w) [
      | none ↦ (operation_not_found, names_order invoice_id entry, w)
      | some rec ↦ (
        replied (pos 200) (status_body (status_response_of cfg.format rec)),
        names_payment rec.payment_id (names_order invoice_id entry),
        w,
      )
    ]

-- The refusal of `handleConfirm` under `force_failure`.
unfoldable pub confirm_refusal : Option Scenario → Outcome Body
unfolding param param_int
confirm_refusal sc =
    let code = param_int sc "error_code" (pos 455) in
    replied (pos 400) (
      error_body (record {
        code = code;
        message = param sc "message" "3D Secure verification failed";
        result_code = code;
      }))

-- `handleConfirm` once it has found the payment.
unfoldable pub confirm_payment : EpayConfig → Clock → ℕ → Record → Handler Body
unfolding confirm_refusal schedule_success_postlink
confirm_payment cfg clock id rec sc entry w =
    if has_action "force_failure" sc
    then reply_with (apply_force cfg.service clock id failed w) entry
        (λ updated entry' w'. (confirm_refusal sc, entry', w'))
    else reply_with (authorize_wallet cfg.service clock id rec.kind w) entry λ updated entry' w'.
      (done "success" "", entry', schedule_success_postlink cfg sc updated w')

-- `handleConfirm`
unfoldable pub handle_confirm : EpayConfig → Clock → Option ConfirmRequest → Handler Body
unfolding payment_id_by_epay_id confirm_payment
handle_confirm cfg clock none sc entry w = (broken invalid_json, entry, w)
handle_confirm cfg clock (some req) sc entry w =
    if str_eq req.id "" || str_eq req.pa_res "" || str_eq req.md ""
    then (broken (message "ID, PaRes and MD are required"), entry, w)
    else at_operation (payment_id_by_epay_id cfg req.id w)
        (λ id sc' entry' w'.
          reply_with (get id w'.repo, w') entry'
            λ rec entry2 w2.
              confirm_payment cfg clock id rec sc' (names_order rec.epay.invoice_id entry2) w2)
        sc entry w
