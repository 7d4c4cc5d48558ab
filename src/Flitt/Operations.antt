-- ===== src/Flitt/Operations.antt =====
-- internal/ports/api/flitt/handlers.go: the handlers that work on a payment of Flitt, which they find by
-- its order.
use Prim.Native.String.{◌++◌ as str_append}
use chaospay.Prelude.{String, true, Option, none, some, str_eq, if◌then◌else◌}
use chaospay.Prelude.Words.{pos}
use chaospay.Prelude.Decimal.{itoa}
use chaospay.Payment.{Record}
use chaospay.Payment.Repo.{PayError, message, Reply, ok, err, ok_err, Clock}
use chaospay.PayService.{World, maybe_flitt_callback}
use chaospay.PayService.Flitt.{flitt_status, flitt_capture, flitt_reverse, flitt_complete_3ds}
use chaospay.RequestLog.{Entry}
use chaospay.Http.{
  Outcome, replied, broken, Handler, invalid_json, names_payment, names_order, reply_with,
  error_text,
}
use chaospay.Flitt.Requests.{CaptureRequest, ReverseRequest, StatusRequest, Step2Request}
use chaospay.Flitt.Bodies.{
  Envelope, ReverseResponse, Step2Response, no_capture_answer, no_reverse_answer, no_step2_answer,
  capture_envelope, reverse_envelope, status_envelope, step2_envelope,
}
use chaospay.Flitt.Answers.{uint_from_int, build_status_response}
use chaospay.Flitt.Handlers.{FlittConfig, auto_callback}

-- `errors.New("order not found: " + orderID)`
abbrev as_unknown : String → Reply × World → Reply × World
as_unknown order_id (ok rec, w) = (ok rec, w)
as_unknown order_id (_, w) = (err (message (str_append "order not found: " order_id)), w)

-- `findFlittRecord`
unfoldable pub find_flitt_record : FlittConfig → String → World → Reply × World
unfolding flitt_status
find_flitt_record cfg order_id w = as_unknown order_id (flitt_status cfg.order order_id w)

-- The lines that these handlers start with.
abbrev pub at_order :
    FlittConfig
    → String
    → Entry
    → World
    → (Record → Entry → World → Outcome Envelope × Entry × World)
    → Outcome Envelope × Entry × World
at_order cfg order_id entry w f =
    reply_with (find_flitt_record cfg order_id w) (names_order order_id entry)
      λ rec entry' w'. f rec (names_payment rec.payment_id entry') w'

-- A call of the service whose error is put into the answer, at status 200.
abbrev pub with_refusal :
    Reply × World
    → Entry
    → (PayError → Envelope)
    → (Record → World → Envelope × World)
    → Outcome Envelope × Entry × World
with_refusal (ok rec, w) entry refuse f =
    let (body, w') = f rec w in (replied (pos 200) body, entry, w')
with_refusal (err e, w) entry refuse f = (replied (pos 200) (refuse e), entry, w)
with_refusal (ok_err rec e, w) entry refuse f = (replied (pos 200) (refuse e), entry, w)

-- `if c.cfg.AutoWebhook { c.svc.MaybeFlittCallback(updated, true) }`
unfoldable pub callback : FlittConfig → Record → World → World
unfolding maybe_flitt_callback
callback cfg rec w = if cfg.auto_webhook then maybe_flitt_callback cfg.service rec true w else w

unfoldable pub capture_refusal : String → PayError → Envelope
unfolding error_text
capture_refusal order_id e = capture_envelope (record no_capture_answer {
  capture_status = "declined";
  order_id = order_id;
  response_status = "failure";
  error_code = pos 1002;
  error_message = error_text e;
})

-- `handleCapture`
unfoldable pub handle_capture : FlittConfig → Clock → Option CaptureRequest → Handler Envelope
unfolding find_flitt_record flitt_capture callback capture_refusal
handle_capture cfg clock none sc entry w = (broken invalid_json, entry, w)
handle_capture cfg clock (some req) sc entry w = at_order cfg req.order_id entry w λ rec entry' w'.
    with_refusal (flitt_capture clock rec.payment_id (uint_from_int req.amount) w') entry'
      (capture_refusal req.order_id)
      λ updated w2. (
        capture_envelope (record no_capture_answer {
          capture_status = "captured";
          order_id = req.order_id;
          response_description = "captured";
          response_code = "1000";
          merchant_id = req.merchant_id;
          response_status = "success";
        }),
        callback cfg updated w2,
      )

unfoldable pub reverse_refusal : String → PayError → Envelope
unfolding error_text
reverse_refusal order_id e = reverse_envelope (record no_reverse_answer {
  reverse_status = "declined";
  order_id = order_id;
  response_status = "failure";
  error_code = pos 1003;
  error_message = error_text e;
})

-- The successful answer of `handleReverse`.
unfoldable pub reverse_answer : ReverseRequest → Record → ReverseResponse
unfolding itoa
reverse_answer req updated = record no_reverse_answer {
  reverse_status = "approved";
  order_id = req.order_id;
  response_description = "reversed";
  response_code = "1000";
  merchant_id = req.merchant_id;
  response_status = "success";
  reverse_id =
      if str_eq req.reverse_id "" then str_append "mock-rev-" req.order_id else req.reverse_id;
  reversal_amount = itoa req.amount;
  transaction_id = itoa updated.flitt.payment_id;
}

-- `handleReverse`
unfoldable pub handle_reverse : FlittConfig → Clock → Option ReverseRequest → Handler Envelope
unfolding find_flitt_record flitt_reverse callback reverse_refusal reverse_answer
handle_reverse cfg clock none sc entry w = (broken invalid_json, entry, w)
handle_reverse cfg clock (some req) sc entry w = at_order cfg req.order_id entry w λ rec entry' w'.
    with_refusal (flitt_reverse clock rec.payment_id (uint_from_int req.amount) w') entry'
      (reverse_refusal req.order_id)
      λ updated w2. (reverse_envelope (reverse_answer req updated), callback cfg updated w2)

-- `handleStatus`
unfoldable pub handle_status : FlittConfig → Option StatusRequest → Handler Envelope
unfolding find_flitt_record build_status_response
handle_status cfg none sc entry w = (broken invalid_json, entry, w)
handle_status cfg (some req) sc entry w = at_order cfg req.order_id entry w λ rec entry' w'.
    (replied (pos 200) (status_envelope (build_status_response cfg.format rec)), entry', w')

-- The answer of `handle3DSStep2`.
unfoldable pub step2_answer : String → Record → Step2Response
step2_answer order_id updated = record no_step2_answer {
  response_status = "success";
  order_id = order_id;
  order_status = "approved";
  approval_code = updated.flitt.approval_code;
  rrn = updated.flitt.rrn;
  masked_card = updated.card.pan;
  payment_id = some updated.flitt.payment_id;
  rectoken = updated.flitt.rectoken;
}

-- `handle3DSStep2`
unfoldable pub handle_3ds_step2 : FlittConfig → Clock → Option Step2Request → Handler Envelope
unfolding find_flitt_record flitt_complete_3ds step2_answer auto_callback
handle_3ds_step2 cfg clock none sc entry w = (broken invalid_json, entry, w)
handle_3ds_step2 cfg clock (some req) sc entry w =
    at_order cfg req.order_id entry w λ rec entry' w'.
      reply_with (flitt_complete_3ds clock rec.payment_id w') entry' λ updated entry2 w2. (
        replied (pos 200) (step2_envelope (step2_answer req.order_id updated)),
        entry2,
        auto_callback cfg updated w2,
      )
