-- ===== src/FreedomPay/Refusals.antt =====
-- Which requests of Freedom Pay reach a handler (`xmlEndpoint` of internal/ports/api/pay/handler.go).
use chaospay.Prelude.{String, ◌≡◌, refl, false, inl, inr, ◌⊎◌}
use chaospay.Payment.Repo.{Clock}
use chaospay.Http.{Call, Shared, finish}
use chaospay.FreedomPay.{OrdMap}
use chaospay.FreedomPay.Handlers.{Handler}
use chaospay.FreedomPay.Replies.{PayConfig, respond_error, respond_failure}
use chaospay.FreedomPay.Endpoint.{is_signed, serve_request, xml_endpoint}

-- A body that cannot be read, or whose signature is not that of its fields.
abbrev pub IsRefused : PayConfig → String → String → Type 0
IsRefused cfg endpoint body =
    ((refusal : String × String) × (cfg.read body ≡ inr refusal))
    ⊎ ((kept : String) × (req : OrdMap) × (cfg.read body ≡ inl (kept, req))
        × (is_signed cfg endpoint req ≡ false))

module _ (cfg : PayConfig) (clock : Clock) (endpoint script_name salt : String) (fn : Handler)
    (call : Call String) (s : Shared) where
  -- A request that cannot be read or whose signature is wrong changes no payment and uses up no rule,
  -- whatever its handler would do.
  pub refused_changes_nothing :
      IsRefused cfg endpoint call.body
      → let s' = (xml_endpoint cfg clock endpoint script_name salt fn call s).1 in
        (s'.world ≡ s.world) × (s'.scenarios ≡ s.scenarios)
  unfolding xml_endpoint respond_error serve_request respond_failure finish
  refused_changes_nothing (inl (refusal, unread)) = rw (unread, xml_endpoint) (refl, refl)
  refused_changes_nothing (inr (kept, req, found, unsigned)) =
      rw (found, xml_endpoint, unsigned, serve_request) (refl, refl)
