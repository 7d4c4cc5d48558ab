-- ===== src/Epay/Server.antt =====
-- internal/ports/api/epay/handler.go: the controller's state, a request on its way, and how an answer is
-- sent and written into the journal. Waiting is not modelled.
use chaospay.Prelude.{str_eq, String, Bool, false, not, none, some}
use chaospay.Prelude.Words.{ℤ, pos}
use chaospay.Prelude.Trim.{trim_space}
use chaospay.PayService.{World}
use chaospay.Scenario.Store.{ScenarioStore}
use chaospay.RequestLog.{Entry, RequestLog}
use chaospay.Transport.{Wire, Ending}
use chaospay.Http.{Call, logged, json_ending}
use chaospay.Epay.Invoice.{strip_prefix}
use chaospay.Epay.Tokens.{TokenStore}
use chaospay.Epay.Bodies.{Body, error_body}

-- What the controller's calls change.
pub record Server : Type 0 where
  pub world : World
  pub scenarios : ScenarioStore
  pub journal : RequestLog
  pub tokens : TokenStore

-- `BearerFromHeader(header) != ""`
unfoldable pub has_bearer : String → Bool
unfolding strip_prefix trim_space
has_bearer header = elim (strip_prefix "Bearer " header) [
  | none ↦ false
  | some token ↦ not (str_eq (trim_space token) "")
]

-- `finalize`, and the same lines of `respondJSON`.
unfoldable pub finalize : Call Body → Entry → Ending Body → Server → Wire Body × Server
unfolding logged
finalize call entry e s = (e.wire, record s { journal = logged call entry e s.journal })

-- `respondJSON`
unfoldable pub respond_json : Call Body → Entry → ℤ → Body → Server → Wire Body × Server
unfolding finalize
respond_json call entry status body s = finalize call entry (json_ending call status body) s

-- `respondError`, at a text.
unfoldable pub respond_error : Call Body → Entry → ℤ → String → Server → Wire Body × Server
unfolding respond_json
respond_error call entry status text s =
    respond_json call entry status
      (error_body (record { code = pos 0; message = text; result_code = pos 0 })) s
