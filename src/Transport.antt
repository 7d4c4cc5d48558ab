-- ===== src/Transport.antt =====
-- internal/ports/api/scenarioapply/transport.go: the scenarios that end a request below the level of the
-- answer's format, and what a client gets from them. Waiting is not modelled.
use chaospay.Prelude.{
  ◌≡◌, refl, Bool, true, false, not, ◌&&◌, ◌||◌, leb, ◌==◌, String, Option, none, some, str_eq,
  if◌then◌else◌,
}
use chaospay.Prelude.Words.{ℤ, pos, negsuc}
use chaospay.Scenario.{Scenario}
use chaospay.Scenario.Params.{param, param_int}

-- What reaches the client: `B` are the bodies that a handler answers. `http_error` has the status and
-- the code whose text (`http.StatusText`) is the body.
pub data Wire (B : Type 0) : Type 0 where
  answered : ℤ → B → Wire B
  closed : Wire B
  http_error : ℤ → ℤ → Wire B
  bare_status : ℤ → Wire B
  empty_body : Wire B
  raw_body : String → String → Wire B
  slow_body : ℤ → String → Wire B

-- What ends a request: what the client gets, and the status and text of the journal's entry.
pub record Ending (B : Type 0) : Type 0 where
  pub wire : Wire B
  pub status_code : ℤ
  pub shown : String

-- A code that `WriteHeader` of net/http accepts: at any other it panics, and the server closes the
-- connection.
abbrev pub is_status : ℤ → Bool
is_status (pos code) = leb 100 code && leb code 999
is_status (negsuc n) = false

-- A code whose header is sent ahead: the answer follows, with status 200.
abbrev pub is_informational : ℤ → Bool
is_informational (pos code) = leb 100 code && leb code 199 && not (code == 101)
is_informational (negsuc n) = false

-- A status whose answer has no body: net/http drops what is written.
abbrev pub is_bodiless : ℤ → Bool
is_bodiless (pos code) = code == 101 || code == 204 || code == 304
is_bodiless (negsuc n) = false

-- `w.WriteHeader(code)`, and the body that is written then, at the status of the answer.
unfoldable pub sent : {B : Type 0} → ℤ → (ℤ → Wire B) → Wire B
sent code body =
    if not (is_status code)
    then closed
    else if is_informational code
    then body (pos 200)
    else if is_bodiless code
    then bare_status code
    else body code

-- `Transport`: `none` where the request goes on.
unfoldable pub transport : {B : Type 0} → Scenario → Option (Ending B)
unfolding param param_int sent
transport sc =
    if str_eq sc.action "timeout"
    then some (record { wire = closed; status_code = pos 0; shown = "(timeout)" })
    else if str_eq sc.action "connection_reset"
    then some (record { wire = closed; status_code = pos 0; shown = "(connection reset)" })
    else if str_eq sc.action "http_error"
    then (let code = param_int (some sc) "http_status" (pos 500) in
        some (record {
          wire = sent code (λ status. http_error status code);
          status_code = code;
          shown = "(http error scenario)";
        }))
    else if str_eq sc.action "wrong_status_code"
    then (let code = param_int (some sc) "http_status" (pos 418) in
        some (record {
          wire = sent code (λ status. bare_status status);
          status_code = code;
          shown = "(wrong status code scenario)";
        }))
    else if str_eq sc.action "empty_response"
    then some (record { wire = empty_body; status_code = pos 200; shown = "(empty body)" })
    else if str_eq sc.action "malformed_body"
    then (let body = param (some sc) "body" "<<<NOT_VALID_XML_OR_JSON>>>" in
        let kind = param (some sc) "content_type" "application/xml; charset=utf-8" in
        some (record { wire = raw_body kind body; status_code = pos 200; shown = body }))
    else if str_eq sc.action "slow_body"
    then (let delay = param_int (some sc) "chunk_delay_ms" (pos 500) in
        let body = param (some sc) "body" "<response><pg_status>ok</pg_status></response>" in
        some (record { wire = slow_body delay body; status_code = pos 200; shown = "(slow body)" }))
    else none

-- The status that the client sees; a closed connection has none, for which 0 stands.
abbrev pub wire_status : {B : Type 0} → Wire B → ℤ
wire_status (answered status body) = status
wire_status closed = pos 0
wire_status (http_error status code) = status
wire_status (bare_status status) = status
wire_status empty_body = pos 200
wire_status (raw_body kind body) = pos 200
wire_status (slow_body delay body) = pos 200

-- The status that a client sees where the program has written a code.
unfoldable pub client_status : ℤ → ℤ
client_status code =
    if is_status code then (if is_informational code then pos 200 else code) else pos 0

pub wire_status-sent :
    {B : Type 0} (code : ℤ) (body : ℤ → Wire B)
    → ((status : ℤ) → wire_status (body status) ≡ status)
    → wire_status (sent code body) ≡ client_status code
unfolding sent client_status
wire_status-sent code body h = choose (is_status code) (is_informational code) (is_bodiless code)
  where
    choose :
        (a b c : Bool)
        → wire_status (
            if not a
            then closed
            else if b
            then body (pos 200)
            else if c
            then bare_status code
            else body code)
          ≡ (if a then (if b then pos 200 else code) else pos 0)
    choose false b c = refl
    choose true true c = h (pos 200)
    choose true false true = refl
    choose true false false = h code
