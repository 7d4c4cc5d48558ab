-- ===== src/Lib.antt =====
-- Chaospay plays the payment services of several banks (Freedom Pay, Halyk Epay, Flitt, QR-PAY, Kaspi)
-- towards a gateway under test, and misbehaves on demand. This library models the parts that hold its
-- state and decide its answers:
--
--   Bank         internal/domain/bank: the banks, and which one a path belongs to
--   Payment      internal/domain/pay: records, statuses, allowed transitions
--   Payment/Repo internal/infrastructure/memstore/pay.go: the store of payments
--   Flitt        internal/infrastructure/flitt: testcards.go, types.go (Requests, Bodies), signature.go;
--                internal/ports/api/flitt: Answers, Handlers and Operations for handlers.go, Effects for
--                scenario.go, Endpoint for handler.go; Callback: the payloads of
--                internal/infrastructure/pgclient/flitt.go
--   PayService   internal/application/pay: the service (Freedom: service.go and types.go, Epay: epay.go,
--                Flitt: flitt.go, Webhooks: the deliveries that the panel asks for)
--   Scenario     internal/domain/scenario and internal/infrastructure/memstore/scenario.go: the rules;
--                Presets: internal/application/scenario, the panel's groups of rules
--   Transport    internal/ports/api/scenarioapply: rules that end a request below its format
--   Epay         internal/infrastructure/epay (Invoice, Reasons, Tokens, Bodies) and
--                internal/ports/api/epay (Authorization and Operations: the handlers, Server, Effects,
--                Endpoint and TokenEndpoint: what stands around them)
--   Http         what the controllers of Epay, Flitt and Freedom Pay share
--   RequestLog   internal/infrastructure/memstore/requestlog.go: the journal of requests
--   Qr           internal/domain/qr, internal/infrastructure/memstore/qr.go, internal/application/qr
--   Kaspi        internal/domain/kaspi, internal/infrastructure/memstore/kaspi.go,
--                internal/application/kaspi: payments by a link
--   FreedomPay   internal/infrastructure/freedompay/signature.go: ordered maps and signatures, and
--                internal/ports/api/pay: the handlers (Requests: the fields of a request, Handlers,
--                Statuses and Operations: handlers.go, Effects: what a scenario does to an answer,
--                Replies and Endpoint: handler.go); Rendering: xml.go's printer and replace.go;
--                Webhooks: the fields of internal/infrastructure/pgclient (pay.go, card.go)
--   Config       internal/config: the cabinets of Freedom Pay and their secrets
--
-- An operation has the name of its Go function, in snake case (`RevokeWithOutcome` is
-- `revoke_with_outcome`; a name that the language keeps for itself gets another word or a final `_`,
-- as in `match_`). A method takes the state and returns its answer with the new state. In the payment
-- service the state is a `World`, the store and the goroutines that were started and have not finished;
-- a method is an action on it (`Exec`), put together by do blocks whose bind is Go's `if err != nil`.
-- `PayService/Machine` runs calls and the ends of goroutines in any order, `Qr/Machine` does so for QR
-- codes. A call there runs from its start to its end; methods that overlap are left out, but for
-- `capture`, whose second critical section is a definition of its own (`capture_commit`) and a step
-- where the payment is still on hold. `apply_force` moves a payment to any status: the machine has it
-- only where the diagram of statuses reaches that status.
--
-- A status code that a program writes becomes what net/http makes of it (`sent` of Transport): a code
-- outside 100 to 999 ends the connection, and a header that is only informational is followed by 200.
--
-- Unsigned and signed words of 64 bits wrap where Go's do (`Prelude/Words`). A map is an association
-- list (`Prelude/Assoc`); where Go ranges over one, the order is an argument. The readings of the clock
-- within one call are a function (`Clock`). The digits of a number are computed on fuel 20, which is
-- enough for a word in base 10 and in base 16; every other recursion is structural.
--
-- Arguments stand for what is not the program's: the answers of the webhook clients, the picture of a QR
-- code and its identifier, the digests md5 and sha1, the random salt and tokens, the printed forms of a
-- date, of a float and of JSON. `requestlog.Truncate` is one, too: it cuts a text between two bytes, which
-- the texts here cannot.
--
-- Not modelled: the HTTP handlers (internal/ports) of Kaspi, QR, the wallet and loyalty; the reading of XML
-- and the JSON forms (the bodies of Epay and Flitt are records); waiting; the rest of the configuration;
-- the panel; the clients that talk to the network (internal/infrastructure/pgclient), but for the
-- payloads for Flitt and Freedom Pay.
pub mod Prelude
pub mod Bank
pub mod Epay
pub mod Flitt
pub mod Payment
pub mod PayService
pub mod Scenario
pub mod Transport
pub mod RequestLog
pub mod Qr
pub mod FreedomPay
pub mod Http
pub mod Config
pub mod Kaspi
