-- ===== src/Lib.antt =====
-- Posthorn, the gateway that takes form posts, API calls and SMTP submissions and hands them to an
-- e-mail transport: a model of its core (core/) and proofs about it.
--
-- A request comes in over HTTP (core/gateway) or over SMTP (core/smtp), passes the guards of the
-- other packages (rate limit, idempotency, spam checks, CSRF tokens, field validation) and becomes a
-- message that a transport sends (core/transport). The configuration (core/config) fixes the guards
-- of each endpoint, and the metrics (core/metrics) count what became of the requests.
--
-- Which file models what:
--   Base, Base/*       numbers, Boolean tests, lists, results; Base/Int has int64 and its wrap-around
--   Text, Text/*       Go strings as bytes and the functions of package strings that are called
--   Lru                the interface of hashicorp/golang-lru, a parameter with documented laws
--   Transport          core/transport/transport.go: Message, SendResult, TransportError, Send
--   Transport/Registry, Transport/Providers  core/transport/registry.go, and the settings of
--                      postmark.go, resend.go, mailgun.go, ses.go and smtpout.go
--   Transport/SmtpOut  core/transport/smtpout.go: Send over net/smtp's client, validateNoHeaderCRLF,
--                      buildRFC5322
--   Config/Endpoint, Config/Whole  core/config/config.go: the three Validate functions
--   Metrics/Labels     core/metrics/metrics.go: label values as keys and as they are shown
--   Metrics/Counter, Metrics/Histogram, Metrics/Registry  Add, Observe, Register and Emit
--   Metrics/Sorting    the order of names in Emit, and the contract of package sort
--   Metrics/Recorder   core/metrics/recorder.go: NewRecorder and the methods of events
--   Smtp/Config        core/smtp/config.go: ListenerConfig, Validate and the defaults
--   Smtp/Session       core/smtp/session.go: session, its replies and guards; `Session` is the state
--   Smtp/Commands      the handlers handleEHLO, handleSTARTTLS, handleAUTH, handleMAIL, handleRCPT
--   Smtp/Delivery      handleDATA and the calls of the transport and the metrics
--   Smtp/Run           run, the command loop; Smtp/Ends has its measure
--   Smtp/Envelope      splitCommand, extractEnvelopeAddress, matchesAllowlist
--   Smtp/Mime          core/smtp/parse.go: parseMIMEToMessage
--   Smtp/Relay, Smtp/Relay/*  the open-relay guards as invariants of a session
--   Ratelimit/*        core/ratelimit: Limiter.allowAt on a heap of buckets, ClientIP, ParsePrefixes
--   Idempotency, Idempotency/*  core/idempotency/cache.go: Lookup, ClaimInFlight, Store, Abandon,
--                      ValidateKey
--   Gateway/*          core/gateway/handler.go: sendWithRetry, authenticateAPIRequest, the recording
--                      writer with finalizeIdempotent, content types, forms for the log
--   Gateway/Admit, Gateway/Compose, Gateway/Serve, Gateway/Serve/Api  ServeHTTP: the admission of
--                      API requests, the message, and a function for each stage up to the answer
--   Gateway/Writing    response.WriteJSON and the handler's write*Response: what an answer writes
--   Csrf, Spam/*, Validate, Response  core/csrf, core/spam, core/validate, core/response
--   Tests, Tests/*     concrete inputs for the theorems
--
-- State and time. A session is a record that the handlers map to a new one; what it does to the
-- outside is its list of outputs. A client is the list of lines it sends and the TLS handshakes it
-- would make; a read past the end fails, as a closed or idle connection does. Whether a write
-- works, what the transport answers and what the libraries decode are functions of which nothing is
-- assumed. Calls that hold a mutex are single steps, so an interleaving is a list of calls. Times
-- are nanoseconds, and a token bucket counts exactly, in units of 1/interval of a token, where the
-- source rounds to float64.
--
-- Fuel. `run` reads one line in each round; its fuel is one more than the lines that the client
-- sends before and after its handshakes, so it lasts to the end.
--
-- Int64 counts are held as their low 64 bits. A float64 is an element of a type with the operations
-- that histograms use. A write to a scraping client may fail, at a line that is a parameter.
-- The SMTP relay that a message goes to is a function from the calls made to the error of the next.
--
-- Not modelled: the log; the sockets, deadlines and files of the listener; the reading and parsing
-- of a body (its outcome is a part of the request); the construction of a handler, the TOML
-- decoder, templates, and the HTTP requests of the providers. Package mail, mime, base64, TLS,
-- hmac, hex, net, netip and url, sort and strconv, the UUIDs and the Unicode tables for lower case
-- in hosts are parameters. A Content-Type that net/http would guess from the body is not.
pub mod Base
pub mod Text
pub mod Transport
pub mod Smtp
pub mod Lru
pub mod Ratelimit
pub mod Idempotency
pub mod Gateway
pub mod Metrics
pub mod Config
pub mod Spam
pub mod Validate
pub mod Csrf
pub mod Response
pub mod Tests
