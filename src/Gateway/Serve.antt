-- ===== src/Gateway/Serve.antt =====
-- core/gateway/handler.go: ServeHTTP, from the method to the answer, one function for each stage. A
-- stage gives the answer and the state after it. The log is left out.
pub mod Api
pub mod Checked
pub mod Guards
pub mod Ends
pub mod Delivers
pub mod Repeat
use caddy_formward.Base.{
  ℕ, ◌+◌, Bool, true, false, not, ◌&&◌, ◌||◌, List, [], ◌∷◌, ◌++◌, Option, none, some,
  if◌then◌else◌, none_of,
}
use caddy_formward.Base.Results.{Result, ok, err}
use caddy_formward.Text.{Bytes, text, bytes_eq, is_empty, trim_space}
use caddy_formward.Transport.{Message, Transport, Outcome, sent, failed, Failure}
use caddy_formward.Lru.{Lru}
use caddy_formward.Response.{
  Answer, plain_text, error_body, dry_run_body, Success, DryRun, PreparedMessage, validation,
  write_success_response, write_error_response, write_validation_error_response,
}
use caddy_formward.Spam.Checks.{
  Form, UrlLib, SpamResult, pass, silent_reject, hard_reject, check_honeypot, check_origin,
}
use caddy_formward.Validate.{required_fields, email}
use caddy_formward.Csrf.{CryptoLib, TokenError, verify}
use caddy_formward.Ratelimit.ClientIp.{NetLib, client_ip}
use caddy_formward.Ratelimit.Limiter.{Limiter, allow_at}
use caddy_formward.Gateway.Compose.{
  Endpoint, AddressParser, Refusal, no_address, invalid_addresses, form_get, compose,
}
use caddy_formward.Gateway.Media.{is_form_content_type, is_json_content_type}
use caddy_formward.Gateway.Retry.{Sending, send_with_retry, error_class_name}

-- The error of reading and parsing a body: it is larger than the cap, or it is malformed.
pub data BodyError : Type 0 where
  too_large : BodyError
  malformed : Bytes → BodyError

-- What a request brings: its method and headers, and what parsing its body gives, `r.Form` after
-- ParseForm and the values of parseJSONBody.
pub record Request : Type 0 where
  pub method : Bytes
  pub content_type : Bytes
  pub authorization : Bytes
  pub idempotency_key : Bytes
  pub origin : Bytes
  pub referer : Bytes
  pub remote_addr : Bytes
  pub forwarded : Bytes
  pub accept : Bytes
  pub form_body : Result BodyError Form
  pub json_body : Result BodyError Form
  pub submission_id : Bytes

-- The calls of the metrics recorder.
pub data Event : Type 0 where
  auth_failed idempotent_replay rate_limited validation_failed submitted delivered : Event
  spam_blocked : Bytes → Event
  delivery_failed : Bytes → Event

-- The handler's configuration and what it calls, but for `Endpoint`.
pub record Handler : Type 1 where
  pub endpoint : Endpoint
  pub api_keys : List Bytes
  pub allowed_origins : List Bytes
  pub net : NetLib
  pub trusted_proxies : List net.Prefix
  pub limited : Bool
  pub honeypot : Bytes
  pub csrf_secret : Bytes
  pub csrf_ttl : ℕ
  pub required : List Bytes
  pub redirect_success : Bytes
  pub redirect_error : Bytes
  pub dry_run : Bool
  pub urls : UrlLib
  pub crypto : CryptoLib
  pub parse_address : AddressParser
  pub render_subject : Form → Option Bytes
  pub render_body : Form → Option Bytes
  pub send : Transport
  -- `%v` of a list of addresses
  pub show_addresses : List Bytes → Bytes

abbrev pub is_silent : SpamResult → Bool
is_silent silent_reject = true
is_silent _ = false

abbrev pub is_hard : SpamResult → Bool
is_hard hard_reject = true
is_hard _ = false

module _ (lru : Lru ℕ) where
  pub record State : Type 0 where
    pub limiter : Limiter lru
    pub sends : ℕ
    -- newest first
    pub events : List Event

module _ (lru : Lru ℕ) (h : Handler) (cut_short : ℕ → Bool) (now : ℕ) (r : Request) where
  open h use {
    endpoint, allowed_origins, net, trusted_proxies, limited, honeypot, csrf_secret, csrf_ttl,
    required, redirect_success, redirect_error, dry_run, urls, crypto, parse_address,
    render_subject, render_body, send, show_addresses,
  }

  -- An answer and the state after it.
  abbrev pub Turn : Type 0
  Turn = Answer × State lru

  abbrev pub note : Event → State lru → State lru
  note e s = record s { events = e ∷ s.events }

  -- `h.writeErrorResponse`
  abbrev pub refuse : ℕ → Bytes → Answer
  refuse status message = write_error_response redirect_error r.accept status message

  -- The answer of a delivered submission.
  abbrev pub accepted : Answer
  accepted =
      write_success_response redirect_success r.accept
        (record { status = text "ok"; submission_id = r.submission_id })

  -- The end: the result of the sending.
  unfoldable pub finish : Outcome → State lru → Turn
  finish (failed e) s = (
    plain_text 502 (text "submission could not be delivered"),
    note (delivery_failed (error_class_name e)) s,
  )
  finish (sent result) s = (accepted, note delivered s)

  -- Dry run, or sendWithRetry.
  unfoldable pub deliver : Message → State lru → Turn
  unfolding finish
  deliver msg s =
      if dry_run
      then (
        dry_run_body (record {
          status = text "dry_run";
          submission_id = r.submission_id;
          prepared_message = record {
            sender = msg.sender;
            to = msg.to;
            reply_to = msg.reply_to;
            subject = msg.subject;
            body_text = msg.body_text;
          };
        }),
        s,
      )
      else let sending = send_with_retry send s.sends msg cut_short in
        finish sending.outcome (record s { sends = s.sends + sending.attempts })

  -- The message of RefusedTo, as a validation error.
  unfoldable pub refusal_text : Refusal → Bytes
  unfolding text
  refusal_text no_address = text "must contain at least one address"
  refusal_text (invalid_addresses invalid) =
      text "invalid email address(es): " ++ show_addresses invalid

  unfoldable pub address : Result Refusal Message → State lru → Turn
  unfolding refusal_text deliver
  address (err e) s =
      (error_body 422 (validation [] ((text "to_override", refusal_text e) ∷ [])), s)
  address (ok msg) s = deliver msg s

  not_processed : Answer
  not_processed = plain_text 500 (text "submission could not be processed")

  -- The two templates, then the message.
  unfoldable pub render : Form → State lru → Turn
  unfolding address not_processed
  render form s = elim (render_subject form) [
    | none ↦ (not_processed, s)
    | some subject ↦ elim (render_body form) [
      | none ↦ (not_processed, s)
      | some body ↦ address (compose parse_address endpoint form subject body) s
    ]
  ]

  -- The error of the e-mail field.
  unfoldable pub field_errors : Form → List (Bytes × Bytes)
  field_errors form =
      let v = trim_space (form_get form endpoint.email_field) in
      if not (is_empty v) && not (email parse_address v)
      then (endpoint.email_field, text "invalid email format") ∷ []
      else []

  -- Required fields and the e-mail field.
  unfoldable pub check_fields : Form → State lru → Turn
  unfolding field_errors render
  check_fields form s =
      let missing = required_fields form required in
      let errors = field_errors form in
      if not (none_of missing) || not (none_of errors)
      then (
        write_validation_error_response redirect_error r.accept (validation missing errors),
        note validation_failed s,
      )
      else render form (note submitted s)

  -- The CSRF token, in form mode only.
  unfoldable pub check_token : Form → State lru → Turn
  unfolding check_fields
  check_token form s =
      if not endpoint.api_mode && not (is_empty csrf_secret)
      then elim (verify crypto (form_get form (text "_csrf_token")) csrf_secret csrf_ttl now) [
        | some e ↦ (refuse 403 (text "forbidden"), s)
        | none ↦ check_fields form s
      ]
      else check_fields form s

  -- The honeypot, in form mode only.
  unfoldable pub check_trap : Form → State lru → Turn
  unfolding check_token
  check_trap form s =
      if not endpoint.api_mode && is_silent (check_honeypot form honeypot)
      then (accepted, note (spam_blocked (text "honeypot")) s)
      else check_token form s

  -- What parsing the body gave.
  unfoldable pub parsed : (kind : Bytes) → Result BodyError Form → State lru → Turn
  unfolding check_trap
  parsed kind (err too_large) s = (refuse 413 (text "request body too large"), s)
  parsed kind (err (malformed e)) s =
      (plain_text 400 (text "parse " ++ (kind ++ (text ": " ++ e))), s)
  parsed kind (ok form) s = check_trap form s

  unfoldable pub read_body : State lru → Turn
  unfolding parsed
  read_body s =
      if endpoint.api_mode
      then (if not (is_json_content_type r.content_type)
          then (plain_text 415 (text "JSON body required (application/json)"), s)
          else parsed (text "JSON") r.json_body s)
      else parsed (text "form") r.form_body s

  -- The rate limit, under the key of the mode.
  unfoldable pub check_rate : Bytes → State lru → Turn
  unfolding read_body
  check_rate key s =
      let (granted, limiter) = allow_at lru key now s.limiter in
      if not limited
      then read_body s
      else if not granted
      then (
        refuse 429 (text "rate limit exceeded"),
        note rate_limited (record s { limiter = limiter }),
      )
      else read_body (record s { limiter = limiter })

  -- The branch of form mode.
  unfoldable pub serve_form : State lru → Turn
  unfolding check_rate
  serve_form s =
      if not (is_form_content_type r.content_type)
      then (
        plain_text 400 (
            text
              "form-encoded body required (application/x-www-form-urlencoded or multipart/form-data)"),
        s,
      )
      else if not (none_of allowed_origins)
          && is_hard (check_origin urls r.origin r.referer allowed_origins)
      then (refuse 403 (text "forbidden"), note (spam_blocked (text "origin")) s)
      else check_rate (client_ip net r.remote_addr r.forwarded trusted_proxies) s

  unfoldable pub is_post : Bool
  unfolding text
  is_post = bytes_eq r.method (text "POST")
