-- ===== src/Transport/SmtpOut.antt =====
-- core/transport/smtpout.go: the transport that hands a message to an SMTP relay. The client of
-- net/smtp is a relay that answers each call, given the calls before it, with an error or none;
-- the encoder of package mime and the date are parameters.
pub mod Order
pub mod Headers
use caddy_formward.Base.{
  ℕ, suc, Bool, true, false, not, ◌&&◌, ◌||◌, List, [], ◌∷◌, ◌++◌, Option, none, some,
  if◌then◌else◌, ltb, ◌==◌,
}
use caddy_formward.Text.{Bytes, text, is_empty, join, contains_any}
use caddy_formward.Transport.{Message, TransportError, ErrorClass, transient, terminal}
use caddy_formward.Gateway.Compose.{AddressParser}

-- The header at fault, with the position of a recipient.
pub data HeaderError : Type 0 where
  in_from in_reply_to in_subject : HeaderError
  in_to : ℕ → HeaderError

abbrev pub is_line_break : ℕ → Bool
is_line_break c = c == 13 || c == 10

-- `strings.ContainsAny(v, "\r\n")`
abbrev pub breaks : Bytes → Bool
breaks v = contains_any v is_line_break

-- The loop over the recipients, from the index `i`.
unfoldable pub check_recipients : ℕ → List Bytes → Option HeaderError
unfolding contains_any
check_recipients i [] = none
check_recipients i (to ∷ tos) =
    let rest = check_recipients (suc i) tos in if breaks to then some (in_to i) else rest

-- `validateNoHeaderCRLF`
unfoldable pub validate_no_header_crlf : Message → Option HeaderError
unfolding contains_any check_recipients
validate_no_header_crlf msg =
    if breaks msg.sender
    then some in_from
    else if breaks msg.reply_to
    then some in_reply_to
    else if breaks msg.subject
    then some in_subject
    else check_recipients 0 msg.to

-- `envelopeAddress`
unfoldable pub envelope_address : AddressParser → Bytes → Option Bytes
envelope_address parse addr = elim (parse addr) [
  | none ↦ none
  | some (name, address) ↦ some address
]

-- `writeHeader`: what it appends.
unfoldable pub write_header : (name value : Bytes) → Bytes
write_header name value = name ++ (58 ∷ 32 ∷ value ++ (13 ∷ 10 ∷ []))

-- `needsMIMEEncoding`
unfoldable pub needs_mime_encoding : Bytes → Bool
needs_mime_encoding [] = false
needs_mime_encoding (c ∷ s) = ltb 127 c || needs_mime_encoding s

-- `encodeMIMESubject`
unfoldable pub encode_mime_subject : (b_encode : Bytes → Bytes) → Bytes → Bytes
unfolding needs_mime_encoding
encode_mime_subject b_encode subject =
    if not (needs_mime_encoding subject) then subject else b_encode subject

-- `buildRFC5322`
unfoldable pub build_rfc5322 : (b_encode : Bytes → Bytes) → (date : Bytes) → Message → Bytes
unfolding text is_empty join write_header encode_mime_subject
build_rfc5322 b_encode date msg =
    write_header (text "From") msg.sender
    ++ (write_header (text "To") (join (text ", ") msg.to)
        ++ ((if not (is_empty msg.reply_to)
              then write_header (text "Reply-To") msg.reply_to
              else [])
            ++ (write_header (text "Subject") (encode_mime_subject b_encode msg.subject)
                ++ (write_header (text "Date") date
                    ++ (write_header (text "MIME-Version") (text "1.0")
                        ++ (write_header (text "Content-Type")
                              (text "text/plain; charset=\"utf-8\"")
                            ++ (write_header (text "Content-Transfer-Encoding") (text "8bit")
                                ++ (13 ∷ 10 ∷ msg.body_text))))))))

-- An error of the client: a reply of the server with its code, or any other.
pub data SmtpError : Type 0 where
  replied : ℕ → SmtpError
  broken : SmtpError

-- `classifySMTPError`, of an error.
unfoldable pub classify_smtp_error : SmtpError → (context : Bytes) → TransportError
classify_smtp_error (replied code) context = record {
  class = if not (ltb code 500) then terminal else transient;
  status = code;
  message = context;
}
classify_smtp_error broken context = record { class = transient; status = 0; message = context }

-- The calls of the client.
pub data Call : Type 0 where
  hello starttls auth data_call close_data quit : Call
  mail rcpt write_data : Bytes → Call

pub record Relay : Type 0 where
  pub dial_fails : Bool
  pub offers_starttls : Bool
  -- after these calls, the error of this one
  pub answer : List Call → Call → Option SmtpError

-- The calls that were made, and the error.
abbrev pub Sent : Type 0
Sent = List Call × Option TransportError

abbrev pub failure : ErrorClass → (message : Bytes) → TransportError
failure class message = record { class = class; status = 0; message = message }

-- A call whose error ends the sending.
unfoldable pub attempt : Relay → (context : Bytes) → Call → List Call → (List Call → Sent) → Sent
unfolding classify_smtp_error
attempt relay context call past next = elim (relay.answer past call) [
  | some e ↦ (past ++ (call ∷ []), some (classify_smtp_error e context))
  | none ↦ next (past ++ (call ∷ []))
]

-- A write of the payload, whose error is transient whatever it is.
unfoldable pub attempt_write : Relay → Bytes → List Call → (List Call → Sent) → Sent
unfolding text
attempt_write relay payload past next = elim (relay.answer past (write_data payload)) [
  | some e ↦ (
    past ++ (write_data payload ∷ []),
    some (failure transient (text "smtp: write payload failed")),
  )
  | none ↦ next (past ++ (write_data payload ∷ []))
]

-- The end of DATA, and QUIT, whose result does not matter.
unfoldable pub send_close : Relay → List Call → Sent
unfolding text attempt
send_close relay past =
    attempt relay (text "smtp: DATA finalize failed") close_data past
      (λ past. (past ++ (quit ∷ []), none))

unfoldable pub send_payload : Relay → Bytes → List Call → Sent
unfolding attempt_write send_close
send_payload relay payload past = attempt_write relay payload past (send_close relay)

unfoldable pub send_data : Relay → Bytes → List Call → Sent
unfolding text attempt send_payload
send_data relay payload past =
    attempt relay (text "smtp: DATA command rejected") data_call past (send_payload relay payload)

-- The loop over the recipients.
unfoldable pub send_recipients : AddressParser → Relay → Bytes → List Bytes → List Call → Sent
unfolding text attempt envelope_address send_data
send_recipients parse relay payload [] past = send_data relay payload past
send_recipients parse relay payload (to ∷ tos) past = elim (envelope_address parse to) [
  | none ↦ (past, some (failure terminal (text "smtp: invalid to address")))
  | some address ↦
      attempt relay (text "smtp: RCPT TO rejected") (rcpt address) past
        (send_recipients parse relay payload tos)
]

unfoldable pub send_envelope : AddressParser → Relay → Bytes → Message → List Call → Sent
unfolding text attempt envelope_address send_recipients
send_envelope parse relay payload msg past = elim (envelope_address parse msg.sender) [
  | none ↦ (past, some (failure terminal (text "smtp: invalid from address")))
  | some address ↦
      attempt relay (text "smtp: MAIL FROM rejected") (mail address) past
        (send_recipients parse relay payload msg.to)
]

-- `SMTPOutTransport`, with what it formats.
pub record SmtpOut : Type 0 where
  pub username : Bytes
  pub password : Bytes
  pub require_tls : Bool
  pub b_encode : Bytes → Bytes
  pub date : Bytes
  pub parse_address : AddressParser

abbrev pub has_credentials : SmtpOut → Bool
has_credentials s = not (is_empty s.username) || not (is_empty s.password)

unfoldable pub send_auth : SmtpOut → Relay → Message → List Call → Sent
unfolding text attempt build_rfc5322 send_envelope
send_auth s relay msg past =
    let envelope = send_envelope s.parse_address relay (build_rfc5322 s.b_encode s.date msg) msg in
    if has_credentials s
    then attempt relay (text "smtp: AUTH failed") auth past envelope
    else envelope past

unfoldable pub send_tls : SmtpOut → Relay → Message → List Call → Sent
unfolding text attempt send_auth
send_tls s relay msg past =
    if s.require_tls
    then (if not relay.offers_starttls
        then (
          past,
          some (
              failure terminal
                (text "smtp: server does not advertise STARTTLS but require_tls=true")),
        )
        else attempt relay (text "smtp: STARTTLS upgrade failed") starttls past
            (send_auth s relay msg))
    else send_auth s relay msg past

-- `SMTPOutTransport.Send`
unfoldable pub send : SmtpOut → Relay → Message → Sent
unfolding text attempt validate_no_header_crlf send_tls
send s relay msg = elim (validate_no_header_crlf msg) [
  | some e ↦ ([], some (failure terminal (text "smtp: header injection attempt rejected")))
  | none ↦
      if relay.dial_fails
      then ([], some (failure transient (text "smtp: dial failed")))
      else attempt relay (text "smtp: EHLO failed") hello [] (send_tls s relay msg)
]
