-- ===== src/Tests/Smtp.antt =====
-- A session of core/smtp with one client: it authenticates and sends one message.
use caddy_formward.Base.{
  ◌++◌, ◌||◌, ◌⊎◌, ◌<◌, false, ◌+◌, true, false, List, [], ◌∷◌, none, some, ◌≡◌, ◌↔◌, refl, length,
  arith, ltb, if◌then◌else◌,
}
use caddy_formward.Base.Int.{pos}
use caddy_formward.Base.Results.{ok}
use caddy_formward.Text.{is_empty, Bytes, text}
use caddy_formward.Transport.{Message, sent}
use caddy_formward.Smtp.Config.{
  none_of, is_known, effective_auth_mode, effective_max_recipients, takes_passwords, takes_certs,
  ListenerConfig, User, unset, validate,
}
use caddy_formward.Smtp.Config.Closed.{validate_closed}
use caddy_formward.Smtp.Commands.{handle_mail, at_cap}
use caddy_formward.Smtp.Commands.Mail.{handle_mail_lem}
use caddy_formward.Smtp.Mime.{MimeLib, eof, parse_mime_to_message}
use caddy_formward.Smtp.Session.{
  Listener, Session, Outside, Handshake, hang_up, new_session, write_reply, reset_transaction,
}
use caddy_formward.Smtp.Delivery.{handle_data, submit}
use caddy_formward.Smtp.Delivery.Stuffed.{stuffed, with_ends, handle_data-stuffed}
use caddy_formward.Smtp.Run.{go_on, step, run}
use caddy_formward.Smtp.Ends.{pending}
use caddy_formward.Smtp.Envelope.{extract_envelope_address, matches_allowlist}
use caddy_formward.Smtp.Envelope.Allowlist.{Listed, matches_allowlist_iff}
use caddy_formward.Smtp.Relay.Addressed.{Clean}
use caddy_formward.Smtp.Relay.Handed.{to-parse_mime}
use caddy_formward.Smtp.Relay.Sessions.{run_addresses_only_allowed}
use caddy_formward.Smtp.Relay.Authorized.{Reach, greeted, next, IsAuthorized, send-IsAuthorized}

abbrev config : ListenerConfig
config = record {
  listen = b':' ∷ b'2' ∷ b'5' ∷ [];
  require_tls = false;
  tls_cert = [];
  tls_key = [];
  client_cert_ca = [];
  auth_required = unset;
  smtp_users = record { username = b'u' ∷ []; password = b'p' ∷ [] } ∷ [];
  allowed_senders = (b'*' ∷ b'@' ∷ b'a' ∷ []) ∷ [];
  allowed_recipients = (b'o' ∷ b'@' ∷ b'b' ∷ []) ∷ [];
  max_recipients_per_session = pos 2;
  max_message_size = [];
  idle_timeout = pos 0;
  transport_type = [];
}

abbrev listener : Listener
listener = record { cfg = config; has_tls = false; max_body = pos 1000; recorder = true }

abbrev mime : MimeLib
mime = record {
  read_message = λ blob. ok (record { header = λ _. []; body = ok blob });
  decode_header = λ h. ok h;
  parse_media_type = λ _. record { media = []; param = λ _. []; invalid = false };
  multipart = λ _ _. eof;
}

abbrev outside : Outside
outside = record {
  write_ok = λ _. true;
  decode_base64 = λ _. some (0 ∷ b'u' ∷ 0 ∷ b'p' ∷ []);
  mime = mime;
  send = λ _ _. sent (record { message_id = [] });
  new_uuid = λ _. [];
  format_int = λ _. [];
}

abbrev auth_line : Bytes
auth_line = text "AUTH PLAIN AHUAcA=="

abbrev mail_line : Bytes
mail_line = text "MAIL FROM:<x@a>"

abbrev rcpt_line : Bytes
rcpt_line = text "RCPT TO:<o@b>"

abbrev data_line : Bytes
data_line = text "DATA"

abbrev blob_lines : List Bytes
blob_lines = text "hello" ∷ text "." ∷ []

abbrev client_lines : List Bytes
client_lines = auth_line ∷ mail_line ∷ rcpt_line ∷ data_line ∷ blob_lines

config_valid : validate config ≡ none
unfolding validate caddy_formward.Text.is_empty caddy_formward.Text.trim_space
config_valid = refl

run_addresses_only_allowed_example :
    (t : Session) × (run listener outside
        (1 + (length client_lines + pending hang_up))
        (new_session client_lines hang_up)
      ≡ some t)
    × Clean listener outside t
run_addresses_only_allowed_example =
    run_addresses_only_allowed listener outside client_lines hang_up config_valid

matches_allowlist_iff_example :
    (matches_allowlist (text "x@a") (text "*@a" ∷ []) ≡ true)
    ↔ Listed (text "x@a") (text "*@a" ∷ [])
matches_allowlist_iff_example = matches_allowlist_iff (text "x@a") (text "*@a" ∷ [])

abbrev s0 : Session
s0 = write_reply 220 (text "posthorn ready") (new_session client_lines hang_up)

abbrev after_auth : List Bytes
after_auth = mail_line ∷ rcpt_line ∷ data_line ∷ blob_lines

abbrev s1 : Session
s1 = record (write_reply 235 (text "2.7.0 Authentication successful") s0) {
  lines = after_auth;
  authed_user = text "u";
}

step1 : step listener outside auth_line (record s0 { lines = after_auth }) ≡ go_on s1
unfolding step text caddy_formward.Text.bytes_eq caddy_formward.Text.to_upper
    caddy_formward.Text.index_byte caddy_formward.Text.equal_fold caddy_formward.Text.is_empty
    caddy_formward.Text.trim_space caddy_formward.Text.split_n caddy_formward.Text.cut
    caddy_formward.Text.has_prefix caddy_formward.Smtp.Commands.handle_auth
    caddy_formward.Smtp.Commands.auth_plain caddy_formward.Smtp.Commands.handle_mail
    caddy_formward.Smtp.Commands.handle_rcpt caddy_formward.Smtp.Commands.at_cap
    caddy_formward.Smtp.Commands.recipient_refused caddy_formward.Smtp.Session.can_advertise_auth
    caddy_formward.Smtp.Session.auth_required_and_missing caddy_formward.Smtp.Session.missing_for
    caddy_formward.Smtp.Config.effective_auth_mode
    caddy_formward.Smtp.Config.effective_max_recipients
    caddy_formward.Smtp.Envelope.extract_envelope_address
    caddy_formward.Smtp.Envelope.matches_allowlist caddy_formward.Smtp.Delivery.handle_data
    caddy_formward.Smtp.Delivery.dot_read caddy_formward.Smtp.Delivery.receive
    caddy_formward.Smtp.Delivery.read_limit caddy_formward.Smtp.Delivery.too_big
    caddy_formward.Smtp.Delivery.record_send_ok caddy_formward.Smtp.Mime.parse_mime_to_message
    caddy_formward.Smtp.Mime.is_plain caddy_formward.Smtp.Session.write_reply
    caddy_formward.Smtp.Session.new_session
step1 = refl

abbrev after_mail : List Bytes
after_mail = rcpt_line ∷ data_line ∷ blob_lines

abbrev s2 : Session
s2 = record (write_reply 250 (text "2.1.0 OK") s1) {
  lines = after_mail;
  mail_from = text "x@a";
  transaction = true;
}

step2 : step listener outside mail_line (record s1 { lines = after_mail }) ≡ go_on s2
unfolding step text caddy_formward.Text.bytes_eq caddy_formward.Text.to_upper
    caddy_formward.Text.index_byte caddy_formward.Text.equal_fold caddy_formward.Text.is_empty
    caddy_formward.Text.trim_space caddy_formward.Text.split_n caddy_formward.Text.cut
    caddy_formward.Text.has_prefix caddy_formward.Smtp.Commands.handle_auth
    caddy_formward.Smtp.Commands.auth_plain caddy_formward.Smtp.Commands.handle_mail
    caddy_formward.Smtp.Commands.handle_rcpt caddy_formward.Smtp.Commands.at_cap
    caddy_formward.Smtp.Commands.recipient_refused caddy_formward.Smtp.Session.can_advertise_auth
    caddy_formward.Smtp.Session.auth_required_and_missing caddy_formward.Smtp.Session.missing_for
    caddy_formward.Smtp.Config.effective_auth_mode
    caddy_formward.Smtp.Config.effective_max_recipients
    caddy_formward.Smtp.Envelope.extract_envelope_address
    caddy_formward.Smtp.Envelope.matches_allowlist caddy_formward.Smtp.Delivery.handle_data
    caddy_formward.Smtp.Delivery.dot_read caddy_formward.Smtp.Delivery.receive
    caddy_formward.Smtp.Delivery.read_limit caddy_formward.Smtp.Delivery.too_big
    caddy_formward.Smtp.Delivery.record_send_ok caddy_formward.Smtp.Mime.parse_mime_to_message
    caddy_formward.Smtp.Mime.is_plain caddy_formward.Smtp.Session.write_reply
    caddy_formward.Smtp.Session.new_session
step2 = refl

abbrev after_rcpt : List Bytes
after_rcpt = data_line ∷ blob_lines

abbrev s3 : Session
s3 = record (write_reply 250 (text "2.1.5 OK") s2) { lines = after_rcpt; rcpt_to = text "o@b" ∷ [] }

step3 : step listener outside rcpt_line (record s2 { lines = after_rcpt }) ≡ go_on s3
unfolding step text caddy_formward.Text.bytes_eq caddy_formward.Text.to_upper
    caddy_formward.Text.index_byte caddy_formward.Text.equal_fold caddy_formward.Text.is_empty
    caddy_formward.Text.trim_space caddy_formward.Text.split_n caddy_formward.Text.cut
    caddy_formward.Text.has_prefix caddy_formward.Smtp.Commands.handle_auth
    caddy_formward.Smtp.Commands.auth_plain caddy_formward.Smtp.Commands.handle_mail
    caddy_formward.Smtp.Commands.handle_rcpt caddy_formward.Smtp.Commands.at_cap
    caddy_formward.Smtp.Commands.recipient_refused caddy_formward.Smtp.Session.can_advertise_auth
    caddy_formward.Smtp.Session.auth_required_and_missing caddy_formward.Smtp.Session.missing_for
    caddy_formward.Smtp.Config.effective_auth_mode
    caddy_formward.Smtp.Config.effective_max_recipients
    caddy_formward.Smtp.Envelope.extract_envelope_address
    caddy_formward.Smtp.Envelope.matches_allowlist caddy_formward.Smtp.Delivery.handle_data
    caddy_formward.Smtp.Delivery.dot_read caddy_formward.Smtp.Delivery.receive
    caddy_formward.Smtp.Delivery.read_limit caddy_formward.Smtp.Delivery.too_big
    caddy_formward.Smtp.Delivery.record_send_ok caddy_formward.Smtp.Mime.parse_mime_to_message
    caddy_formward.Smtp.Mime.is_plain caddy_formward.Smtp.Session.write_reply
    caddy_formward.Smtp.Session.new_session
step3 = refl

-- DATA is read with the message: one more call of the transport.
abbrev s4 : Session
s4 = handle_data listener outside (record s3 { lines = blob_lines })

step4 : step listener outside data_line (record s3 { lines = blob_lines }) ≡ go_on s4
unfolding step text caddy_formward.Text.bytes_eq caddy_formward.Text.to_upper
    caddy_formward.Text.index_byte caddy_formward.Text.equal_fold caddy_formward.Text.is_empty
    caddy_formward.Text.trim_space caddy_formward.Text.split_n caddy_formward.Text.cut
    caddy_formward.Text.has_prefix caddy_formward.Smtp.Commands.handle_auth
    caddy_formward.Smtp.Commands.auth_plain caddy_formward.Smtp.Commands.handle_mail
    caddy_formward.Smtp.Commands.handle_rcpt caddy_formward.Smtp.Commands.at_cap
    caddy_formward.Smtp.Commands.recipient_refused caddy_formward.Smtp.Session.can_advertise_auth
    caddy_formward.Smtp.Session.auth_required_and_missing caddy_formward.Smtp.Session.missing_for
    caddy_formward.Smtp.Config.effective_auth_mode
    caddy_formward.Smtp.Config.effective_max_recipients
    caddy_formward.Smtp.Envelope.extract_envelope_address
    caddy_formward.Smtp.Envelope.matches_allowlist caddy_formward.Smtp.Delivery.handle_data
    caddy_formward.Smtp.Delivery.dot_read caddy_formward.Smtp.Delivery.receive
    caddy_formward.Smtp.Delivery.read_limit caddy_formward.Smtp.Delivery.too_big
    caddy_formward.Smtp.Delivery.record_send_ok caddy_formward.Smtp.Mime.parse_mime_to_message
    caddy_formward.Smtp.Mime.is_plain caddy_formward.Smtp.Session.write_reply
    caddy_formward.Smtp.Session.new_session
step4 = refl

sends4 : s4.sends ≡ 1
unfolding step text caddy_formward.Text.bytes_eq caddy_formward.Text.to_upper
    caddy_formward.Text.index_byte caddy_formward.Text.equal_fold caddy_formward.Text.is_empty
    caddy_formward.Text.trim_space caddy_formward.Text.split_n caddy_formward.Text.cut
    caddy_formward.Text.has_prefix caddy_formward.Smtp.Commands.handle_auth
    caddy_formward.Smtp.Commands.auth_plain caddy_formward.Smtp.Commands.handle_mail
    caddy_formward.Smtp.Commands.handle_rcpt caddy_formward.Smtp.Commands.at_cap
    caddy_formward.Smtp.Commands.recipient_refused caddy_formward.Smtp.Session.can_advertise_auth
    caddy_formward.Smtp.Session.auth_required_and_missing caddy_formward.Smtp.Session.missing_for
    caddy_formward.Smtp.Config.effective_auth_mode
    caddy_formward.Smtp.Config.effective_max_recipients
    caddy_formward.Smtp.Envelope.extract_envelope_address
    caddy_formward.Smtp.Envelope.matches_allowlist caddy_formward.Smtp.Delivery.handle_data
    caddy_formward.Smtp.Delivery.dot_read caddy_formward.Smtp.Delivery.receive
    caddy_formward.Smtp.Delivery.read_limit caddy_formward.Smtp.Delivery.too_big
    caddy_formward.Smtp.Delivery.record_send_ok caddy_formward.Smtp.Mime.parse_mime_to_message
    caddy_formward.Smtp.Mime.is_plain caddy_formward.Smtp.Session.write_reply
    caddy_formward.Smtp.Session.new_session
sends4 = refl

reach3 : Reach listener outside s0 s3
unfolding new_session write_reply
reach3 =
    next rcpt_line after_rcpt
      (next mail_line after_mail (next auth_line after_auth greeted refl step1) refl step2) refl
      step3

sends3 : s3.sends ≡ 0
unfolding new_session write_reply
sends3 = refl

lines3 : s3.lines ≡ after_rcpt
lines3 = refl

send-IsAuthorized_example : IsAuthorized listener outside s3
send-IsAuthorized_example =
    send-IsAuthorized listener outside client_lines hang_up s3 s4 data_line blob_lines config_valid
      reach3 lines3 step4 (λ e. omega (arith, e, sends3, sends4))

abbrev parsed : Message
parsed = record {
  sender = text "x@a";
  to = text "o@b" ∷ [];
  reply_to = [];
  subject = [];
  body_text = text "hello";
}

parses : parse_mime_to_message mime (text "hello") (text "x@a") (text "o@b" ∷ []) ≡ ok parsed
unfolding parse_mime_to_message caddy_formward.Smtp.Mime.is_plain caddy_formward.Text.is_empty
parses = refl

to-parse_mime_example : parsed.to ≡ text "o@b" ∷ []
to-parse_mime_example =
    to-parse_mime mime (text "hello") (text "x@a") (text "o@b" ∷ []) {m = parsed} parses

validate_closed_example :
    (none_of config.allowed_senders ≡ false)
    × (is_known (effective_auth_mode config.auth_required) ≡ true)
    × (takes_passwords (effective_auth_mode config.auth_required) ≡ true
        → none_of config.smtp_users ≡ false)
    × ((config.require_tls || takes_certs (effective_auth_mode config.auth_required)) ≡ true
        → (is_empty config.tls_cert ≡ false) × (is_empty config.tls_key ≡ false))
    × ((none_of config.allowed_recipients ≡ false) ⊎ (0 < effective_max_recipients config))
validate_closed_example = validate_closed config config_valid

handle_mail_lem_example :
    let t = handle_mail listener outside (text "FROM:<y@a>") s3 in
    ((t.transaction ≡ s3.transaction) × (t.mail_from ≡ s3.mail_from) × (t.rcpt_to ≡ s3.rcpt_to))
    ⊎ ((t.transaction ≡ true)
        × (t.mail_from ≡ extract_envelope_address (text "FROM:<y@a>") (text "FROM:"))
        × (matches_allowlist t.mail_from listener.cfg.allowed_senders ≡ true)
        × (t.rcpt_to ≡ [])
        × (at_cap listener outside t ≡ false))
handle_mail_lem_example = handle_mail_lem listener outside (text "FROM:<y@a>") s3

abbrev dotted : List Bytes
dotted = text "hello" ∷ text ".hidden" ∷ []

handle_data-stuffed_example :
    let s = record s3 { lines = stuffed dotted ++ (text "QUIT" ∷ []) } in
    let s' = record (write_reply 354 (text "End data with <CR><LF>.<CR><LF>") s) {
      lines = text "QUIT" ∷ [];
    } in
    handle_data listener outside s ≡ (
      if ltb 1000 (length (with_ends dotted))
      then reset_transaction (write_reply 552 (text "5.3.4 Message too big") s')
      else submit listener outside (with_ends dotted) s')
unfolding write_reply new_session
handle_data-stuffed_example =
    handle_data-stuffed listener outside 1000 dotted (text "QUIT" ∷ [])
      (record s3 { lines = stuffed dotted ++ (text "QUIT" ∷ []) }) refl (omega arith) (omega arith)
      refl refl refl refl
