-- ===== src/Tests/SmtpOut.antt =====
-- A message with a recipient and a Reply-To, handed to a relay that takes everything.
use caddy_formward.Base.{true, false, [], ◌∷◌, ◌++◌, none, some, ◌≡◌, ◌≢◌, ◌⊎◌, refl}
use caddy_formward.Text.{text}
use caddy_formward.Transport.{Message}
use caddy_formward.Transport.SmtpOut.{
  hello, Relay, SmtpOut, validate_no_header_crlf, build_rfc5322, send,
}
use caddy_formward.Transport.SmtpOut.Headers.{read_fields, is_folded, fields_of, read-build}
use caddy_formward.Transport.SmtpOut.Order.{Follows, tls_plan, send_lem}
use caddy_formward.Tests.Web.{addresses}

abbrev message : Message
message = record {
  sender = text "a@b";
  to = text "c@d" ∷ text "e@f" ∷ [];
  reply_to = text "g@h";
  subject = text "hello";
  body_text = text "one";
}

abbrev relay : Relay
relay = record { dial_fails = false; offers_starttls = true; answer = λ past call. none }

abbrev transport : SmtpOut
transport = record {
  username = text "u";
  password = text "p";
  require_tls = true;
  b_encode = λ s. text "=?utf-8?b?YQ==?=" ++ (13 ∷ 10 ∷ 32 ∷ text "=?utf-8?b?YQ==?=");
  date = text "Mon, 02 Jan 2006 15:04:05 +0000";
  parse_address = addresses;
}

accepted : validate_no_header_crlf message ≡ none
unfolding validate_no_header_crlf text
accepted = refl

dated : is_folded transport.date ≡ true
unfolding is_folded text
dated = refl

encoded : is_folded (transport.b_encode message.subject) ≡ true
unfolding is_folded text
encoded = refl

read-build_example :
    read_fields 9 (build_rfc5322 transport.b_encode transport.date message)
    ≡ some (fields_of transport.b_encode transport.date message, message.body_text)
read-build_example = read-build transport.b_encode transport.date message accepted encoded dated

send_lem_example :
    (((send transport relay message).1 ≢ none) × ((send transport relay message).0 ≡ []))
    ⊎ ((validate_no_header_crlf message ≡ none)
        × Follows [] (hello ∷ tls_plan transport message) (send transport relay message))
send_lem_example = send_lem transport relay message
