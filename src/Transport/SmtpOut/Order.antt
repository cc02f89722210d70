-- ===== src/Transport/SmtpOut/Order.antt =====
-- core/transport/smtpout.go: the order of the client's calls.
use caddy_formward.Base.{
  true, false, not, List, [], ◌∷◌, ◌++◌, none, some, ◌≡◌, ◌≢◌, ◌⊎◌, refl, sym, ap, ◌∙◌,
  if◌then◌else◌, if_rule, subst, Option-cases, inl, inr,
}
use mathlib.Core.List.{append_assoc, append-nil}
use caddy_formward.Text.{Bytes, text}
use caddy_formward.Transport.{Message, TransportError, transient, terminal}
use caddy_formward.Gateway.Compose.{AddressParser}
use caddy_formward.Transport.SmtpOut.{
  Call, hello, starttls, auth, data_call, close_data, quit, mail, rcpt, write_data, Relay, Sent,
  SmtpOut, validate_no_header_crlf, envelope_address, build_rfc5322, classify_smtp_error, failure,
  attempt, attempt_write, send_close, send_payload, send_data, send_recipients, send_envelope,
  has_credentials, send_auth, send_tls, send,
}

-- The address of the envelope, empty where it does not parse.
abbrev pub address_of : AddressParser → Bytes → Bytes
address_of parse addr = elim (envelope_address parse addr) [ none ↦ [] | some address ↦ address ]

abbrev pub data_calls : Bytes → List Call
data_calls payload = data_call ∷ write_data payload ∷ close_data ∷ quit ∷ []

abbrev pub rcpt_calls : AddressParser → List Bytes → List Call → List Call
rcpt_calls parse [] after = after
rcpt_calls parse (to ∷ tos) after = rcpt (address_of parse to) ∷ rcpt_calls parse tos after

-- After `past`, a sending goes along `calls`: it stops somewhere with an error, or goes to the end.
abbrev pub Follows : (past calls : List Call) → Sent → Type 0
Follows past calls s =
    (rest : List Call) × (s.0 ++ rest ≡ past ++ calls) × ((s.1 ≢ none) ⊎ (rest ≡ []))

stopped : (past calls : List Call) (e : TransportError) → Follows past calls (past, some e)
stopped past calls e = (calls, refl, inl (λ h. cc h))

attempt-Follows :
    (relay : Relay) (context : Bytes) (call : Call) (past calls : List Call)
    (next : List Call → Sent)
    → Follows (past ++ (call ∷ [])) calls (next (past ++ (call ∷ [])))
    → Follows past (call ∷ calls) (attempt relay context call past next)
unfolding attempt
attempt-Follows relay context call past calls next h =
    let same = append_assoc past (call ∷ []) calls in
    let after = past ++ (call ∷ []) in
    elim (Option-cases (relay.answer past call)) [
      | inr (e, a) ↦
          let fails : attempt relay context call past next
              ≡ (after, some (classify_smtp_error e context)) =
            rw (attempt, a) refl in
          subst (Follows past (call ∷ calls)) (sym fails) (calls, same, inl (λ h. cc h))
      | inl a ↦
          let (rest, along, end') = h in
          let goes : attempt relay context call past next ≡ next after = rw (attempt, a) refl in
          subst (Follows past (call ∷ calls)) (sym goes) (rest, along ∙ same, end')
    ]

attempt_write-Follows :
    (relay : Relay) (payload : Bytes) (past calls : List Call) (next : List Call → Sent)
    → Follows (past ++ (write_data payload ∷ [])) calls (next (past ++ (write_data payload ∷ [])))
    → Follows past (write_data payload ∷ calls) (attempt_write relay payload past next)
unfolding attempt_write
attempt_write-Follows relay payload past calls next h =
    let same = append_assoc past (write_data payload ∷ []) calls in
    let after = past ++ (write_data payload ∷ []) in
    elim (Option-cases (relay.answer past (write_data payload))) [
      | inr (e, a) ↦
          let fails : attempt_write relay payload past next
              ≡ (after, some (failure transient (text "smtp: write payload failed"))) =
            rw (attempt_write, a) refl in
          subst (Follows past (write_data payload ∷ calls)) (sym fails)
            (calls, same, inl (λ h. cc h))
      | inl a ↦
          let (rest, along, end') = h in
          let goes : attempt_write relay payload past next ≡ next after =
            rw (attempt_write, a) refl in
          subst (Follows past (write_data payload ∷ calls)) (sym goes) (rest, along ∙ same, end')
    ]

send_close-Follows :
    (relay : Relay) (past : List Call)
    → Follows past (close_data ∷ quit ∷ []) (send_close relay past)
unfolding send_close
send_close-Follows relay past =
    attempt-Follows relay (text "smtp: DATA finalize failed") close_data past (quit ∷ [])
      (λ past. (past ++ (quit ∷ []), none)) ([], append-nil _, inr refl)

send_payload-Follows :
    (relay : Relay) (payload : Bytes) (past : List Call)
    → Follows past (write_data payload ∷ close_data ∷ quit ∷ []) (send_payload relay payload past)
unfolding send_payload
send_payload-Follows relay payload past =
    attempt_write-Follows relay payload past (close_data ∷ quit ∷ []) (send_close relay)
      (send_close-Follows relay (past ++ (write_data payload ∷ [])))

send_data-Follows :
    (relay : Relay) (payload : Bytes) (past : List Call)
    → Follows past (data_calls payload) (send_data relay payload past)
unfolding send_data
send_data-Follows relay payload past =
    attempt-Follows relay (text "smtp: DATA command rejected") data_call past
      (write_data payload ∷ close_data ∷ quit ∷ []) (send_payload relay payload)
      (send_payload-Follows relay payload (past ++ (data_call ∷ [])))

send_recipients-Follows :
    (parse : AddressParser) (relay : Relay) (payload : Bytes) (tos : List Bytes) (past : List Call)
    → Follows past
        (rcpt_calls parse tos (data_calls payload))
        (send_recipients parse relay payload tos past)
unfolding send_recipients
send_recipients-Follows parse relay payload [] past = send_data-Follows relay payload past
send_recipients-Follows parse relay payload (to ∷ tos) past =
    elim (Option-cases (envelope_address parse to)) [
      | inl none' ↦
          let stops =
            stopped past (rcpt (address_of parse to) ∷ rcpt_calls parse tos (data_calls payload))
              (failure terminal (text "smtp: invalid to address")) in
          rw (send_recipients, none') stops
      | inr (address, e) ↦
          let goes =
            attempt-Follows relay (text "smtp: RCPT TO rejected") (rcpt address) past
              (rcpt_calls parse tos (data_calls payload)) (send_recipients parse relay payload tos)
              (send_recipients-Follows parse relay payload tos (past ++ (rcpt address ∷ []))) in
          let named : address ≡ address_of parse to = rw (address_of, e) refl in
          let along =
            subst
              (λ a. Follows past (rcpt a ∷ rcpt_calls parse tos (data_calls payload)) (
                attempt relay (text "smtp: RCPT TO rejected") (rcpt address) past
                  (send_recipients parse relay payload tos)))
              named goes in
          rw (send_recipients, e) along
    ]

send_envelope-Follows :
    (parse : AddressParser) (relay : Relay) (payload : Bytes) (msg : Message) (past : List Call)
    → Follows past
        (mail (address_of parse msg.sender) ∷ rcpt_calls parse msg.to (data_calls payload))
        (send_envelope parse relay payload msg past)
unfolding send_envelope
send_envelope-Follows parse relay payload msg past =
    let after = rcpt_calls parse msg.to (data_calls payload) in
    elim (Option-cases (envelope_address parse msg.sender)) [
      | inl none' ↦
          let stops =
            stopped past (mail (address_of parse msg.sender) ∷ after)
              (failure terminal (text "smtp: invalid from address")) in
          rw (send_envelope, none') stops
      | inr (address, e) ↦
          let goes =
            attempt-Follows relay (text "smtp: MAIL FROM rejected") (mail address) past after
              (send_recipients parse relay payload msg.to)
              (send_recipients-Follows parse relay payload msg.to (past ++ (mail address ∷ []))) in
          let named : address ≡ address_of parse msg.sender = rw (address_of, e) refl in
          let along =
            subst
              (λ a. Follows past (mail a ∷ after) (
                attempt relay (text "smtp: MAIL FROM rejected") (mail address) past
                  (send_recipients parse relay payload msg.to)))
              named goes in
          rw (send_envelope, e) along
    ]

-- The calls from AUTH on.
abbrev pub login_plan : SmtpOut → Message → List Call
login_plan s msg =
    let envelope =
      mail (address_of s.parse_address msg.sender)
      ∷ rcpt_calls s.parse_address msg.to (data_calls (build_rfc5322 s.b_encode s.date msg)) in
    if has_credentials s then auth ∷ envelope else envelope

send_auth-Follows :
    (s : SmtpOut) (relay : Relay) (msg : Message) (past : List Call)
    → Follows past (login_plan s msg) (send_auth s relay msg past)
unfolding send_auth
send_auth-Follows s relay msg past =
    let payload = build_rfc5322 s.b_encode s.date msg in
    let next = send_envelope s.parse_address relay payload msg in
    let envelope =
      mail (address_of s.parse_address msg.sender)
      ∷ rcpt_calls s.parse_address msg.to (data_calls payload) in
    elim (has_credentials s)
      as (λ b.
        Follows past (if b then auth ∷ envelope else envelope)
          (if b then attempt relay (text "smtp: AUTH failed") auth past next else next past)) [
            | true ↦
                attempt-Follows relay (text "smtp: AUTH failed") auth past envelope next
                  (send_envelope-Follows s.parse_address relay payload msg (past ++ (auth ∷ [])))
            | false ↦ send_envelope-Follows s.parse_address relay payload msg past
          ]

-- The calls from STARTTLS on.
abbrev pub tls_plan : SmtpOut → Message → List Call
tls_plan s msg = if s.require_tls then starttls ∷ login_plan s msg else login_plan s msg

send_tls-Follows :
    (s : SmtpOut) (relay : Relay) (msg : Message) (past : List Call)
    → Follows past (tls_plan s msg) (send_tls s relay msg past)
unfolding send_tls
send_tls-Follows s relay msg past =
    let refused =
      failure terminal (text "smtp: server does not advertise STARTTLS but require_tls=true") in
    let upgrade =
      attempt relay (text "smtp: STARTTLS upgrade failed") starttls past (send_auth s relay msg) in
    elim s.require_tls
      as (λ b. Follows past (if b then starttls ∷ login_plan s msg else login_plan s msg) (
        if b
        then (if not relay.offers_starttls then (past, some refused) else upgrade)
        else send_auth s relay msg past)) [
          | true ↦
              if_rule (Follows past (starttls ∷ login_plan s msg)) (not relay.offers_starttls)
                (λ missing. stopped past (starttls ∷ login_plan s msg) refused)
                (λ offered.
                  attempt-Follows relay (text "smtp: STARTTLS upgrade failed") starttls past
                    (login_plan s msg) (send_auth s relay msg)
                    (send_auth-Follows s relay msg (past ++ (starttls ∷ []))))
          | false ↦ send_auth-Follows s relay msg past
        ]

-- The calls of a sending to a relay go along one plan, and stop with an error or reach its end: EHLO,
-- STARTTLS where TLS is required, AUTH where there are credentials, MAIL FROM, RCPT TO for every
-- recipient in order, the message, and QUIT. So with TLS required no credential, address or message
-- goes out before STARTTLS; and a message with a line break in a header is sent no call at all.
pub send_lem :
    (s : SmtpOut) (relay : Relay) (msg : Message)
    → (((send s relay msg).1 ≢ none) × ((send s relay msg).0 ≡ []))
      ⊎ ((validate_no_header_crlf msg ≡ none)
          × Follows [] (hello ∷ tls_plan s msg) (send s relay msg))
unfolding send
send_lem s relay msg = elim (Option-cases (validate_no_header_crlf msg)) [
  | inr (e, v) ↦
      let stops : send s relay msg
          ≡ ([], some (failure terminal (text "smtp: header injection attempt rejected"))) =
        rw (send, v) refl in
      inl ((λ h. cc (h, ap (λ (x : Sent). x.1) stops)), ap (λ (x : Sent). x.0) stops)
  | inl v ↦
      let no_dial : Sent = ([], some (failure transient (text "smtp: dial failed"))) in
      let talk = attempt relay (text "smtp: EHLO failed") hello [] (send_tls s relay msg) in
      let goes : send s relay msg ≡ (if relay.dial_fails then no_dial else talk) =
        rw (send, v) refl in
      let follows =
        if_rule (Follows [] (hello ∷ tls_plan s msg)) relay.dial_fails
          (λ down.
            stopped [] (hello ∷ tls_plan s msg) (failure transient (text "smtp: dial failed")))
          (λ up.
            attempt-Follows relay (text "smtp: EHLO failed") hello [] (tls_plan s msg)
              (send_tls s relay msg) (send_tls-Follows s relay msg (hello ∷ []))) in
      inr (v, subst (Follows [] (hello ∷ tls_plan s msg)) (sym goes) follows)
]
