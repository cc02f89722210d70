-- ===== src/Gateway/Serve/Delivers.antt =====
-- core/gateway/handler.go: the end of ServeHTTP in form mode for a submission that passes its
-- checks, and for one that the honeypot catches.
use caddy_formward.Base.{
  ℕ, ◌+◌, ◌≤◌, Bool, true, false, not, ◌&&◌, ◌||◌, some, ◌≡◌, ◌≢◌, refl, sym, ap, ◌∙◌, arith, subst,
  none_of, if_rule, inl, inr,
}
use caddy_formward.Base.Results.{ok}
use caddy_formward.Text.{Bytes, text, is_empty}
use caddy_formward.Transport.{Message, SendResult, Outcome, sent, failed}
use caddy_formward.Lru.{Lru}
use caddy_formward.Spam.Checks.{
  Form, SpamResult, pass, silent_reject, hard_reject, check_honeypot, check_origin,
}
use caddy_formward.Ratelimit.ClientIp.{client_ip}
use caddy_formward.Ratelimit.Limiter.{allow_at}
use caddy_formward.Response.{Answer, plain_text, write_success_response}
use caddy_formward.Validate.{required_fields}
use caddy_formward.Gateway.Compose.{compose}
use caddy_formward.Gateway.Media.{is_form_content_type}
use caddy_formward.Gateway.Retry.{send_with_retry, send_with_retry_lem}
use caddy_formward.Gateway.Serve.{
  Request, Handler, State, Turn, finish, deliver, address, render, field_errors, check_fields,
  check_token, check_trap, is_silent, note, submitted, parsed, read_body, check_rate, serve_form,
  is_hard, accepted,
}
use caddy_formward.Gateway.Serve.Checked.{
  IsChecked, IsGranted, IsFromAllowed, IsMailed-field_errors,
}
use caddy_formward.Gateway.Serve.Guards.{sends-finish}

not_silent : (x : SpamResult) → x ≢ silent_reject → is_silent x ≡ false
not_silent pass ne = refl
not_silent silent_reject ne = absurd (ne refl)
not_silent hard_reject ne = refl

not_hard : (x : SpamResult) → x ≢ hard_reject → is_hard x ≡ false
not_hard pass ne = refl
not_hard silent_reject ne = refl
not_hard hard_reject ne = absurd (ne refl)

module _ (lru : Lru ℕ) (h : Handler) (cut_short : ℕ → Bool) (now : ℕ) (r : Request) where
  open h use {
    endpoint, required, honeypot, csrf_secret, csrf_ttl, crypto, parse_address, render_subject,
    render_body, dry_run, redirect_success, limited, allowed_origins, urls, net, trusted_proxies,
    send,
  }

  -- A stage ends with the delivery of the message.
  abbrev pub Delivers : Message → State lru → Turn lru h cut_short now r → Type 0
  Delivers msg s t =
      (s' : State lru) × (s'.sends ≡ s.sends) × (t ≡ deliver lru h cut_short now r msg s')

  abbrev message_of : {form : Form} → IsChecked lru h cut_short now r form → Message
  message_of good = good.rendered.2

  render_delivers :
      (form : Form) (good : IsChecked lru h cut_short now r form) (s : State lru)
      → render lru h cut_short now r form s ≡ deliver lru h cut_short now r (message_of good) s
  unfolding render address
  render_delivers form good s =
      let (subject, body, msg, subject_made, body_made, made) = good.rendered in
      rw (render, subject_made, body_made, made) refl

  fields_step :
      (form : Form) (good : IsChecked lru h cut_short now r form) (s : State lru)
      → (s' : State lru) × (s'.sends ≡ s.sends)
        × (check_fields lru h cut_short now r form s ≡ render lru h cut_short now r form s')
  unfolding check_fields
  fields_step form good s =
      let missing = required_fields form required in
      let errors = field_errors lru h cut_short now r form in
      let next = note lru h cut_short now r submitted s in
      let no_missing : none_of missing ≡ true = ap none_of good.filled in
      let no_errors : none_of errors ≡ true =
        ap none_of (IsMailed-field_errors lru h cut_short now r form good.mailed) in
      let step =
        if_rule (λ (t : Turn lru h cut_short now r). t ≡ render lru h cut_short now r form next)
          (not (none_of missing) || not (none_of errors))
          (λ bad. absurd (ground (arith, bad, no_missing, no_errors))) (λ fine. refl) in
      (next, refl, step)

  token_step :
      (form : Form) (good : IsChecked lru h cut_short now r form) (s : State lru)
      → endpoint.api_mode ≡ false
      → check_token lru h cut_short now r form s ≡ check_fields lru h cut_short now r form s
  unfolding check_token
  token_step form good s page =
      if_rule (λ (t : Turn lru h cut_short now r). t ≡ check_fields lru h cut_short now r form s)
        (not endpoint.api_mode && not (is_empty csrf_secret))
        (λ asked. elim good.tokened [
          | inl api ↦ absurd (ground (arith, api, page))
          | inr (inl unset) ↦ absurd (ground (arith, asked, unset))
          | inr (inr valid) ↦ rw valid refl
        ])
        (λ free. refl)

  trap_step :
      (form : Form) (good : IsChecked lru h cut_short now r form) (s : State lru)
      → endpoint.api_mode ≡ false
      → check_trap lru h cut_short now r form s ≡ check_token lru h cut_short now r form s
  unfolding check_trap
  trap_step form good s page =
      let free : is_silent (check_honeypot form honeypot) ≡ false = elim good.human [
        | inl api ↦ absurd (ground (arith, api, page))
        | inr ne ↦ not_silent (check_honeypot form honeypot) ne
      ] in
      if_rule (λ (t : Turn lru h cut_short now r). t ≡ check_token lru h cut_short now r form s)
        (not endpoint.api_mode && is_silent (check_honeypot form honeypot))
        (λ caught. absurd (ground (arith, caught, free))) (λ fine. refl)

  check_trap-Delivers :
      (form : Form) (good : IsChecked lru h cut_short now r form) (s : State lru)
      → endpoint.api_mode ≡ false
      → Delivers (message_of good) s (check_trap lru h cut_short now r form s)
  check_trap-Delivers form good s page =
      let (s', same, next) = fields_step form good s in
      (
        s',
        same,
        trap_step form good s page
            ∙ token_step form good s page
            ∙ next
            ∙ render_delivers form good s',
      )

  -- The conditions under which a form-mode POST is sent, with the form that is sent.
  abbrev pub IsSendable : (form : Form) → State lru → Type 0
  IsSendable form s =
      (endpoint.api_mode ≡ false)
      × (is_form_content_type r.content_type ≡ true)
      × IsFromAllowed lru h cut_short now r
      × IsGranted lru h cut_short now r (client_ip net r.remote_addr r.forwarded trusted_proxies) s
      × (r.form_body ≡ ok form)

  body_step :
      (form : Form) (s : State lru)
      → endpoint.api_mode ≡ false
      → r.form_body ≡ ok form
      → read_body lru h cut_short now r s ≡ check_trap lru h cut_short now r form s
  unfolding read_body parsed
  body_step form s page read =
      let plain : parsed lru h cut_short now r (text "form") r.form_body s
          ≡ check_trap lru h cut_short now r form s =
        ap (λ b. parsed lru h cut_short now r (text "form") b s) read in
      if_rule (λ (t : Turn lru h cut_short now r). t ≡ check_trap lru h cut_short now r form s)
        endpoint.api_mode (λ api. absurd (ground (arith, api, page))) (λ p. plain)

  rate_step :
      (key : Bytes) (s : State lru)
      → IsGranted lru h cut_short now r key s
      → (s' : State lru) × (s'.sends ≡ s.sends)
        × (check_rate lru h cut_short now r key s ≡ read_body lru h cut_short now r s')
  unfolding check_rate
  rate_step key s granted =
      let Step = λ (t : Turn lru h cut_short now r).
        (s' : State lru) × (s'.sends ≡ s.sends) × (t ≡ read_body lru h cut_short now r s') in
      if_rule Step (not limited) (λ free. (s, refl, refl))
        (λ held.
          if_rule Step (not (allow_at lru key now s.limiter).0)
            (λ spent. elim granted [
              | inl free ↦ absurd (ground (arith, held, free))
              | inr given ↦ absurd (ground (arith, spent, given))
            ])
            (λ given. (_, refl, refl)))

  form_step :
      (form : Form) (s : State lru)
      → IsSendable form s
      → serve_form lru h cut_short now r s
        ≡ check_rate lru h cut_short now r
            (client_ip net r.remote_addr r.forwarded trusted_proxies)
            s
  unfolding serve_form
  form_step form s (page, is_form, origin, granted, read) =
      let key = client_ip net r.remote_addr r.forwarded trusted_proxies in
      let Step = λ (t : Turn lru h cut_short now r). t ≡ check_rate lru h cut_short now r key s in
      let checked = check_origin urls r.origin r.referer allowed_origins in
      if_rule Step (not (is_form_content_type r.content_type))
        (λ other. absurd (ground (arith, other, is_form)))
        (λ fine.
          if_rule Step (not (none_of allowed_origins) && is_hard checked)
            (λ caught. elim origin [
              | inl all ↦ absurd (ground (arith, caught, all))
              | inr ne ↦ let ok' = not_hard checked ne in absurd (ground (arith, caught, ok'))
            ])
            (λ free. refl))

  serve_form-Delivers :
      (form : Form) (good : IsChecked lru h cut_short now r form) (s : State lru)
      → IsSendable form s
      → Delivers (message_of good) s (serve_form lru h cut_short now r s)
  serve_form-Delivers form good s (page, is_form, origin, granted, read) =
      let key = client_ip net r.remote_addr r.forwarded trusted_proxies in
      let (s1, same1, next1) = rate_step key s granted in
      let (s2, same2, next2) = check_trap-Delivers form good s1 page in
      (
        s2,
        same2 ∙ same1,
        form_step form s (page, is_form, origin, granted, read)
            ∙ next1
            ∙ body_step form s1 page read
            ∙ next2,
      )

  -- What the answer tells of the sending: status 200 with the submission's id, or a redirection
  -- where the request prefers one, if the transport took the message, and status 502 if it did not.
  abbrev pub Tells : Outcome → Answer → Type 0
  Tells (sent x) a =
      a
      ≡ write_success_response redirect_success r.accept
          (record { status = text "ok"; submission_id = r.submission_id })
  Tells (failed e) a = a ≡ plain_text 502 (text "submission could not be delivered")

  finish-Tells : (o : Outcome) (s : State lru) → Tells o (finish lru h cut_short now r o s).0
  unfolding finish text
  finish-Tells (sent x) s = refl
  finish-Tells (failed e) s = refl

  -- What a delivery comes to, after `calls` calls of the transport.
  abbrev pub Delivered : Message → State lru → (calls : ℕ) → Turn lru h cut_short now r → Type 0
  Delivered msg s calls t =
      let sending = send_with_retry send calls msg cut_short in
      (t.1.sends ≡ calls + sending.attempts)
      × (1 ≤ sending.attempts)
      × (sending.attempts ≤ 2)
      × Tells sending.outcome t.0

  attempted :
      (calls : ℕ) (msg : Message)
      → let n = (send_with_retry send calls msg cut_short).attempts in (1 ≤ n) × (n ≤ 2)
  attempted calls msg = elim (send_with_retry_lem send calls msg cut_short) [
    | inl (two, again, why) ↦ (ground (arith, two), ground (arith, two))
    | inr (one, first, why) ↦ (ground (arith, one), ground (arith, one))
  ]

  deliver-Delivered :
      (msg : Message) (s s' : State lru)
      → dry_run ≡ false
      → Delivered msg s s'.sends (deliver lru h cut_short now r msg s')
  unfolding deliver
  deliver-Delivered msg s s' live =
      let sending = send_with_retry send s'.sends msg cut_short in
      let s2 = record s' { sends = s'.sends + sending.attempts } in
      if_rule (Delivered msg s s'.sends) dry_run (λ dry. absurd (ground (arith, dry, live)))
        (λ fine. (
          sends-finish lru h cut_short now r sending.outcome s2,
          (attempted s'.sends msg).0,
          (attempted s'.sends msg).1,
          finish-Tells sending.outcome s2,
        ))

  -- A form-mode POST that passes every check is sent: the message composed of its rendered
  -- templates goes to the transport under the retry policy, in one or two calls; if the transport
  -- took it, the answer is the success with the submission's id, or its redirection, and otherwise
  -- status 502.
  pub serve_form_delivers :
      (form : Form) (good : IsChecked lru h cut_short now r form) (s : State lru)
      → IsSendable form s
      → (subject : Bytes) × (body : Bytes) × (msg : Message) × (render_subject form ≡ some subject)
        × (render_body form ≡ some body)
        × (compose parse_address endpoint form subject body ≡ ok msg)
        × Delivered msg s s.sends (serve_form lru h cut_short now r s)
  serve_form_delivers form good s sendable =
      let (subject, body, msg, subject_made, body_made, made) = good.rendered in
      let (s', same, next) = serve_form-Delivers form good s sendable in
      let done = deliver-Delivered msg s s' good.live in
      let counted =
        subst (λ calls. Delivered msg s calls (deliver lru h cut_short now r msg s')) same done in
      (
        subject,
        body,
        msg,
        subject_made,
        body_made,
        made,
        subst (Delivered msg s s.sends) (sym next) counted,
      )

  -- A submission that the honeypot catches, in form mode, makes no call of the transport and gets
  -- the answer of one whose message the transport takes.
  check_trap_silent :
      (form : Form) (s s' : State lru) (msg : Message) (result : SendResult)
      → endpoint.api_mode ≡ false
      → check_honeypot form honeypot ≡ silent_reject
      → dry_run ≡ false
      → (send_with_retry send s'.sends msg cut_short).outcome ≡ sent result
      → ((check_trap lru h cut_short now r form s).1.sends ≡ s.sends)
        × ((check_trap lru h cut_short now r form s).0 ≡ (deliver lru h cut_short now r msg s').0)
  unfolding check_trap deliver finish
  check_trap_silent form s s' msg result page caught live taken =
      let done = deliver-Delivered msg s s' live in
      let said : (deliver lru h cut_short now r msg s').0 ≡ accepted lru h cut_short now r =
        subst (λ o. Tells o (deliver lru h cut_short now r msg s').0) taken done.3 in
      let silent : is_silent (check_honeypot form honeypot) ≡ true = ap is_silent caught in
      if_rule
        (λ (t : Turn lru h cut_short now r).
          (t.1.sends ≡ s.sends) × (t.0 ≡ (deliver lru h cut_short now r msg s').0))
        (not endpoint.api_mode && is_silent (check_honeypot form honeypot))
        (λ trapped. (refl, sym said)) (λ free. absurd (ground (arith, free, page, silent)))
