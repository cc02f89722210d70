-- ===== src/Gateway/Serve/Guards.antt =====
-- core/gateway/handler.go: what stands before a call of the transport in ServeHTTP.
use caddy_formward.Base.{
  ℕ, Bool, true, false, not, ◌&&◌, ◌||◌, List, [], ◌∷◌, some, ◌≡◌, ◌≢◌, refl, ap, ◌∙◌, arith,
  if◌then◌else◌, if_rule, none_of, Bool-cases, Option-cases, subst, inl, inr, ◌⊎◌,
}
use caddy_formward.Base.Results.{Result, ok, err}
use caddy_formward.Text.{Bytes, text, is_empty}
use caddy_formward.Transport.{Message, Outcome, sent, failed}
use caddy_formward.Lru.{Lru}
use caddy_formward.Spam.Checks.{Form, check_honeypot, check_origin}
use caddy_formward.Validate.{required_fields}
use caddy_formward.Csrf.{verify}
use caddy_formward.Gateway.Compose.{form_get, compose, Refusal}
use caddy_formward.Gateway.Serve.{
  Request, Handler, State, Turn, finish, deliver, address, render, field_errors, check_fields,
  check_token, check_trap, is_silent, too_large, malformed, BodyError, parsed, read_body,
  check_rate, serve_form, is_hard,
}
use caddy_formward.Gateway.Serve.Checked.{
  IsTokened, IsHuman, IsChecked, IsGranted, IsFromAllowed, field_errors-IsMailed,
}
use caddy_formward.Ratelimit.ClientIp.{client_ip}
use caddy_formward.Ratelimit.Limiter.{allow_at}
use caddy_formward.Gateway.Media.{is_form_content_type, is_json_content_type}

module _ (lru : Lru ℕ) (h : Handler) (cut_short : ℕ → Bool) (now : ℕ) (r : Request) where
  open h use {
    endpoint, required, honeypot, csrf_secret, csrf_ttl, crypto, parse_address, render_subject,
    render_body, dry_run, limited, allowed_origins, urls, net, trusted_proxies,
  }

  -- A stage that makes a call only under a condition.
  abbrev pub SendsIf : Type 0 → State lru → Turn lru h cut_short now r → Type 0
  SendsIf P s t = (t.1.sends ≢ s.sends) → P

  pub sends-finish :
      (o : Outcome) (s : State lru) → (finish lru h cut_short now r o s).1.sends ≡ s.sends
  unfolding finish
  sends-finish (sent x) s = refl
  sends-finish (failed e) s = refl

  deliver_sends :
      (msg : Message) (s : State lru)
      → SendsIf (dry_run ≡ false) s (deliver lru h cut_short now r msg s)
  unfolding deliver
  deliver_sends msg s more = ground (arith, more)

  address_sends :
      (m : Result Refusal Message) (s : State lru)
      → SendsIf
          ((msg : Message) × (m ≡ ok msg) × (dry_run ≡ false))
          s
          (address lru h cut_short now r m s)
  unfolding address
  address_sends (err e) s more = absurd (more refl)
  address_sends (ok msg) s more = (msg, refl, deliver_sends msg s more)

  render_sends :
      (form : Form) (s : State lru)
      → SendsIf
          ((subject : Bytes) × (body : Bytes) × (msg : Message) × (render_subject form
              ≡ some subject)
            × (render_body form ≡ some body)
            × (compose parse_address endpoint form subject body ≡ ok msg)
            × (dry_run ≡ false))
          s
          (render lru h cut_short now r form s)
  unfolding render
  render_sends form s more = elim (Option-cases (render_subject form)) [
    | inl e ↦ absurd (more (rw (render, e) refl))
    | inr (subject, e) ↦ elim (Option-cases (render_body form)) [
      | inl f ↦ absurd (more (rw (render, e, f) refl))
      | inr (body, f) ↦
          let (msg, made, live) =
            address_sends (compose parse_address endpoint form subject body) s
              (λ same. more (rw (render, e, f) same)) in
          (subject, body, msg, e, f, made, live)
    ]
  ]

  -- A stage either makes no call, or is the next stage, on a state with the same count.
  abbrev pub Goes :
      Type 0
      → State lru
      → Turn lru h cut_short now r
      → (State lru → Turn lru h cut_short now r)
      → Type 0
  Goes P s t next =
      (t.1.sends ≡ s.sends) ⊎ (P × ((s' : State lru) × (s'.sends ≡ s.sends) × (t ≡ next s')))

  nil_of_none_of : {A : Type 0} (xs : List A) → not (none_of xs) ≡ false → xs ≡ []
  nil_of_none_of [] e = refl
  nil_of_none_of (x ∷ xs) e = cc

  check_fields-Goes :
      (form : Form) (s : State lru)
      → Goes
          ((required_fields form required ≡ []) × (field_errors lru h cut_short now r form ≡ []))
          s
          (check_fields lru h cut_short now r form s)
          (render lru h cut_short now r form)
  unfolding check_fields
  check_fields-Goes form s =
      let missing = required_fields form required in
      let errors = field_errors lru h cut_short now r form in
      if_rule
        (λ (t : Turn lru h cut_short now r).
          Goes ((missing ≡ []) × (errors ≡ [])) s t (render lru h cut_short now r form))
        (not (none_of missing) || not (none_of errors)) (λ bad. inl refl)
        (λ good. inr (
          (
            nil_of_none_of missing (ground (arith, good)),
            nil_of_none_of errors (ground (arith, good)),
          ),
          (_, refl, refl),
        ))

  check_token-Goes :
      (form : Form) (s : State lru)
      → Goes
          (IsTokened lru h cut_short now r form)
          s
          (check_token lru h cut_short now r form s)
          (check_fields lru h cut_short now r form)
  unfolding check_token
  check_token-Goes form s =
      let verified = verify crypto (form_get form (text "_csrf_token")) csrf_secret csrf_ttl now in
      elim (Bool-cases (not endpoint.api_mode && not (is_empty csrf_secret))) [
        | inl asked ↦ elim (Option-cases verified) [
          | inl good ↦ inr (inr (inr good), (s, refl, rw (check_token, asked, good) refl))
          | inr (e, bad) ↦ inl (rw (check_token, asked, bad) refl)
        ]
        | inr free ↦
            let unchecked : IsTokened lru h cut_short now r form =
              elim (Bool-cases endpoint.api_mode) [
                | inl api ↦ inl api
                | inr page ↦ inr (inl (ground (arith, free, page)))
              ] in
            inr (unchecked, (s, refl, rw (check_token, free) refl))
      ]

  check_trap-Goes :
      (form : Form) (s : State lru)
      → Goes
          (IsHuman lru h cut_short now r form)
          s
          (check_trap lru h cut_short now r form s)
          (check_token lru h cut_short now r form)
  unfolding check_trap
  check_trap-Goes form s =
      if_rule
        (λ (t : Turn lru h cut_short now r).
          Goes (IsHuman lru h cut_short now r form) s t (check_token lru h cut_short now r form))
        (not endpoint.api_mode && is_silent (check_honeypot form honeypot)) (λ caught. inl refl)
        (λ free.
          let seen : IsHuman lru h cut_short now r form = elim (Bool-cases endpoint.api_mode) [
            | inl api ↦ inl api
            | inr page ↦ inr (λ same. absurd (ground (arith, free, page, same)))
          ] in
          inr (seen, (s, refl, refl)))

  -- A form that leads to a call has passed every check.
  check_trap_sends :
      (form : Form) (s : State lru)
      → SendsIf (IsChecked lru h cut_short now r form) s (check_trap lru h cut_short now r form s)
  check_trap_sends form s more = elim (check_trap-Goes form s) [
    | inl same ↦ absurd (more same)
    | inr (human, (s1, same1, e1)) ↦ elim (check_token-Goes form s1) [
      | inl same ↦
          absurd (more (ap (λ (t : Turn lru h cut_short now r). t.1.sends) e1 ∙ same ∙ same1))
      | inr (tokened, (s2, same2, e2)) ↦ elim (check_fields-Goes form s2) [
        | inl same ↦ absurd (
            more
              (ap (λ (t : Turn lru h cut_short now r). t.1.sends) (e1 ∙ e2) ∙ same ∙ same2 ∙ same1))
        | inr ((filled, mailable), (s3, same3, e3)) ↦
            let (subject, body, msg, subject_made, body_made, made, live) =
              render_sends form s3 (λ same. more (
                ap (λ (t : Turn lru h cut_short now r). t.1.sends) (e1 ∙ e2 ∙ e3)
                ∙ same
                ∙ same3
                ∙ same2
                ∙ same1)) in
            record {
              live = live;
              filled = filled;
              mailed = field_errors-IsMailed lru h cut_short now r form mailable;
              rendered = (subject, body, msg, subject_made, body_made, made);
              tokened = tokened;
              human = human;
            }
      ]
    ]
  ]

  parsed_sends :
      (kind : Bytes) (b : Result BodyError Form) (s : State lru)
      → SendsIf
          ((form : Form) × (b ≡ ok form) × IsChecked lru h cut_short now r form)
          s
          (parsed lru h cut_short now r kind b s)
  unfolding parsed
  parsed_sends kind (err too_large) s more = absurd (more refl)
  parsed_sends kind (err (malformed e)) s more = absurd (more refl)
  parsed_sends kind (ok form) s more = (form, refl, check_trap_sends form s more)

  -- The body that the mode reads.
  abbrev pub body_of : Result BodyError Form
  body_of = if endpoint.api_mode then r.json_body else r.form_body

  read_body_sends :
      (s : State lru)
      → SendsIf
          ((form : Form) × (body_of ≡ ok form) × IsChecked lru h cut_short now r form)
          s
          (read_body lru h cut_short now r s)
  unfolding read_body
  read_body_sends s more = elim (Bool-cases endpoint.api_mode) [
    | inr page ↦
        let form_next : read_body lru h cut_short now r s
            ≡ parsed lru h cut_short now r (text "form") r.form_body s =
          rw (read_body, page) refl in
        let (form, read, good) =
          parsed_sends (text "form") r.form_body s
            (λ same. more (ap (λ (t : Turn lru h cut_short now r). t.1.sends) form_next ∙ same)) in
        (form, rw page read, good)
    | inl api ↦ elim (Bool-cases (is_json_content_type r.content_type)) [
      | inr plain ↦ absurd (more (rw (read_body, api, plain) refl))
      | inl json ↦
          let json_next : read_body lru h cut_short now r s
              ≡ parsed lru h cut_short now r (text "JSON") r.json_body s =
            rw (read_body, api, json) refl in
          let (form, read, good) =
            parsed_sends (text "JSON") r.json_body s (λ same.
              more (ap (λ (t : Turn lru h cut_short now r). t.1.sends) json_next ∙ same)) in
          (form, rw api read, good)
    ]
  ]

  check_rate_sends :
      (key : Bytes) (s : State lru)
      → SendsIf
          (IsGranted lru h cut_short now r key s
            × ((form : Form) × (body_of ≡ ok form) × IsChecked lru h cut_short now r form))
          s
          (check_rate lru h cut_short now r key s)
  unfolding check_rate
  check_rate_sends key s =
      let Sent = (form : Form) × (body_of ≡ ok form) × IsChecked lru h cut_short now r form in
      let granted = (allow_at lru key now s.limiter).0 in
      let Rest = λ (t : Turn lru h cut_short now r).
        SendsIf (IsGranted lru h cut_short now r key s × Sent) s t in
      if_rule Rest (not limited) (λ free more. (inl (ground (arith, free)), read_body_sends s more))
        (λ held.
          if_rule Rest (not granted) (λ spent more. absurd (more refl))
            (λ given more. (
              inr (ground (arith, given)),
              read_body_sends (record s { limiter = (allow_at lru key now s.limiter).1 }) more,
            )))

  -- A POST in form mode that makes a call of the transport has a form content type, an allowed
  -- origin where origins are configured, a token of the limiter's bucket of its client address
  -- where there is a limiter, and a form that has every required field, a well-formed e-mail
  -- unless the e-mail field is absent or blank, a valid CSRF token where a secret is configured and
  -- an empty honeypot, and that renders to a message that is composed; and the handler is not in dry run.
  pub serve_form_sends :
      (s : State lru)
      → endpoint.api_mode ≡ false
      → (serve_form lru h cut_short now r s).1.sends ≢ s.sends
      → (is_form_content_type r.content_type ≡ true)
        × IsFromAllowed lru h cut_short now r
        × IsGranted lru h cut_short now r
            (client_ip net r.remote_addr r.forwarded trusted_proxies)
            s
        × ((form : Form) × (r.form_body ≡ ok form) × IsChecked lru h cut_short now r form)
  unfolding serve_form
  serve_form_sends s page =
      let key = client_ip net r.remote_addr r.forwarded trusted_proxies in
      let Form_sent =
        (form : Form) × (r.form_body ≡ ok form) × IsChecked lru h cut_short now r form in
      let Rest = λ (t : Turn lru h cut_short now r).
        SendsIf
          ((is_form_content_type r.content_type ≡ true)
            × IsFromAllowed lru h cut_short now r
            × IsGranted lru h cut_short now r key s
            × Form_sent)
          s t in
      if_rule Rest (not (is_form_content_type r.content_type)) (λ other more. absurd (more refl))
        (λ is_form.
          if_rule Rest
            (not (none_of allowed_origins)
              && is_hard (check_origin urls r.origin r.referer allowed_origins))
            (λ caught more. absurd (more refl))
            (λ free more.
              let (granted, (form, read, good)) = check_rate_sends key s more in
              let allowed : IsFromAllowed lru h cut_short now r =
                elim (Bool-cases (none_of allowed_origins)) [
                  | inl all ↦ inl all
                  | inr set ↦ inr (λ same. absurd (ground (arith, free, set, same)))
                ] in
              (
                ground (arith, is_form),
                allowed,
                granted,
                (
                  form,
                  subst (λ b. (if b then r.json_body else r.form_body) ≡ ok form) page read,
                  good,
                ),
              )))
