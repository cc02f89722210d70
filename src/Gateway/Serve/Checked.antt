-- ===== src/Gateway/Serve/Checked.antt =====
-- core/gateway/handler.go: the conditions under which ServeHTTP calls the transport.
use caddy_formward.Base.{
  ℕ, Bool, true, false, [], none, some, ◌≡◌, ◌≢◌, refl, arith, none_of, Bool-cases, inl, inr, ◌⊎◌,
}
use caddy_formward.Base.Results.{ok}
use caddy_formward.Text.{Bytes, text, is_empty, trim_space}
use caddy_formward.Transport.{Message}
use caddy_formward.Lru.{Lru}
use caddy_formward.Spam.Checks.{Form, silent_reject, hard_reject, check_honeypot, check_origin}
use caddy_formward.Validate.{required_fields, email}
use caddy_formward.Csrf.{verify}
use caddy_formward.Gateway.Compose.{form_get, compose}
use caddy_formward.Gateway.Serve.{Request, Handler, State, field_errors}
use caddy_formward.Ratelimit.Limiter.{allow_at}

module _ (lru : Lru ℕ) (h : Handler) (cut_short : ℕ → Bool) (now : ℕ) (r : Request) where
  open h use {
    endpoint, required, honeypot, csrf_secret, csrf_ttl, crypto, parse_address, render_subject,
    render_body, dry_run, limited, allowed_origins, urls, net, trusted_proxies,
  }

  -- A form of a browser has a valid CSRF token, where a secret is configured.
  abbrev pub IsTokened : Form → Type 0
  IsTokened form =
      (endpoint.api_mode ≡ true)
      ⊎ ((is_empty csrf_secret ≡ true)
          ⊎ (verify crypto (form_get form (text "_csrf_token")) csrf_secret csrf_ttl now ≡ none))

  -- A form of a browser has an empty honeypot.
  abbrev pub IsHuman : Form → Type 0
  IsHuman form = (endpoint.api_mode ≡ true) ⊎ (check_honeypot form honeypot ≢ silent_reject)

  -- The e-mail field is absent or blank, or it is an address.
  abbrev pub IsMailed : Form → Type 0
  IsMailed form =
      let v = trim_space (form_get form endpoint.email_field) in
      (is_empty v ≡ true) ⊎ (email parse_address v ≡ true)

  pub field_errors-IsMailed :
      (form : Form) → field_errors lru h cut_short now r form ≡ [] → IsMailed form
  unfolding field_errors
  field_errors-IsMailed form none_found =
      let v = trim_space (form_get form endpoint.email_field) in
      elim (Bool-cases (is_empty v)) [
        | inl blank ↦ inl blank
        | inr given ↦ elim (Bool-cases (email parse_address v)) [
          | inl good ↦ inr good
          | inr bad ↦ absurd (ground (arith, given, bad, none_found))
        ]
      ]

  pub IsMailed-field_errors :
      (form : Form) → IsMailed form → field_errors lru h cut_short now r form ≡ []
  unfolding field_errors
  IsMailed-field_errors form (inl blank) = rw blank refl
  IsMailed-field_errors form (inr good) = ground (arith, good)

  -- What holds of a form that is sent.
  pub record IsChecked (form : Form) : Type 0 where
    pub live : dry_run ≡ false
    pub filled : required_fields form required ≡ []
    pub mailed : IsMailed form
    pub rendered :
        (subject : Bytes) × (body : Bytes) × (msg : Message) × (render_subject form ≡ some subject)
        × (render_body form ≡ some body)
        × (compose parse_address endpoint form subject body ≡ ok msg)
    pub tokened : IsTokened form
    pub human : IsHuman form

  -- The rate limiter, where there is one, has granted the request.
  abbrev pub IsGranted : Bytes → State lru → Type 0
  IsGranted key s = (limited ≡ false) ⊎ ((allow_at lru key now s.limiter).0 ≡ true)

  -- The request's origin is an allowed one, where such are configured.
  abbrev pub IsFromAllowed : Type 0
  IsFromAllowed =
      (none_of allowed_origins ≡ true)
      ⊎ (check_origin urls r.origin r.referer allowed_origins ≢ hard_reject)
