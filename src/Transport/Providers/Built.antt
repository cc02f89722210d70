-- ===== src/Transport/Providers/Built.antt =====
-- core/transport: settings that pass their validation make a transport.
use caddy_formward.Base.{
  Bool, true, false, not, ◌||◌, Option, none, some, ◌≡◌, refl, arith, if◌then◌else◌, if_rule, ap,
  ◌∙◌, Option-cases, inl, inr,
}
use caddy_formward.Base.Int.{ℤ, pos, negsuc, is_pos}
use caddy_formward.Base.Results.{first_of, first_of-none}
use caddy_formward.Text.{Bytes, text, is_empty}
use caddy_formward.Transport.Registry.{Settings, setting_required, bad_port}
use caddy_formward.Transport.Providers.{
  Kind, postmark_kind, resend_kind, mailgun_kind, ses_kind, smtp_kind, Provider, setting_of, needs,
  coerce_int, is_port, check_port, port_of, validate_settings, build_from_settings,
  validate_postmark_settings, validate_resend_settings, validate_mailgun_settings,
  validate_ses_settings, validate_smtp_out_settings, build_postmark_from_settings,
  build_resend_from_settings, build_mailgun_from_settings, build_ses_from_settings,
  build_smtp_out_from_settings,
}

filled :
    (transport name : Bytes) (settings : Settings)
    → needs transport name settings ≡ none
    → is_empty (setting_of name settings) ≡ false
unfolding needs
filled transport name settings h = ground (arith, h)

port_pos : (p : ℤ) → is_port p ≡ true → is_pos p ≡ true
unfolding is_port
port_pos (pos n) h = ground (arith, h)
port_pos (negsuc n) h = cc

check_port-port_of :
    (settings : Settings) → check_port settings ≡ none → is_pos (port_of settings) ≡ true
unfolding check_port port_of
check_port-port_of settings h = elim (Option-cases (settings (text "port"))) [
  | inl e ↦
      let bad : check_port settings ≡ some (setting_required (text "smtp") (text "port")) =
        rw (check_port, e) refl in
      absurd cc
  | inr (raw, e) ↦ elim (Option-cases (coerce_int raw)) [
    | inl f ↦
        let bad : check_port settings ≡ some (bad_port raw) = rw (check_port, e, f) refl in
        absurd cc
    | inr (port, f) ↦
        let checked : check_port settings
            ≡ (if not (is_port port) then some (bad_port raw) else none) =
          rw (check_port, e, f) refl in
        let found : port_of settings ≡ port = rw (port_of, e, f) refl in
        let good : is_port port ≡ true = ground (arith, checked, h) in
        ap is_pos found ∙ port_pos port good
  ]
]

built :
    (refused : Bool) (p : Provider)
    → refused ≡ false
    → (provider : Provider) × ((if refused then none else some p) ≡ some provider)
built true p h = cc
built false p h = (p, refl)

-- Settings that the validation of their transport accepts make a transport: no build of the five
-- transports fails after it.
pub built_after_validation :
    (kind : Kind) (settings : Settings)
    → validate_settings kind settings ≡ none
    → (provider : Provider) × (build_from_settings kind settings ≡ some provider)
unfolding validate_settings build_from_settings validate_postmark_settings validate_resend_settings
    validate_mailgun_settings validate_ses_settings validate_smtp_out_settings
    build_postmark_from_settings build_resend_from_settings build_mailgun_from_settings
    build_ses_from_settings build_smtp_out_from_settings
built_after_validation postmark_kind settings h =
    built (is_empty (setting_of (text "api_key") settings)) _
      (filled (text "postmark") (text "api_key") settings h)
built_after_validation resend_kind settings h =
    built (is_empty (setting_of (text "api_key") settings)) _
      (filled (text "resend") (text "api_key") settings h)
built_after_validation mailgun_kind settings h =
    let (h1, h2) =
      first_of-none (needs (text "mailgun") (text "api_key") settings)
        (needs (text "mailgun") (text "domain") settings) h in
    let key = filled (text "mailgun") (text "api_key") settings h1 in
    let domain = filled (text "mailgun") (text "domain") settings h2 in
    if_rule (λ (o : Option Provider). (provider : Provider) × (o ≡ some provider))
      (is_empty (setting_of (text "api_key") settings)) (λ e. absurd (ground (arith, e, key)))
      (λ e. built (is_empty (setting_of (text "domain") settings)) _ domain)
built_after_validation ses_kind settings h =
    let (h1, rest) =
      first_of-none (needs (text "ses") (text "access_key_id") settings)
        (first_of (needs (text "ses") (text "secret_access_key") settings)
          (needs (text "ses") (text "region") settings))
        h in
    let (h2, h3) =
      first_of-none (needs (text "ses") (text "secret_access_key") settings)
        (needs (text "ses") (text "region") settings) rest in
    let id = filled (text "ses") (text "access_key_id") settings h1 in
    let secret = filled (text "ses") (text "secret_access_key") settings h2 in
    let region = filled (text "ses") (text "region") settings h3 in
    built
      (is_empty (setting_of (text "access_key_id") settings)
        || (is_empty (setting_of (text "secret_access_key") settings)
            || is_empty (setting_of (text "region") settings)))
      _ (ground (arith, id, secret, region))
built_after_validation smtp_kind settings h =
    let (h1, rest) =
      first_of-none (needs (text "smtp") (text "host") settings)
        (first_of (check_port settings) (
          first_of (needs (text "smtp") (text "username") settings)
            (needs (text "smtp") (text "password") settings)))
        h in
    let (h2, rest') =
      first_of-none (check_port settings)
        (first_of (needs (text "smtp") (text "username") settings)
          (needs (text "smtp") (text "password") settings))
        rest in
    let (h3, h4) =
      first_of-none (needs (text "smtp") (text "username") settings)
        (needs (text "smtp") (text "password") settings) rest' in
    let host = filled (text "smtp") (text "host") settings h1 in
    let port = check_port-port_of settings h2 in
    let username = filled (text "smtp") (text "username") settings h3 in
    let password = filled (text "smtp") (text "password") settings h4 in
    built
      (is_empty (setting_of (text "host") settings)
        || (not (is_pos (port_of settings))
            || (is_empty (setting_of (text "username") settings)
                || is_empty (setting_of (text "password") settings))))
      _ (ground (arith, host, port, username, password))
