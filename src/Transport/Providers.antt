-- ===== src/Transport/Providers.antt =====
-- core/transport/postmark.go, resend.go, mailgun.go, ses.go and smtpout.go: the settings of the
-- transports, their validation, and the transports that are built from them.
pub mod Built
use caddy_formward.Base.{
  ℕ, Bool, true, false, not, ◌&&◌, ◌||◌, ◌++◌, Option, none, some, ◌≡◌, ◌⊎◌, refl, arith, ltb, leb,
  if◌then◌else◌, if_rule, Bool-cases, Option-cases, inl, inr, [],
}
use caddy_formward.Base.Int.{ℤ, pos, negsuc, is_pos}
use caddy_formward.Base.Results.{first_of, first_of-none}
use caddy_formward.Text.{Bytes, text, is_empty}
use caddy_formward.Transport.Registry.{
  Setting, string, number, boolean, other, Settings, SettingsError, setting_required, bad_port,
}

-- `settings[name].(string)`, with the empty string where it is none.
unfoldable pub setting_of : Bytes → Settings → Bytes
setting_of name settings = elim (settings name) [
  | none ↦ []
  | some (string s) ↦ s
  | some (number n) ↦ []
  | some (boolean b) ↦ []
  | some other ↦ []
]

-- One clause of a validator of settings.
unfoldable pub needs : (transport name : Bytes) → Settings → Option SettingsError
unfolding setting_of
needs transport name settings =
    if is_empty (setting_of name settings) then some (setting_required transport name) else none

-- `validatePostmarkSettings`
unfoldable pub validate_postmark_settings : Settings → Option SettingsError
unfolding text needs
validate_postmark_settings settings = needs (text "postmark") (text "api_key") settings

-- `validateResendSettings`
unfoldable pub validate_resend_settings : Settings → Option SettingsError
unfolding text needs
validate_resend_settings settings = needs (text "resend") (text "api_key") settings

-- `validateMailgunSettings`
unfoldable pub validate_mailgun_settings : Settings → Option SettingsError
unfolding text needs first_of
validate_mailgun_settings settings =
    first_of (needs (text "mailgun") (text "api_key") settings)
      (needs (text "mailgun") (text "domain") settings)

-- `validateSESSettings`
unfoldable pub validate_ses_settings : Settings → Option SettingsError
unfolding text needs first_of
validate_ses_settings settings = first_of (needs (text "ses") (text "access_key_id") settings) (
    first_of (needs (text "ses") (text "secret_access_key") settings)
      (needs (text "ses") (text "region") settings))

-- `coerceInt`
unfoldable pub coerce_int : Setting → Option ℤ
coerce_int (string s) = none
coerce_int (number n) = some n
coerce_int (boolean b) = none
coerce_int other = none

-- `port <= 0 || port > 65535`
unfoldable pub is_port : ℤ → Bool
is_port (pos n) = ltb 0 n && leb n 65535
is_port (negsuc n) = false

-- The checks of the setting port.
unfoldable pub check_port : Settings → Option SettingsError
unfolding text coerce_int is_port
check_port settings = elim (settings (text "port")) [
  | none ↦ some (setting_required (text "smtp") (text "port"))
  | some raw ↦ elim (coerce_int raw) [
    | none ↦ some (bad_port raw)
    | some port ↦ if not (is_port port) then some (bad_port raw) else none
  ]
]

-- `validateSMTPOutSettings`
unfoldable pub validate_smtp_out_settings : Settings → Option SettingsError
unfolding text needs first_of check_port
validate_smtp_out_settings settings = first_of (needs (text "smtp") (text "host") settings) (
    first_of (check_port settings) (
      first_of (needs (text "smtp") (text "username") settings)
        (needs (text "smtp") (text "password") settings)))

-- The transports, with what they are made of.
pub data Provider : Type 0 where
  postmark : (api_key base_url : Bytes) → Provider
  resend : (api_key base_url : Bytes) → Provider
  mailgun : (api_key domain base_url : Bytes) → Provider
  ses : (access_key_id secret_access_key region base_url : Bytes) → Provider
  smtp_out :
      (host : Bytes) (port : ℤ) (username password : Bytes)
      (require_tls insecure_skip_verify : Bool)
      → Provider

-- An empty base URL means the default.
abbrev or_default : (base_url default : Bytes) → Bytes
or_default base_url default = if is_empty base_url then default else base_url

-- `buildPostmarkFromSettings`, `NewPostmarkTransport`: `none` is an error.
unfoldable pub build_postmark_from_settings : Settings → Option Provider
unfolding text setting_of is_empty
build_postmark_from_settings settings =
    let api_key = setting_of (text "api_key") settings in
    if is_empty api_key
    then none
    else some (
        postmark api_key
          (or_default (setting_of (text "base_url") settings) (text "https://api.postmarkapp.com")))

-- `buildResendFromSettings`, `NewResendTransport`
unfoldable pub build_resend_from_settings : Settings → Option Provider
unfolding text setting_of is_empty
build_resend_from_settings settings =
    let api_key = setting_of (text "api_key") settings in
    if is_empty api_key
    then none
    else some (
        resend api_key
          (or_default (setting_of (text "base_url") settings) (text "https://api.resend.com")))

-- `buildMailgunFromSettings`, `NewMailgunTransport`
unfoldable pub build_mailgun_from_settings : Settings → Option Provider
unfolding text setting_of is_empty
build_mailgun_from_settings settings =
    let api_key = setting_of (text "api_key") settings in
    let domain = setting_of (text "domain") settings in
    if is_empty api_key
    then none
    else if is_empty domain
    then none
    else some (
        mailgun api_key domain
          (or_default (setting_of (text "base_url") settings) (text "https://api.mailgun.net")))

-- `buildSESFromSettings`, `NewSESTransport`
unfoldable pub build_ses_from_settings : Settings → Option Provider
unfolding text setting_of is_empty
build_ses_from_settings settings =
    let access_key_id = setting_of (text "access_key_id") settings in
    let secret_access_key = setting_of (text "secret_access_key") settings in
    let region = setting_of (text "region") settings in
    if is_empty access_key_id || (is_empty secret_access_key || is_empty region)
    then none
    else some (
        ses access_key_id secret_access_key region (
          or_default (setting_of (text "base_url") settings)
            (text "https://email." ++ (region ++ text ".amazonaws.com"))))

-- `settings[name].(bool)`, or a default.
unfoldable pub flag_of : (name : Bytes) → (default : Bool) → Settings → Bool
flag_of name default settings = elim (settings name) [
  | none ↦ default
  | some (string s) ↦ default
  | some (number n) ↦ default
  | some (boolean b) ↦ b
  | some other ↦ default
]

-- `coerceInt(settings["port"])`, zero where it fails.
unfoldable pub port_of : Settings → ℤ
unfolding text coerce_int
port_of settings = elim (settings (text "port")) [
  | none ↦ pos 0
  | some raw ↦ elim (coerce_int raw) [ none ↦ pos 0 | some port ↦ port ]
]

-- `buildSMTPOutFromSettings`, `NewSMTPOutTransport`
unfoldable pub build_smtp_out_from_settings : Settings → Option Provider
unfolding text setting_of is_empty port_of flag_of
build_smtp_out_from_settings settings =
    let host = setting_of (text "host") settings in
    let port = port_of settings in
    let username = setting_of (text "username") settings in
    let password = setting_of (text "password") settings in
    if is_empty host || (not (is_pos port) || (is_empty username || is_empty password))
    then none
    else some (
        smtp_out host port username password (flag_of (text "require_tls") true settings)
          (flag_of (text "tls_insecure_skip_verify") false settings))

-- The registered types.
pub data Kind : Type 0 where
  postmark_kind resend_kind mailgun_kind ses_kind smtp_kind : Kind

unfoldable pub validate_settings : Kind → Settings → Option SettingsError
unfolding validate_postmark_settings validate_resend_settings validate_mailgun_settings
    validate_ses_settings validate_smtp_out_settings
validate_settings postmark_kind = validate_postmark_settings
validate_settings resend_kind = validate_resend_settings
validate_settings mailgun_kind = validate_mailgun_settings
validate_settings ses_kind = validate_ses_settings
validate_settings smtp_kind = validate_smtp_out_settings

unfoldable pub build_from_settings : Kind → Settings → Option Provider
unfolding build_postmark_from_settings build_resend_from_settings build_mailgun_from_settings
    build_ses_from_settings build_smtp_out_from_settings
build_from_settings postmark_kind = build_postmark_from_settings
build_from_settings resend_kind = build_resend_from_settings
build_from_settings mailgun_kind = build_mailgun_from_settings
build_from_settings ses_kind = build_ses_from_settings
build_from_settings smtp_kind = build_smtp_out_from_settings
