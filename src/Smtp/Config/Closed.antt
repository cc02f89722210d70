-- ===== src/Smtp/Config/Closed.antt =====
-- core/smtp/config.go: what validation asks of a configuration.
use caddy_formward.Base.{◌<◌, true, false, ◌||◌, none, ◌≡◌, arith, ◌⊎◌}
use caddy_formward.Text.{is_empty}
use caddy_formward.Smtp.Config.{
  AuthMode, ListenerConfig, none_of, takes_passwords, takes_certs, is_known, effective_auth_mode,
  check_tls, check_auth, validate, effective_max_recipients,
}

bounded_recipients :
    (c : ListenerConfig) → (none_of c.allowed_recipients ≡ false) ⊎ (0 < effective_max_recipients c)
unfolding effective_max_recipients
bounded_recipients c = ground arith

tls_closed :
    (mode : AuthMode) (c : ListenerConfig)
    → check_tls mode c ≡ none
    → (c.require_tls || takes_certs mode) ≡ true
    → (is_empty c.tls_cert ≡ false) × (is_empty c.tls_key ≡ false)
unfolding check_tls
tls_closed mode c h need = ground arith

auth_closed :
    (mode : AuthMode) (c : ListenerConfig)
    → check_auth mode c ≡ none
    → (is_known mode ≡ true)
      × (check_tls mode c ≡ none)
      × (takes_passwords mode ≡ true → none_of c.smtp_users ≡ false)
unfolding check_auth
auth_closed mode c h = ground arith

-- A configuration that passes validation has an allowed sender, a known way to authenticate with
-- its users where that is by password, a certificate and a key where TLS or client certificates
-- are asked for, and a recipient allowlist or a positive cap on recipients.
pub validate_closed :
    (c : ListenerConfig)
    → validate c ≡ none
    → (none_of c.allowed_senders ≡ false)
      × (is_known (effective_auth_mode c.auth_required) ≡ true)
      × (takes_passwords (effective_auth_mode c.auth_required) ≡ true
          → none_of c.smtp_users ≡ false)
      × ((c.require_tls || takes_certs (effective_auth_mode c.auth_required)) ≡ true
          → (is_empty c.tls_cert ≡ false) × (is_empty c.tls_key ≡ false))
      × ((none_of c.allowed_recipients ≡ false) ⊎ (0 < effective_max_recipients c))
unfolding validate
validate_closed c h =
    let mode = effective_auth_mode c.auth_required in
    let auth = auth_closed mode c (ground arith) in
    (ground arith, auth.0, auth.2, λ need. tls_closed mode c auth.1 need, bounded_recipients c)
