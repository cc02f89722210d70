-- ===== src/Smtp/Config.antt =====
-- core/smtp/config.go: the listener's configuration, its validation and its defaults; and the part
-- of core/smtp/listener.go that decides whether TLS is set up.
pub mod Closed
pub use caddy_formward.Base.{none_of}
use caddy_formward.Base.{
  ℕ, zero, suc, Bool, true, false, not, ◌&&◌, ◌||◌, List, [], ◌∷◌, Option, none, some,
  if◌then◌else◌,
}
use caddy_formward.Base.Int.{ℤ, pos, negsuc, is_neg, is_zero}
use caddy_formward.Text.{Bytes, is_empty, trim_space}

-- The string type AuthMode: the empty string, the three constants, anything else.
pub data AuthMode : Type 0 where
  unset smtp_auth client_cert either : AuthMode
  other : Bytes → AuthMode

pub record User : Type 0 where
  pub username : Bytes
  pub password : Bytes

pub record ListenerConfig : Type 0 where
  pub listen : Bytes
  pub require_tls : Bool
  pub tls_cert : Bytes
  pub tls_key : Bytes
  pub client_cert_ca : Bytes
  pub auth_required : AuthMode
  pub smtp_users : List User
  pub allowed_senders : List Bytes
  pub allowed_recipients : List Bytes
  pub max_recipients_per_session : ℤ
  pub max_message_size : Bytes
  pub idle_timeout : ℤ
  pub transport_type : Bytes

pub data ConfigError : Type 0 where
  no_listen no_senders bad_auth_mode no_users no_username no_password : ConfigError
  no_client_ca no_tls_cert no_tls_key negative_cap negative_timeout : ConfigError

unfoldable pub effective_auth_mode : AuthMode → AuthMode
effective_auth_mode unset = smtp_auth
effective_auth_mode m = m

abbrev pub is_known : AuthMode → Bool
is_known smtp_auth = true
is_known client_cert = true
is_known either = true
is_known _ = false

-- `mode == AuthSMTP || mode == AuthEither`
abbrev pub takes_passwords : AuthMode → Bool
takes_passwords smtp_auth = true
takes_passwords either = true
takes_passwords _ = false

-- `mode == AuthClientCert || mode == AuthEither`
abbrev pub takes_certs : AuthMode → Bool
takes_certs client_cert = true
takes_certs either = true
takes_certs _ = false

-- The loop over the users.
unfoldable pub check_users : List User → Option ConfigError
check_users [] = none
check_users (u ∷ us) =
    if is_empty (trim_space u.username)
    then some no_username
    else if is_empty u.password
    then some no_password
    else check_users us

-- Where both bounds are unset the cap's sign is not looked at, and it is 0.
unfoldable pub check_limits : ListenerConfig → Option ConfigError
check_limits c =
    if none_of c.allowed_recipients && is_zero c.max_recipients_per_session
    then (if is_neg c.idle_timeout then some negative_timeout else none)
    else if is_neg c.max_recipients_per_session
    then some negative_cap
    else if is_neg c.idle_timeout
    then some negative_timeout
    else none

unfoldable pub check_tls : AuthMode → ListenerConfig → Option ConfigError
unfolding check_limits
check_tls mode c =
    if takes_certs mode && is_empty c.client_cert_ca
    then some no_client_ca
    else if (c.require_tls || takes_certs mode) && is_empty c.tls_cert
    then some no_tls_cert
    else if (c.require_tls || takes_certs mode) && is_empty c.tls_key
    then some no_tls_key
    else check_limits c

unfoldable pub check_auth : AuthMode → ListenerConfig → Option ConfigError
unfolding check_users check_tls
check_auth mode c =
    if not (is_known mode)
    then some bad_auth_mode
    else if takes_passwords mode
    then (if none_of c.smtp_users
        then some no_users
        else elim (check_users c.smtp_users) [ some e ↦ some e | none ↦ check_tls mode c ])
    else check_tls mode c

-- `ListenerConfig.Validate`, with `none` for a nil error.
unfoldable pub validate : ListenerConfig → Option ConfigError
unfolding check_auth effective_auth_mode
validate c =
    if is_empty c.listen
    then some no_listen
    else if none_of c.allowed_senders
    then some no_senders
    else check_auth (effective_auth_mode c.auth_required) c

-- `EffectiveMaxRecipients`: 0 stands for no cap.
unfoldable pub effective_max_recipients : ListenerConfig → ℕ
effective_max_recipients c = elim c.max_recipients_per_session [
  | pos zero ↦ if none_of c.allowed_recipients then 10 else 0
  | pos (suc n) ↦ suc n
  | negsuc n ↦ if none_of c.allowed_recipients then 10 else 0
]

-- `EffectiveIdleTimeout`, in nanoseconds.
unfoldable pub effective_idle_timeout : ListenerConfig → ℤ
effective_idle_timeout c = if is_zero c.idle_timeout then pos 60_000_000_000 else c.idle_timeout

-- `needsTLS` of buildTLSConfig: whether the listener has a TLS configuration.
unfoldable pub needs_tls : ListenerConfig → Bool
unfolding effective_auth_mode
needs_tls c = c.require_tls || takes_certs (effective_auth_mode c.auth_required)
