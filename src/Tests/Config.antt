-- ===== src/Tests/Config.antt =====
-- A configuration with one endpoint of each mode, and settings of a transport.
use caddy_formward.Base.{
  ℕ, ◌≢◌, Bool, true, false, List, [], ◌∷◌, Option, none, some, ◌≡◌, refl, All, none_of,
  if◌then◌else◌,
}
use caddy_formward.Base.Int.{pos}
use caddy_formward.Text.{Bytes, text, bytes_eq}
use caddy_formward.Transport.Registry.{string, Settings, TransportConfig, Registry}
use caddy_formward.Transport.Providers.{
  mailgun_kind, Provider, validate_settings, build_from_settings, validate_postmark_settings,
}
use caddy_formward.Transport.Providers.Built.{built_after_validation}
use caddy_formward.Config.Endpoint.{EndpointConfig}
use caddy_formward.Config.Endpoint.Valid.{IsValid}
use caddy_formward.Config.Whole.{Config, SmtpListenerConfig, validate_config}
use caddy_formward.Config.Whole.Sound.{AreDistinct, HasListener, validate_config_sound}
use caddy_formward.Tests.Web.{addresses}

abbrev settings : Settings
settings name =
    if bytes_eq name (text "api_key")
    then some (string (text "k"))
    else if bytes_eq name (text "domain")
    then some (string (text "d"))
    else none

accepted : validate_settings mailgun_kind settings ≡ none
unfolding validate_settings caddy_formward.Text.is_empty bytes_eq
accepted = refl

built_after_validation_example :
    (provider : Provider) × (build_from_settings mailgun_kind settings ≡ some provider)
built_after_validation_example = built_after_validation mailgun_kind settings accepted

abbrev transport : TransportConfig
transport = record { type = text "postmark"; settings = settings }

abbrev registry : Registry
registry = (text "postmark", validate_postmark_settings) ∷ []

abbrev page : EndpointConfig
page = record {
  path = text "/a";
  to = text "ops@a" ∷ [];
  sender = text "noreply@a";
  transport = transport;
  rate_limit = some (record { count = pos 3; interval = pos 60 });
  trusted_proxies = [];
  honeypot = text "website";
  allowed_origins = some (text "a.com" ∷ []);
  max_body_size = text "32KB";
  required = [];
  email_field = [];
  reply_to_email_field = [];
  subject = text "s";
  body = text "b";
  log_failed_submissions = none;
  redirect_success = [];
  redirect_error = [];
  auth = [];
  api_keys = [];
  idempotency_cache_size = pos 0;
  dry_run = false;
  strip_client_ip = false;
  csrf_secret = text "0123456789abcdef";
  csrf_token_ttl = pos 0;
}

abbrev api : EndpointConfig
api = record page {
  path = text "/b";
  honeypot = [];
  allowed_origins = none;
  auth = text "api-key";
  api_keys = text "key" ∷ [];
  csrf_secret = [];
}

abbrev listener : SmtpListenerConfig
listener = record {
  listen = text ":2525";
  require_tls = none;
  tls_cert = [];
  tls_key = [];
  client_cert_ca = [];
  auth_required = [];
  smtp_users = [];
  allowed_senders = text "*@a" ∷ [];
  allowed_recipients = [];
  max_recipients_per_session = pos 10;
  max_message_size = [];
  idle_timeout = pos 0;
  transport = transport;
}

abbrev config : Config
config = record {
  endpoints = page ∷ api ∷ [];
  level = text "info";
  format = text "json";
  smtp_listener = some listener;
}

valid : validate_config (λ xs. xs) registry addresses config ≡ none
unfolding validate_config caddy_formward.Base.Results.first_of bytes_eq validate_postmark_settings
    caddy_formward.Text.trim_space
valid = refl

validate_config_sound_example :
    (none_of config.endpoints ≡ false)
    × All (IsValid addresses (λ xs. xs) registry) config.endpoints
    × AreDistinct config.endpoints
    × HasListener (λ xs. xs) registry addresses config.smtp_listener
validate_config_sound_example = validate_config_sound (λ xs. xs) registry addresses config valid
