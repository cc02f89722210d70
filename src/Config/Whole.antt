-- ===== src/Config/Whole.antt =====
-- core/config/config.go: the whole configuration, the block of the SMTP listener, and their
-- validation.
pub mod Sound
use caddy_formward.Base.{
  ℕ, ◌+◌, suc, Bool, true, false, not, ◌&&◌, ◌||◌, List, [], ◌∷◌, Option, none, some, ◌≡◌, ◌≢◌, ◌⊎◌,
  refl, sym, ap, ◌∙◌, arith, if◌then◌else◌, if_rule, none_of, All, Any, Bool-cases, Option-cases,
  inl, inr,
}
use caddy_formward.Base.Int.{ℤ, is_neg}
use caddy_formward.Base.Results.{first_of, first_of-none}
use caddy_formward.Text.{Bytes, text, bytes_eq, bytes_eq_iff, is_empty, contains_text}
use caddy_formward.Gateway.Compose.{AddressParser}
use caddy_formward.Transport.Registry.{TransportConfig, SettingsError, Registry, validate_transport}
use caddy_formward.Config.Endpoint.{EndpointConfig, EndpointError, validate_endpoint}
use caddy_formward.Config.Endpoint.Valid.{IsValid, validate_endpoint-IsValid}

-- `SMTPListenerConfig`
pub record SmtpListenerConfig : Type 0 where
  pub listen : Bytes
  pub require_tls : Option Bool
  pub tls_cert : Bytes
  pub tls_key : Bytes
  pub client_cert_ca : Bytes
  pub auth_required : Bytes
  pub smtp_users : List (Bytes × Bytes)
  pub allowed_senders : List Bytes
  pub allowed_recipients : List Bytes
  pub max_recipients_per_session : ℤ
  pub max_message_size : Bytes
  pub idle_timeout : ℤ
  pub transport : TransportConfig

pub record Config : Type 0 where
  pub endpoints : List EndpointConfig
  pub level : Bytes
  pub format : Bytes
  pub smtp_listener : Option SmtpListenerConfig

pub data ListenerError : Type 0 where
  no_listen no_senders negative_recipients negative_timeout : ListenerError
  bad_listener_transport : SettingsError → ListenerError

pub data ConfigError : Type 0 where
  no_endpoints : ConfigError
  bad_endpoint : (index : ℕ) → EndpointError → ConfigError
  duplicate_path bad_format bad_level : Bytes → ConfigError
  bad_listener : ListenerError → ConfigError

unfoldable pub check_format : Bytes → Option ConfigError
unfolding text is_empty
check_format format =
    if not (is_empty format) && not (bytes_eq format (text "json"))
    then some (bad_format format)
    else none

unfoldable pub check_level : Bytes → Option ConfigError
unfolding text contains_text
check_level level =
    if contains_text level (text "" ∷ text "debug" ∷ text "info" ∷ text "warn" ∷ text "error" ∷ [])
    then none
    else some (bad_level level)

module _ (sort_strings : List Bytes → List Bytes) (registry : Registry) where
  -- `SMTPListenerConfig.Validate`
  unfoldable pub validate_listener : SmtpListenerConfig → Option ListenerError
  unfolding validate_transport is_empty
  validate_listener s =
      if is_empty s.listen
      then some no_listen
      else if none_of s.allowed_senders
      then some no_senders
      else elim (validate_transport sort_strings registry s.transport) [
        | some e ↦ some (bad_listener_transport e)
        | none ↦
            if is_neg s.max_recipients_per_session
            then some negative_recipients
            else if is_neg s.idle_timeout
            then some negative_timeout
            else none
      ]

  -- The check of the listener, if there is one.
  unfoldable pub check_listener : Option SmtpListenerConfig → Option ConfigError
  unfolding validate_listener
  check_listener none = none
  check_listener (some s) = elim (validate_listener s) [
    | none ↦ none
    | some e ↦ some (bad_listener e)
  ]

  -- The loop over the endpoints, from the index `i`, after the paths `seen`.
  unfoldable pub check_endpoints :
      AddressParser → (i : ℕ) → (seen : List Bytes) → List EndpointConfig → Option ConfigError
  unfolding validate_endpoint contains_text
  check_endpoints parse i seen [] = none
  check_endpoints parse i seen (e ∷ endpoints) =
      let rest = check_endpoints parse (suc i) (e.path ∷ seen) endpoints in
      elim (validate_endpoint parse sort_strings registry e) [
        | some bad ↦ some (bad_endpoint i bad)
        | none ↦ if contains_text e.path seen then some (duplicate_path e.path) else rest
      ]

  -- `Config.Validate`
  unfoldable pub validate_config : AddressParser → Config → Option ConfigError
  unfolding check_endpoints check_format check_level check_listener
  validate_config parse c =
      if none_of c.endpoints
      then some no_endpoints
      else first_of (check_endpoints parse 0 [] c.endpoints) (
          first_of (check_format c.format)
            (first_of (check_level c.level) (check_listener c.smtp_listener)))

-- `EffectiveRequireTLS`
unfoldable pub effective_require_tls : SmtpListenerConfig → Bool
effective_require_tls s = elim s.require_tls [ none ↦ true | some b ↦ b ]
