-- ===== src/Smtp/Session.antt =====
-- core/smtp/session.go: the state of a session and the handlers of its commands.
--
-- The client's side of a connection is the list of lines that it still sends. `tls` says what a TLS
-- handshake would bring: a new list of lines, as the reader is replaced and what was buffered in
-- plaintext is dropped; or a failure, after which some lines may still be read. A read past the end
-- of the list fails, as a closed or idle connection does.
use caddy_formward.Base.{ℕ, Bool, false, not, ◌&&◌, List, [], ◌∷◌, Option}
use caddy_formward.Base.Int.{ℤ}
use caddy_formward.Text.{Bytes, is_empty}
use caddy_formward.Transport.{Message, Transport}
use caddy_formward.Smtp.Config.{
  AuthMode, smtp_auth, client_cert, ListenerConfig, takes_passwords, effective_auth_mode,
}
use caddy_formward.Smtp.Mime.{MimeLib}

-- `Listener`: what New stores. `max_body` is the parsed max_message_size.
pub record Listener : Type 0 where
  pub cfg : ListenerConfig
  pub has_tls : Bool
  pub max_body : ℤ
  pub recorder : Bool

-- The handshakes that the client would still make: it closes the connection, fails and leaves some
-- lines to be read, or succeeds, with a verified certificate or without.
pub data Handshake : Type 0 where
  hang_up : Handshake
  fails : List Bytes → Handshake → Handshake
  succeeds : (verified : Bool) → List Bytes → Handshake

-- What a session does to the outside: replies, calls of transport.Send, and metrics.
pub data Output : Type 0 where
  reply : ℕ → Bytes → Output
  multiline : ℕ → List Bytes → Output
  handed : Message → Output
  metric_sent : Bytes → Bytes → Output
  metric_failed : Bytes → Bytes → Bytes → Output

pub record Session : Type 0 where
  pub lines : List Bytes
  pub tls : Handshake
  pub tls_active : Bool
  pub authed_user : Bytes
  pub authed_via_cert : Bool
  pub mail_from : Bytes
  pub rcpt_to : List Bytes
  pub transaction : Bool
  -- newest first
  pub output : List Output
  pub sends : ℕ

-- The libraries and peers: whether the n-th write works, base64.StdEncoding, package mail, the
-- transport, the UUID and the size of a limit reader (see `read_limit`).
pub record Outside : Type 0 where
  pub write_ok : ℕ → Bool
  pub decode_base64 : Bytes → Option Bytes
  pub mime : MimeLib
  pub send : Transport
  pub new_uuid : ℕ → Bytes
  pub format_int : ℤ → Bytes

-- `newSession`
unfoldable pub new_session : List Bytes → Handshake → Session
new_session lines tls = record {
  lines = lines;
  tls = tls;
  tls_active = false;
  authed_user = [];
  authed_via_cert = false;
  mail_from = [];
  rcpt_to = [];
  transaction = false;
  output = [];
  sends = 0;
}

abbrev pub emit : Output → Session → Session
emit o s = record s { output = o ∷ s.output }

-- `writeReply`, where the source drops its error.
unfoldable pub write_reply : ℕ → Bytes → Session → Session
write_reply code msg s = emit (reply code msg) s

-- `resetTransaction`
unfoldable pub reset_transaction : Session → Session
reset_transaction s = record s { mail_from = []; rcpt_to = []; transaction = false }

-- `canAdvertiseAuth`
unfoldable pub can_advertise_auth : Listener → Bool
can_advertise_auth l = takes_passwords (effective_auth_mode l.cfg.auth_required)

unfoldable pub missing_for : AuthMode → Bytes → Bool → Bool
missing_for smtp_auth user via_cert = is_empty user
missing_for client_cert user via_cert = not via_cert
missing_for _ user via_cert = is_empty user && not via_cert

-- `authRequiredAndMissing`
unfoldable pub auth_required_and_missing : Listener → Session → Bool
unfolding missing_for
auth_required_and_missing l s =
    missing_for (effective_auth_mode l.cfg.auth_required) s.authed_user s.authed_via_cert

-- `s.l.cfg.RequireTLS && !s.tlsActive`
abbrev pub tls_missing : Listener → Session → Bool
tls_missing l s = l.cfg.require_tls && not s.tls_active
