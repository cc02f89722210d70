-- ===== src/Smtp/Commands.antt =====
-- core/smtp/session.go: the handlers of EHLO, HELO, STARTTLS, AUTH, MAIL and RCPT.
pub mod Mail
use caddy_formward.Base.{
  Bool, true, false, not, ◌&&◌, ◌||◌, List, [], ◌∷◌, ◌++◌, none, some, ltb, leb, if◌then◌else◌,
  length, take, drop,
}
use caddy_formward.Base.Int.{is_pos}
use caddy_formward.Text.{Bytes, text, bytes_eq, is_empty, split_n, equal_fold, trim_space}
use caddy_formward.Smtp.Config.{User, none_of, effective_max_recipients}
use caddy_formward.Smtp.Envelope.{extract_envelope_address, matches_allowlist}
use caddy_formward.Smtp.Session.{
  Listener, Handshake, hang_up, fails, succeeds, multiline, Session, Outside, emit, write_reply,
  reset_transaction, can_advertise_auth, auth_required_and_missing, tls_missing,
}

module _ (l : Listener) (w : Outside) where
  -- `handleEHLO`
  unfoldable pub handle_ehlo : Session → Session
  handle_ehlo s =
      let starttls = if l.has_tls && not s.tls_active then text "STARTTLS" ∷ [] else [] in
      let auth =
        if not (auth_required_and_missing l s) || can_advertise_auth l
        then (if can_advertise_auth l then text "AUTH PLAIN" ∷ [] else [])
        else [] in
      let size = if is_pos l.max_body then (text "SIZE " ++ w.format_int l.max_body) ∷ [] else [] in
      emit (multiline 250 (text "posthorn" ∷ (starttls ++ (auth ++ size)))) s

  unfoldable pub handle_helo : Session → Session
  unfolding write_reply
  handle_helo s = write_reply 250 (text "posthorn") s

  -- The connection after a handshake.
  unfoldable pub upgrade : Handshake → Session → Session
  unfolding reset_transaction
  upgrade hang_up s = record s { lines = []; tls = hang_up }
  upgrade (fails left next) s = record s { lines = left; tls = next }
  upgrade (succeeds verified lines) s = record (reset_transaction s) {
    lines = lines;
    tls = hang_up;
    tls_active = true;
    authed_user = [];
    authed_via_cert = verified || s.authed_via_cert;
  }

  -- `handleSTARTTLS`
  unfoldable pub handle_starttls : Session → Session
  unfolding write_reply upgrade
  handle_starttls s =
      if not l.has_tls
      then write_reply 502 (text "5.5.1 STARTTLS not supported") s
      else if s.tls_active
      then write_reply 503 (text "5.5.1 TLS already active") s
      else if w.write_ok (length s.output)
      then upgrade s.tls (write_reply 220 (text "2.0.0 Ready to start TLS") s)
      else s

  -- `verifyUser`
  unfoldable pub verify_user : List User → Bytes → Bytes → Bool
  verify_user [] user pass = false
  verify_user (u ∷ us) user pass =
      (bytes_eq u.username user && bytes_eq u.password pass) || verify_user us user pass

  -- The parts of a PLAIN response: `\x00<user>\x00<pass>`.
  unfoldable pub check_parts : List Bytes → Session → Session
  unfolding write_reply verify_user
  check_parts (identity ∷ user ∷ pass ∷ []) s =
      if verify_user l.cfg.smtp_users user pass
      then write_reply 235 (text "2.7.0 Authentication successful")
          (record s { authed_user = user })
      else write_reply 535 (text "5.7.8 Authentication failed") s
  check_parts _ s = write_reply 535 (text "5.7.8 Malformed AUTH credentials") s

  unfoldable pub check_credentials : Bytes → Session → Session
  unfolding check_parts
  check_credentials creds s = elim (w.decode_base64 creds) [
    | none ↦ write_reply 535 (text "5.7.8 Malformed AUTH credentials") s
    | some raw ↦ check_parts (split_n 3 0 raw) s
  ]

  -- The second `ReadLine` of AUTH.
  unfoldable pub read_credentials : List Bytes → Session → Session
  unfolding check_credentials
  read_credentials [] s = s
  read_credentials (line ∷ rest) s = check_credentials line (record s { lines = rest })

  -- From the initial response on, which may be missing.
  unfoldable pub plain_response : Bytes → Session → Session
  unfolding write_reply read_credentials
  plain_response creds s =
      if is_empty creds
      then read_credentials s.lines (write_reply 334 [] s)
      else check_credentials creds s

  -- From the check of the mechanism on.
  unfoldable pub auth_plain : Bytes → Session → Session
  unfolding write_reply plain_response
  auth_plain arg s =
      if ltb (length arg) 5 || not (equal_fold (take 5 arg) (text "PLAIN"))
      then write_reply 504 (text "5.5.4 Auth mechanism not supported (PLAIN only)") s
      else plain_response (trim_space (drop 5 arg)) s

  -- `handleAUTH`
  unfoldable pub handle_auth : Bytes → Session → Session
  unfolding write_reply
  handle_auth arg s =
      if tls_missing l s
      then write_reply 530 (text "5.7.0 Must issue STARTTLS first") s
      else if not (can_advertise_auth l)
      then write_reply 502 (text "5.5.1 AUTH not supported") s
      else auth_plain arg s

  -- `handleMAIL`
  unfoldable pub handle_mail : Bytes → Session → Session
  unfolding write_reply reset_transaction
  handle_mail arg s =
      let addr = extract_envelope_address arg (text "FROM:") in
      if tls_missing l s
      then write_reply 530 (text "5.7.0 Must issue STARTTLS first") s
      else if auth_required_and_missing l s
      then write_reply 530 (text "5.7.0 Authentication required") s
      else if is_empty addr
      then write_reply 501 (text "5.5.4 Syntax: MAIL FROM:<address>") s
      else if not (matches_allowlist addr l.cfg.allowed_senders)
      then write_reply 550 (text "5.7.1 Sender not authorized") s
      else write_reply 250 (text "2.1.0 OK")
          (record (reset_transaction s) { mail_from = addr; transaction = true })

  -- `cap > 0 && len(s.rcptTo) >= cap`
  unfoldable pub at_cap : Session → Bool
  at_cap s = let cap' = effective_max_recipients l.cfg in ltb 0 cap' && leb cap' (length s.rcpt_to)

  -- `len(s.l.cfg.AllowedRecipients) > 0 && !matchesAllowlist(addr, …)`
  unfoldable pub recipient_refused : Bytes → Bool
  recipient_refused addr =
      not (none_of l.cfg.allowed_recipients)
      && not (matches_allowlist addr l.cfg.allowed_recipients)

  -- `handleRCPT`
  unfoldable pub handle_rcpt : Bytes → Session → Session
  unfolding write_reply
  handle_rcpt arg s =
      let addr = extract_envelope_address arg (text "TO:") in
      if not s.transaction
      then write_reply 503 (text "5.5.1 MAIL FROM required first") s
      else if is_empty addr
      then write_reply 501 (text "5.5.4 Syntax: RCPT TO:<address>") s
      else if at_cap s
      then write_reply 452 (text "4.5.3 Too many recipients") s
      else if recipient_refused addr
      then write_reply 550 (text "5.7.1 Recipient not authorized") s
      else write_reply 250 (text "2.1.5 OK") (record s { rcpt_to = s.rcpt_to ++ addr ∷ [] })
