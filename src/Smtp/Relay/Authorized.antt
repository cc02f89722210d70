-- ===== src/Smtp/Relay/Authorized.antt =====
-- core/smtp/session.go: the guards that stand before a call of the transport.
use caddy_formward.Base.{
  ◌≤◌, ◌<◌, true, false, List, [], ◌∷◌, none, ◌≡◌, ◌≢◌, refl, subst, arith, length, All, inl, inr,
  ◌⊎◌,
}
use caddy_formward.Text.{Bytes, text}
use caddy_formward.Smtp.Config.{validate, effective_max_recipients}
use caddy_formward.Smtp.Envelope.{matches_allowlist}
use caddy_formward.Smtp.Session.{
  Listener, Session, Outside, Handshake, new_session, write_reply, auth_required_and_missing,
  tls_missing,
}
use caddy_formward.Smtp.Commands.{
  handle_ehlo, handle_helo, handle_starttls, handle_auth, auth_plain, handle_mail, handle_rcpt,
  recipient_refused,
}
use caddy_formward.Smtp.Run.{Verb, ehlo, deliver, go_on, After, execute, step}
use caddy_formward.Smtp.Relay.{unchanged, same_fields}
use caddy_formward.Smtp.Relay.Data.{handle_data-cases}
use caddy_formward.Smtp.Relay.Sessions.{
  IsRelaySafe, Named-validate, new_session-IsRelaySafe, reply-IsRelaySafe, step-IsRelaySafe,
}

-- The states at the head of the loop, in a session with this client.
pub data Reach (l : Listener) (w : Outside) (s0 : Session) : Session → Type 0 where
  greeted : Reach l w s0 s0
  next :
      {s t : Session} (line : Bytes) (rest : List Bytes)
      → Reach l w s0 s
      → s.lines ≡ line ∷ rest
      → step l w line (record s { lines = rest }) ≡ go_on t
      → Reach l w s0 t

-- The guards, all passed.
pub record IsAuthorized (l : Listener) (w : Outside) (s : Session) : Type 0 where
  pub opened : s.transaction ≡ true
  pub sender : matches_allowlist s.mail_from l.cfg.allowed_senders ≡ true
  pub encrypted : tls_missing l s ≡ false
  pub authed : auth_required_and_missing l s ≡ false
  pub some_recipient : s.rcpt_to ≢ []
  pub recipients : All (λ a. recipient_refused l w a ≡ false) s.rcpt_to
  pub capped :
      0 < effective_max_recipients l.cfg → length s.rcpt_to ≤ effective_max_recipients l.cfg

module _ (l : Listener) (w : Outside) where
  -- Only DATA in a transaction with recipients calls the transport.
  execute-sends :
      (v : Verb) (arg : Bytes) (s : Session)
      → After
          (λ t. (t.sends ≡ s.sends) ⊎ ((s.transaction ≡ true) × (s.rcpt_to ≢ [])))
          (execute l w v arg s)
  unfolding execute handle_ehlo handle_helo handle_starttls handle_auth auth_plain handle_mail
      handle_rcpt
  execute-sends deliver arg s = elim (handle_data-cases l w s) [
    | inl same ↦ inl same.0
    | inr (inl (code, msg, e)) ↦ inl (rw e (unfold write_reply in refl))
    | inr (inr (opened, somebody, e)) ↦ inr (opened, somebody)
  ]
  execute-sends ehlo arg s = inl refl
  execute-sends _ arg s = ground arith

  Reach-IsRelaySafe :
      {s0 s : Session}
      → validate l.cfg ≡ none
      → IsRelaySafe l w s0
      → Reach l w s0 s
      → IsRelaySafe l w s
  Reach-IsRelaySafe valid h greeted = h
  Reach-IsRelaySafe valid h (next {s} line rest r e st) =
      let before = Reach-IsRelaySafe valid h r in
      subst (After (IsRelaySafe l w)) st (
        step-IsRelaySafe l w (Named-validate l valid) line (record s { lines = rest })
          (unchanged l w s _ same_fields before.0, before.1))

-- Under a valid configuration, a command that makes the session call the transport is read in a
-- state in which: a transaction is open, its sender is on the sender allowlist, TLS is active where
-- it is required, the client has authenticated in the configured mode, there is a recipient, and
-- the recipients satisfy the allowlist and the cap.
pub send-IsAuthorized :
    (l : Listener) (w : Outside) (lines : List Bytes) (tls : Handshake) (s t : Session)
    (line : Bytes) (rest : List Bytes)
    → validate l.cfg ≡ none
    → Reach l w (write_reply 220 (text "posthorn ready") (new_session lines tls)) s
    → s.lines ≡ line ∷ rest
    → step l w line (record s { lines = rest }) ≡ go_on t
    → t.sends ≢ s.sends
    → IsAuthorized l w s
send-IsAuthorized l w lines tls s t line rest valid r read st more =
    let users = Named-validate l valid in
    let start =
      reply-IsRelaySafe l w users (new_session lines tls) 220 (text "posthorn ready")
        (new_session-IsRelaySafe l w lines tls) in
    let (h, _) = Reach-IsRelaySafe l w valid start r in
    elim (subst (After (λ t. (t.sends ≡ s.sends) ⊎ ((s.transaction ≡ true) × (s.rcpt_to ≢ [])))) st
      (unfold step in execute-sends l w _ _ (record s { lines = rest }))) [
        | inl same ↦ absurd (more same)
        | inr (opened, somebody) ↦ record {
          opened = opened;
          sender = h.allowed opened;
          encrypted = h.encrypted opened;
          authed = h.authed opened;
          some_recipient = somebody;
          recipients = h.recipients;
          capped = h.capped;
        }
      ]
