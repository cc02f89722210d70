-- ===== src/Smtp/Relay/Addressed.antt =====
-- What a session hands to the transport, over its whole output.
use caddy_formward.Base.{◌≤◌, ◌<◌, false, List, [], ◌≡◌, ◌≢◌, arith, length, All}
use caddy_formward.Text.{Bytes}
use caddy_formward.Smtp.Config.{effective_max_recipients}
use caddy_formward.Smtp.Session.{Listener, Session, Outside, Output, handed}
use caddy_formward.Smtp.Commands.{
  handle_ehlo, handle_starttls, handle_auth, handle_mail, handle_rcpt, recipient_refused,
  auth_plain,
}

-- A message goes to one recipient or more, all of them allowed, and not to more than the cap.
pub record IsAddressed (l : Listener) (w : Outside) (to : List Bytes) : Type 0 where
  pub some_recipient : to ≢ []
  pub recipients : All (λ a. recipient_refused l w a ≡ false) to
  pub capped : 0 < effective_max_recipients l.cfg → length to ≤ effective_max_recipients l.cfg

abbrev pub OutputOk : Listener → Outside → Output → Type 0
OutputOk l w (handed m) = IsAddressed l w m.to
OutputOk l w _ = Unit

abbrev pub Clean : Listener → Outside → Session → Type 0
Clean l w s = All (OutputOk l w) s.output

module _ (l : Listener) (w : Outside) (s : Session) (h : Clean l w s) where
  pub ehlo-Clean : Clean l w (handle_ehlo l w s)
  unfolding handle_ehlo
  ehlo-Clean = (tt, h)

  pub mail-Clean : (arg : Bytes) → Clean l w (handle_mail l w arg s)
  unfolding handle_mail
  mail-Clean arg = ground arith

  pub rcpt-Clean : (arg : Bytes) → Clean l w (handle_rcpt l w arg s)
  unfolding handle_rcpt
  rcpt-Clean arg = ground arith

  pub starttls-Clean : Clean l w (handle_starttls l w s)
  unfolding handle_starttls
  starttls-Clean = ground arith

  pub auth-Clean : (arg : Bytes) → Clean l w (handle_auth l w arg s)
  unfolding handle_auth auth_plain
  auth-Clean arg = ground arith
