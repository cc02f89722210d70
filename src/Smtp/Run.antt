-- ===== src/Smtp/Run.antt =====
-- core/smtp/session.go: the command loop `run`. Its fuel is the number of commands that it may
-- still read; `none` means that the fuel ran out.
use caddy_formward.Base.{ℕ, zero, suc, [], ◌∷◌, Option, none, some, if◌then◌else◌, length}
use caddy_formward.Text.{Bytes, text, bytes_eq, to_upper}
use caddy_formward.Smtp.Envelope.{split_command}
use caddy_formward.Smtp.Session.{Listener, Session, Outside, write_reply, reset_transaction}
use caddy_formward.Smtp.Commands.{
  handle_ehlo, handle_helo, handle_starttls, handle_auth, handle_mail, handle_rcpt,
}
use caddy_formward.Smtp.Delivery.{handle_data}

-- The cases of the switch.
pub data Verb : Type 0 where
  ehlo helo starttls auth mail rcpt deliver rset noop quit unrecognized : Verb

unfoldable pub verb_of : Bytes → Verb
verb_of cmd =
    if bytes_eq cmd (text "EHLO")
    then ehlo
    else if bytes_eq cmd (text "HELO")
    then helo
    else if bytes_eq cmd (text "STARTTLS")
    then starttls
    else if bytes_eq cmd (text "AUTH")
    then auth
    else if bytes_eq cmd (text "MAIL")
    then mail
    else if bytes_eq cmd (text "RCPT")
    then rcpt
    else if bytes_eq cmd (text "DATA")
    then deliver
    else if bytes_eq cmd (text "RSET")
    then rset
    else if bytes_eq cmd (text "NOOP")
    then noop
    else if bytes_eq cmd (text "QUIT")
    then quit
    else unrecognized

-- Whether the loop goes on, from which state.
pub data Next : Type 0 where
  go_on : Session → Next
  stop : Session → Next

-- A property of the state that a step leads to.
abbrev pub After : (Session → Type 0) → Next → Type 0
After P (go_on s) = P s
After P (stop s) = P s

abbrev pub resume : (Session → Option Session) → Next → Option Session
resume again (go_on s) = again s
resume again (stop s) = some s

module _ (l : Listener) (w : Outside) where
  -- The switch of `run`. After STARTTLS the loop goes on whether the upgrade worked or not.
  unfoldable pub execute : Verb → Bytes → Session → Next
  unfolding write_reply reset_transaction
  execute ehlo arg s = go_on (handle_ehlo l w s)
  execute helo arg s = go_on (handle_helo l w s)
  execute starttls arg s = go_on (handle_starttls l w s)
  execute auth arg s = go_on (handle_auth l w arg s)
  execute mail arg s = go_on (handle_mail l w arg s)
  execute rcpt arg s = go_on (handle_rcpt l w arg s)
  execute deliver arg s = go_on (handle_data l w s)
  execute rset arg s = go_on (write_reply 250 (text "2.0.0 OK") (reset_transaction s))
  execute noop arg s = go_on (write_reply 250 (text "2.0.0 OK") s)
  execute quit arg s = stop (write_reply 221 (text "2.0.0 Bye") s)
  execute unrecognized arg s = go_on (write_reply 500 (text "5.5.1 Command unrecognized") s)

  unfoldable pub step : Bytes → Session → Next
  unfolding execute verb_of split_command
  step line s = let (cmd, arg) = split_command line in execute (verb_of (to_upper cmd)) arg s

  -- The loop of `run`: it ends when no line can be read, or at QUIT.
  unfoldable pub loop : ℕ → Session → Option Session
  loop zero s = none
  loop (suc f) s = elim s.lines [
    | [] ↦ some s
    | line ∷ rest ↦ resume (loop f) (step line (record s { lines = rest }))
  ]

  -- `run`
  unfoldable pub run : ℕ → Session → Option Session
  unfolding loop write_reply
  run f s =
      if w.write_ok (length s.output)
      then loop f (write_reply 220 (text "posthorn ready") s)
      else some s
