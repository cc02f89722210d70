-- ===== src/Smtp/Relay/Sessions.antt =====
-- The open-relay guarantees of a whole session: every state that the loop reaches, and every
-- message that a run hands to the transport.
use caddy_formward.Base.{
  ℕ, ◌+◌, true, false, List, [], ◌∷◌, none, some, ◌≡◌, refl, arith, length, Bool-cases, inl, inr,
}
use caddy_formward.Text.{Bytes, text, is_empty, trim_space}
use caddy_formward.Smtp.Config.{User, validate, check_users, check_auth}
use caddy_formward.Smtp.Session.{
  Listener, Session, Outside, Handshake, new_session, write_reply, can_advertise_auth,
}
use caddy_formward.Smtp.Commands.{handle_helo}
use caddy_formward.Smtp.Run.{
  After, Verb, ehlo, helo, starttls, auth, mail, rcpt, deliver, rset, noop, quit, unrecognized,
  execute, step, run,
}
use caddy_formward.Smtp.Ends.{pending, loop_rule}
use caddy_formward.Smtp.Relay.{
  IsSafe, Named, closed, unchanged, same_fields, reply-IsSafe, ehlo-IsSafe, reset-IsSafe,
  starttls-IsSafe, mail-IsSafe, rcpt-IsSafe, auth-IsSafe,
}
use caddy_formward.Smtp.Relay.Data.{handle_data-IsSafe}
use caddy_formward.Smtp.Relay.Addressed.{
  Clean, ehlo-Clean, mail-Clean, rcpt-Clean, starttls-Clean, auth-Clean,
}
use caddy_formward.Smtp.Relay.Handed.{data-Clean}

-- A user that passed the validation has a name.
empty_trim : is_empty (trim_space []) ≡ true
unfolding is_empty trim_space
empty_trim = refl

named_of_trim : (name : Bytes) → is_empty (trim_space name) ≡ false → is_empty name ≡ false
unfolding is_empty
named_of_trim [] h = cc (empty_trim)
named_of_trim (c ∷ name) h = refl

Named-check_users : (us : List User) → check_users us ≡ none → Named us
unfolding check_users
Named-check_users [] h = tt
Named-check_users (u ∷ us) h =
    (named_of_trim u.username (ground arith), Named-check_users us (ground arith))

-- The two halves of the invariant.
abbrev pub IsRelaySafe : Listener → Outside → Session → Type 0
IsRelaySafe l w s = IsSafe l w s × Clean l w s

module _ (l : Listener) (w : Outside)
    (users : can_advertise_auth l ≡ true → Named l.cfg.smtp_users) where
  pub reply-IsRelaySafe :
      (s : Session) (code : ℕ) (msg : Bytes)
      → IsRelaySafe l w s
      → IsRelaySafe l w (write_reply code msg s)
  reply-IsRelaySafe s code msg h =
      (reply-IsSafe l w s code msg h.0, unfold write_reply in (tt, h.1))

  execute-IsRelaySafe :
      (v : Verb) (arg : Bytes) (s : Session)
      → IsRelaySafe l w s
      → After (IsRelaySafe l w) (execute l w v arg s)
  unfolding execute handle_helo
  execute-IsRelaySafe ehlo arg s (h, c) = (ehlo-IsSafe l w s h, ehlo-Clean l w s c)
  execute-IsRelaySafe helo arg s h = reply-IsRelaySafe s _ _ h
  execute-IsRelaySafe starttls arg s (h, c) = (starttls-IsSafe l w s h, starttls-Clean l w s c)
  execute-IsRelaySafe auth arg s (h, c) = (auth-IsSafe l w users arg s h, auth-Clean l w s c arg)
  execute-IsRelaySafe mail arg s (h, c) = (mail-IsSafe l w arg s h, mail-Clean l w s c arg)
  execute-IsRelaySafe rcpt arg s (h, c) = (rcpt-IsSafe l w arg s h, rcpt-Clean l w s c arg)
  execute-IsRelaySafe deliver arg s (h, c) = (handle_data-IsSafe l w s h, data-Clean l w s h c)
  execute-IsRelaySafe rset arg s (h, c) = reply-IsRelaySafe _ _ _ (reset-IsSafe l w s, c)
  execute-IsRelaySafe noop arg s h = reply-IsRelaySafe s _ _ h
  execute-IsRelaySafe quit arg s h = reply-IsRelaySafe s _ _ h
  execute-IsRelaySafe unrecognized arg s h = reply-IsRelaySafe s _ _ h

  pub step-IsRelaySafe :
      (line : Bytes) (s : Session) → IsRelaySafe l w s → After (IsRelaySafe l w) (step l w line s)
  step-IsRelaySafe line s h = unfold step in execute-IsRelaySafe _ _ s h

-- The users that AUTH can match are named, as the validation demands it.
pub Named-validate :
    (l : Listener) → validate l.cfg ≡ none → can_advertise_auth l ≡ true → Named l.cfg.smtp_users
unfolding validate check_auth can_advertise_auth
Named-validate l valid can = Named-check_users l.cfg.smtp_users (ground arith)

-- Every fresh session is safe.
pub new_session-IsRelaySafe :
    (l : Listener) (w : Outside) (lines : List Bytes) (tls : Handshake)
    → IsRelaySafe l w (new_session lines tls)
unfolding new_session
new_session-IsRelaySafe l w lines tls = (closed l w _ refl refl, tt)

-- Whatever a client sends to a listener with a valid configuration, its session ends; each message
-- that the session handed to the transport has at least one recipient, has only recipients that the
-- configured allowlist admits (where one is configured), and has no more of them than the cap
-- (where there is one). The fuel is one more than the lines that the client sends.
pub run_addresses_only_allowed :
    (l : Listener) (w : Outside) (lines : List Bytes) (tls : Handshake)
    → validate l.cfg ≡ none
    → (t : Session) × (run l w (1 + (length lines + pending tls)) (new_session lines tls) ≡ some t)
      × Clean l w t
unfolding run
run_addresses_only_allowed l w lines tls valid =
    let users = Named-validate l valid in
    let fresh = new_session-IsRelaySafe l w lines tls in
    let keep =
      λ (line : Bytes) (rest : List Bytes) (s : Session) (h : IsRelaySafe l w s)
          (e : s.lines ≡ line ∷ rest).
        step-IsRelaySafe l w users line (record s { lines = rest })
          (unchanged l w s _ same_fields h.0, h.1) in
    let (t, ended, safe) =
      loop_rule l w (IsRelaySafe l w) keep (1 + (length lines + pending tls))
        (write_reply 220 (text "posthorn ready") (new_session lines tls))
        (unfold write_reply new_session in omega arith) (reply-IsRelaySafe l w users _ _ _ fresh) in
    elim (Bool-cases (w.write_ok (length (new_session lines tls).output))) [
      | inl greeted ↦ (t, rw greeted ended, safe.1)
      | inr lost ↦ (new_session lines tls, rw lost, fresh.1)
    ]
