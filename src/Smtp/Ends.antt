-- ===== src/Smtp/Ends.antt =====
-- core/smtp/session.go: the lines that a session can still read, as the measure of its command loop,
-- and a rule that carries an invariant over a run.
use caddy_formward.Base.{
  ℕ, zero, suc, ◌+◌, ◌≤◌, ◌<◌, List, [], ◌∷◌, Option, some, ◌≡◌, refl, arith, length, ap,
}
use caddy_formward.Text.{Bytes}
use caddy_formward.Transport.{Outcome, sent, failed}
use caddy_formward.Smtp.Session.{Listener, Session, Outside, Handshake, hang_up, fails, succeeds}
use caddy_formward.Smtp.Commands.{
  handle_ehlo, handle_helo, handle_starttls, handle_auth, auth_plain, handle_mail, handle_rcpt,
}
use caddy_formward.Smtp.Delivery.{DotText, dot_read, finish_send, receive, handle_data}
use caddy_formward.Smtp.Run.{
  Verb, ehlo, starttls, deliver, Next, go_on, stop, execute, step, loop, resume, After,
}

abbrev pub pending : Handshake → ℕ
pending hang_up = 0
pending (fails left next) = length left + pending next
pending (succeeds verified lines) = length lines

-- The lines that can still be read.
abbrev pub measure : Session → ℕ
measure s = length s.lines + pending s.tls

rest-dot_read : (lines : List Bytes) → length (dot_read lines).rest ≤ length lines
unfolding dot_read
rest-dot_read [] = omega arith
rest-dot_read (line ∷ lines) = ground (arith, rest-dot_read lines)

module _ (l : Listener) (w : Outside) where
  -- DATA reads nothing once the blob is in.
  measure-finish_send :
      (id : Bytes) (o : Outcome) (s : Session) → measure (finish_send l w id o s) ≡ measure s
  unfolding finish_send
  measure-finish_send id (sent r) s = ground arith
  measure-finish_send id (failed e) s = ground arith

  measure-receive : (d : DotText) (s : Session) → measure (receive l w d s) ≡ measure s
  unfolding receive finish_send
  measure-receive d s = ground arith

  measure-execute :
      (v : Verb) (arg : Bytes) (s : Session)
      → After (λ t. measure t ≤ measure s) (execute l w v arg s)
  unfolding execute handle_ehlo handle_helo handle_starttls handle_auth auth_plain handle_mail
      handle_rcpt handle_data
  measure-execute ehlo arg s = omega arith
  measure-execute starttls arg s = ground arith
  measure-execute deliver arg s = ground (arith, rest-dot_read s.lines)
  measure-execute _ arg s = ground arith

  measure-step : (line : Bytes) (s : Session) → After (λ t. measure t ≤ measure s) (step l w line s)
  measure-step line s = unfold step in measure-execute _ _ s

  -- The steps of a run keep `P`.
  abbrev pub Kept : (Session → Type 0) → Type 0
  Kept P =
      (line : Bytes) (rest : List Bytes) (s : Session)
      → P s
      → s.lines ≡ line ∷ rest
      → After P (step l w line (record s { lines = rest }))

  module _ (P : Session → Type 0) (keep : Kept P) where
    resume_rule :
        (again : Session → Option Session) (f : ℕ) (n : Next)
        → ((s : Session) → measure s < f → P s → (t : Session) × (again s ≡ some t) × P t)
        → After (λ t. measure t < f) n
        → After P n
        → (t : Session) × (resume again n ≡ some t) × P t
    resume_rule again f (go_on s) ends m h = ends s m h
    resume_rule again f (stop s) ends m h = (s, refl, h)

    After-lt :
        (n : Next) (a b : ℕ) → a < b → After (λ t. measure t ≤ a) n → After (λ t. measure t < b) n
    After-lt (go_on s) a b lt h = omega arith
    After-lt (stop s) a b lt h = omega arith

    read_rule :
        (again : Session → Option Session) (f : ℕ) (s : Session) (ls : List Bytes)
        → ((s : Session) → measure s < f → P s → (t : Session) × (again s ≡ some t) × P t)
        → s.lines ≡ ls
        → measure s < suc f
        → P s
        → (t : Session) × (elim ls [
          | [] ↦ some s
          | line ∷ rest ↦ resume again (step l w line (record s { lines = rest }))
        ]
            ≡ some t)
          × P t
    read_rule again f s [] ends e m h = (s, refl, h)
    read_rule again f s (line ∷ rest) ends e m h =
        let s' = record s { lines = rest } in
        resume_rule again f (step l w line s') ends
          (After-lt (step l w line s') (measure s') f (let n = ap length e in omega arith)
            (measure-step line s'))
          (keep line rest s h e)

    -- With more fuel than lines to read the loop ends, in a state with the property.
    pub loop_rule :
        (f : ℕ) (s : Session) → measure s < f → P s → (t : Session) × (loop l w f s ≡ some t) × P t
    unfolding loop
    loop_rule zero s m h = absurd (omega arith)
    loop_rule (suc f) s m h = read_rule (loop l w f) f s s.lines (loop_rule f) refl m h
