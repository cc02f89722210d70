-- ===== src/Smtp/Delivery/Stuffed.antt =====
-- core/smtp/session.go: text with doubled dots, by RFC 5321, 4.5.2, and what DATA reads of it.
use caddy_formward.Base.{
  ℕ, zero, suc, ◌+◌, ◌-◌, ◌^◌, ◌≤◌, ◌<◌, ◌∙◌, ap, inl, inr, Bool-cases, ltb, length, take, true,
  false, List, [], ◌∷◌, ◌++◌, ◌≡◌, refl, arith, ◌==◌, if◌then◌else◌,
}
use caddy_formward.Text.{Bytes, text, bytes_eq, bytes_eq_refl}
use caddy_formward.Base.Int.{pos}
use caddy_formward.Smtp.Config.{none_of}
use caddy_formward.Smtp.Session.{Listener, Session, Outside, write_reply, reset_transaction}
use caddy_formward.Smtp.Delivery.{
  DotText, unstuff, dot_read, read_limit, too_big, submit, receive, handle_data,
}

-- A client doubles a dot at the front of a line.
unfoldable pub stuff : Bytes → Bytes
stuff [] = []
stuff (c ∷ s) = if c == 0x2e then 0x2e ∷ c ∷ s else c ∷ s

-- The lines of a text, each with its end.
unfoldable pub with_ends : List Bytes → Bytes
with_ends [] = []
with_ends (line ∷ lines) = line ++ b'\n' ∷ with_ends lines

-- What a client sends for the lines.
unfoldable pub stuffed : List Bytes → List Bytes
unfolding stuff
stuffed [] = text "." ∷ []
stuffed (line ∷ lines) = stuff line ∷ stuffed lines

unstuff-stuff : (line : Bytes) → unstuff (stuff line) ≡ line
unfolding unstuff stuff bytes_eq text
unstuff-stuff [] = refl
unstuff-stuff (c ∷ s) = ground arith

stuff_ne_dot : (line : Bytes) → bytes_eq (stuff line) (text ".") ≡ false
unfolding stuff bytes_eq text
stuff_ne_dot [] = refl
stuff_ne_dot (c ∷ []) = ground arith
stuff_ne_dot (c ∷ d ∷ s) = ground arith

-- A reader of dotted text finds the lines, and leaves what follows unread.
dot_read-stuffed :
    (lines rest : List Bytes)
    → dot_read (stuffed lines ++ rest)
      ≡ record { content = with_ends lines; complete = true; rest = rest }
unfolding dot_read stuffed with_ends
dot_read-stuffed [] rest = rw (bytes_eq_refl (text ".")) refl
dot_read-stuffed (line ∷ lines) rest =
    let later = dot_read-stuffed lines rest in
    rw (stuff_ne_dot line, unstuff-stuff line, later) refl

take-within : (n : ℕ) (b : Bytes) → length b ≤ n → take n b ≡ b
take-within zero [] h = refl
take-within (suc n) [] h = refl
take-within zero (c ∷ b) h = absurd (omega (arith, h))
take-within (suc n) (c ∷ b) h = ap (λ r. c ∷ r) (take-within n b (omega (arith, h)))

module _ (l : Listener) (w : Outside) where
  -- A blob that was read to its end.
  receive-complete :
      (m : ℕ) (d : DotText) (s : Session)
      → l.max_body ≡ pos m
      → 0 < m
      → m < 2 ^ 63 - 1
      → d.complete ≡ true
      → receive l w d s ≡ (
          if ltb m (length d.content)
          then reset_transaction (write_reply 552 (text "5.3.4 Message too big") s)
          else submit l w d.content s)
  unfolding receive read_limit too_big
  receive-complete m d s cap some_room small whole = elim (Bool-cases (ltb m (length d.content))) [
    | inl large ↦ rw (cap, whole) ground (arith, large, some_room, small)
    | inr fits ↦
        let all = take-within (m + 1) d.content (ground (arith, fits)) in
        rw (cap, whole) ground (arith, fits, some_room, small, all)
  ]

  -- DATA that passes its guards.
  handle_data_received :
      (s : Session)
      → s.transaction ≡ true
      → none_of s.rcpt_to ≡ false
      → w.write_ok (length s.output) ≡ true
      → let d = dot_read s.lines in
        handle_data l w s
        ≡ receive l w d
            (record (write_reply 354 (text "End data with <CR><LF>.<CR><LF>") s) { lines = d.rest })
  unfolding handle_data
  handle_data_received s open' known written = rw (handle_data, open', known, written) refl

  -- Under a positive limit below the largest int64, DATA in a transaction with a recipient, whose
  -- reply 354 is written, takes what a client sends for its lines, with dots doubled and a closing
  -- dot: within the limit exactly these lines are submitted, beyond it the reply is 552 and the
  -- transaction ends, and either way the session goes on with what follows the closing dot.
  pub handle_data-stuffed :
      (m : ℕ) (lines rest : List Bytes) (s : Session)
      → l.max_body ≡ pos m
      → 0 < m
      → m < 2 ^ 63 - 1
      → s.transaction ≡ true
      → none_of s.rcpt_to ≡ false
      → w.write_ok (length s.output) ≡ true
      → s.lines ≡ stuffed lines ++ rest
      → let s' = record (write_reply 354 (text "End data with <CR><LF>.<CR><LF>") s) {
        lines = rest;
      } in
        handle_data l w s ≡ (
          if ltb m (length (with_ends lines))
          then reset_transaction (write_reply 552 (text "5.3.4 Message too big") s')
          else submit l w (with_ends lines) s')
  handle_data-stuffed m lines rest s cap some_room small open' known written sent' =
      let read = ap dot_read sent' ∙ dot_read-stuffed lines rest in
      let s354 = write_reply 354 (text "End data with <CR><LF>.<CR><LF>") s in
      handle_data_received s open' known written
      ∙ ap (λ (d : DotText). receive l w d (record s354 { lines = d.rest })) read
      ∙ receive-complete m (record { content = with_ends lines; complete = true; rest = rest })
          (record s354 { lines = rest }) cap some_room small refl
