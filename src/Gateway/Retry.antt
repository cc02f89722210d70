-- ===== src/Gateway/Retry.antt =====
-- core/gateway/handler.go: the retry policy of a send. The wait is a race of a timer with the
-- request's context: `cut_short` tells for a delay in nanoseconds whether the context won it.
use caddy_formward.Base.{
  ℕ, ◌+◌, Bool, true, false, Option, none, some, ◌≡◌, refl, sym, ap, ◌∙◌, Option-cases,
  if◌then◌else◌, if_rule, subst, inl, inr, ◌⊎◌,
}
use caddy_formward.Text.{Bytes, text}
use caddy_formward.Transport.{
  Message, SendResult, ErrorClass, unknown, transient, rate_limited, terminal, TransportError,
  Failure, as_transport_error, class_string, Outcome, sent, failed, Transport,
}

-- `errorClassName`
unfoldable pub error_class_name : Failure → Bytes
unfolding text
error_class_name e = elim (as_transport_error e) [
  | none ↦ text "unknown"
  | some te ↦ class_string te.class
]

-- The outcome, and the number of calls of the transport's Send.
pub record Sending : Type 0 where
  pub outcome : Outcome
  pub attempts : ℕ

-- The delay before a retry, in nanoseconds; `none` where there is none.
unfoldable pub retry_delay : ErrorClass → Option ℕ
retry_delay transient = some 1000000000
retry_delay rate_limited = some 5000000000
retry_delay terminal = none
retry_delay unknown = none

-- The second attempt of sendWithRetry, after the first one failed with `e`.
unfoldable pub retry : Transport → (calls : ℕ) → Message → Failure → Option ℕ → (ℕ → Bool) → Sending
retry send calls msg e none cut_short = record { outcome = failed e; attempts = 1 }
retry send calls msg e (some delay) cut_short =
    if cut_short delay
    then record { outcome = failed e; attempts = 1 }
    else record { outcome = send (calls + 1) msg; attempts = 2 }

-- `errors.As` and the switch on the class.
unfoldable pub delay_after : Failure → Option ℕ
unfolding retry_delay
delay_after e = elim (as_transport_error e) [ none ↦ none | some te ↦ retry_delay te.class ]

-- `sendWithRetry`, after `calls` earlier calls of the transport.
unfoldable pub after_first : Transport → ℕ → Message → (ℕ → Bool) → Outcome → Sending
unfolding retry delay_after
after_first send calls msg cut_short (sent r) = record { outcome = sent r; attempts = 1 }
after_first send calls msg cut_short (failed e) = retry send calls msg e (delay_after e) cut_short

unfoldable pub send_with_retry : Transport → (calls : ℕ) → Message → (ℕ → Bool) → Sending
unfolding after_first
send_with_retry send calls msg cut_short = after_first send calls msg cut_short (send calls msg)

-- The first answer is an error of a class that is retried, and its delay passes in time.
abbrev pub IsRetried : Outcome → (ℕ → Bool) → Type 0
IsRetried o cut_short =
    (e : Failure) × (te : TransportError) × (o ≡ failed e)
    × (as_transport_error e ≡ some te)
    × (((te.class ≡ transient) × (cut_short 1000000000 ≡ false))
        ⊎ ((te.class ≡ rate_limited) × (cut_short 5000000000 ≡ false)))

-- How a sending went that followed the policy.
abbrev pub Followed : Transport → ℕ → Message → (ℕ → Bool) → Sending → Type 0
Followed send calls msg cut_short s =
    ((s.attempts ≡ 2) × (s.outcome ≡ send (calls + 1) msg) × IsRetried (send calls msg) cut_short)
    ⊎ ((s.attempts ≡ 1) × (s.outcome ≡ send calls msg) × (¬ IsRetried (send calls msg) cut_short))

-- What is not retried: the class of the error, or the delay, stands against it.
not-IsRetried :
    (o : Outcome) (e : Failure) (te : TransportError) (cut_short : ℕ → Bool)
    → o ≡ failed e
    → as_transport_error e ≡ some te
    → (te.class ≡ transient → cut_short 1000000000 ≡ true)
    → (te.class ≡ rate_limited → cut_short 5000000000 ≡ true)
    → ¬ IsRetried o cut_short
not-IsRetried o e te cut_short h f slow slower (e', te', h', f', inl (k, go)) =
    let same : te ≡ te' = cc in
    let class : te.class ≡ transient = ap (λ t. t.class) same ∙ k in cc (slow class)
not-IsRetried o e te cut_short h f slow slower (e', te', h', f', inr (k, go)) =
    let same : te ≡ te' = cc in
    let class : te.class ≡ rate_limited = ap (λ t. t.class) same ∙ k in cc (slower class)

unclassified :
    (o : Outcome) (e : Failure) (cut_short : ℕ → Bool)
    → o ≡ failed e
    → as_transport_error e ≡ none
    → ¬ IsRetried o cut_short
unclassified o e cut_short h f (e', te', h', f', w) = cc

not_failed :
    (o : Outcome) (r : SendResult) (cut_short : ℕ → Bool) → o ≡ sent r → ¬ IsRetried o cut_short
not_failed o r cut_short h (e', te', h', f', w) = cc

retry_class :
    (send : Transport) (calls : ℕ) (msg : Message) (e : Failure) (te : TransportError)
    (c : ErrorClass) (cut_short : ℕ → Bool)
    → send calls msg ≡ failed e
    → as_transport_error e ≡ some te
    → te.class ≡ c
    → Followed send calls msg cut_short (retry send calls msg e (retry_delay c) cut_short)
unfolding retry retry_delay
retry_class send calls msg e te transient cut_short h f k =
    if_rule (Followed send calls msg cut_short) (cut_short 1000000000)
      (λ cut. inr (
        refl,
        sym h,
        not-IsRetried (send calls msg) e te cut_short h f (λ i. cut) (λ i. absurd (cc (i, k))),
      ))
      (λ go. inl (refl, refl, (e, te, h, f, inl (k, go))))
retry_class send calls msg e te rate_limited cut_short h f k =
    if_rule (Followed send calls msg cut_short) (cut_short 5000000000)
      (λ cut. inr (
        refl,
        sym h,
        not-IsRetried (send calls msg) e te cut_short h f (λ i. absurd (cc (i, k))) (λ i. cut),
      ))
      (λ go. inl (refl, refl, (e, te, h, f, inr (k, go))))
retry_class send calls msg e te terminal cut_short h f k =
    let never =
      not-IsRetried (send calls msg) e te cut_short h f (λ i. absurd (cc (i, k)))
        (λ i. absurd (cc (i, k))) in
    inr (refl, sym h, never)
retry_class send calls msg e te unknown cut_short h f k =
    let never =
      not-IsRetried (send calls msg) e te cut_short h f (λ i. absurd (cc (i, k)))
        (λ i. absurd (cc (i, k))) in
    inr (refl, sym h, never)

retry_failed :
    (send : Transport) (calls : ℕ) (msg : Message) (e : Failure) (cut_short : ℕ → Bool)
    → send calls msg ≡ failed e
    → Followed send calls msg cut_short (retry send calls msg e (delay_after e) cut_short)
unfolding delay_after
retry_failed send calls msg e cut_short h = elim (Option-cases (as_transport_error e)) [
  | inl f ↦
      let delay : delay_after e ≡ none = rw (delay_after, f) refl in
      let done : Followed send calls msg cut_short (retry send calls msg e none cut_short) =
        unfold retry in inr (refl, sym h, unclassified (send calls msg) e cut_short h f) in
      subst (λ d. Followed send calls msg cut_short (retry send calls msg e d cut_short))
        (sym delay) done
  | inr (te, f) ↦
      let delay : delay_after e ≡ retry_delay te.class = rw (delay_after, f) refl in
      subst (λ d. Followed send calls msg cut_short (retry send calls msg e d cut_short))
        (sym delay) (retry_class send calls msg e te te.class cut_short h f refl)
]

after_first-Followed :
    (send : Transport) (calls : ℕ) (msg : Message) (cut_short : ℕ → Bool) (o : Outcome)
    → send calls msg ≡ o
    → Followed send calls msg cut_short (after_first send calls msg cut_short o)
unfolding after_first
after_first-Followed send calls msg cut_short (sent r) h =
    inr (refl, sym h, not_failed (send calls msg) r cut_short h)
after_first-Followed send calls msg cut_short (failed e) h =
    retry_failed send calls msg e cut_short h

-- A sending makes two attempts and reports the second one's outcome when the first fails with a
-- transient or a rate-limit error and its delay, of one or of five seconds, passes before the
-- request's context ends; otherwise it makes one attempt and reports its outcome.
pub send_with_retry_lem :
    (send : Transport) (calls : ℕ) (msg : Message) (cut_short : ℕ → Bool)
    → Followed send calls msg cut_short (send_with_retry send calls msg cut_short)
unfolding send_with_retry
send_with_retry_lem send calls msg cut_short =
    after_first-Followed send calls msg cut_short (send calls msg) refl
