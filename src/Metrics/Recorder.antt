-- ===== src/Metrics/Recorder.antt =====
-- core/metrics/recorder.go: the recorder and its events. A nil recorder is `none`; the inner
-- `none` of a method is a panic.
pub mod Events
use caddy_formward.Base.{ℕ, List, [], ◌∷◌, Option, none, some, if◌then◌else◌}
use caddy_formward.Text.{Bytes, text}
use caddy_formward.Metrics.Counter.{Counter, new_counter, inc}
use caddy_formward.Metrics.Histogram.{Floats, Histogram, new_histogram, observe}
use caddy_formward.Metrics.Registry.{
  Collector, Registry, register, Formats, counter_lines, histogram_lines,
}

module _ (floats : Floats) where
  pub record Recorder : Type 0 where
    pub submitted : Counter
    pub sent : Counter
    pub failed : Counter
    pub rate_limited : Counter
    pub auth_failed : Counter
    pub spam_blocked : Counter
    pub validation_failed : Counter
    pub idempotent_replay : Counter
    pub send_latency : Histogram floats

  abbrev endpoint_label : Bytes
  endpoint_label = text "endpoint"

  abbrev transport_label : Bytes
  transport_label = text "transport"

  -- The metrics of NewRecorder, given its histogram.
  unfoldable pub metrics_with : Histogram floats → Recorder
  unfolding text
  metrics_with send_latency = record {
    submitted =
        new_counter (text "posthorn_submissions_received_total")
          (text "Submissions accepted past the body-parse stage, before transport.Send.")
          (endpoint_label ∷ []);
    sent =
        new_counter (text "posthorn_submissions_sent_total")
          (text "Submissions successfully delivered to the upstream transport.")
          (endpoint_label ∷ transport_label ∷ []);
    failed =
        new_counter (text "posthorn_submissions_failed_total")
          (text
            "Submissions that reached transport.Send but failed terminally (no retry, 502 to client).")
          (endpoint_label ∷ transport_label ∷ text "error_class" ∷ []);
    rate_limited =
        new_counter (text "posthorn_rate_limited_total")
          (text "Submissions rejected at the rate-limit gate (HTTP 429).") (endpoint_label ∷ []);
    auth_failed =
        new_counter (text "posthorn_auth_failed_total")
          (text "API-mode submissions rejected with HTTP 401 (missing or invalid Bearer token).")
          (endpoint_label ∷ []);
    spam_blocked =
        new_counter (text "posthorn_spam_blocked_total")
          (text "Form-mode submissions silent-rejected by spam defenses (honeypot, origin).")
          (endpoint_label ∷ text "kind" ∷ []);
    validation_failed =
        new_counter (text "posthorn_validation_failed_total")
          (text
            "Submissions rejected with HTTP 422 for missing required fields or malformed email.")
          (endpoint_label ∷ []);
    idempotent_replay =
        new_counter (text "posthorn_idempotent_replay_total")
          (text "API-mode requests served from the idempotency cache without re-sending.")
          (endpoint_label ∷ []);
    send_latency = send_latency;
  }

  -- The metrics of NewRecorder, with the latency buckets.
  unfoldable pub new_metrics : List floats.Float → Option Recorder
  unfolding text new_histogram metrics_with
  new_metrics latency_buckets =
      elim (new_histogram floats (text "posthorn_send_latency_seconds")
        (text "Wall-clock latency of transport.Send, including any retries.") latency_buckets
        (endpoint_label ∷ transport_label ∷ [])) [
          | none ↦ none
          | some send_latency ↦ some (metrics_with send_latency)
        ]

  -- The calls of Register, in their order. The registry holds pointers: what it shows is what the
  -- recorder's metrics are at the time.
  unfoldable pub collectors : Formats floats → Recorder → List Collector
  unfolding counter_lines histogram_lines
  collectors formats r =
      let shown : Counter → Collector =
        λ c. record { name = c.name; lines = counter_lines floats formats c } in
      shown r.submitted
      ∷ shown r.sent
      ∷ shown r.failed
      ∷ shown r.rate_limited
      ∷ shown r.auth_failed
      ∷ shown r.spam_blocked
      ∷ shown r.validation_failed
      ∷ shown r.idempotent_replay
      ∷ (record {
        name = r.send_latency.name;
        lines = histogram_lines floats formats r.send_latency;
      })
      ∷ []

  -- Register of each.
  unfoldable pub register_all : List Collector → Registry → Option Registry
  unfolding register
  register_all [] metrics = some metrics
  register_all (c ∷ cs) metrics = elim (register c metrics) [
    | none ↦ none
    | some metrics' ↦ register_all cs metrics'
  ]

  -- A counter of the recorder, incremented.
  abbrev pub with_counter : Option Counter → (Counter → Recorder) → Option Recorder
  with_counter none put = none
  with_counter (some c) put = some (put c)

  -- `Submitted`
  unfoldable pub record_submitted : (endpoint : Bytes) → Recorder → Option Recorder
  unfolding inc
  record_submitted endpoint r =
      with_counter (inc (endpoint ∷ []) r.submitted) (λ c. record r { submitted = c })

  -- `Sent`, with the latency in seconds.
  unfoldable pub record_sent :
      (endpoint transport : Bytes) → (latency : floats.Float) → Recorder → Option Recorder
  unfolding inc observe
  record_sent endpoint transport latency r = elim (inc (endpoint ∷ transport ∷ []) r.sent) [
    | none ↦ none
    | some c ↦ elim (observe floats latency (endpoint ∷ transport ∷ []) r.send_latency) [
      | none ↦ none
      | some h ↦ some (record r { sent = c; send_latency = h })
    ]
  ]

  -- `Failed`
  unfoldable pub record_failed :
      (endpoint transport error_class : Bytes) → Recorder → Option Recorder
  unfolding inc
  record_failed endpoint transport error_class r =
      with_counter (inc (endpoint ∷ transport ∷ error_class ∷ []) r.failed)
        (λ c. record r { failed = c })

  -- `RateLimited`
  unfoldable pub record_rate_limited : (endpoint : Bytes) → Recorder → Option Recorder
  unfolding inc
  record_rate_limited endpoint r =
      with_counter (inc (endpoint ∷ []) r.rate_limited) (λ c. record r { rate_limited = c })

  -- `AuthFailed`
  unfoldable pub record_auth_failed : (endpoint : Bytes) → Recorder → Option Recorder
  unfolding inc
  record_auth_failed endpoint r =
      with_counter (inc (endpoint ∷ []) r.auth_failed) (λ c. record r { auth_failed = c })

  -- `SpamBlocked`
  unfoldable pub record_spam_blocked : (endpoint kind : Bytes) → Recorder → Option Recorder
  unfolding inc
  record_spam_blocked endpoint kind r =
      with_counter (inc (endpoint ∷ kind ∷ []) r.spam_blocked) (λ c. record r { spam_blocked = c })

  -- `ValidationFailed`
  unfoldable pub record_validation_failed : (endpoint : Bytes) → Recorder → Option Recorder
  unfolding inc
  record_validation_failed endpoint r =
      with_counter (inc (endpoint ∷ []) r.validation_failed)
        (λ c. record r { validation_failed = c })

  -- `IdempotentReplay`
  unfoldable pub record_idempotent_replay : (endpoint : Bytes) → Recorder → Option Recorder
  unfolding inc
  record_idempotent_replay endpoint r =
      with_counter (inc (endpoint ∷ []) r.idempotent_replay)
        (λ c. record r { idempotent_replay = c })

  -- A method of a pointer, which does nothing on nil.
  abbrev pub on : (Recorder → Option Recorder) → Option Recorder → Option (Option Recorder)
  on method none = some none
  on method (some r) = elim (method r) [ none ↦ none | some r' ↦ some (some r') ]
