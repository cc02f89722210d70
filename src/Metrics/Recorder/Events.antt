-- ===== src/Metrics/Recorder/Events.antt =====
-- core/metrics/recorder.go: the events that core/gateway/handler.go records, and a scrape after
-- them.
use caddy_formward.Base.{
  true, List, [], ◌∷◌, Option, none, some, ◌≡◌, ◌≢◌, refl, sym, ap, subst, ◌∙◌, arith, length, All,
  Option-cases, inl, inr, ◌==◌,
}
use caddy_formward.Text.{Bytes, text}
use caddy_formward.Text.Search.{Without}
use caddy_formward.Gateway.Serve.{
  Event, auth_failed, idempotent_replay, rate_limited, validation_failed, submitted, delivered,
  spam_blocked, delivery_failed,
}
use caddy_formward.Metrics.Counter.{Counter, inc}
use caddy_formward.Metrics.Histogram.{Floats, Histogram, new_histogram, observe, observe_at}
use caddy_formward.Metrics.Labels.{encode_label_values}
use caddy_formward.Metrics.Histogram.Cumulative.{new_histogram-fresh}
use caddy_formward.Metrics.Registry.{Formats, keys, counter_lines}
use caddy_formward.Metrics.Registry.Total.{IsKey, add-IsKey, lines_total}
use caddy_formward.Metrics.Recorder.{
  Recorder, new_metrics, metrics_with, record_submitted, record_sent, record_failed,
  record_rate_limited, record_auth_failed, record_spam_blocked, record_validation_failed,
  record_idempotent_replay,
}

-- A counter with these label names, all of whose keys stand for label values.
abbrev IsShown : List Bytes → Counter → Type 0
IsShown names c = (c.label_names ≡ names) × All (IsKey names) (keys c.values)

inc-IsShown :
    (names ws : List Bytes) (c : Counter)
    → IsShown names c
    → length ws ≡ length names
    → All (Without 0) ws
    → ws ≢ [] ∷ []
    → (c' : Counter) × (inc ws c ≡ some c') × IsShown names c'
unfolding inc
inc-IsShown names ws c (same, keyed) len plain ne =
    let len' = len ∙ ap length (sym same) in
    let keyed' = subst (λ ns. All (IsKey ns) (keys c.values)) (sym same) keyed in
    let (c', added, names', keyed'') = add-IsKey 1 ws c (len', plain, ne) keyed' in
    (c', added, (names' ∙ same, subst (λ ns. All (IsKey ns) (keys c'.values)) same keyed''))

module _ (floats : Floats) where
  -- A call of the handler, for the endpoint's path and the type of its transport; the latency is
  -- that of a delivery.
  unfoldable pub record_event :
      (endpoint transport : Bytes)
      → (latency : floats.Float) → Event
      → Recorder floats
      → Option (Recorder floats)
  unfolding record_submitted record_sent record_failed record_rate_limited record_auth_failed
      record_spam_blocked record_validation_failed record_idempotent_replay
  record_event endpoint transport latency auth_failed r = record_auth_failed floats endpoint r
  record_event endpoint transport latency idempotent_replay r =
      record_idempotent_replay floats endpoint r
  record_event endpoint transport latency rate_limited r = record_rate_limited floats endpoint r
  record_event endpoint transport latency validation_failed r =
      record_validation_failed floats endpoint r
  record_event endpoint transport latency submitted r = record_submitted floats endpoint r
  record_event endpoint transport latency delivered r =
      record_sent floats endpoint transport latency r
  record_event endpoint transport latency (spam_blocked kind) r =
      record_spam_blocked floats endpoint kind r
  record_event endpoint transport latency (delivery_failed class) r =
      record_failed floats endpoint transport class r

  -- The events of requests to endpoints with paths and transports, with latencies.
  unfoldable pub record_events :
      List ((Bytes × Bytes) × (floats.Float × Event)) → Recorder floats → Option (Recorder floats)
  unfolding record_event
  record_events [] r = some r
  record_events (((endpoint, transport), (latency, e)) ∷ events) r =
      elim (record_event endpoint transport latency e r) [
        | none ↦ none
        | some r' ↦ record_events events r'
      ]

  -- The label names of the recorder's metrics, and keys that can be shown.
  abbrev IsReady : Recorder floats → Type 0
  IsReady r =
      IsShown (text "endpoint" ∷ []) r.submitted
      × IsShown (text "endpoint" ∷ text "transport" ∷ []) r.sent
      × IsShown (text "endpoint" ∷ text "transport" ∷ text "error_class" ∷ []) r.failed
      × IsShown (text "endpoint" ∷ []) r.rate_limited
      × IsShown (text "endpoint" ∷ []) r.auth_failed
      × IsShown (text "endpoint" ∷ text "kind" ∷ []) r.spam_blocked
      × IsShown (text "endpoint" ∷ []) r.validation_failed
      × IsShown (text "endpoint" ∷ []) r.idempotent_replay
      × (length r.send_latency.label_names ≡ 2)

  -- A text of an event has no byte 0.
  abbrev pub IsPlain : Event → Type 0
  IsPlain (spam_blocked kind) = Without 0 kind
  IsPlain (delivery_failed class) = Without 0 class
  IsPlain _ = Unit

  -- An endpoint with a path and a transport that can be label values.
  abbrev pub IsNamed : Bytes × Bytes → Type 0
  IsNamed (endpoint, transport) = (endpoint ≢ []) × Without 0 endpoint × Without 0 transport

  endpoint_only :
      (endpoint : Bytes) (c : Counter)
      → endpoint ≢ []
      → Without 0 endpoint
      → IsShown (text "endpoint" ∷ []) c
      → (c' : Counter) × (inc (endpoint ∷ []) c ≡ some c') × IsShown (text "endpoint" ∷ []) c'
  endpoint_only endpoint c ne he h =
      inc-IsShown (text "endpoint" ∷ []) (endpoint ∷ []) c h refl (he, tt) (λ e. ne cc)

  observe_fits :
      (latency : floats.Float) (endpoint transport : Bytes) (h : Histogram floats)
      → length h.label_names ≡ 2
      → (h' : Histogram floats) × (observe floats latency (endpoint ∷ transport ∷ []) h ≡ some h')
        × (length h'.label_names ≡ 2)
  unfolding observe
  observe_fits latency endpoint transport h two =
      let fits : (2 == length h.label_names) ≡ true = ground (arith, two) in
      (
        record h {
          series =
              observe_at floats (encode_label_values (endpoint ∷ transport ∷ [])) latency h.buckets
                h.series;
        },
        rw (observe, fits) refl,
        two,
      )

  record_event-IsReady :
      (endpoint transport : Bytes) (latency : floats.Float) (e : Event) (r : Recorder floats)
      → IsNamed (endpoint, transport)
      → IsPlain e
      → IsReady r
      → (r' : Recorder floats) × (record_event endpoint transport latency e r ≡ some r')
        × IsReady r'
  unfolding record_event record_auth_failed record_idempotent_replay record_rate_limited
      record_validation_failed record_submitted record_spam_blocked record_failed record_sent
      observe
  record_event-IsReady endpoint transport latency auth_failed r (ne, he, ht) plain
        (sub, sen, fai, lim, aut, spa, inv, rep, lat) =
      let (c, done, ready) = endpoint_only endpoint r.auth_failed ne he aut in
      (
        record r { auth_failed = c },
        rw (record_auth_failed, done) refl,
        (sub, sen, fai, lim, ready, spa, inv, rep, lat),
      )
  record_event-IsReady endpoint transport latency idempotent_replay r (ne, he, ht) plain
        (sub, sen, fai, lim, aut, spa, inv, rep, lat) =
      let (c, done, ready) = endpoint_only endpoint r.idempotent_replay ne he rep in
      (
        record r { idempotent_replay = c },
        rw (record_idempotent_replay, done) refl,
        (sub, sen, fai, lim, aut, spa, inv, ready, lat),
      )
  record_event-IsReady endpoint transport latency rate_limited r (ne, he, ht) plain
        (sub, sen, fai, lim, aut, spa, inv, rep, lat) =
      let (c, done, ready) = endpoint_only endpoint r.rate_limited ne he lim in
      (
        record r { rate_limited = c },
        rw (record_rate_limited, done) refl,
        (sub, sen, fai, ready, aut, spa, inv, rep, lat),
      )
  record_event-IsReady endpoint transport latency validation_failed r (ne, he, ht) plain
        (sub, sen, fai, lim, aut, spa, inv, rep, lat) =
      let (c, done, ready) = endpoint_only endpoint r.validation_failed ne he inv in
      (
        record r { validation_failed = c },
        rw (record_validation_failed, done) refl,
        (sub, sen, fai, lim, aut, spa, ready, rep, lat),
      )
  record_event-IsReady endpoint transport latency submitted r (ne, he, ht) plain
        (sub, sen, fai, lim, aut, spa, inv, rep, lat) =
      let (c, done, ready) = endpoint_only endpoint r.submitted ne he sub in
      (
        record r { submitted = c },
        rw (record_submitted, done) refl,
        (ready, sen, fai, lim, aut, spa, inv, rep, lat),
      )
  record_event-IsReady endpoint transport latency (spam_blocked kind) r (ne, he, ht) plain
        (sub, sen, fai, lim, aut, spa, inv, rep, lat) =
      let (c, done, ready) =
        inc-IsShown (text "endpoint" ∷ text "kind" ∷ []) (endpoint ∷ kind ∷ []) r.spam_blocked spa
          refl (he, (plain, tt)) (λ e. cc) in
      (
        record r { spam_blocked = c },
        rw (record_spam_blocked, done) refl,
        (sub, sen, fai, lim, aut, ready, inv, rep, lat),
      )
  record_event-IsReady endpoint transport latency (delivery_failed class) r (ne, he, ht) plain
        (sub, sen, fai, lim, aut, spa, inv, rep, lat) =
      let (c, done, ready) =
        inc-IsShown (text "endpoint" ∷ text "transport" ∷ text "error_class" ∷ [])
          (endpoint ∷ transport ∷ class ∷ []) r.failed fai refl (he, (ht, (plain, tt))) (λ e. cc) in
      (
        record r { failed = c },
        rw (record_failed, done) refl,
        (sub, sen, ready, lim, aut, spa, inv, rep, lat),
      )
  record_event-IsReady endpoint transport latency delivered r (ne, he, ht) plain
        (sub, sen, fai, lim, aut, spa, inv, rep, lat) =
      let (c, done, ready) =
        inc-IsShown (text "endpoint" ∷ text "transport" ∷ []) (endpoint ∷ transport ∷ []) r.sent sen
          refl (he, (ht, tt)) (λ e. cc) in
      let (h, seen, lat') = observe_fits latency endpoint transport r.send_latency lat in
      (
        record r { sent = c; send_latency = h },
        rw (record_sent, done, seen) refl,
        (sub, ready, fai, lim, aut, spa, inv, rep, lat'),
      )

  events-IsReady :
      (events : List ((Bytes × Bytes) × (floats.Float × Event))) (r : Recorder floats)
      → All (λ (e : (Bytes × Bytes) × (floats.Float × Event)). IsNamed e.0 × IsPlain e.1.1) events
      → IsReady r
      → (r' : Recorder floats) × (record_events events r ≡ some r') × IsReady r'
  unfolding record_events
  events-IsReady [] r good h = (r, refl, h)
  events-IsReady (((endpoint, transport), (latency, e)) ∷ events) r ((named, plain), good) h =
      let (r1, done, h1) = record_event-IsReady endpoint transport latency e r named plain h in
      let (r2, rest, h2) = events-IsReady events r1 good h1 in
      (r2, rw (record_events, done) rest, h2)

  new_metrics-IsReady :
      (latency_buckets : List floats.Float) (r : Recorder floats)
      → new_metrics floats latency_buckets ≡ some r
      → IsReady r
  unfolding new_metrics metrics_with
  new_metrics-IsReady latency_buckets r made =
      let name = text "posthorn_send_latency_seconds" in
      let help = text "Wall-clock latency of transport.Send, including any retries." in
      let labels = text "endpoint" ∷ text "transport" ∷ [] in
      elim (Option-cases (new_histogram floats name help latency_buckets labels)) [
        | inl e ↦
            let none' : new_metrics floats latency_buckets ≡ none = rw (new_metrics, e) refl in
            absurd cc
        | inr (h, e) ↦
            let (sorted, is_fresh) =
              new_histogram-fresh floats name help latency_buckets labels h e in
            let given : new_metrics floats latency_buckets ≡ some (metrics_with floats h) =
              rw (new_metrics, e) refl in
            let same : metrics_with floats h ≡ r = cc in
            let two = ap (λ (x : Histogram floats). length x.label_names) (sym is_fresh) in
            subst IsReady same (
              (refl, tt),
              (refl, tt),
              (refl, tt),
              (refl, tt),
              (refl, tt),
              (refl, tt),
              (refl, tt),
              (refl, tt),
              two,
            )
      ]

  abbrev pub counters : Recorder floats → List Counter
  counters r =
      r.submitted ∷ r.sent ∷ r.failed ∷ r.rate_limited ∷ r.auth_failed ∷ r.spam_blocked
      ∷ r.validation_failed ∷ r.idempotent_replay ∷ []

  IsShown-lines :
      (formats : Formats floats) (names : List Bytes) (c : Counter)
      → IsShown names c
      → (lines : List Bytes) × (counter_lines floats formats c ≡ some lines)
  IsShown-lines formats names c (same, keyed) =
      lines_total floats formats c (subst (λ ns. All (IsKey ns) (keys c.values)) (sym same) keyed)

  -- Whatever the handler records after NewRecorder, of endpoints with nonempty paths, whose paths
  -- and transports, like the kinds of spam and the classes of errors, have no byte 0, no call
  -- panics, and afterwards every counter can be shown without a panic.
  pub events_shown :
      (formats : Formats floats) (latency_buckets : List floats.Float) (r : Recorder floats)
      (events : List ((Bytes × Bytes) × (floats.Float × Event)))
      → new_metrics floats latency_buckets ≡ some r
      → All (λ (e : (Bytes × Bytes) × (floats.Float × Event)). IsNamed e.0 × IsPlain e.1.1) events
      → (r' : Recorder floats) × (record_events events r ≡ some r')
        × All
            (λ (c : Counter). (lines : List Bytes) × (counter_lines floats formats c ≡ some lines))
            (counters r')
  events_shown formats latency_buckets r events made good =
      let (r', done, (sub, sen, fai, lim, aut, spa, inv, rep, lat)) =
        events-IsReady events r good (new_metrics-IsReady latency_buckets r made) in
      (
        r',
        done,
        (
          IsShown-lines formats _ r'.submitted sub,
          (
            IsShown-lines formats _ r'.sent sen,
            (
              IsShown-lines formats _ r'.failed fai,
              (
                IsShown-lines formats _ r'.rate_limited lim,
                (
                  IsShown-lines formats _ r'.auth_failed aut,
                  (
                    IsShown-lines formats _ r'.spam_blocked spa,
                    (
                      IsShown-lines formats _ r'.validation_failed inv,
                      (IsShown-lines formats _ r'.idempotent_replay rep, tt),
                    ),
                  ),
                ),
              ),
            ),
          ),
        ),
      )
