-- ===== src/Tests/Metrics.antt =====
-- Metrics with concrete names, label values and writes.
use caddy_formward.Base.{
  ℕ, ◌+◌, ◌%◌, ◌^◌, Bool, true, false, not, List, [], ◌∷◌, ◌++◌, some, ◌≡◌, refl, arith, leb, ltb,
  All, length, take,
}
use caddy_formward.Text.{Bytes, text}
use caddy_formward.Gateway.Serve.{Event, submitted, delivered, spam_blocked}
use caddy_formward.Metrics.Labels.{encode_label_values, render_labels}
use caddy_formward.Metrics.Labels.Scrape.{read_labels, pairs, scrape_labels}
use caddy_formward.Metrics.Counter.{Counter, new_counter, add_all, count_of, total, counter_refines}
use caddy_formward.Metrics.Histogram.{Floats, Histogram, new_histogram, observe_all}
use caddy_formward.Metrics.Histogram.Cumulative.{IsCumulative, observe-IsCumulative, fresh}
use mathlib.Core.List.{Perm}
use caddy_formward.Metrics.Sorting.{IsInOrder, bytes_less}
use caddy_formward.Metrics.Registry.{Collector, emit, by_name, Formats, counter_lines}
use caddy_formward.Tests.Sorting.{insertion, sort_by, insert}
use caddy_formward.Metrics.Registry.Scraped.{AreLines, emit_lem}
use caddy_formward.Metrics.Recorder.{Recorder, new_metrics, metrics_with}
use caddy_formward.Metrics.Recorder.Events.{record_events, counters, events_shown}

-- A value with each of the three escapes.
abbrev quoted : Bytes
quoted = b'"' ∷ b'a' ∷ 92 ∷ 10 ∷ []

scrape_labels_example :
    (out : Bytes) × (render_labels
        ((b'k' ∷ []) ∷ (b'l' ∷ []) ∷ [])
        (encode_label_values (quoted ∷ [] ∷ []))
      ≡ some out)
    × (read_labels 2 (out ++ (b' ' ∷ b'1' ∷ []))
        ≡ some (pairs ((b'k' ∷ []) ∷ (b'l' ∷ []) ∷ []) (quoted ∷ [] ∷ []), b' ' ∷ b'1' ∷ []))
scrape_labels_example =
    scrape_labels ((b'k' ∷ []) ∷ (b'l' ∷ []) ∷ []) (quoted ∷ [] ∷ []) (b' ' ∷ b'1' ∷ [])
      ((refl, tt), ((refl, tt), tt)) ((refl, (refl, (refl, (refl, tt)))), (tt, tt)) (λ e. cc) refl

abbrev path : List Bytes
path = (b'/' ∷ b'a' ∷ []) ∷ []

abbrev other_path : List Bytes
other_path = (b'/' ∷ b'b' ∷ []) ∷ []

counter_refines_example :
    (c' : Counter) × (add_all
        ((2, path) ∷ (1, other_path) ∷ (3, path) ∷ [])
        (new_counter (b'm' ∷ []) [] ((b'k' ∷ []) ∷ []))
      ≡ some c')
    × (count_of path c' ≡ total path ((2, path) ∷ (1, other_path) ∷ (3, path) ∷ []) % 2 ^ 64)
counter_refines_example =
    counter_refines (b'm' ∷ []) [] ((b'k' ∷ []) ∷ []) path
      ((2, path) ∷ (1, other_path) ∷ (3, path) ∷ []) (refl, ((refl, (refl, tt)), tt), (λ e. cc))
      (
        (refl, ((refl, (refl, tt)), tt), (λ e. cc)),
        (
          (refl, ((refl, (refl, tt)), tt), (λ e. cc)),
          ((refl, ((refl, (refl, tt)), tt), (λ e. cc)), tt),
        ),
      )

leb_trans : (a b c : ℕ) → leb a b ≡ true → leb b c ≡ true → leb a c ≡ true
leb_trans a b c h k = ground (arith, h, k)

leb-total : (a b : ℕ) → leb a a ≡ true → leb b b ≡ true → leb b a ≡ false → leb a b ≡ true
leb-total a b h k ne = ground (arith, ne)

-- Natural numbers in place of float64.
abbrev floats : Floats
floats = record {
  Float = ℕ;
  zero = 0;
  add = λ a b. a + b;
  leq = λ a b. leb a b;
  leq-trans = leb_trans;
  leq-total = leb-total;
}

made :
    new_histogram floats (b'h' ∷ []) [] (1 ∷ 5 ∷ []) ((b'k' ∷ []) ∷ [])
    ≡ some (fresh floats (b'h' ∷ []) [] (1 ∷ 5 ∷ []) ((b'k' ∷ []) ∷ []))
unfolding new_histogram
made = refl

observe-IsCumulative_example :
    (h' : Histogram floats) × (observe_all floats
        ((3, path) ∷ (9, path) ∷ [])
        (fresh floats (b'h' ∷ []) [] (1 ∷ 5 ∷ []) ((b'k' ∷ []) ∷ []))
      ≡ some h')
    × IsCumulative floats (1 ∷ 5 ∷ []) 2 h'.series
observe-IsCumulative_example =
    observe-IsCumulative floats (b'h' ∷ []) [] (1 ∷ 5 ∷ []) ((b'k' ∷ []) ∷ [])
      (fresh floats (b'h' ∷ []) [] (1 ∷ 5 ∷ []) ((b'k' ∷ []) ∷ [])) ((3, path) ∷ (9, path) ∷ [])
      made (refl, (refl, tt)) (omega arith) (refl, (refl, tt))

abbrev shown : Collector
shown = record { name = b'm' ∷ []; lines = some ((b'x' ∷ []) ∷ (b'y' ∷ []) ∷ (b'z' ∷ []) ∷ []) }

-- The third write fails.
abbrev broken : ℕ → Bool
broken n = leb 2 n

-- The collector of a later name, registered first.
abbrev last : Collector
last = record { name = b'n' ∷ []; lines = some ((b'w' ∷ []) ∷ []) }

emit_lem_example :
    let all : List Bytes = (b'x' ∷ []) ∷ (b'y' ∷ []) ∷ (b'z' ∷ []) ∷ (b'w' ∷ []) ∷ [] in
    (ordered : List Collector) × Perm ordered (last ∷ shown ∷ [])
    × IsInOrder (λ (a : Collector) (b : Collector). bytes_less a.name b.name) ordered
    × AreLines ordered all
    × (emit insertion broken (last ∷ shown ∷ [])
        ≡ some (record { lines = take 2 all; good = not (ltb 2 (length {A = Bytes} all)) }))
unfolding emit by_name bytes_less sort_by insert
emit_lem_example =
    emit_lem insertion broken (last ∷ shown ∷ [])
      ((b'x' ∷ []) ∷ (b'y' ∷ []) ∷ (b'z' ∷ []) ∷ (b'w' ∷ []) ∷ []) 2
      (
        (b'x' ∷ []) ∷ (b'y' ∷ []) ∷ (b'z' ∷ []) ∷ [],
        (b'w' ∷ []) ∷ [],
        refl,
        ((b'w' ∷ []) ∷ [], [], refl, refl, refl),
        refl,
      )
      (omega arith) (λ i less. ground (arith, less)) (λ less. refl)

abbrev formats : Formats floats
formats = record {
  show_int = λ n. b'1' ∷ [];
  show_float = λ x. b'1' ∷ [];
  format_float = λ x. b'1' ∷ [];
  sort_strings = λ xs. xs;
  sort_strings-All = λ P xs h. h;
}

abbrev metrics : Recorder floats
metrics = metrics_with floats (
    fresh floats (text "posthorn_send_latency_seconds")
      (text "Wall-clock latency of transport.Send, including any retries.") (1 ∷ 5 ∷ [])
      (text "endpoint" ∷ text "transport" ∷ []))

new_made : new_metrics floats (1 ∷ 5 ∷ []) ≡ some metrics
unfolding new_metrics
new_made = refl

abbrev events : List ((Bytes × Bytes) × (ℕ × Event))
events =
    ((b'/' ∷ b'a' ∷ [], b's' ∷ []), (0, submitted))
    ∷ ((b'/' ∷ b'a' ∷ [], b's' ∷ []), (3, delivered))
    ∷ ((b'/' ∷ b'a' ∷ [], b's' ∷ []), (0, spam_blocked (b'o' ∷ [])))
    ∷ []

events_shown_example :
    (r' : Recorder floats) × (record_events floats events metrics ≡ some r')
    × All
        (λ (c : Counter). (lines : List Bytes) × (counter_lines floats formats c ≡ some lines))
        (counters floats r')
events_shown_example = events_shown floats formats (1 ∷ 5 ∷ []) metrics events new_made (
  (((λ e. cc), (refl, (refl, tt)), (refl, tt)), tt),
  (
    (((λ e. cc), (refl, (refl, tt)), (refl, tt)), tt),
    ((((λ e. cc), (refl, (refl, tt)), (refl, tt)), (refl, tt)), tt),
  ),
)
