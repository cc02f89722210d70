-- ===== src/Metrics/Registry.antt =====
-- core/metrics/metrics.go: the registry, and what a scrape writes. The client's connection takes a
-- line or fails: `fails n` is for the line after `n` lines. Package sort and the formatting of
-- numbers are parameters.
pub mod Scraped
pub mod Names
pub mod Total
use caddy_formward.Base.{
  ℕ, ◌+◌, Bool, true, false, not, List, [], ◌∷◌, ◌++◌, Option, none, some, if◌then◌else◌, length,
  All,
}
use caddy_formward.Base.Int.{ℤ, wrap64}
use caddy_formward.Text.{Bytes, text, bytes_eq}
use caddy_formward.Metrics.Labels.{
  escape_help, decode_label_values, render_labels, render_labels_with_extra,
}
use caddy_formward.Metrics.Sorting.{Sorting, bytes_less}
use caddy_formward.Metrics.Counter.{Counter, value_at}
use caddy_formward.Metrics.Histogram.{Floats, Series, Histogram}

-- `collector`: its name, and the lines that its Emit writes; `none` where Emit panics.
pub record Collector : Type 0 where
  pub name : Bytes
  pub lines : Option (List Bytes)

abbrev pub Registry : Type 0
Registry = List Collector

-- The loop of Register.
unfoldable pub is_registered : Bytes → Registry → Bool
is_registered name [] = false
is_registered name (c ∷ metrics) = if bytes_eq c.name name then true else is_registered name metrics

-- `Register`: `none` is a panic.
unfoldable pub register : Collector → Registry → Option Registry
unfolding is_registered
register c metrics = if is_registered c.name metrics then none else some (metrics ++ (c ∷ []))

-- The lines that were written, and whether the last write went well.
pub record Written : Type 0 where
  pub lines : List Bytes
  pub good : Bool

-- A write of one line.
unfoldable pub write_line : (ℕ → Bool) → Bytes → List Bytes → Written
write_line fails line written =
    if fails (length written)
    then record { lines = written; good = false }
    else record { lines = written ++ (line ∷ []); good = true }

-- The writes of an Emit, up to the first error.
unfoldable pub write_lines : (ℕ → Bool) → List Bytes → List Bytes → Written
unfolding write_line
write_lines fails [] written = record { lines = written; good = true }
write_lines fails (line ∷ lines) written =
    let w = write_line fails line written in
    let rest = write_lines fails lines w.lines in if not w.good then w else rest

-- The loop of Registry.Emit: `none` where a collector panics.
unfoldable pub emit_all : (ℕ → Bool) → List Collector → List Bytes → Option Written
unfolding write_lines
emit_all fails [] written = some (record { lines = written; good = true })
emit_all fails (c ∷ metrics) written = elim c.lines [
  | none ↦ none
  | some lines ↦
      let w = write_lines fails lines written in
      let rest = emit_all fails metrics w.lines in if not w.good then some w else rest
]

-- The comparator of Emit, by name.
unfoldable pub by_name : Collector → Collector → Bool
by_name a b = bytes_less a.name b.name

-- `Registry.Emit`
unfoldable pub emit : Sorting Collector → (ℕ → Bool) → Registry → Option Written
unfolding emit_all
emit sorting fails metrics = emit_all fails (sorting.slice_stable by_name metrics) []

-- `%d`, `%g`, `strconv.FormatFloat` and `sort.Strings`.
pub record Formats (floats : Floats) : Type 1 where
  pub show_int : ℤ → Bytes
  pub show_float : floats.Float → Bytes
  pub format_float : floats.Float → Bytes
  pub sort_strings : List Bytes → List Bytes
  -- Sorting brings nothing new in.
  pub sort_strings-All : (P : Bytes → Type 0) (xs : List Bytes) → All P xs → All P (sort_strings xs)

-- A name with its labels, a space, the value and the end of the line.
unfoldable pub sample : (name labels value : Bytes) → Bytes
sample name labels value = name ++ (labels ++ (32 ∷ value ++ (10 ∷ [])))

-- The two lines before the samples.
unfoldable pub head_lines : (name help kind : Bytes) → List Bytes
unfolding text escape_help
head_lines name help kind =
    (text "# HELP " ++ (name ++ (32 ∷ escape_help help ++ (10 ∷ []))))
    ∷ (text "# TYPE " ++ (name ++ (32 ∷ kind ++ (10 ∷ []))))
    ∷ []

abbrev pub keys : {V : Type 0} → List (Bytes × V) → List Bytes
keys [] = []
keys ((k, v) ∷ entries) = k ∷ keys entries

module _ (floats : Floats) (formats : Formats floats) where
  open formats use {show_int, show_float, format_float, sort_strings}

  -- The samples of a counter, in the order of its keys.
  unfoldable pub counter_samples : Counter → List Bytes → Option (List Bytes)
  unfolding sample value_at render_labels wrap64
  counter_samples c [] = some []
  counter_samples c (key ∷ ks) = elim (render_labels c.label_names key) [
    | none ↦ none
    | some labels ↦ elim (counter_samples c ks) [
      | none ↦ none
      | some rest ↦ some (sample c.name labels (show_int (wrap64 (value_at key c.values))) ∷ rest)
    ]
  ]

  -- `Counter.Emit`
  unfoldable pub counter_lines : Counter → Option (List Bytes)
  unfolding counter_samples head_lines text
  counter_lines c = elim (counter_samples c (sort_strings (keys c.values))) [
    | none ↦ none
    | some samples ↦ some (head_lines c.name c.help (text "counter") ++ samples)
  ]

  -- The samples of the buckets of a series, with the count of each.
  unfoldable pub bucket_samples :
      Histogram floats
      → (label_values : List Bytes) → List floats.Float
      → List ℕ
      → Option (List Bytes)
  unfolding text sample render_labels_with_extra wrap64
  bucket_samples h label_values [] counts = some []
  bucket_samples h label_values (ub ∷ buckets) [] = none
  bucket_samples h label_values (ub ∷ buckets) (n ∷ counts) =
      elim (render_labels_with_extra h.label_names label_values (text "le") (format_float ub)) [
        | none ↦ none
        | some labels ↦ elim (bucket_samples h label_values buckets counts) [
          | none ↦ none
          | some rest ↦ some (sample (h.name ++ text "_bucket") labels (show_int (wrap64 n)) ∷ rest)
        ]
      ]

  -- The samples of one series: its buckets, the bucket +Inf, the sum and the count.
  unfoldable pub series_samples :
      Histogram floats → (key : Bytes) → Series floats → Option (List Bytes)
  unfolding text sample render_labels_with_extra render_labels bucket_samples decode_label_values
      wrap64
  series_samples h key s =
      let label_values = decode_label_values key in
      let count = show_int (wrap64 s.count) in
      elim (bucket_samples h label_values h.buckets s.bucket_counts) [
        | none ↦ none
        | some buckets ↦
            elim (render_labels_with_extra h.label_names label_values (text "le") (text "+Inf")) [
              | none ↦ none
              | some every ↦ elim (render_labels h.label_names key) [
                | none ↦ none
                | some base ↦ some (
                    buckets
                    ++ (sample (h.name ++ text "_bucket") every count
                        ∷ sample (h.name ++ text "_sum") base (show_float s.sum)
                        ∷ sample (h.name ++ text "_count") base count
                        ∷ []))
              ]
            ]
      ]

  -- The entry of a key of the map.
  unfoldable pub series_at : Bytes → List (Bytes × Series floats) → Option (Series floats)
  series_at key [] = none
  series_at key ((k, s) ∷ series) = if bytes_eq k key then some s else series_at key series

  -- The samples of the keys that the map has.
  unfoldable pub all_samples : Histogram floats → (ks : List Bytes) → Option (List Bytes)
  unfolding series_at series_samples
  all_samples h [] = some []
  all_samples h (key ∷ ks) = elim (series_at key h.series) [
    | none ↦ none
    | some s ↦ elim (series_samples h key s) [
      | none ↦ none
      | some samples ↦ elim (all_samples h ks) [ none ↦ none | some rest ↦ some (samples ++ rest) ]
    ]
  ]

  -- `Histogram.Emit`
  unfoldable pub histogram_lines : Histogram floats → Option (List Bytes)
  unfolding all_samples head_lines text
  histogram_lines h = elim (all_samples h (sort_strings (keys h.series))) [
    | none ↦ none
    | some samples ↦ some (head_lines h.name h.help (text "histogram") ++ samples)
  ]
