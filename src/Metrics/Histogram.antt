-- ===== src/Metrics/Histogram.antt =====
-- core/metrics/metrics.go: histograms. The operations on float64 are parameters, and an int64 is
-- held as its low 64 bits.
pub mod Cumulative
use caddy_formward.Base.{
  ℕ, ◌+◌, ◌%◌, ◌^◌, ◌≤◌, ◌<◌, Bool, true, false, not, List, [], ◌∷◌, Option, none, some, ◌≡◌, ◌≢◌,
  refl, sym, ap, ◌∙◌, arith, if◌then◌else◌, ◌==◌, if_rule, Bool-cases, inl, inr, length, All, subst,
  All-map,
}
use caddy_formward.Text.{Bytes, bytes_eq}
use caddy_formward.Metrics.Labels.{encode_label_values}

-- float64: `a <= b` is false when one of the two is NaN, and otherwise a total order.
pub record Floats : Type 1 where
  pub Float : Type 0
  pub zero : Float
  pub add : Float → Float → Float
  pub leq : Float → Float → Bool
  pub leq-trans : (a b c : Float) → leq a b ≡ true → leq b c ≡ true → leq a c ≡ true
  pub leq-total : (a b : Float) → leq a a ≡ true → leq b b ≡ true → leq b a ≡ false → leq a b ≡ true

module _ (floats : Floats) where
  open floats use {Float, leq}

  -- `histogramSeries`
  pub record Series : Type 0 where
    pub bucket_counts : List ℕ
    pub sum : Float
    pub count : ℕ

  pub record Histogram : Type 0 where
    pub name : Bytes
    pub help : Bytes
    pub label_names : List Bytes
    pub buckets : List Float
    pub series : List (Bytes × Series)

  -- Each bucket, but the first, is refused if it is `<=` the one before it.
  unfoldable pub ascending : List Float → Bool
  ascending [] = true
  ascending (a ∷ []) = true
  ascending (a ∷ b ∷ buckets) = if leq b a then false else ascending (b ∷ buckets)

  -- `NewHistogram`: `none` is a panic.
  unfoldable pub new_histogram : (name help : Bytes) → List Float → List Bytes → Option Histogram
  unfolding ascending
  new_histogram name help buckets label_names =
      if not (ascending buckets)
      then none
      else some (record {
        name = name;
        help = help;
        label_names = label_names;
        buckets = buckets;
        series = [];
      })

  -- `make([]int64, len(h.buckets))`
  unfoldable pub no_counts : List Float → List ℕ
  no_counts [] = []
  no_counts (ub ∷ buckets) = 0 ∷ no_counts buckets

  abbrev pub new_series : List Float → Series
  new_series buckets = record { bucket_counts = no_counts buckets; sum = floats.zero; count = 0 }

  -- The loop over the buckets.
  unfoldable pub bump_buckets : Float → List Float → List ℕ → List ℕ
  bump_buckets value [] counts = counts
  bump_buckets value (ub ∷ buckets) [] = []
  bump_buckets value (ub ∷ buckets) (n ∷ counts) =
      (if leq value ub then (n + 1) % 2 ^ 64 else n) ∷ bump_buckets value buckets counts

  unfoldable pub observe_series : Float → List Float → Series → Series
  unfolding bump_buckets
  observe_series value buckets s = record {
    bucket_counts = bump_buckets value buckets s.bucket_counts;
    sum = floats.add s.sum value;
    count = (s.count + 1) % 2 ^ 64;
  }

  -- The series under the key, made if it is not there, with one more value.
  unfoldable pub observe_at :
      Bytes → Float → List Float → List (Bytes × Series) → List (Bytes × Series)
  unfolding observe_series no_counts
  observe_at key value buckets [] = (key, observe_series value buckets (new_series buckets)) ∷ []
  observe_at key value buckets ((k, s) ∷ series) =
      let rest = observe_at key value buckets series in
      if bytes_eq k key then (k, observe_series value buckets s) ∷ series else (k, s) ∷ rest

  -- `Observe`: `none` is a panic.
  unfoldable pub observe : Float → List Bytes → Histogram → Option Histogram
  unfolding observe_at
  observe value label_values h =
      if not (length label_values == length h.label_names)
      then none
      else some (record h {
        series = observe_at (encode_label_values label_values) value h.buckets h.series;
      })

  -- Several calls of Observe.
  unfoldable pub observe_all : List (Float × List Bytes) → Histogram → Option Histogram
  unfolding observe
  observe_all [] h = some h
  observe_all ((value, label_values) ∷ obs) h = elim (observe value label_values h) [
    | none ↦ none
    | some h' ↦ observe_all obs h'
  ]
