-- ===== src/Metrics/Histogram/Cumulative.antt =====
-- core/metrics/metrics.go: the counts of a histogram's buckets are cumulative.
use caddy_formward.Base.{
  ℕ, ◌+◌, ◌%◌, ◌^◌, ◌≤◌, ◌<◌, true, false, List, [], ◌∷◌, some, ◌≡◌, refl, arith, if◌then◌else◌,
  ◌==◌, if_rule, Bool-cases, inl, inr, length, All, subst, All-map,
}
use caddy_formward.Text.{Bytes, bytes_eq}
use caddy_formward.Metrics.Labels.{encode_label_values}
use caddy_formward.Metrics.Histogram.{
  Floats, Series, Histogram, ascending, new_histogram, no_counts, new_series, bump_buckets,
  observe_series, observe_at, observe, observe_all,
}

module _ (floats : Floats) where
  open floats use {Float, leq}

  -- The counts of the buckets do not fall, from `lo` on, and stay within the count of all values.
  abbrev pub Rising : (lo : ℕ) → List Float → List ℕ → (count : ℕ) → Type 0
  Rising lo [] [] count = lo ≤ count
  Rising lo [] (n ∷ counts) count = ⊥
  Rising lo (ub ∷ buckets) [] count = ⊥
  Rising lo (ub ∷ buckets) (n ∷ counts) count = (lo ≤ n) × Rising n buckets counts count

  -- A series whose counts are cumulative, of at most `bound` values.
  abbrev pub IsCumulativeSeries : List Float → (bound : ℕ) → Series floats → Type 0
  IsCumulativeSeries buckets bound s = Rising 0 buckets s.bucket_counts s.count × (s.count ≤ bound)

  -- No bucket is NaN.
  abbrev pub AreNumbers : List Float → Type 0
  AreNumbers = All (λ ub. leq ub ub ≡ true)

  -- Every series is so.
  abbrev pub IsCumulative : List Float → (bound : ℕ) → List (Bytes × Series floats) → Type 0
  IsCumulative buckets bound =
      All (λ (t : Bytes × Series floats). IsCumulativeSeries buckets bound t.1)

  -- A value below a bucket is below the next one.
  below_next :
      (value a b : Float)
      → leq a a ≡ true
      → leq b b ≡ true
      → leq b a ≡ false
      → leq value a ≡ true
      → leq value b ≡ true
  below_next value a b ha hb apart below =
      floats.leq-trans value a b below (floats.leq-total a b ha hb apart)

  Rising-bound :
      (lo : ℕ) (buckets : List Float) (counts : List ℕ) (count : ℕ)
      → Rising lo buckets counts count
      → lo ≤ count
  Rising-bound lo [] [] count h = h
  Rising-bound lo [] (n ∷ counts) count h = absurd h
  Rising-bound lo (ub ∷ buckets) [] count h = absurd h
  Rising-bound lo (ub ∷ buckets) (n ∷ counts) count h =
      omega (arith, h.0, Rising-bound n buckets counts count h.1)

  -- Once the value is below a bucket, every further count goes up.
  Rising-below :
      (value a : Float) (lo : ℕ) (buckets : List Float) (counts : List ℕ) (count : ℕ)
      → AreNumbers (a ∷ buckets)
      → ascending floats (a ∷ buckets) ≡ true
      → leq value a ≡ true
      → count + 1 < 2 ^ 64
      → Rising lo buckets counts count
      → Rising (lo + 1) buckets (bump_buckets floats value buckets counts) (count + 1)
  unfolding ascending bump_buckets
  Rising-below value a lo [] [] count numbers sorted below fits h = omega (arith, h)
  Rising-below value a lo [] (n ∷ counts) count numbers sorted below fits h = absurd h
  Rising-below value a lo (b ∷ buckets) [] count numbers sorted below fits h = absurd h
  Rising-below value a lo (b ∷ buckets) (n ∷ counts) count (ha, (hb, hs)) sorted below fits
        (low, h) =
      let apart : leq b a ≡ false = ground (arith, sorted) in
      let sorted' : ascending floats (b ∷ buckets) ≡ true = ground (arith, sorted, apart) in
      let below' = below_next value a b ha hb apart below in
      let bound = Rising-bound n buckets counts count h in
      let up : n + 1 ≡ (if leq value b then (n + 1) % 2 ^ 64 else n) =
        rw below' omega (arith, bound, fits) in
      let rest = Rising-below value b n buckets counts count (hb, hs) sorted' below' fits h in
      subst
        (λ m.
          (lo + 1 ≤ m) × Rising m buckets (bump_buckets floats value buckets counts) (count + 1))
        up (omega (arith, low), rest)

  ascending-tail :
      (a : Float) (buckets : List Float)
      → ascending floats (a ∷ buckets) ≡ true
      → ascending floats buckets ≡ true
  unfolding ascending
  ascending-tail a [] h = refl
  ascending-tail a (b ∷ buckets) h = ground (arith, h)

  -- One observation keeps the counts cumulative.
  Rising-bump :
      (value : Float) (lo : ℕ) (buckets : List Float) (counts : List ℕ) (count : ℕ)
      → AreNumbers buckets
      → ascending floats buckets ≡ true
      → count + 1 < 2 ^ 64
      → Rising lo buckets counts count
      → Rising lo buckets (bump_buckets floats value buckets counts) (count + 1)
  unfolding bump_buckets
  Rising-bump value lo [] [] count numbers sorted fits h = omega (arith, h)
  Rising-bump value lo [] (n ∷ counts) count numbers sorted fits h = absurd h
  Rising-bump value lo (b ∷ buckets) [] count numbers sorted fits h = absurd h
  Rising-bump value lo (b ∷ buckets) (n ∷ counts) count numbers sorted fits (low, h) =
      let bound = Rising-bound n buckets counts count h in
      let Next = λ (m : ℕ).
        (lo ≤ m) × Rising m buckets (bump_buckets floats value buckets counts) (count + 1) in
      if_rule Next (leq value b)
        (λ below.
          let up : n + 1 ≡ (n + 1) % 2 ^ 64 = omega (arith, bound, fits) in
          subst Next up (
            omega (arith, low),
            Rising-below value b n buckets counts count numbers sorted below fits h,
          ))
        (λ above. (
          low,
          Rising-bump value n buckets counts count numbers.1 (ascending-tail b buckets sorted) fits
              h,
        ))

  Rising-no_counts : (buckets : List Float) → Rising 0 buckets (no_counts floats buckets) 0
  unfolding no_counts
  Rising-no_counts [] = omega arith
  Rising-no_counts (b ∷ buckets) = (omega arith, Rising-no_counts buckets)

  observe_series-IsCumulativeSeries :
      (value : Float) (buckets : List Float) (bound : ℕ) (s : Series floats)
      → AreNumbers buckets
      → ascending floats buckets ≡ true
      → bound + 1 < 2 ^ 64
      → IsCumulativeSeries buckets bound s
      → IsCumulativeSeries buckets (bound + 1) (observe_series floats value buckets s)
  unfolding observe_series
  observe_series-IsCumulativeSeries value buckets bound s numbers sorted fits (h, most) =
      let up : s.count + 1 ≡ (s.count + 1) % 2 ^ 64 = omega (arith, most, fits) in
      let rest =
        Rising-bump value 0 buckets s.bucket_counts s.count numbers sorted
          (omega (arith, most, fits)) h in
      (
        subst (λ n. Rising 0 buckets (bump_buckets floats value buckets s.bucket_counts) n) up rest,
        omega (arith, most, up),
      )

  observe_at-IsCumulative :
      (key : Bytes) (value : Float) (buckets : List Float) (bound : ℕ)
      (series : List (Bytes × Series floats))
      → AreNumbers buckets
      → ascending floats buckets ≡ true
      → bound + 1 < 2 ^ 64
      → IsCumulative buckets bound series
      → IsCumulative buckets (bound + 1) (observe_at floats key value buckets series)
  unfolding observe_at
  observe_at-IsCumulative key value buckets bound [] numbers sorted fits h =
      let fresh =
        observe_series-IsCumulativeSeries value buckets bound (new_series floats buckets) numbers
          sorted fits (Rising-no_counts buckets, omega arith) in
      (fresh, tt)
  observe_at-IsCumulative key value buckets bound ((k, s) ∷ series) numbers sorted fits (h, hs) =
      let more = observe_series-IsCumulativeSeries value buckets bound s numbers sorted fits h in
      let rest = observe_at-IsCumulative key value buckets bound series numbers sorted fits hs in
      let grown : (t : Bytes × Series floats)
          → IsCumulativeSeries buckets bound t.1
          → IsCumulativeSeries buckets (bound + 1) t.1 =
        λ t ht. (ht.0, omega (arith, ht.1)) in
      if_rule (IsCumulative buckets (bound + 1)) (bytes_eq k key)
        (λ e. (
          more,
          All-map (λ (t : Bytes × Series floats). IsCumulativeSeries buckets bound t.1)
              (λ (t : Bytes × Series floats). IsCumulativeSeries buckets (bound + 1) t.1) series
              grown hs,
        ))
        (λ e. (grown (k, s) h, rest))

  -- The calls from a histogram, in whose series at most `bound` values were observed.
  observe_all-IsCumulative :
      (obs : List (Float × List Bytes)) (h : Histogram floats) (bound : ℕ)
      → AreNumbers h.buckets
      → ascending floats h.buckets ≡ true
      → bound + length obs < 2 ^ 64
      → All (λ ((value, vs) : Float × List Bytes). length vs ≡ length h.label_names) obs
      → IsCumulative h.buckets bound h.series
      → (h' : Histogram floats) × (observe_all floats obs h ≡ some h')
        × (h'.buckets ≡ h.buckets)
        × IsCumulative h.buckets (bound + length obs) h'.series
  unfolding observe_all observe
  observe_all-IsCumulative [] h bound numbers sorted fits fit good =
      (h, refl, refl, subst (λ n. IsCumulative h.buckets n h.series) (omega arith) good)
  observe_all-IsCumulative ((value, vs) ∷ obs) h bound numbers sorted fits (len, fit) good =
      let h1 = record h {
        series = observe_at floats (encode_label_values vs) value h.buckets h.series;
      } in
      let same : (length vs == length h.label_names) ≡ true = ground (arith, len) in
      let observed : observe floats value vs h ≡ some h1 = rw (observe, same) refl in
      let good1 =
        observe_at-IsCumulative (encode_label_values vs) value h.buckets bound h.series numbers
          sorted (omega (arith, fits)) good in
      let (h2, rest, buckets, good2) =
        observe_all-IsCumulative obs h1 (bound + 1) numbers sorted (omega (arith, fits)) fit
          good1 in
      (
        h2,
        rw (observe_all, observed) rest,
        buckets,
        subst (λ n. IsCumulative h.buckets n h2.series) (omega arith) good2,
      )

  -- What NewHistogram gives.
  abbrev pub fresh : (name help : Bytes) → List Float → List Bytes → Histogram floats
  fresh name help buckets label_names = record {
    name = name;
    help = help;
    label_names = label_names;
    buckets = buckets;
    series = [];
  }

  pub new_histogram-fresh :
      (name help : Bytes) (buckets : List Float) (label_names : List Bytes) (h : Histogram floats)
      → new_histogram floats name help buckets label_names ≡ some h
      → (ascending floats buckets ≡ true) × (fresh name help buckets label_names ≡ h)
  unfolding new_histogram
  new_histogram-fresh name help buckets label_names h made =
      elim (Bool-cases (ascending floats buckets)) [
        | inl e ↦
            let given : new_histogram floats name help buckets label_names
                ≡ some (fresh name help buckets label_names) =
              rw (new_histogram, e) refl in
            (e, cc)
        | inr e ↦ absurd (ground (arith, e, made))
      ]

  -- A histogram that NewHistogram gives, with no NaN among its buckets, after fewer than 2^64 calls
  -- of Observe with label values that fit its label names, none of which panics: in every series
  -- the counts of the buckets do not fall from one bucket to the next and do not exceed the count
  -- of all values, the bucket +Inf, which is at most the number of calls.
  pub observe-IsCumulative :
      (name help : Bytes) (buckets : List Float) (label_names : List Bytes) (h : Histogram floats)
      (obs : List (Float × List Bytes))
      → new_histogram floats name help buckets label_names ≡ some h
      → AreNumbers buckets
      → length obs < 2 ^ 64
      → All (λ ((value, vs) : Float × List Bytes). length vs ≡ length label_names) obs
      → (h' : Histogram floats) × (observe_all floats obs h ≡ some h')
        × IsCumulative buckets (length obs) h'.series
  observe-IsCumulative name help buckets label_names h obs made numbers fits fit =
      let (sorted, is_fresh) = new_histogram-fresh name help buckets label_names h made in
      let (h', observed, same, good) =
        observe_all-IsCumulative obs (fresh name help buckets label_names) 0 numbers sorted
          (omega (arith, fits)) fit tt in
      (
        h',
        subst (λ x. observe_all floats obs x ≡ some h') is_fresh observed,
        subst (λ n. IsCumulative buckets n h'.series) (omega arith) good,
      )
