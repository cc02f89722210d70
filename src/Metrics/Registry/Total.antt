-- ===== src/Metrics/Registry/Total.antt =====
-- core/metrics/metrics.go: a counter that is used with series it can show is shown without a panic.
use caddy_formward.Base.{
  ℕ, ◌++◌, ◌==◌, true, List, [], ◌∷◌, some, ◌≡◌, ◌≢◌, refl, sym, ap, subst, ◌∙◌, arith, if_rule,
  length, All,
}
use caddy_formward.Base.Int.{pos, wrap64}
use caddy_formward.Text.{Bytes, text, bytes_eq}
use caddy_formward.Text.Search.{Without}
use caddy_formward.Metrics.Labels.{
  encode_label_values, decode_label_values, render_labels, render_labels_with_values, render_more,
  render_label,
}
use caddy_formward.Metrics.Labels.Scrape.{decode-encode}
use caddy_formward.Metrics.Counter.{Counter, value_at, new_counter, bump, add, add_all, IsSeries}
use caddy_formward.Metrics.Histogram.{Floats}
use caddy_formward.Metrics.Registry.{
  Formats, sample, head_lines, keys, counter_samples, counter_lines,
}

-- A key that stands for label values under the label names.
abbrev pub IsKey : List Bytes → Bytes → Type 0
IsKey names key =
    (vs : List Bytes) × (key ≡ encode_label_values vs)
    × (length vs ≡ length names)
    × All (Without 0) vs
    × (vs ≢ [] ∷ [])

IsKey-bump :
    (names : List Bytes) (key : Bytes) (delta : ℕ) (values : List (Bytes × ℕ))
    → IsKey names key
    → All (IsKey names) (keys values)
    → All (IsKey names) (keys (bump key delta values))
unfolding bump
IsKey-bump names key delta [] hk h = (hk, tt)
IsKey-bump names key delta ((k, n) ∷ values) hk (h, hs) =
    let rest = IsKey-bump names key delta values hk hs in
    if_rule (λ (vs : List (Bytes × ℕ)). All (IsKey names) (keys vs)) (bytes_eq k key) (λ e. (h, hs))
      (λ e. (h, rest))

render_more_total :
    (names values : List Bytes)
    → length values ≡ length names
    → (out : Bytes) × (render_more names values ≡ some out)
unfolding render_more
render_more_total [] values e = ([], refl)
render_more_total (name ∷ names) [] e = absurd (omega (arith, e))
render_more_total (name ∷ names) (value ∷ values) e =
    let (rest, rendered) = render_more_total names values (omega (arith, e)) in
    (44 ∷ render_label name value ++ rest, rw rendered refl)

render_total :
    (names values : List Bytes)
    → length values ≡ length names
    → (out : Bytes) × (render_labels_with_values names values ≡ some out)
unfolding render_labels_with_values
render_total [] values e = ([], refl)
render_total (name ∷ names) [] e = absurd (omega (arith, e))
render_total (name ∷ names) (value ∷ values) e =
    let (rest, rendered) = render_more_total names values (omega (arith, e)) in
    (
      123 ∷ render_label name value ++ (rest ++ (125 ∷ [])),
      rw (render_labels_with_values, rendered) refl,
    )

render_labels_total :
    (names : List Bytes) (key : Bytes)
    → IsKey names key
    → (out : Bytes) × (render_labels names key ≡ some out)
unfolding render_labels
render_labels_total [] key k = ([], refl)
render_labels_total (name ∷ names) key (vs, e, len, plain, ne) =
    let (out, rendered) = render_total (name ∷ names) vs len in
    let decoded = ap decode_label_values e ∙ decode-encode vs plain ne in
    (out, ap (render_labels_with_values (name ∷ names)) decoded ∙ rendered)

pub add-IsKey :
    (delta : ℕ) (ws : List Bytes) (c : Counter)
    → IsSeries c ws
    → All (IsKey c.label_names) (keys c.values)
    → (c' : Counter) × (add (pos delta) ws c ≡ some c')
      × (c'.label_names ≡ c.label_names)
      × All (IsKey c.label_names) (keys c'.values)
unfolding add
add-IsKey delta ws c (len, plain, ne) h =
    let key = encode_label_values ws in
    let c1 = record c { values = bump key delta c.values } in
    let fits : (length ws == length c.label_names) ≡ true = ground (arith, len) in
    (
      c1,
      rw (add, fits) refl,
      refl,
      IsKey-bump c.label_names key delta c.values (ws, refl, len, plain, ne) h,
    )

add_all-IsKey :
    (adds : List (ℕ × List Bytes)) (c c' : Counter)
    → All (λ ((delta, ws) : ℕ × List Bytes). IsSeries c ws) adds
    → All (IsKey c.label_names) (keys c.values)
    → add_all adds c ≡ some c'
    → (c'.label_names ≡ c.label_names) × All (IsKey c.label_names) (keys c'.values)
unfolding add_all add
add_all-IsKey [] c c' hs h e =
    let same : c ≡ c' = cc in
    (
      ap (λ (x : Counter). x.label_names) (sym same),
      subst (λ (x : Counter). All (IsKey c.label_names) (keys x.values)) same h,
    )
add_all-IsKey ((delta, ws) ∷ adds) c c' (hw, hs) h e =
    let (c1, added, names, h1) = add-IsKey delta ws c hw h in
    let next : add_all ((delta, ws) ∷ adds) c ≡ add_all adds c1 = rw (add_all, added) refl in
    let hs1 =
      subst
        (λ ns.
          All
            (λ ((delta, ws) : ℕ × List Bytes).
              (length ws ≡ length ns) × All (Without 0) ws × (ws ≢ [] ∷ []))
            adds)
        (sym names) hs in
    let h1' = subst (λ ns. All (IsKey ns) (keys c1.values)) (sym names) h1 in
    let (names2, h2) = add_all-IsKey adds c1 c' hs1 h1' (sym next ∙ e) in
    (names2 ∙ names, subst (λ ns. All (IsKey ns) (keys c'.values)) names h2)

module _ (floats : Floats) (formats : Formats floats) where
  samples_total :
      (c : Counter) (ks : List Bytes)
      → All (IsKey c.label_names) ks
      → (samples : List Bytes) × (counter_samples floats formats c ks ≡ some samples)
  unfolding counter_samples
  samples_total c [] h = ([], refl)
  samples_total c (key ∷ ks) (h, hs) =
      let (labels, rendered) = render_labels_total c.label_names key h in
      let (rest, shown) = samples_total c ks hs in
      (
        sample c.name labels (formats.show_int (wrap64 (value_at key c.values))) ∷ rest,
        rw (counter_samples, rendered, shown) refl,
      )

  pub lines_total :
      (c : Counter)
      → All (IsKey c.label_names) (keys c.values)
      → (lines : List Bytes) × (counter_lines floats formats c ≡ some lines)
  unfolding counter_lines
  lines_total c keyed =
      let (samples, shown) =
        samples_total c (formats.sort_strings (keys c.values))
          (formats.sort_strings-All (IsKey c.label_names) (keys c.values) keyed) in
      (head_lines c.name c.help (text "counter") ++ samples, rw (counter_lines, shown) refl)

  -- A counter on which Add was called with label values that fit its label names, none of which
  -- has the byte 0 and which are not one empty value, is shown by Emit without a panic.
  counter_lines_total :
      (name help : Bytes) (label_names : List Bytes) (adds : List (ℕ × List Bytes)) (c : Counter)
      → All (λ ((delta, ws) : ℕ × List Bytes). IsSeries (new_counter name help label_names) ws) adds
      → add_all adds (new_counter name help label_names) ≡ some c
      → (lines : List Bytes) × (counter_lines floats formats c ≡ some lines)
  counter_lines_total name help label_names adds c hs made =
      let (names, keyed) = add_all-IsKey adds (new_counter name help label_names) c hs tt made in
      lines_total c (subst (λ ns. All (IsKey ns) (keys c.values)) (sym names) keyed)
