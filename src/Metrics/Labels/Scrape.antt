-- ===== src/Metrics/Labels/Scrape.antt =====
-- core/metrics/metrics.go: what a reader of the text exposition format finds in rendered labels.
use caddy_formward.Base.{
  ℕ, zero, suc, ◌≢◌, Bool, true, false, not, List, [], ◌∷◌, ◌++◌, Option, none, some, ◌≡◌, refl,
  sym, ap, ◌∙◌, arith, if◌then◌else◌, ◌==◌, if_rule, length, All,
}
use caddy_formward.Text.{Bytes, cut, join, is_empty, contains_any}
use caddy_formward.Text.Search.{Without, cut-append}
use caddy_formward.Metrics.Labels.{
  special_label, escape_label_byte, escape_label_bytes, escape_label_value, render_label,
  render_more, render_labels_with_values, render_labels, decode_label_values, encode_label_values,
}
use mathlib.Core.List.{append_assoc}
use caddy_formward.Text.Split.{split-join}

-- A byte in front of what was read.
unfoldable prepend : ℕ → Option (Bytes × Bytes) → Option (Bytes × Bytes)
prepend c none = none
prepend c (some (v, t)) = some (c ∷ v, t)

-- A label value up to its closing quote, and the rest of the line; with the state whether the byte
-- before was a backslash. An escape that the format does not have, and a raw newline, are refused.
unfoldable read_value : Bool → Bytes → Option (Bytes × Bytes)
unfolding prepend
read_value escaped [] = none
read_value true (d ∷ s) =
    let rest = read_value false s in
    if d == 34
    then prepend 34 rest
    else if d == 92
    then prepend 92 rest
    else if d == 110
    then prepend 10 rest
    else none
read_value false (c ∷ s) =
    let rest = read_value false s in
    let escape = read_value true s in
    if c == 34
    then some ([], s)
    else if c == 10
    then none
    else if c == 92
    then escape
    else prepend c rest

plain_escape : (v : Bytes) → contains_any v special_label ≡ false → escape_label_bytes v ≡ v
unfolding contains_any escape_label_bytes escape_label_byte
plain_escape [] h = refl
plain_escape (c ∷ v) h = let rest = plain_escape v (ground (arith, h)) in ground (arith, h, rest)

-- The shortcut of escapeLabelValue changes nothing.
escape-bytes : (v : Bytes) → escape_label_value v ≡ escape_label_bytes v
unfolding escape_label_value
escape-bytes v =
    if_rule (λ (e : Bytes). e ≡ escape_label_bytes v) (not (contains_any v special_label))
      (λ plain. sym (plain_escape v (ground (arith, plain)))) (λ special. refl)

read_byte :
    (c : ℕ) (t : Bytes)
    → read_value false (escape_label_byte c ++ t) ≡ prepend c (read_value false t)
unfolding read_value escape_label_byte
read_byte c t =
    let Reads = λ (e : Bytes). read_value false (e ++ t) ≡ prepend c (read_value false t) in
    if_rule Reads (c == 34) (λ e. let e' : c ≡ 34 = ground (arith, e) in rw e' refl)
      (λ ne.
        if_rule Reads (c == 92) (λ e. let e' : c ≡ 92 = ground (arith, e) in rw e' refl)
          (λ ne'.
            if_rule Reads (c == 10) (λ e. let e' : c ≡ 10 = ground (arith, e) in rw e' refl)
              (λ ne''. rw (ne, ne', ne'') refl)))

read_bytes : (v t : Bytes) → read_value false (escape_label_bytes v ++ (34 ∷ t)) ≡ some (v, t)
unfolding escape_label_bytes read_value prepend
read_bytes [] t = refl
read_bytes (c ∷ v) t =
    let rest = append_assoc (escape_label_byte c) (escape_label_bytes v) (34 ∷ t) in
    ap (read_value false) rest
    ∙ read_byte c (escape_label_bytes v ++ (34 ∷ t))
    ∙ ap (prepend c) (read_bytes v t)

-- A reader gets back the value that was escaped.
read-escape : (v t : Bytes) → read_value false (escape_label_value v ++ (34 ∷ t)) ≡ some (v, t)
read-escape v t = ap (λ e. read_value false (e ++ (34 ∷ t))) (escape-bytes v) ∙ read_bytes v t

-- `name="value"`: the name, the value and what follows.
unfoldable read_label : Bytes → Option ((Bytes × Bytes) × Bytes)
unfolding read_value
read_label s = elim (cut 61 s) [
  | none ↦ none
  | some (name, []) ↦ none
  | some (name, q ∷ t) ↦
      if q == 34
      then elim (read_value false t) [ none ↦ none | some (value, u) ↦ some ((name, value), u) ]
      else none
]

-- As many further labels, each after a comma, and the closing brace.
unfoldable read_more : ℕ → Bytes → Option (List (Bytes × Bytes) × Bytes)
read_more n [] = none
read_more zero (c ∷ s) = if c == 125 then some ([], s) else none
read_more (suc n) (c ∷ s) =
    if c == 44
    then elim (read_label s) [
      | none ↦ none
      | some (label, t) ↦ elim (read_more n t) [
        | none ↦ none
        | some (labels, u) ↦ some (label ∷ labels, u)
      ]
    ]
    else none

-- As many labels in braces.
unfoldable pub read_labels : ℕ → Bytes → Option (List (Bytes × Bytes) × Bytes)
unfolding read_label read_more
read_labels zero s = some ([], s)
read_labels (suc n) [] = none
read_labels (suc n) (c ∷ s) =
    if c == 123
    then elim (read_label s) [
      | none ↦ none
      | some (label, t) ↦ elim (read_more n t) [
        | none ↦ none
        | some (labels, u) ↦ some (label ∷ labels, u)
      ]
    ]
    else none

read-render :
    (name value t : Bytes)
    → Without 61 name
    → read_label (render_label name value ++ t) ≡ some ((name, value), t)
unfolding read_label render_label
read-render name value t h =
    let quoted = escape_label_value value ++ (34 ∷ t) in
    let shape : name ++ (61 ∷ 34 ∷ escape_label_value value ++ (34 ∷ [])) ++ t
        ≡ name ++ (61 ∷ 34 ∷ quoted) =
      append_assoc name (61 ∷ 34 ∷ escape_label_value value ++ (34 ∷ [])) t
      ∙ ap (λ r. name ++ (61 ∷ 34 ∷ r)) (append_assoc (escape_label_value value) (34 ∷ []) t) in
    let found = cut-append 61 name (34 ∷ quoted) h in
    let read = read-escape value t in ap read_label shape ∙ rw (read_label, found, read) refl

-- The pairs of names and values.
abbrev pub pairs : (names values : List Bytes) → List (Bytes × Bytes)
pairs [] values = []
pairs (name ∷ names) [] = []
pairs (name ∷ names) (value ∷ values) = (name, value) ∷ pairs names values

read-render_more :
    (names values : List Bytes) (t : Bytes)
    → All (Without 61) names
    → length values ≡ length names
    → (out : Bytes) × (render_more names values ≡ some out)
      × (read_more (length names) (out ++ (125 ∷ t)) ≡ some (pairs names values, t))
unfolding render_more read_more
read-render_more [] values t h e = ([], refl, refl)
read-render_more (name ∷ names) [] t h e = absurd (omega (arith, e))
read-render_more (name ∷ names) (value ∷ values) t h e =
    let (rest, rendered, read) = read-render_more names values t h.1 (omega (arith, e)) in
    let shape = append_assoc (render_label name value) rest (125 ∷ t) in
    let first = ap read_label shape ∙ read-render name value (rest ++ (125 ∷ t)) h.0 in
    (44 ∷ render_label name value ++ rest, rw rendered refl, rw (first, read) refl)

-- A reader of the line finds every name with the value that was rendered.
read-render_labels :
    (name : Bytes) (names : List Bytes) (values : List Bytes) (t : Bytes)
    → All (Without 61) (name ∷ names)
    → length values ≡ length (name ∷ names)
    → (out : Bytes) × (render_labels_with_values (name ∷ names) values ≡ some out)
      × (read_labels (length (name ∷ names)) (out ++ t) ≡ some (pairs (name ∷ names) values, t))
unfolding render_labels_with_values read_labels
read-render_labels name names [] t h e = absurd (omega (arith, e))
read-render_labels name names (value ∷ values) t h e =
    let (rest, rendered, read) = read-render_more names values t h.1 (omega (arith, e)) in
    let label = render_label name value in
    let shape : label ++ (rest ++ (125 ∷ [])) ++ t ≡ label ++ (rest ++ (125 ∷ t)) =
      append_assoc label (rest ++ (125 ∷ [])) t
      ∙ ap (λ r. label ++ r) (append_assoc rest (125 ∷ []) t) in
    let first = ap read_label shape ∙ read-render name value (rest ++ (125 ∷ t)) h.0 in
    (
      123 ∷ label ++ (rest ++ (125 ∷ [])),
      rw (render_labels_with_values, rendered) refl,
      rw (first, read) refl,
    )

-- The encoded label values of a series, of which none has the separator in it, are found again.
-- An only value is not empty.
pub decode-encode :
    (values : List Bytes)
    → All (Without 0) values
    → values ≢ [] ∷ []
    → decode_label_values (encode_label_values values) ≡ values
unfolding decode_label_values encode_label_values join is_empty
decode-encode [] h ne = refl
decode-encode ([] ∷ []) h ne = absurd (ne refl)
decode-encode ((c ∷ x) ∷ []) h ne = split-join 0 (c ∷ x) [] h
decode-encode ([] ∷ y ∷ values) h ne = split-join 0 [] (y ∷ values) h
decode-encode ((c ∷ x) ∷ y ∷ values) h ne = split-join 0 (c ∷ x) (y ∷ values) h

-- The label values of a series, none of which has the byte 0 and which are not one empty value, are
-- rendered under as many label names, none of which has `=`, without a panic: and a reader of the
-- exposition format, whatever follows, finds every name with its value, unescaped.
pub scrape_labels :
    (names values : List Bytes) (t : Bytes)
    → All (Without 61) names
    → All (Without 0) values
    → values ≢ [] ∷ []
    → length values ≡ length names
    → (out : Bytes) × (render_labels names (encode_label_values values) ≡ some out)
      × (read_labels (length names) (out ++ t) ≡ some (pairs names values, t))
unfolding render_labels read_labels
scrape_labels [] values t hn hv ne e = ([], refl, refl)
scrape_labels (name ∷ names) values t hn hv ne e =
    let decoded = decode-encode values hv ne in
    let (out, rendered, read) = read-render_labels name names values t hn e in
    (out, ap (render_labels_with_values (name ∷ names)) decoded ∙ rendered, read)
