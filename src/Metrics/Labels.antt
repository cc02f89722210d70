-- ===== src/Metrics/Labels.antt =====
-- core/metrics/metrics.go: the label values of a series, as a key of a map and as they are shown.
pub mod Scrape
use caddy_formward.Base.{
  ℕ, ◌+◌, Bool, true, false, not, ◌||◌, List, [], ◌∷◌, ◌++◌, Option, none, some, if◌then◌else◌,
  ◌==◌, none_of,
}
use caddy_formward.Text.{Bytes, text, is_empty, split, join, index_byte, contains_any}

-- `labelSeparator`
abbrev pub label_separator : Bytes
label_separator = 0 ∷ []

-- `encodeLabelValues`
unfoldable pub encode_label_values : List Bytes → Bytes
unfolding join
encode_label_values values = join label_separator values

-- `decodeLabelValues`
unfoldable pub decode_label_values : Bytes → List Bytes
unfolding split
decode_label_values key = if is_empty key then [] else split 0 key

abbrev pub special_label : ℕ → Bool
special_label c = c == 34 || c == 92 || c == 10

abbrev pub special_help : ℕ → Bool
special_help c = c == 92 || c == 10

-- The byte, of a label value, after its escape: the bytes 34, 92 and 10 are `"`, `\` and newline.
unfoldable pub escape_label_byte : ℕ → Bytes
escape_label_byte c =
    if c == 34
    then 92 ∷ 34 ∷ []
    else if c == 92
    then 92 ∷ 92 ∷ []
    else if c == 10
    then 92 ∷ 110 ∷ []
    else c ∷ []

unfoldable pub escape_label_bytes : Bytes → Bytes
unfolding escape_label_byte
escape_label_bytes [] = []
escape_label_bytes (c ∷ v) = escape_label_byte c ++ escape_label_bytes v

-- `escapeLabelValue`
unfoldable pub escape_label_value : Bytes → Bytes
unfolding contains_any escape_label_bytes
escape_label_value v = if not (contains_any v special_label) then v else escape_label_bytes v

unfoldable pub escape_help_bytes : Bytes → Bytes
escape_help_bytes [] = []
escape_help_bytes (c ∷ v) =
    let rest = escape_help_bytes v in
    if c == 92 then 92 ∷ 92 ∷ rest else if c == 10 then 92 ∷ 110 ∷ rest else c ∷ rest

-- `escapeHelp`
unfoldable pub escape_help : Bytes → Bytes
unfolding contains_any escape_help_bytes
escape_help v = if not (contains_any v special_help) then v else escape_help_bytes v

-- `name="value"`
unfoldable pub render_label : Bytes → Bytes → Bytes
unfolding escape_label_value
render_label name value = name ++ (61 ∷ 34 ∷ escape_label_value value ++ (34 ∷ []))

-- The loop of renderLabelsWithValues after its first round: `none` is the panic of `values[i]` out
-- of range.
unfoldable pub render_more : (names values : List Bytes) → Option Bytes
unfolding render_label
render_more [] values = some []
render_more (name ∷ names) [] = none
render_more (name ∷ names) (value ∷ values) = elim (render_more names values) [
  | none ↦ none
  | some rest ↦ some (44 ∷ render_label name value ++ rest)
]

-- `renderLabelsWithValues`
unfoldable pub render_labels_with_values : (names values : List Bytes) → Option Bytes
unfolding render_more
render_labels_with_values [] values = some []
render_labels_with_values (name ∷ names) [] = none
render_labels_with_values (name ∷ names) (value ∷ values) = elim (render_more names values) [
  | none ↦ none
  | some rest ↦ some (123 ∷ render_label name value ++ (rest ++ (125 ∷ [])))
]

-- `renderLabels`
unfoldable pub render_labels : List Bytes → Bytes → Option Bytes
unfolding decode_label_values render_labels_with_values
render_labels names encoded =
    if none_of names then some [] else render_labels_with_values names (decode_label_values encoded)

-- The loop of renderLabelsWithExtra.
unfoldable pub render_before : (names values : List Bytes) → Option Bytes
unfolding render_label
render_before [] values = some []
render_before (name ∷ names) [] = none
render_before (name ∷ names) (value ∷ values) = elim (render_before names values) [
  | none ↦ none
  | some rest ↦ some (render_label name value ++ (44 ∷ rest))
]

-- `renderLabelsWithExtra`
unfoldable pub render_labels_with_extra :
    (names values : List Bytes) → (extra_key extra_value : Bytes) → Option Bytes
unfolding render_before render_label
render_labels_with_extra names values extra_key extra_value = elim (render_before names values) [
  | none ↦ none
  | some before ↦ some (123 ∷ before ++ (render_label extra_key extra_value ++ (125 ∷ [])))
]
