-- ===== src/Metrics/Counter.antt =====
-- core/metrics/metrics.go: counters. A count is an int64, held as its low 64 bits.
use caddy_formward.Base.{
  ℕ, ◌+◌, ◌%◌, ◌^◌, Bool, true, false, not, List, [], ◌∷◌, Option, none, some, ◌≡◌, ◌≢◌, refl, sym,
  ap, ◌∙◌, arith, ◌&&◌, ◌↔◌, subst, if◌then◌else◌, ◌==◌, if_rule, inl, inr, Bool-cases, length, All,
}
use caddy_formward.Base.Int.{ℤ, pos, negsuc}
use caddy_formward.Text.{Bytes, bytes_eq, bytes_eq_iff, bytes_eq_refl, bytes_eq_ne}
use caddy_formward.Text.Search.{Without}
use caddy_formward.Metrics.Labels.{encode_label_values, decode_label_values}
use caddy_formward.Metrics.Labels.Scrape.{decode-encode}

pub record Counter : Type 0 where
  pub name : Bytes
  pub help : Bytes
  pub label_names : List Bytes
  pub values : List (Bytes × ℕ)

-- `NewCounter`
abbrev pub new_counter : (name help : Bytes) → List Bytes → Counter
new_counter name help label_names = record {
  name = name;
  help = help;
  label_names = label_names;
  values = [];
}

-- `values[key]`, zero where the key is not there.
unfoldable pub value_at : Bytes → List (Bytes × ℕ) → ℕ
value_at key [] = 0
value_at key ((k, n) ∷ values) = if bytes_eq k key then n else value_at key values

-- `values[key] += delta`
unfoldable pub bump : Bytes → ℕ → List (Bytes × ℕ) → List (Bytes × ℕ)
bump key delta [] = (key, delta % 2 ^ 64) ∷ []
bump key delta ((k, n) ∷ values) =
    let rest = bump key delta values in
    if bytes_eq k key then (k, (n + delta) % 2 ^ 64) ∷ values else (k, n) ∷ rest

-- `Add`: `none` is a panic.
unfoldable pub add : ℤ → List Bytes → Counter → Option Counter
unfolding bump
add (negsuc delta) label_values c = none
add (pos delta) label_values c =
    if not (length label_values == length c.label_names)
    then none
    else some (record c { values = bump (encode_label_values label_values) delta c.values })

-- `Inc`
unfoldable pub inc : List Bytes → Counter → Option Counter
unfolding add
inc label_values c = add (pos 1) label_values c

-- The count of a series.
unfoldable pub count_of : List Bytes → Counter → ℕ
unfolding value_at
count_of label_values c = value_at (encode_label_values label_values) c.values

-- Label values that NewCounter's clients use: as many as names, without the byte 0, and not one
-- empty value.
abbrev pub IsSeries : Counter → List Bytes → Type 0
IsSeries c vs = (length vs ≡ length c.label_names) × All (Without 0) vs × (vs ≢ [] ∷ [])

same_key :
    (xs ys : List Bytes)
    → All (Without 0) xs
    → xs ≢ [] ∷ []
    → All (Without 0) ys
    → ys ≢ [] ∷ []
    → encode_label_values xs ≡ encode_label_values ys
    → xs ≡ ys
same_key xs ys hx nx hy ny e =
    sym (decode-encode xs hx nx) ∙ ap decode_label_values e ∙ decode-encode ys hy ny

value_at-bump_self :
    (key : Bytes) (delta : ℕ) (values : List (Bytes × ℕ))
    → value_at key (bump key delta values) ≡ (value_at key values + delta) % 2 ^ 64
unfolding value_at bump
value_at-bump_self key delta [] = let same = bytes_eq_refl key in ground (arith, same)
value_at-bump_self key delta ((k, n) ∷ values) =
    let rest = value_at-bump_self key delta values in ground (arith, rest)

value_at-bump_ne :
    (key j : Bytes) (delta : ℕ) (values : List (Bytes × ℕ))
    → bytes_eq key j ≡ false
    → value_at j (bump key delta values) ≡ value_at j values
unfolding value_at bump
value_at-bump_ne key j delta [] ne = ground (arith, ne)
value_at-bump_ne key j delta ((k, n) ∷ values) ne =
    let later = value_at-bump_ne key j delta values ne in
    if_rule
      (λ (vs : List (Bytes × ℕ)). value_at j vs ≡ (if bytes_eq k j then n else value_at j values))
      (bytes_eq k key)
      (λ e.
        let same : k ≡ key = (bytes_eq_iff k key).0 e in
        let other : bytes_eq k j ≡ false = ap (λ x. bytes_eq x j) same ∙ ne in rw other refl)
      (λ e. rw later refl)

-- Several calls of Add: the deltas and the label values.
unfoldable pub add_all : List (ℕ × List Bytes) → Counter → Option Counter
add_all [] c = some c
add_all ((delta, vs) ∷ adds) c = elim (add (pos delta) vs c) [
  | none ↦ none
  | some c' ↦ add_all adds c'
]

-- Equality of label values.
unfoldable values_eq : List Bytes → List Bytes → Bool
values_eq [] [] = true
values_eq [] (y ∷ ys) = false
values_eq (x ∷ xs) [] = false
values_eq (x ∷ xs) (y ∷ ys) = bytes_eq x y && values_eq xs ys

values_eq_iff : (xs ys : List Bytes) → (values_eq xs ys ≡ true) ↔ (xs ≡ ys)
unfolding values_eq
values_eq_iff [] [] = (λ e. refl, λ e. refl)
values_eq_iff [] (y ∷ ys) = (λ e. cc, λ e. cc)
values_eq_iff (x ∷ xs) [] = (λ e. cc, λ e. cc)
values_eq_iff (x ∷ xs) (y ∷ ys) =
    let heads = bytes_eq_iff x y in
    let tails = values_eq_iff xs ys in
    (
      (λ e.
          let h : x ≡ y = heads.0 (ground (arith, e)) in
          let t : xs ≡ ys = tails.0 (ground (arith, e)) in cc),
      (λ e. let h = heads.1 cc in let t = tails.1 cc in ground (arith, h, t)),
    )

-- The abstract counter: the sum of the deltas that came with the label values.
unfoldable pub total : List Bytes → List (ℕ × List Bytes) → ℕ
unfolding values_eq
total vs [] = 0
total vs ((delta, ws) ∷ adds) =
    let rest = total vs adds in if values_eq ws vs then delta + rest else rest

count_of-add :
    (vs ws : List Bytes) (delta : ℕ) (c : Counter)
    → IsSeries c vs
    → IsSeries c ws
    → (c' : Counter) × (add (pos delta) ws c ≡ some c')
      × (c'.label_names ≡ c.label_names)
      × (count_of vs c'
          ≡ (if values_eq ws vs then (count_of vs c + delta) % 2 ^ 64 else count_of vs c))
unfolding add count_of
count_of-add vs ws delta c (lv, zv, nv) (lw, zw, nw) =
    let key = encode_label_values ws in
    let c' = record c { values = bump key delta c.values } in
    let fits : (length ws == length c.label_names) ≡ true = ground (arith, lw) in
    let added : add (pos delta) ws c ≡ some c' = rw (add, fits) refl in
    elim (Bool-cases (values_eq ws vs)) [
      | inl e ↦
          let same : ws ≡ vs = (values_eq_iff ws vs).0 e in
          let counted : count_of vs c' ≡ (count_of vs c + delta) % 2 ^ 64 =
            subst
              (λ x.
                value_at (encode_label_values x) (bump key delta c.values)
                ≡ (value_at (encode_label_values x) c.values + delta) % 2 ^ 64)
              same (value_at-bump_self key delta c.values) in
          (c', added, refl, rw e counted)
      | inr e ↦
          let differ : bytes_eq key (encode_label_values vs) ≡ false =
            bytes_eq_ne key (encode_label_values vs) (λ k.
              let same = (values_eq_iff ws vs).1 (same_key ws vs zw nw zv nv k) in
              absurd (ground (arith, same, e))) in
          let kept = value_at-bump_ne key (encode_label_values vs) delta c.values differ in
          (c', added, refl, rw e kept)
    ]

-- The calls from a counter whose count of the series is `n`.
count_of-add_all :
    (vs : List Bytes) (adds : List (ℕ × List Bytes)) (c : Counter) (n : ℕ)
    → IsSeries c vs
    → All (λ ((delta, ws) : ℕ × List Bytes). IsSeries c ws) adds
    → count_of vs c ≡ n % 2 ^ 64
    → (c' : Counter) × (add_all adds c ≡ some c') × (count_of vs c' ≡ (n + total vs adds) % 2 ^ 64)
unfolding add_all total
count_of-add_all vs [] c n hv hs h = (c, refl, ground (arith, h))
count_of-add_all vs ((delta, ws) ∷ adds) c n hv (hw, hs) h =
    let (c1, added, names, counted) = count_of-add vs ws delta c hv hw in
    let n' = if values_eq ws vs then n + delta else n in
    let h1 : count_of vs c1 ≡ n' % 2 ^ 64 = ground (arith, counted, h) in
    let hv1 =
      subst (λ ns. (length vs ≡ length ns) × All (Without 0) vs × (vs ≢ [] ∷ [])) (sym names) hv in
    let hs1 =
      subst
        (λ ns.
          All
            (λ ((delta, ws) : ℕ × List Bytes).
              (length ws ≡ length ns) × All (Without 0) ws × (ws ≢ [] ∷ []))
            adds)
        (sym names) hs in
    let (c2, rest, counts) = count_of-add_all vs adds c1 n' hv1 hs1 h1 in
    (c2, rw (add_all, added) rest, ground (arith, counts))

-- A counter implements a table of sums: after any calls of Add with label values that fit the
-- label names, none of which panics, the count of each series is the sum of the deltas that came
-- with its label values, modulo 2^64, whatever came for other label values.
pub counter_refines :
    (name help : Bytes) (label_names vs : List Bytes) (adds : List (ℕ × List Bytes))
    → let c = new_counter name help label_names in
      IsSeries c vs
      → All (λ ((delta, ws) : ℕ × List Bytes). IsSeries c ws) adds
      → (c' : Counter) × (add_all adds c ≡ some c') × (count_of vs c' ≡ total vs adds % 2 ^ 64)
unfolding count_of value_at
counter_refines name help label_names vs adds hv hs =
    let (c', added, counts) =
      count_of-add_all vs adds (new_counter name help label_names) 0 hv hs (omega arith) in
    (c', added, ground (arith, counts))
