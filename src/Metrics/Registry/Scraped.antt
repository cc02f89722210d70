-- ===== src/Metrics/Registry/Scraped.antt =====
-- core/metrics/metrics.go: the names in a registry, and the lines of a scrape.
use caddy_formward.Base.{
  ℕ, ◌-◌, ltb, Bool-cases, inl, inr, ◌+◌, ◌≤◌, ◌<◌, Bool, true, false, not, List, [], ◌∷◌, ◌++◌,
  some, ◌≡◌, refl, sym, ap, ◌∙◌, arith, length, length-append, take, zero, suc, subst,
}
use mathlib.Core.List.{Perm, append_assoc, append-nil}
use caddy_formward.Text.{Bytes}
use caddy_formward.Metrics.Registry.{
  Collector, Registry, write_line, write_lines, emit_all, emit, by_name,
}
use caddy_formward.Metrics.Sorting.{Sorting, IsInOrder, bytes_less, bytes_less_asymm}

-- The lines of collectors none of which panics.
abbrev pub AreLines : List Collector → List Bytes → Type 0
AreLines [] all = all ≡ []
AreLines (c ∷ metrics) all =
    (lines : List Bytes) × (rest : List Bytes) × (c.lines ≡ some lines)
    × AreLines metrics rest
    × (all ≡ lines ++ rest)

take-append_lt {ℓ} :
    {A : Type ℓ} (n : ℕ) (xs ys : List A) → n < length xs → take n (xs ++ ys) ≡ take n xs
take-append_lt zero xs ys h = refl
take-append_lt (suc n) [] ys h = absurd (omega (arith, h))
take-append_lt (suc n) (x ∷ xs) ys h = ap (λ r. x ∷ r) (take-append_lt n xs ys (omega (arith, h)))

take-append_ge {ℓ} :
    {A : Type ℓ} (m : ℕ) (xs ys : List A) → take (length xs + m) (xs ++ ys) ≡ xs ++ take m ys
take-append_ge m [] ys = ap (λ k. take k ys) (omega arith)
take-append_ge m (x ∷ xs) ys =
    let one_more : suc (length xs) + m ≡ suc (length xs + m) = omega arith in
    ap (λ k. take k (x ∷ xs ++ ys)) one_more ∙ ap (λ r. x ∷ r) (take-append_ge m xs ys)

-- The next `n` writes after `from` lines go well.
abbrev Goes : (ℕ → Bool) → (from n : ℕ) → Type 0
Goes fails from n = (i : ℕ) → i < n → fails (from + i) ≡ false

Goes-first : (fails : ℕ → Bool) (from n : ℕ) → Goes fails from (suc n) → fails from ≡ false
Goes-first fails from n h = subst (λ k. fails k ≡ false) (omega arith) (h 0 (omega arith))

Goes-rest : (fails : ℕ → Bool) (from n m : ℕ) → Goes fails from (n + m) → Goes fails (from + n) m
Goes-rest fails from n m h i less =
    subst (λ k. fails k ≡ false) (omega arith) (h (n + i) (omega (arith, less)))

Goes-start : (fails : ℕ → Bool) (from n m : ℕ) → n ≤ m → Goes fails from m → Goes fails from n
Goes-start fails from n m most h i less = h i (omega (arith, less, most))

-- A line that is written.
written_next :
    (fails : ℕ → Bool) (line : Bytes) (lines written : List Bytes)
    → fails (length written) ≡ false
    → write_lines fails (line ∷ lines) written ≡ write_lines fails lines (written ++ (line ∷ []))
unfolding write_lines write_line
written_next fails line lines written h = rw h refl

written_all :
    (fails : ℕ → Bool) (lines written : List Bytes)
    → Goes fails (length written) (length lines)
    → write_lines fails lines written ≡ record { lines = written ++ lines; good = true }
unfolding write_lines
written_all fails [] written h =
    ap (λ w. record { lines = w; good = true }) (sym (append-nil written))
written_all fails (line ∷ lines) written h =
    let next = written ++ (line ∷ []) in
    let grown : length written + 1 ≡ length next = sym (length-append written (line ∷ [])) in
    let rest : Goes fails (length written) (1 + length lines) =
      subst (Goes fails (length written)) (omega arith) h in
    written_next fails line lines written (Goes-first fails (length written) (length lines) h)
    ∙ written_all fails lines next (
        subst (λ k. Goes fails k (length lines)) grown
          (Goes-rest fails (length written) 1 (length lines) rest))
    ∙ ap (λ w. record { lines = w; good = true }) (append_assoc written (line ∷ []) lines)

written_some :
    (fails : ℕ → Bool) (lines written : List Bytes) (n : ℕ)
    → n < length lines
    → Goes fails (length written) n
    → fails (length written + n) ≡ true
    → write_lines fails lines written ≡ record { lines = written ++ take n lines; good = false }
unfolding write_lines write_line
written_some fails [] written n less h stop = absurd (omega (arith, less))
written_some fails (line ∷ lines) written zero less h stop =
    let stop' : fails (length written) ≡ true = subst (λ k. fails k ≡ true) (omega arith) stop in
    let same = sym (append-nil written) in
    rw stop' (ap (λ w. record { lines = w; good = false }) same)
written_some fails (line ∷ lines) written (suc n) less h stop =
    let next = written ++ (line ∷ []) in
    let grown : length written + 1 ≡ length next = sym (length-append written (line ∷ [])) in
    let rest : Goes fails (length written) (1 + n) =
      subst (Goes fails (length written)) (omega arith) h in
    written_next fails line lines written (Goes-first fails (length written) n h)
    ∙ written_some fails lines next n (omega (arith, less))
        (subst (λ k. Goes fails k n) grown (Goes-rest fails (length written) 1 n rest))
        (subst (λ k. fails k ≡ true) (omega (arith, grown)) stop)
    ∙ ap (λ w. record { lines = w; good = false }) (append_assoc written (line ∷ []) (take n lines))

emit_next :
    (fails : ℕ → Bool) (c : Collector) (metrics : List Collector) (lines written after : List Bytes)
    → c.lines ≡ some lines
    → write_lines fails lines written ≡ record { lines = after; good = true }
    → emit_all fails (c ∷ metrics) written ≡ emit_all fails metrics after
unfolding emit_all
emit_next fails c metrics lines written after e w = rw (emit_all, e, w) refl

emit_stop :
    (fails : ℕ → Bool) (c : Collector) (metrics : List Collector) (lines written after : List Bytes)
    → c.lines ≡ some lines
    → write_lines fails lines written ≡ record { lines = after; good = false }
    → emit_all fails (c ∷ metrics) written ≡ some (record { lines = after; good = false })
unfolding emit_all
emit_stop fails c metrics lines written after e w = rw (emit_all, e, w) refl

-- A scrape in which no write fails.
emitted_all :
    (fails : ℕ → Bool) (metrics : List Collector) (all written : List Bytes)
    → AreLines metrics all
    → Goes fails (length written) (length all)
    → emit_all fails metrics written ≡ some (record { lines = written ++ all; good = true })
unfolding emit_all
emitted_all fails [] all written are h =
    let same : written ≡ written ++ all =
      sym (append-nil written) ∙ ap (λ x. written ++ x) (sym are) in
    ap (λ w. some (record { lines = w; good = true })) same
emitted_all fails (c ∷ metrics) all written (lines, rest, e, are, split') h =
    let count : length all ≡ length lines + length rest =
      ap length split' ∙ length-append lines rest in
    let goes = subst (Goes fails (length written)) count h in
    let now =
      written_all fails lines written
        (Goes-start fails (length written) (length lines) (length all) (omega (arith, count)) h) in
    let grown : length written + length lines ≡ length (written ++ lines) =
      sym (length-append written lines) in
    let later =
      subst (λ k. Goes fails k (length rest)) grown
        (Goes-rest fails (length written) (length lines) (length rest) goes) in
    let shape : written ++ lines ++ rest ≡ written ++ all =
      append_assoc written lines rest ∙ ap (λ x. written ++ x) (sym split') in
    emit_next fails c metrics lines written (written ++ lines) e now
    ∙ emitted_all fails metrics rest (written ++ lines) are later
    ∙ ap (λ w. some (record { lines = w; good = true })) shape

-- A scrape whose write after `n` lines fails.
emitted_some :
    (fails : ℕ → Bool) (metrics : List Collector) (all written : List Bytes) (n : ℕ)
    → AreLines metrics all
    → n < length all
    → Goes fails (length written) n
    → fails (length written + n) ≡ true
    → emit_all fails metrics written ≡ some (record { lines = written ++ take n all; good = false })
emitted_some fails [] all written n are less h stop =
    let none_left : length all ≡ 0 = ap length are in absurd (omega (arith, less, none_left))
emitted_some fails (c ∷ metrics) all written n (lines, rest, e, are, split') less h stop =
    let count : length all ≡ length lines + length rest =
      ap length split' ∙ length-append lines rest in
    elim (Bool-cases (ltb n (length lines))) [
      | inl within ↦
          let within' : n < length lines = ground (arith, within) in
          let cut' : take n lines ≡ take n all =
            sym (take-append_lt n lines rest within') ∙ ap (take n) (sym split') in
          emit_stop fails c metrics lines written (written ++ take n lines) e
            (written_some fails lines written n within' h stop)
          ∙ ap (λ w. some (record { lines = written ++ w; good = false })) cut'
      | inr beyond ↦
          let most : length lines ≤ n = ground (arith, beyond) in
          let m = n - length lines in
          let parts : n ≡ length lines + m = omega (arith, most) in
          let goes = subst (Goes fails (length written)) parts h in
          let now =
            written_all fails lines written
              (Goes-start fails (length written) (length lines) n most h) in
          let grown : length written + length lines ≡ length (written ++ lines) =
            sym (length-append written lines) in
          let later =
            subst (λ k. Goes fails k m) grown
              (Goes-rest fails (length written) (length lines) m goes) in
          let shape : written ++ lines ++ take m rest ≡ written ++ take n all =
            append_assoc written lines (take m rest)
            ∙ ap (λ x. written ++ x)
                (sym (take-append_ge m lines rest)
                  ∙ ap (λ k. take k (lines ++ rest)) (sym parts)
                  ∙ ap (take n) (sym split')) in
          emit_next fails c metrics lines written (written ++ lines) e now
          ∙ emitted_some fails metrics rest (written ++ lines) m are
              (omega (arith, count, less, most)) later
              (subst (λ k. fails k ≡ true) (omega (arith, grown, most)) stop)
          ∙ ap (λ w. some (record { lines = w; good = false })) shape
    ]

take-all {ℓ} : {A : Type ℓ} (xs : List A) → take (length xs) xs ≡ xs
take-all [] = refl
take-all (x ∷ xs) = ap (λ r. x ∷ r) (take-all xs)

scraped :
    (fails : ℕ → Bool) (metrics : List Collector) (all : List Bytes) (n : ℕ)
    → AreLines metrics all
    → n ≤ length all
    → Goes fails 0 n
    → (n < length all → fails n ≡ true)
    → emit_all fails metrics []
      ≡ some (record { lines = take n all; good = not (ltb n (length all)) })
scraped fails metrics all n are most goes stop = elim (Bool-cases (ltb n (length all))) [
  | inl left ↦
      let less : n < length all = ground (arith, left) in
      let ends = subst (λ k. fails k ≡ true) (omega arith) (stop less) in
      let end' = emitted_some fails metrics all [] n are less goes ends in rw left end'
  | inr done ↦
      let count : n ≡ length all = ground (arith, done, most) in
      let end' = emitted_all fails metrics all [] are (subst (Goes fails 0) count goes) in
      let whole : all ≡ take n all = sym (take-all all) ∙ ap (λ k. take k all) (sym count) in
      rw done (end' ∙ ap (λ w. some (record { lines = w; good = true })) whole)
]

by_name_asymm : (a b : Collector) → by_name a b ≡ true → by_name b a ≡ false
unfolding by_name
by_name_asymm a b h = bytes_less_asymm a.name b.name h

-- A scrape, of collectors that do not panic and with the first `n` writes going well, where the
-- next one fails if there is a next one, takes the collectors in an order in which no name is less
-- than the one before it, writes the first `n` of their lines and nothing after them; it returns an
-- error exactly if lines are left.
pub emit_lem :
    (sorting : Sorting Collector) (fails : ℕ → Bool) (metrics : Registry) (all : List Bytes) (n : ℕ)
    → AreLines (sorting.slice_stable by_name metrics) all
    → n ≤ length all
    → ((i : ℕ) → i < n → fails i ≡ false)
    → (n < length all → fails n ≡ true)
    → (ordered : List Collector) × Perm ordered metrics
      × IsInOrder (λ a b. bytes_less a.name b.name) ordered
      × AreLines ordered all
      × (emit sorting fails metrics
          ≡ some (record { lines = take n all; good = not (ltb n (length all)) }))
unfolding emit by_name
emit_lem sorting fails metrics all n are most h stop =
    let ordered = sorting.slice_stable by_name metrics in
    let goes : Goes fails 0 n = λ i less. subst (λ k. fails k ≡ false) (omega arith) (h i less) in
    let end' = scraped fails ordered all n are most goes stop in
    (
      ordered,
      sorting.slice_stable-Perm by_name metrics,
      sorting.slice_stable-IsInOrder by_name metrics by_name_asymm,
      are,
      end',
    )
