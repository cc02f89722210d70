-- ===== src/Metrics/Sorting.antt =====
-- core/metrics/metrics.go: what Emit relies on of package sort, and the order of names.
use caddy_formward.Base.{
  Bool, true, false, ◌&&◌, ◌||◌, List, [], ◌∷◌, ◌≡◌, refl, arith, ltb, ◌==◌, Bool-cases, inl, inr,
}
use mathlib.Core.List.{Perm}
use caddy_formward.Text.{Bytes}

-- `<` on strings.
unfoldable pub bytes_less : Bytes → Bytes → Bool
bytes_less s [] = false
bytes_less [] (d ∷ t) = true
bytes_less (c ∷ s) (d ∷ t) = ltb c d || c == d && bytes_less s t

pub bytes_less_asymm : (s t : Bytes) → bytes_less s t ≡ true → bytes_less t s ≡ false
unfolding bytes_less
bytes_less_asymm [] [] h = refl
bytes_less_asymm [] (d ∷ t) h = refl
bytes_less_asymm (c ∷ s) [] h = cc
bytes_less_asymm (c ∷ s) (d ∷ t) h = elim (Bool-cases (bytes_less s t)) [
  | inl less ↦ let later = bytes_less_asymm s t less in ground (arith, h, later)
  | inr other ↦ ground (arith, h, other)
]

-- No element is less than the one before it.
abbrev pub IsInOrder : {A : Type 0} → (A → A → Bool) → List A → Type 0
IsInOrder less [] = Unit
IsInOrder less (x ∷ []) = Unit
IsInOrder less (x ∷ y ∷ xs) = (less y x ≡ false) × IsInOrder less (y ∷ xs)

-- `sort.SliceStable` of package sort, which permutes the slice into an order by the comparator.
pub record Sorting (A : Type 0) : Type 0 where
  pub slice_stable : (A → A → Bool) → List A → List A
  pub slice_stable-Perm : (less : A → A → Bool) (xs : List A) → Perm (slice_stable less xs) xs
  pub slice_stable-IsInOrder :
      (less : A → A → Bool) (xs : List A)
      → ((x y : A) → less x y ≡ true → less y x ≡ false)
      → IsInOrder less (slice_stable less xs)
