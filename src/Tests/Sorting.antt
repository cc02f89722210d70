-- ===== src/Tests/Sorting.antt =====
-- A sorting by insertion, in place of package sort, for the scrapes of the tests.
use caddy_formward.Base.{
  Bool, true, false, List, [], ◌∷◌, ◌≡◌, subst, if◌then◌else◌, if_rule, Bool-cases, inl, inr,
}
use mathlib.Core.List.{Perm}
use mathlib.Core.List.Perm
use caddy_formward.Metrics.Sorting.{Sorting, IsInOrder}

-- Insertion, behind the elements that are not greater.
unfoldable pub insert : {A : Type 0} → (A → A → Bool) → A → List A → List A
insert less x [] = x ∷ []
insert less x (y ∷ ys) = let rest = insert less x ys in if less y x then y ∷ rest else x ∷ y ∷ ys

unfoldable pub sort_by : {A : Type 0} → (A → A → Bool) → List A → List A
unfolding insert
sort_by less [] = []
sort_by less (x ∷ xs) = insert less x (sort_by less xs)

insert-Perm :
    {A : Type 0} (less : A → A → Bool) (x : A) (ys : List A) → Perm (insert less x ys) (x ∷ ys)
unfolding insert
insert-Perm less x [] = Perm.rfl
insert-Perm less x (y ∷ ys) =
    let rest = insert-Perm less x ys in
    if_rule (λ zs. Perm zs (x ∷ y ∷ ys)) (less y x)
      (λ before. Perm.trans (Perm.cons y rest) (Perm.swap x y ys)) (λ here. Perm.rfl)

pub sort_by-Perm : {A : Type 0} (less : A → A → Bool) (xs : List A) → Perm (sort_by less xs) xs
unfolding sort_by
sort_by-Perm less [] = Perm.rfl
sort_by-Perm less (x ∷ xs) =
    Perm.trans (insert-Perm less x (sort_by less xs)) (Perm.cons x (sort_by-Perm less xs))

-- Insertion behind an element that is less.
insert-behind :
    {A : Type 0} (less : A → A → Bool) (y x : A) (ys : List A)
    → ((x y : A) → less x y ≡ true → less y x ≡ false)
    → less y x ≡ true
    → IsInOrder less (y ∷ ys)
    → IsInOrder less (insert less x ys)
    → IsInOrder less (y ∷ insert less x ys)
unfolding insert
insert-behind less y x [] asymm before h rest = (asymm y x before, tt)
insert-behind less y x (z ∷ zs) asymm before (le, h) rest = elim (Bool-cases (less z x)) [
  | inl more ↦
      let tail =
        subst (λ b. IsInOrder less (if b then z ∷ insert less x zs else x ∷ z ∷ zs)) more rest in
      rw more (le, tail)
  | inr here ↦ rw here (asymm y x before, (here, h))
]

IsInOrder-tail :
    {A : Type 0} (less : A → A → Bool) (x : A) (xs : List A)
    → IsInOrder less (x ∷ xs)
    → IsInOrder less xs
IsInOrder-tail less x [] h = tt
IsInOrder-tail less x (y ∷ ys) h = h.1

insert-IsInOrder :
    {A : Type 0} (less : A → A → Bool) (x : A) (ys : List A)
    → ((x y : A) → less x y ≡ true → less y x ≡ false)
    → IsInOrder less ys
    → IsInOrder less (insert less x ys)
unfolding insert
insert-IsInOrder less x [] asymm h = tt
insert-IsInOrder less x (y ∷ ys) asymm h = elim (Bool-cases (less y x)) [
  | inl before ↦
      let tail = IsInOrder-tail less y ys h in
      let rest = insert-IsInOrder less x ys asymm tail in
      let done = insert-behind less y x ys asymm before h rest in rw before done
  | inr here ↦ rw here (here, h)
]

pub sort_by-IsInOrder :
    {A : Type 0} (less : A → A → Bool) (xs : List A)
    → ((x y : A) → less x y ≡ true → less y x ≡ false)
    → IsInOrder less (sort_by less xs)
unfolding sort_by
sort_by-IsInOrder less [] asymm = tt
sort_by-IsInOrder less (x ∷ xs) asymm =
    insert-IsInOrder less x (sort_by less xs) asymm (sort_by-IsInOrder less xs asymm)

abbrev pub insertion : {A : Type 0} → Sorting A
insertion = record {
  slice_stable = sort_by;
  slice_stable-Perm = sort_by-Perm;
  slice_stable-IsInOrder = sort_by-IsInOrder;
}
