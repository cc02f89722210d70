-- ===== src/Metrics/Registry/Names.antt =====
-- core/metrics/metrics.go: the names in a registry.
use caddy_formward.Base.{
  true, [], ◌∷◌, ◌++◌, none, some, ◌≡◌, ◌↔◌, ◌⊎◌, refl, arith, Any, Bool-cases, inl, inr, sym,
}
use caddy_formward.Text.{Bytes, bytes_eq, bytes_eq_iff}
use caddy_formward.Metrics.Registry.{Collector, Registry, is_registered, register}

-- Some metric has the name.
abbrev pub IsNamed : Bytes → Registry → Type 0
IsNamed name metrics = Any (λ (c : Collector). c.name ≡ name) metrics

-- No two metrics have one name.
abbrev pub AreDistinct : Registry → Type 0
AreDistinct [] = Unit
AreDistinct (c ∷ metrics) = (¬ IsNamed c.name metrics) × AreDistinct metrics

is_registered_iff :
    (name : Bytes) (metrics : Registry) → (is_registered name metrics ≡ true) ↔ IsNamed name metrics
unfolding is_registered
is_registered_iff name [] = (λ e. cc, λ n. absurd n)
is_registered_iff name (c ∷ metrics) =
    let rest = is_registered_iff name metrics in
    let same = bytes_eq_iff c.name name in
    elim (Bool-cases (bytes_eq c.name name)) [
      | inl e ↦ (λ h. inl (same.0 e), λ h. rw e refl)
      | inr ne ↦ (
        (λ h. inr (rest.0 (ground (arith, h, ne)))),
        (λ named. elim named [
          | inl e ↦ absurd (let e' = same.1 e in ground (arith, e', ne))
          | inr n ↦ let found = rest.1 n in ground (arith, found)
        ]),
      )
    ]

not-IsNamed :
    (name : Bytes) (c : Collector) (metrics : Registry)
    → (¬ IsNamed name metrics)
    → (¬ (c.name ≡ name))
    → ¬ IsNamed name (metrics ++ (c ∷ []))
not-IsNamed name c [] old ne (inl e) = ne e
not-IsNamed name c [] old ne (inr n) = absurd n
not-IsNamed name c (m ∷ metrics) old ne (inl e) = old (inl e)
not-IsNamed name c (m ∷ metrics) old ne (inr n) = not-IsNamed name c metrics (λ k. old (inr k)) ne n

AreDistinct-append :
    (c : Collector) (metrics : Registry)
    → AreDistinct metrics
    → (¬ IsNamed c.name metrics)
    → AreDistinct (metrics ++ (c ∷ []))
AreDistinct-append c [] h new = (λ n. absurd n, tt)
AreDistinct-append c (m ∷ metrics) (hm, hs) new = (
  not-IsNamed m.name c metrics hm (λ e. new (inl (sym e))),
  AreDistinct-append c metrics hs (λ n. new (inr n)),
)

-- Register panics exactly for a name that the registry has; otherwise it adds the metric at the
-- end, and the names in the registry, if they were distinct, are distinct again.
register_lem :
    (c : Collector) (metrics : Registry)
    → AreDistinct metrics
    → (IsNamed c.name metrics × (register c metrics ≡ none))
      ⊎ ((¬ IsNamed c.name metrics)
          × (register c metrics ≡ some (metrics ++ (c ∷ [])))
          × AreDistinct (metrics ++ (c ∷ [])))
unfolding register
register_lem c metrics h =
    let named = is_registered_iff c.name metrics in
    elim (Bool-cases (is_registered c.name metrics)) [
      | inl e ↦ inl (named.0 e, rw e refl)
      | inr ne ↦
          let new : ¬ IsNamed c.name metrics =
            λ n. let e = named.1 n in absurd (ground (arith, e, ne)) in
          inr (new, rw ne refl, AreDistinct-append c metrics h new)
    ]
