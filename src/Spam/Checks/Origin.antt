-- ===== src/Spam/Checks/Origin.antt =====
-- core/spam/spam.go: CheckOrigin, against the origins that the allowed entries stand for.
use caddy_formward.Base.{
  Bool, true, false, not, ◌&&◌, List, [], ◌∷◌, Option, none, some, ◌≡◌, ◌↔◌, refl, sym, ap, arith,
  if◌then◌else◌, Any, subst, inl, inr, ◌⊎◌,
}
use caddy_formward.Text.{Bytes, bytes_eq_iff, is_empty}
use caddy_formward.Spam.Checks.{
  pass, hard_reject, UrlLib, normalize_origin, origin_from_referer, same_origin, any_allowed,
  matches_allowed, referer_matches, check_origin,
}

-- The candidate has an origin, and an entry has the same.
abbrev pub IsListed : UrlLib → Bytes → List Bytes → Type 0
IsListed lib candidate allowed =
    (n : Bytes) × (normalize_origin lib candidate ≡ some n)
    × Any (λ a. normalize_origin lib a ≡ some n) allowed

same_origin_iff : (n : Bytes) (o : Option Bytes) → (same_origin n o ≡ true) ↔ (o ≡ some n)
unfolding same_origin
same_origin_iff n none = (λ h. cc, λ h. cc)
same_origin_iff n (some m) =
    let same = bytes_eq_iff n m in (λ h. ap some (sym (same.0 h)), λ h. same.1 (cc h))

any_allowed_iff :
    (lib : UrlLib) (n : Bytes) (allowed : List Bytes)
    → (any_allowed lib n allowed ≡ true) ↔ Any (λ a. normalize_origin lib a ≡ some n) allowed
unfolding any_allowed
any_allowed_iff lib n [] = (λ h. cc, λ h. absurd h)
any_allowed_iff lib n (a ∷ rest) =
    let later = any_allowed_iff lib n rest in
    let this = same_origin_iff n (normalize_origin lib a) in ground (arith, later, this)

matches_iff :
    (lib : UrlLib) (o : Option Bytes) (allowed : List Bytes)
    → ((elim o as (λ x. Bool) [ none ↦ false | some norm ↦ any_allowed lib norm allowed ]) ≡ true)
      ↔ ((n : Bytes) × (o ≡ some n) × Any (λ a. normalize_origin lib a ≡ some n) allowed)
matches_iff lib none allowed = (λ h. cc, λ h. cc h.1)
matches_iff lib (some m) allowed = (
  λ h. (m, refl, (any_allowed_iff lib m allowed).0 h),
  λ h.
      let same : h.0 ≡ m = cc h.1 in
      (any_allowed_iff lib m allowed).1
        (subst (λ n. Any (λ a. normalize_origin lib a ≡ some n) allowed) same h.2),
)

matches_allowed-IsListed :
    (lib : UrlLib) (candidate : Bytes) (allowed : List Bytes)
    → (matches_allowed lib candidate allowed ≡ true) ↔ IsListed lib candidate allowed
unfolding matches_allowed
matches_allowed-IsListed lib candidate allowed =
    matches_iff lib (normalize_origin lib candidate) allowed

referer_iff :
    (lib : UrlLib) (o : Option Bytes) (allowed : List Bytes)
    → ((elim o as (λ x. Bool) [ none ↦ false | some origin ↦ matches_allowed lib origin allowed ])
        ≡ true)
      ↔ ((n : Bytes) × (o ≡ some n) × IsListed lib n allowed)
referer_iff lib none allowed = (λ h. cc, λ h. cc h.1)
referer_iff lib (some m) allowed = (
  λ h. (m, refl, (matches_allowed-IsListed lib m allowed).0 h),
  λ h.
      let same : h.0 ≡ m = cc h.1 in
      (matches_allowed-IsListed lib m allowed).1 (subst (λ n. IsListed lib n allowed) same h.2),
)

referer_matches_iff :
    (lib : UrlLib) (referer : Bytes) (allowed : List Bytes)
    → (referer_matches lib referer allowed ≡ true)
      ↔ ((n : Bytes) × (origin_from_referer lib referer ≡ some n) × IsListed lib n allowed)
unfolding referer_matches
referer_matches_iff lib referer allowed = referer_iff lib (origin_from_referer lib referer) allowed

-- The tests of CheckOrigin, on their results.
gate_iff :
    (a b p q : Bool)
    → ((if a && b
          then hard_reject
          else if not a && p
          then pass
          else if not b && q
          then pass
          else hard_reject)
        ≡ pass)
      ↔ (((a ≡ false) × (p ≡ true)) ⊎ ((b ≡ false) × (q ≡ true)))
gate_iff a b p q = ground arith

-- With allowed origins configured, a request passes exactly when its Origin header is there and
-- normalizes to what an allowed entry normalizes to, or its Referer header is there and its origin
-- does; a request with neither header is refused.
pub check_origin_iff :
    (lib : UrlLib) (origin referer : Bytes) (a : Bytes) (rest : List Bytes)
    → (check_origin lib origin referer (a ∷ rest) ≡ pass) ↔ (
        ((is_empty origin ≡ false) × IsListed lib origin (a ∷ rest))
        ⊎ ((is_empty referer ≡ false)
            × ((n : Bytes) × (origin_from_referer lib referer ≡ some n)
                × IsListed lib n (a ∷ rest))))
unfolding check_origin
check_origin_iff lib origin referer a rest =
    let by_origin = matches_allowed-IsListed lib origin (a ∷ rest) in
    let by_referer = referer_matches_iff lib referer (a ∷ rest) in
    let gate =
      gate_iff (is_empty origin) (is_empty referer) (matches_allowed lib origin (a ∷ rest))
        (referer_matches lib referer (a ∷ rest)) in
    (
      λ h. elim (gate.0 h) [
        | inl k ↦ inl (k.0, by_origin.0 k.1)
        | inr k ↦ inr (k.0, by_referer.0 k.1)
      ],
      λ h. elim h [
        | inl k ↦ gate.1 (inl (k.0, by_origin.1 k.1))
        | inr k ↦ gate.1 (inr (k.0, by_referer.1 k.1))
      ],
    )
