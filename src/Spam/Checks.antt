-- ===== src/Spam/Checks.antt =====
-- core/spam/spam.go: CheckHoneypot and CheckOrigin. `url.Parse`, which gives the
-- scheme and the host, and the lower-casing of Unicode text are parameters.
pub mod Origin
use caddy_formward.Base.{
  Bool, true, false, not, ◌&&◌, ◌||◌, List, [], ◌∷◌, ◌++◌, Option, none, some, ◌≡◌, ◌↔◌, refl, sym,
  ap, ◌∙◌, arith, if◌then◌else◌, Any, subst, Bool-cases, inl, inr, ◌⊎◌,
}
use caddy_formward.Text.{Bytes, text, bytes_eq, bytes_eq_iff, is_empty, trim_space}

-- A submitted form.
abbrev pub Form : Type 0
Form = Bytes → Option (List Bytes)

-- `Result`
pub data SpamResult : Type 0 where
  pass silent_reject hard_reject : SpamResult

-- The loop of CheckHoneypot.
unfoldable pub check_values : List Bytes → SpamResult
check_values [] = pass
check_values (v ∷ vs) =
    let rest = check_values vs in if not (is_empty (trim_space v)) then silent_reject else rest

-- `CheckHoneypot`
unfoldable pub check_honeypot : Form → Bytes → SpamResult
unfolding check_values
check_honeypot form field =
    if is_empty field
    then pass
    else elim (form field) [ none ↦ pass | some values ↦ check_values values ]

-- `url.Parse`, and `strings.ToLower` on a scheme or a host, which may be any UTF-8.
pub record UrlLib : Type 0 where
  pub parse : Bytes → Option (Bytes × Bytes)
  pub lower : Bytes → Bytes

-- `normalizeOrigin`
unfoldable pub normalize_origin : UrlLib → Bytes → Option Bytes
unfolding text
normalize_origin lib raw = elim (lib.parse raw) [
  | none ↦ none
  | some (scheme, host) ↦
      if is_empty scheme || is_empty host
      then none
      else some (lib.lower scheme ++ text "://" ++ lib.lower host)
]

-- `originFromReferer`
unfoldable pub origin_from_referer : UrlLib → Bytes → Option Bytes
unfolding text
origin_from_referer lib referer = elim (lib.parse referer) [
  | none ↦ none
  | some (scheme, host) ↦
      if is_empty scheme || is_empty host then none else some (scheme ++ text "://" ++ host)
]

-- One entry of matchesAllowed: an error is passed over.
unfoldable pub same_origin : Bytes → Option Bytes → Bool
same_origin norm none = false
same_origin norm (some n) = bytes_eq norm n

-- The loop of matchesAllowed.
unfoldable pub any_allowed : UrlLib → Bytes → List Bytes → Bool
unfolding same_origin
any_allowed lib norm [] = false
any_allowed lib norm (a ∷ rest) =
    let later = any_allowed lib norm rest in
    if same_origin norm (normalize_origin lib a) then true else later

-- `matchesAllowed`
unfoldable pub matches_allowed : UrlLib → Bytes → List Bytes → Bool
unfolding any_allowed
matches_allowed lib candidate allowed = elim (normalize_origin lib candidate) [
  | none ↦ false
  | some norm ↦ any_allowed lib norm allowed
]

-- The test on the Referer header.
unfoldable pub referer_matches : UrlLib → Bytes → List Bytes → Bool
unfolding matches_allowed
referer_matches lib referer allowed = elim (origin_from_referer lib referer) [
  | none ↦ false
  | some origin ↦ matches_allowed lib origin allowed
]

-- `CheckOrigin`, without the reason that goes to the log.
unfoldable pub check_origin : UrlLib → (origin referer : Bytes) → List Bytes → SpamResult
unfolding matches_allowed referer_matches
check_origin lib origin referer [] = pass
check_origin lib origin referer (a ∷ rest) =
    if is_empty origin && is_empty referer
    then hard_reject
    else if not (is_empty origin) && matches_allowed lib origin (a ∷ rest)
    then pass
    else if not (is_empty referer) && referer_matches lib referer (a ∷ rest)
    then pass
    else hard_reject

values_iff :
    (vs : List Bytes)
    → (check_values vs ≡ silent_reject) ↔ Any (λ v. is_empty (trim_space v) ≡ false) vs
unfolding check_values
values_iff [] = (λ h. cc, λ h. absurd h)
values_iff (v ∷ vs) = let rest = values_iff vs in ground (arith, rest)

-- The honeypot's test on what the form has of the field.
field_iff :
    (o : Option (List Bytes))
    → ((elim o as (λ x. SpamResult) [ none ↦ pass | some values ↦ check_values values ])
        ≡ silent_reject)
      ↔ ((vs : List Bytes) × (o ≡ some vs) × Any (λ v. is_empty (trim_space v) ≡ false) vs)
field_iff none = (λ h. cc, λ h. cc h.1)
field_iff (some vs) = (
  λ h. (vs, refl, (values_iff vs).0 h),
  λ h.
      let same : h.0 ≡ vs = cc h.1 in
      (values_iff vs).1 (subst (Any (λ v. is_empty (trim_space v) ≡ false)) same h.2),
)

-- The honeypot rejects a form exactly when a field is configured and the form has a value of it
-- that is not blank.
pub check_honeypot_iff :
    (form : Form) (field : Bytes)
    → (check_honeypot form field ≡ silent_reject) ↔ (
        (is_empty field ≡ false)
        × ((vs : List Bytes) × (form field ≡ some vs)
            × Any (λ v. is_empty (trim_space v) ≡ false) vs))
unfolding check_honeypot
check_honeypot_iff form field = elim (Bool-cases (is_empty field)) [
  | inl e ↦ (λ h. ground (arith, h, e), λ h. cc (h.0, e))
  | inr e ↦
      let this = field_iff (form field) in
      (λ h. (e, this.0 (sym (rw e refl) ∙ h)), λ h. rw e (this.1 h.1))
]
