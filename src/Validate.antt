-- ===== src/Validate.antt =====
-- core/validate/validate.go: the required fields and the e-mail fields of a form. The parser
-- of net/mail is a parameter: it gives the display name and the address.
use caddy_formward.Base.{
  Bool, true, false, not, ◌&&◌, List, [], ◌∷◌, Option, none, some, ◌≡◌, ◌↔◌, refl, arith,
  if◌then◌else◌, All, Any, subst, Bool-cases, inl, inr,
}
use caddy_formward.Text.{Bytes, bytes_eq, is_empty, trim_space}
use caddy_formward.Spam.Checks.{Form}

-- `anyNonEmpty`
unfoldable pub any_non_empty : List Bytes → Bool
any_non_empty [] = false
any_non_empty (v ∷ vs) =
    let rest = any_non_empty vs in if not (is_empty (trim_space v)) then true else rest

-- The tests on one name.
unfoldable pub is_missing : Form → Bytes → Bool
unfolding any_non_empty
is_missing form name = elim (form name) [ none ↦ true | some values ↦ not (any_non_empty values) ]

-- `RequiredFields`
unfoldable pub required_fields : Form → List Bytes → List Bytes
unfolding is_missing
required_fields form [] = []
required_fields form (name ∷ names) =
    let rest = required_fields form names in if is_missing form name then name ∷ rest else rest

-- `Email`
unfoldable pub email : (Bytes → Option (Bytes × Bytes)) → Bytes → Bool
email parse s =
    if is_empty s then false else elim (parse s) [ none ↦ false | some (name, address) ↦ true ]

-- `BareEmail`
unfoldable pub bare_email : (Bytes → Option (Bytes × Bytes)) → Bytes → Bool
bare_email parse s = if is_empty s then false else elim (parse s) [
  | none ↦ false
  | some (name, address) ↦ is_empty name && bytes_eq address s
]

-- A field of the form has a value that is not blank.
abbrev pub IsFilled : Form → Bytes → Type 0
IsFilled form name =
    (vs : List Bytes) × (form name ≡ some vs) × Any (λ v. is_empty (trim_space v) ≡ false) vs

any_non_empty_iff :
    (vs : List Bytes) → (any_non_empty vs ≡ true) ↔ Any (λ v. is_empty (trim_space v) ≡ false) vs
unfolding any_non_empty
any_non_empty_iff [] = (λ h. cc, λ h. absurd h)
any_non_empty_iff (v ∷ vs) = let rest = any_non_empty_iff vs in ground (arith, rest)

-- The test on what the form has of the field.
filled_iff :
    (o : Option (List Bytes))
    → ((elim o as (λ x. Bool) [ none ↦ true | some values ↦ not (any_non_empty values) ]) ≡ false)
      ↔ ((vs : List Bytes) × (o ≡ some vs) × Any (λ v. is_empty (trim_space v) ≡ false) vs)
filled_iff none = (λ h. cc, λ h. cc h.1)
filled_iff (some vs) = (
  λ h. (vs, refl, (any_non_empty_iff vs).0 (ground arith)),
  λ h.
      let same : h.0 ≡ vs = cc h.1 in
      let any =
        (any_non_empty_iff vs).1 (subst (Any (λ v. is_empty (trim_space v) ≡ false)) same h.2) in
      rw any refl,
)

is_missing_iff : (form : Form) (name : Bytes) → (is_missing form name ≡ false) ↔ IsFilled form name
unfolding is_missing
is_missing_iff form name = filled_iff (form name)

-- No field is reported missing exactly when every required field of the form has a value that is
-- not blank.
pub required_fields_iff :
    (form : Form) (required : List Bytes)
    → (required_fields form required ≡ []) ↔ All (IsFilled form) required
unfolding required_fields
required_fields_iff form [] = (λ h. tt, λ h. refl)
required_fields_iff form (name ∷ names) =
    let rest = required_fields_iff form names in
    let this = is_missing_iff form name in
    elim (Bool-cases (is_missing form name)) [
      | inl e ↦ (λ h. ground (arith, h, e), λ h. absurd (cc (this.1 h.0, e)))
      | inr e ↦ rw e (λ h. (this.0 e, rest.0 h), λ h. rest.1 h.1)
    ]
