-- ===== src/Transport/Registry.antt =====
-- core/transport/registry.go: the registry of transports, and the validation of a transport block
-- in core/config/config.go.
use caddy_formward.Base.{Bool, List, [], ◌∷◌, ◌++◌, Option, none, some, if◌then◌else◌}
use caddy_formward.Base.Int.{ℤ}
use caddy_formward.Text.{Bytes, bytes_eq, is_empty}

-- A value of the settings map: a number is what coerceInt makes of it.
pub data Setting : Type 0 where
  string : Bytes → Setting
  number : ℤ → Setting
  boolean : Bool → Setting
  other : Setting

abbrev pub Settings : Type 0
Settings = Bytes → Option Setting

pub data SettingsError : Type 0 where
  type_required : SettingsError
  unknown_type : (type' : Bytes) (known : List Bytes) → SettingsError
  setting_required : (transport setting : Bytes) → SettingsError
  bad_port : Setting → SettingsError

-- `Registration`: its type and its validator.
abbrev pub Registration : Type 0
Registration = Bytes × (Settings → Option SettingsError)

abbrev pub Registry : Type 0
Registry = List Registration

-- `Lookup`
unfoldable pub lookup_type : Bytes → Registry → Option (Settings → Option SettingsError)
lookup_type type' [] = none
lookup_type type' ((t, validate) ∷ registry) =
    if bytes_eq t type' then some validate else lookup_type type' registry

-- The loop of KnownTypes, before the sorting.
abbrev pub types_of : Registry → List Bytes
types_of [] = []
types_of ((t, validate) ∷ registry) = t ∷ types_of registry

-- `Register`, of a registration with a validator and a builder: `none` is a panic.
unfoldable pub register_type : Registration → Registry → Option Registry
unfolding lookup_type
register_type (type', validate) registry =
    if is_empty type' then none else elim (lookup_type type' registry) [
      | none ↦ some (registry ++ ((type', validate) ∷ []))
      | some v ↦ none
    ]

pub record TransportConfig : Type 0 where
  pub type : Bytes
  pub settings : Settings

-- `TransportConfig.Validate`
unfoldable pub validate_transport :
    (sort_strings : List Bytes → List Bytes) → Registry → TransportConfig → Option SettingsError
unfolding lookup_type
validate_transport sort_strings registry t =
    if is_empty t.type then some type_required else elim (lookup_type t.type registry) [
      | none ↦ some (unknown_type t.type (sort_strings (types_of registry)))
      | some validate ↦ validate t.settings
    ]
