-- ===== src/Spam/Size.antt =====
-- core/spam/spam.go: ParseSize, with strconv.ParseInt in base 10 and the wrap-around of its product.
use mathlib.Core.List.{reverse}
use caddy_formward.Base.{
  ℕ, ◌+◌, ◌-◌, ◌*◌, ◌^◌, Bool, true, false, ◌&&◌, [], ◌∷◌, Option, none, some, ltb, leb, ◌==◌,
  if◌then◌else◌, length, take,
}
use caddy_formward.Base.Int.{ℤ, pos, negsuc, wrap64}
use caddy_formward.Base.Results.{Result, ok, err}
use caddy_formward.Text.{Bytes, text, is_empty, has_prefix, to_upper, trim_space}

-- The digits after the number so far.
unfoldable pub parse_digits : ℕ → Bytes → Option ℕ
parse_digits n [] = some n
parse_digits n (c ∷ s) =
    let rest = parse_digits (10 * n + (c - 0x30)) s in
    if leb 0x30 c && leb c 0x39 then rest else none

unfoldable pub parse_uint : Bytes → Option ℕ
unfolding parse_digits
parse_uint [] = none
parse_uint (c ∷ s) = parse_digits 0 (c ∷ s)

unfoldable pub in_range : Bool → Option ℕ → Option ℤ
in_range negative none = none
in_range false (some n) = if ltb n (2 ^ 63) then some (pos n) else none
in_range true (some n) =
    if ltb n 1 then some (pos 0) else if leb n (2 ^ 63) then some (negsuc (n - 1)) else none

-- `strconv.ParseInt(s, 10, 64)`
unfoldable pub parse_int : Bytes → Option ℤ
unfolding parse_uint in_range
parse_int [] = none
parse_int (c ∷ s) =
    if c == 0x2d
    then in_range true (parse_uint s)
    else if c == 0x2b
    then in_range false (parse_uint s)
    else in_range false (parse_uint (c ∷ s))

-- `strings.HasSuffix`
unfoldable pub has_suffix : Bytes → Bytes → Bool
has_suffix s suffix = has_prefix (reverse s) (reverse suffix)

pub data SizeError : Type 0 where
  not_a_number : SizeError
  negative : ℤ → SizeError

-- The switch on the unit: what is left of the text, and the multiplier.
unfoldable pub unit_of : Bytes → Bytes × ℕ
unfolding text has_suffix
unit_of upper =
    if has_suffix upper (text "GB")
    then (take (length upper - 2) upper, 1024 * 1024 * 1024)
    else if has_suffix upper (text "MB")
    then (take (length upper - 2) upper, 1024 * 1024)
    else if has_suffix upper (text "KB")
    then (take (length upper - 2) upper, 1024)
    else if has_suffix upper (text "B")
    then (take (length upper - 1) upper, 1)
    else (upper, 1)

-- The end of ParseSize, on the number and the multiplier.
unfoldable pub scaled : Option ℤ → ℕ → Result SizeError ℤ
scaled none m = err not_a_number
scaled (some (negsuc n)) m = err (negative (negsuc n))
scaled (some (pos n)) m = ok (wrap64 (n * m))

-- `ParseSize`
unfoldable pub parse_size : Bytes → Result SizeError ℤ
unfolding unit_of parse_int scaled
parse_size s =
    let (number, multiplier) = unit_of (to_upper (trim_space s)) in
    if is_empty (trim_space s)
    then ok (pos 0)
    else scaled (parse_int (trim_space number)) multiplier
