-- ===== src/Protocol/Validations.antt =====
-- The validators of packages/protocol/src/utils/validations.ts: `true` is a return, `false` a
-- ValidationError. What a value is an instance of, and whether it equals one of some values, are
-- parameters.
pub mod Accepted
mod Tests
use network_monorepo.Prelude.{
  ℕ, Bool, true, false, not, ◌||◌, ◌&&◌, List, [], ◌∷◌, any, length, if◌then◌else◌, ◌==◌, Text,
}

-- A value of unknown type.
pub data Value : Type 0 where
  undefined null : Value
  text : Text → Value
  natural : ℕ → Value
  -- an integer below zero
  negative : ℕ → Value
  -- a number that is no integer
  fraction : Value
  array : List ℕ → Value
  other : ℕ → Value

-- `varValue == null`
abbrev pub is_nullish : Value → Bool
is_nullish undefined = true
is_nullish null = true
is_nullish _ = false

-- `typeof varValue === 'string'`
abbrev pub is_text : Value → Bool
is_text (text t) = true
is_text _ = false

-- `Number.isInteger(varValue)`
abbrev pub is_integer : Value → Bool
is_integer (natural n) = true
is_integer (negative n) = true
is_integer _ = false

-- `varValue < 0`
abbrev pub is_below_zero : Value → Bool
is_below_zero (negative n) = true
is_below_zero _ = false

-- `Array.isArray(varValue)`
abbrev pub is_array : Value → Bool
is_array (array xs) = true
is_array _ = false

abbrev pub is_empty_text : Value → Bool
is_empty_text (text []) = true
is_empty_text _ = false

unfoldable pub validate_is_not_null_or_undefined : Value → Bool
validate_is_not_null_or_undefined undefined = false
validate_is_not_null_or_undefined v = not (is_nullish v)

unfoldable pub validate_is_string : Bool → Value → Bool
validate_is_string allow_null v =
    if allow_null && is_nullish v
    then true
    else if validate_is_not_null_or_undefined v
    then is_text v
    else false

unfoldable pub validate_is_not_empty_string : Bool → Value → Bool
validate_is_not_empty_string allow_null v =
    if allow_null && is_nullish v
    then true
    else if validate_is_string false v
    then not (is_empty_text v)
    else false

unfoldable pub validate_is_integer : Bool → Value → Bool
validate_is_integer allow_null v =
    if allow_null && is_nullish v
    then true
    else if validate_is_not_null_or_undefined v
    then is_integer v
    else false

unfoldable pub validate_is_not_negative_integer : Bool → Value → Bool
validate_is_not_negative_integer allow_null v =
    if allow_null && is_nullish v
    then true
    else if validate_is_integer false v
    then not (is_below_zero v)
    else false

unfoldable pub validate_is_array : Bool → Value → Bool
validate_is_array allow_null v =
    if allow_null && is_nullish v
    then true
    else if validate_is_not_null_or_undefined v
    then is_array v
    else false

unfoldable pub validate_is_type : (Value → Bool) → Bool → Value → Bool
validate_is_type is_instance allow_null v =
    if allow_null && is_nullish v then true else is_instance v

unfoldable pub validate_is_one_of : (Value → Value → Bool) → List Value → Bool → Value → Bool
validate_is_one_of is_same valid_values allow_null v =
    if allow_null && is_nullish v
    then true
    else if validate_is_not_null_or_undefined v
    then any (is_same v) valid_values
    else false
