-- ===== src/Protocol/Validations/Accepted.antt =====
-- What the validators of numbers and strings accept.
use network_monorepo.Prelude.{ℕ, ◌≡◌, true, false, [], ◌∷◌, arith, Text}
use network_monorepo.Protocol.Validations.{
  Value, undefined, null, text, natural, negative, fraction, array, other,
  validate_is_not_null_or_undefined, validate_is_string, validate_is_not_empty_string,
  validate_is_integer, validate_is_not_negative_integer,
}

-- The natural numbers, and the strings with a character.
pub data IsNatural : Value → Type 0 where
  a_natural : (n : ℕ) → IsNatural (natural n)

pub data IsFilled : Value → Type 0 where
  a_text : (x : ℕ) (t : Text) → IsFilled (text (x ∷ t))

-- Without null, `validate_is_not_negative_integer` returns only for natural numbers.
pub IsNatural-of_valid : (v : Value) → validate_is_not_negative_integer false v ≡ true → IsNatural v
unfolding validate_is_not_negative_integer validate_is_integer validate_is_not_null_or_undefined
IsNatural-of_valid undefined h = absurd (ground arith)
IsNatural-of_valid null h = absurd (ground arith)
IsNatural-of_valid (text t) h = absurd (ground arith)
IsNatural-of_valid (natural n) h = a_natural n
IsNatural-of_valid (negative n) h = absurd (ground arith)
IsNatural-of_valid fraction h = absurd (ground arith)
IsNatural-of_valid (array xs) h = absurd (ground arith)
IsNatural-of_valid (other n) h = absurd (ground arith)

-- Without null, `validate_is_not_empty_string` returns only for strings with a character.
pub IsFilled-of_valid : (v : Value) → validate_is_not_empty_string false v ≡ true → IsFilled v
unfolding validate_is_not_empty_string validate_is_string validate_is_not_null_or_undefined
IsFilled-of_valid undefined h = absurd (ground arith)
IsFilled-of_valid null h = absurd (ground arith)
IsFilled-of_valid (text []) h = absurd (ground arith)
IsFilled-of_valid (text (x ∷ t)) h = a_text x t
IsFilled-of_valid (natural n) h = absurd (ground arith)
IsFilled-of_valid (negative n) h = absurd (ground arith)
IsFilled-of_valid fraction h = absurd (ground arith)
IsFilled-of_valid (array xs) h = absurd (ground arith)
IsFilled-of_valid (other n) h = absurd (ground arith)
