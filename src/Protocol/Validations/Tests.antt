-- ===== src/Protocol/Validations/Tests.antt =====
-- Valid values.
use network_monorepo.Prelude.{refl, [], ◌∷◌}
use network_monorepo.Protocol.Validations.{
  text, validate_is_not_null_or_undefined, validate_is_not_empty_string, validate_is_string,
}
use network_monorepo.Protocol.Validations.Accepted.{IsFilled, IsFilled-of_valid}

IsFilled-of_valid_example : IsFilled (text (97 ∷ []))
unfolding validate_is_not_empty_string validate_is_string validate_is_not_null_or_undefined
IsFilled-of_valid_example = IsFilled-of_valid (text (97 ∷ [])) refl
