-- ===== src/Protocol/MessageRef.antt =====
-- `MessageRef` of packages/protocol/src/protocol/message_layer/MessageRef.ts.
use network_monorepo.Prelude.{
  ℕ, ◌≡◌, refl, Bool, true, false, List, [], ◌∷◌, Option, none, some, arith, ltb, if◌then◌else◌,
  Ordering,
}

pub record MessageRef : Type 0 where
  pub timestamp : ℕ
  pub sequence_number : ℕ

-- The results -1, 0 and 1 are `lt`, `eq` and `gt`.
unfoldable pub compare_to : MessageRef → MessageRef → Ordering
compare_to r other =
    if ltb r.timestamp other.timestamp
    then Ordering.lt
    else if ltb other.timestamp r.timestamp
    then Ordering.gt
    else if ltb r.sequence_number other.sequence_number
    then Ordering.lt
    else if ltb other.sequence_number r.sequence_number
    then Ordering.gt
    else Ordering.eq

-- The tests `compareTo(other) < 0`, `<= 0` and `=== 0`.
abbrev pub is_before : MessageRef → MessageRef → Bool
is_before r other = elim (compare_to r other) [ Ordering.lt ↦ true | _ ↦ false ]

abbrev pub is_at_most : MessageRef → MessageRef → Bool
is_at_most r other = elim (compare_to r other) [ Ordering.gt ↦ false | _ ↦ true ]

abbrev pub is_at : MessageRef → MessageRef → Bool
is_at r other = elim (compare_to r other) [ Ordering.eq ↦ true | _ ↦ false ]

unfoldable pub to_array : MessageRef → List ℕ
to_array r = r.timestamp ∷ r.sequence_number ∷ []

-- The first two elements; a missing one fails the validation of the constructor, but for a
-- missing sequence number, which the types of the package rule out.
unfoldable pub from_array : List ℕ → Option MessageRef
from_array [] = none
from_array (t ∷ []) = none
from_array (t ∷ n ∷ rest) = some (record { timestamp = t; sequence_number = n })

pub from_array-to_array : (r : MessageRef) → from_array (to_array r) ≡ some r
unfolding from_array to_array
from_array-to_array r = refl

module _ (p q : MessageRef) where
  pub eq-of-is_at : is_at p q ≡ true → p ≡ q
  unfolding compare_to
  eq-of-is_at h = ground arith

  pub is_before-not : is_at_most p q ≡ false → is_before q p ≡ true
  unfolding compare_to
  is_before-not h = ground arith

  pub not-is_at_most : is_before q p ≡ true → is_at_most p q ≡ false
  unfolding compare_to
  not-is_at_most h = ground arith

  pub not-is_at : is_before p q ≡ true → is_at p q ≡ false
  unfolding compare_to
  not-is_at h = ground arith

  pub not-is_at_symm : is_before p q ≡ true → is_at q p ≡ false
  unfolding compare_to
  not-is_at_symm h = ground arith

  pub is_before-of_ne : is_before p q ≡ false → is_at p q ≡ false → is_before q p ≡ true
  unfolding compare_to
  is_before-of_ne h k = ground arith

pub is_at_symm : (p q : MessageRef) → is_at p q ≡ false → is_at q p ≡ false
unfolding compare_to
is_at_symm p q h = ground arith

pub is_before_trans :
    (p q r : MessageRef) → is_before p q ≡ true → is_before q r ≡ true → is_before p r ≡ true
unfolding compare_to
is_before_trans p q r h k = ground arith

pub is_at_refl : (p : MessageRef) → is_at p p ≡ true
unfolding compare_to
is_at_refl p = ground arith

pub is_before_irrefl : (p : MessageRef) → is_before p p ≡ false
unfolding compare_to
is_before_irrefl p = ground arith
