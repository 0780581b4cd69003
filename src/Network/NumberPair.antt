-- ===== src/Network/NumberPair.antt =====
-- `NumberPair` of packages/network/src/logic/DuplicateMessageDetector.ts.
use network_monorepo.Prelude.{
  ℕ, ◌≡◌, Bool, true, false, not, ◌||◌, arith, ltb, if◌then◌else◌, Ordering,
}

-- The numbers that the detector meets: message numbers, and `Infinity`.
pub data Bound : Type 0 where
  number : ℕ → Bound
  infinity : Bound

-- `x > y`
abbrev pub above : Bound → Bound → Bool
above (number x) (number y) = ltb y x
above (number x) infinity = false
above infinity (number y) = true
above infinity infinity = false

pub record NumberPair : Type 0 where
  pub a : Bound
  pub b : Bound

-- The results 1, 0 and -1 are `gt`, `eq` and `lt`.
pub compare_to : NumberPair → NumberPair → Ordering
compare_to p q =
    if above p.a q.a
    then Ordering.gt
    else if above q.a p.a
    then Ordering.lt
    else if above p.b q.b
    then Ordering.gt
    else if above q.b p.b
    then Ordering.lt
    else Ordering.eq

unfoldable pub greater_than : NumberPair → NumberPair → Bool
unfolding compare_to
greater_than p q = elim (compare_to p q) [ Ordering.gt ↦ true | _ ↦ false ]

unfoldable pub equal_to : NumberPair → NumberPair → Bool
unfolding compare_to
equal_to p q = elim (compare_to p q) [ Ordering.eq ↦ true | _ ↦ false ]

unfoldable pub greater_than_or_equal : NumberPair → NumberPair → Bool
unfolding greater_than equal_to
greater_than_or_equal p q = greater_than p q || equal_to p q

-- The order is given by these facts, and nothing else is used of it.
infix 50 ◌≺◌
abbrev pub ◌≺◌ : NumberPair → NumberPair → Type 0
p ≺ q = greater_than q p ≡ true

module _ (p q : NumberPair) where
  pub ge-not-gt : greater_than_or_equal p q ≡ not (greater_than q p)
  unfolding greater_than_or_equal
  ge-not-gt = ground arith

  pub eq-of-equal_to : equal_to p q ≡ true → p ≡ q
  unfolding equal_to
  eq-of-equal_to h = ground arith

  pub gt_asymm : p ≺ q → greater_than p q ≡ false
  unfolding greater_than
  gt_asymm h = ground arith

  pub gt_connected : greater_than p q ≡ false → equal_to p q ≡ false → p ≺ q
  unfolding greater_than equal_to
  gt_connected h k = ground arith

  pub gt_connected_symm : greater_than q p ≡ false → equal_to p q ≡ false → q ≺ p
  unfolding greater_than equal_to
  gt_connected_symm h k = ground arith

pub gt_irrefl : (p : NumberPair) → greater_than p p ≡ false
unfolding greater_than
gt_irrefl p = ground arith

pub gt_trans : (p q r : NumberPair) → p ≺ q → q ≺ r → p ≺ r
unfolding greater_than
gt_trans p q r h k = ground arith

-- `p ≼ q ≺ r` and `p ≺ q ≼ r`, where `≼` is a test that failed.
pub gt-of_le-lt : (p q r : NumberPair) → greater_than p q ≡ false → q ≺ r → p ≺ r
unfolding greater_than
gt-of_le-lt p q r h k = ground arith

pub gt-of_lt-le : (p q r : NumberPair) → p ≺ q → greater_than q r ≡ false → p ≺ r
unfolding greater_than
gt-of_lt-le p q r h k = ground arith

pub ge_trans :
    (p q r : NumberPair)
    → greater_than p q ≡ false
    → greater_than q r ≡ false
    → greater_than p r ≡ false
unfolding greater_than
ge_trans p q r h k = ground arith
