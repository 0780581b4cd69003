-- ===== src/Network/Detector.antt =====
-- `DuplicateMessageDetector` of packages/network/src/logic/DuplicateMessageDetector.ts. The list
-- `gaps` holds the array from its last element to its first, the order in which the loop walks.
-- The texts of the two errors are left out.
pub mod Scan
pub mod Drop
pub mod Mark
pub mod Once
pub mod Budget
pub mod Interval
mod Tests
use network_monorepo.Prelude.{
  ℕ, Bool, true, false, Option, none, some, List, [], ◌∷◌, ltb, length, if◌then◌else◌,
}
use network_monorepo.Network.NumberPair.{
  NumberPair, infinity, greater_than, equal_to, greater_than_or_equal,
}

-- A half-closed interval (lower, upper] of numbers not yet seen.
pub record Gap : Type 0 where
  pub lower : NumberPair
  pub upper : NumberPair

pub data Error : Type 0 where
  invalid_numbering gap_mismatch : Error

pub data Verdict {ℓ} (A : Type ℓ) : Type ℓ where
  ok : A → Verdict A
  throw : Error → Verdict A

pub record Detector : Type 0 where
  pub max_number_of_gaps : ℕ
  pub gaps : List Gap

unfoldable pub init : ℕ → Detector
init max_number_of_gaps = record { max_number_of_gaps = max_number_of_gaps; gaps = [] }

abbrev pub top : NumberPair
top = record { a = infinity; b = infinity }

-- What the loop replaces the gap (lower, upper] by, when (previous, number] lies in it.
unfoldable pub split : NumberPair → NumberPair → NumberPair → NumberPair → List Gap → List Gap
split previous number lower upper rest =
    if equal_to previous lower
    then if equal_to number upper then rest else record { lower = number; upper = upper } ∷ rest
    else if equal_to number upper
    then record { lower = lower; upper = previous } ∷ rest
    else record { lower = number; upper = upper }
      ∷ record { lower = lower; upper = previous }
      ∷ rest

abbrev pub keep : Gap → Verdict (Bool × List Gap) → Verdict (Bool × List Gap)
keep g (ok (b, gs)) = ok (b, g ∷ gs)
keep g (throw e) = throw e

-- The loop, with the result and the gaps after it.
unfoldable pub scan : NumberPair → NumberPair → List Gap → Verdict (Bool × List Gap)
unfolding split
scan previous number [] = ok (false, [])
scan previous number (g ∷ rest) =
    let later = keep g (scan previous number rest) in
    if greater_than_or_equal previous g.upper
    then ok (false, g ∷ rest)
    else if greater_than_or_equal previous g.lower
    then if greater_than number g.upper
      then throw gap_mismatch
      else ok (true, split previous number g.lower g.upper rest)
    else if greater_than number g.lower
    then throw gap_mismatch
    else later

-- `shift()`: the first element of the array is the last of the list.
unfoldable pub shift : List Gap → List Gap
shift [] = []
shift (g ∷ []) = []
shift (g ∷ h ∷ gs) = g ∷ shift (h ∷ gs)

unfoldable pub drop_lowest_gap_if_over_max_number_of_gaps : ℕ → List Gap → List Gap
unfolding shift
drop_lowest_gap_if_over_max_number_of_gaps max gaps =
    if ltb max (length gaps) then shift gaps else gaps

-- The part of `markAndCheck` below the loop's header: a hit drops the lowest gap if need be.
abbrev pub finish : ℕ → Verdict (Bool × List Gap) → Verdict (Bool × List Gap)
finish max (ok (true, gs)) = ok (true, drop_lowest_gap_if_over_max_number_of_gaps max gs)
finish max (ok (false, gs)) = ok (false, gs)
finish max (throw e) = throw e

-- The special case with no previous number: compare with the latest known number only.
unfoldable pub mark_latest : NumberPair → Gap → List Gap → Verdict (Bool × List Gap)
mark_latest number g rest =
    if greater_than number g.lower
    then ok (true, record g { lower = number } ∷ rest)
    else ok (false, g ∷ rest)

unfoldable pub mark_gaps : ℕ → Option NumberPair → NumberPair → List Gap → Verdict (Bool × List Gap)
unfolding scan mark_latest drop_lowest_gap_if_over_max_number_of_gaps
mark_gaps max previous number [] = ok (true, record { lower = number; upper = top } ∷ [])
mark_gaps max none number (g ∷ rest) = mark_latest number g rest
mark_gaps max (some previous) number (g ∷ rest) = finish max (scan previous number (g ∷ rest))

-- `previousNumber && previousNumber.greaterThanOrEqual(number)`
unfoldable pub is_invalid_numbering : Option NumberPair → NumberPair → Bool
is_invalid_numbering none number = false
is_invalid_numbering (some previous) number = greater_than_or_equal previous number

abbrev pub store : Detector → Verdict (Bool × List Gap) → Verdict (Bool × Detector)
store d (ok (b, gs)) = ok (b, record d { gaps = gs })
store d (throw e) = throw e

unfoldable pub mark_and_check :
    Detector → Option NumberPair → NumberPair → Verdict (Bool × Detector)
unfolding is_invalid_numbering mark_gaps
mark_and_check d previous number =
    if is_invalid_numbering previous number
    then throw invalid_numbering
    else store d (mark_gaps d.max_number_of_gaps previous number d.gaps)
