-- ===== src/Network/Detector/Tests.antt =====
-- The detector on small inputs.
use network_monorepo.Prelude.{ℕ, ◌≡◌, refl, ◌≤◌, true, false, none, some, List, [], ◌∷◌, arith}
use network_monorepo.Network.NumberPair.{NumberPair, number, greater_than, greater_than_or_equal}
use network_monorepo.Network.Detector.{Gap, Detector, ok, throw, top, gap_mismatch, mark_and_check}
use network_monorepo.Network.Detector.Scan.{is_unseen}
use network_monorepo.Network.Detector.Mark.{IsSound}
use network_monorepo.Network.Detector.Once
use network_monorepo.Network.Detector.Once.{after, Message, times_accepted}
use network_monorepo.Network.Detector.Interval

abbrev at : ℕ → NumberPair
at t = record { a = number t; b = number 0 }

abbrev gap : ℕ → ℕ → Gap
gap l u = record { lower = at l; upper = at u }

-- 1 to 5 and 8 to 10 have been seen, and so has all below.
abbrev holes : Detector
holes = record {
  max_number_of_gaps = 3;
  gaps = record { lower = at 10; upper = top } ∷ gap 5 7 ∷ [];
}

split_in_two :
    mark_and_check holes (some (at 12)) (at 13)
    ≡ ok (
      true,
      record holes { gaps = record { lower = at 13; upper = top } ∷ gap 10 12 ∷ gap 5 7 ∷ [] },
    )
unfolding mark_and_check greater_than_or_equal
split_in_two = refl

duplicate : mark_and_check holes (some (at 8)) (at 9) ≡ ok (false, holes)
unfolding mark_and_check greater_than_or_equal
duplicate = refl

overlap : mark_and_check holes (some (at 6)) (at 9) ≡ throw gap_mismatch
unfolding mark_and_check greater_than_or_equal
overlap = refl

holes-IsSound : IsSound holes
unfolding greater_than
holes-IsSound = record {
  positive = omega arith;
  valid = (refl, (refl, refl, (refl, refl, tt)));
  bounded = omega arith;
}

abbrev messages : List Message
messages = (some (at 12), at 13) ∷ (none, at 13) ∷ (some (at 5), at 6) ∷ (some (at 12), at 13) ∷ []

mark_and_check-IsSound_example : IsSound (after holes (mark_and_check holes (some (at 12)) (at 13)))
unfolding greater_than
mark_and_check-IsSound_example =
    Once.mark_and_check-IsSound holes (some (at 12)) (at 13) refl holes-IsSound

mark_and_check-unseen_example : false ≡ is_unseen (at 9) holes.gaps
unfolding mark_and_check greater_than greater_than_or_equal
mark_and_check-unseen_example =
    Once.mark_and_check-unseen holes holes (at 8) (at 9) false refl holes-IsSound (omega arith) refl

times_accepted-le-one_example : times_accepted (at 13) holes messages ≤ 1
unfolding greater_than
times_accepted-le-one_example =
    Once.times_accepted-le-one (at 13) holes messages (refl, (refl, (refl, (refl, tt))))
      holes-IsSound

unseen-mark_and_check_example :
    is_unseen (at 6) (record { lower = at 10; upper = top } ∷ gap 6 7 ∷ []) ≡ false
unfolding mark_and_check is_unseen greater_than_or_equal
unseen-mark_and_check_example =
    Interval.unseen-mark_and_check holes
      (record holes { gaps = record { lower = at 10; upper = top } ∷ gap 6 7 ∷ [] }) (at 5) (at 6)
      (at 6) holes-IsSound (omega arith) (omega arith) refl
