-- ===== src/Network/Detector/Drop.antt =====
-- Dropping the lowest gap, against the set of unseen numbers (DuplicateMessageDetector.ts).
use network_monorepo.Prelude.{ℕ, suc, ◌≤◌, ◌<◌, ◌≡◌, refl, false, List, [], ◌∷◌, arith, length}
use network_monorepo.Network.NumberPair.{NumberPair}
use network_monorepo.Network.Detector.{
  Gap, shift, drop_lowest_gap_if_over_max_number_of_gaps as drop_lowest, top,
}
use network_monorepo.Network.Detector.Scan.{is_unseen, Below}

-- The gaps of a detector: in order, and the highest is open at the top.
abbrev pub Valid : List Gap → Type 0
Valid [] = Unit {0}
Valid (g ∷ gs) = (g.upper ≡ top) × Below top (g ∷ gs)

shift-Below : (b : NumberPair) (gs : List Gap) → Below b gs → Below b (shift gs)
unfolding shift
shift-Below b [] v = tt
shift-Below b (g ∷ []) v = tt
shift-Below b (g ∷ h ∷ gs) v = (v.0, v.1, shift-Below g.lower (h ∷ gs) v.2)

shift-unseen :
    (x : NumberPair) (gs : List Gap) → is_unseen x gs ≡ false → is_unseen x (shift gs) ≡ false
unfolding shift is_unseen
shift-unseen x [] h = refl
shift-unseen x (g ∷ []) h = refl
shift-unseen x (g ∷ k ∷ gs) h = ground (arith, shift-unseen x (k ∷ gs))

length-shift : (g : Gap) (gs : List Gap) → length (shift (g ∷ gs)) ≡ length gs
unfolding shift
length-shift g [] = refl
length-shift g (h ∷ gs) = ground (arith, length-shift h gs)

module _ (max : ℕ) where
  pub drop_lowest-unseen :
      (x : NumberPair) (gs : List Gap)
      → is_unseen x gs ≡ false
      → is_unseen x (drop_lowest max gs) ≡ false
  unfolding drop_lowest
  drop_lowest-unseen x gs h = ground (arith, shift-unseen x gs h)

  pub drop_lowest-Valid : (gs : List Gap) → 0 < max → Valid gs → Valid (drop_lowest max gs)
  unfolding drop_lowest shift
  drop_lowest-Valid [] pos v = ground arith
  drop_lowest-Valid (g ∷ []) pos v = ground arith
  drop_lowest-Valid (g ∷ h ∷ gs) pos v = ground (arith, shift-Below g.lower (h ∷ gs))

  pub length-drop_lowest : (gs : List Gap) → length gs ≤ suc max → length (drop_lowest max gs) ≤ max
  unfolding drop_lowest
  length-drop_lowest [] h = ground arith
  length-drop_lowest (g ∷ gs) h = ground (arith, length-shift g gs)

  pub drop_lowest-nonempty :
      (g : Gap) (gs : List Gap) → 0 < max → 0 < length (drop_lowest max (g ∷ gs))
  unfolding drop_lowest
  drop_lowest-nonempty g gs pos = ground (arith, length-shift g gs)
