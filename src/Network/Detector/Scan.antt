-- ===== src/Network/Detector/Scan.antt =====
-- The loop of `markAndCheck` against the set of numbers that the gaps leave unseen.
use network_monorepo.Prelude.{
  suc, ◌≤◌, ◌≡◌, refl, inl, inr, Bool, true, false, not, ◌&&◌, ◌||◌, List, [], ◌∷◌, arith,
  Bool-cases, length,
}
use network_monorepo.Network.NumberPair.{
  NumberPair, ◌≺◌, greater_than, ge-not-gt, eq-of-equal_to, gt_asymm, gt_irrefl, gt_connected,
  gt_connected_symm, gt_trans, gt-of_le-lt, gt-of_lt-le, ge_trans,
}
use network_monorepo.Network.Detector.{
  Gap, Verdict, ok, throw, split, scan, keep, gap_mismatch, top,
}

-- `x` lies in (lower, upper].
abbrev pub in_gap : NumberPair → NumberPair → NumberPair → Bool
in_gap x lower upper = greater_than x lower && not (greater_than x upper)

-- Some gap holds `x`: the detector has not seen it.
unfoldable pub is_unseen : NumberPair → List Gap → Bool
is_unseen x [] = false
is_unseen x (g ∷ gs) = in_gap x g.lower g.upper || is_unseen x gs

-- From the highest gap down: no gap is empty, and none ends above the start of the one above it.
abbrev pub Below : NumberPair → List Gap → Type 0
Below b [] = Unit {0}
Below b (g ∷ gs) = (g.lower ≺ g.upper) × (greater_than g.upper b ≡ false) × Below g.lower gs

pub Below-mono :
    (b c : NumberPair) (gs : List Gap) → Below b gs → greater_than b c ≡ false → Below c gs
Below-mono b c [] v h = tt
Below-mono b c (g ∷ gs) v h = (v.0, ge_trans g.upper b c v.1 h, v.2)

pub unseen-Below : (x b : NumberPair) (gs : List Gap) → Below b gs → b ≺ x → is_unseen x gs ≡ false
unfolding is_unseen
unseen-Below x b [] v h = refl
unseen-Below x b (g ∷ gs) v h =
    ground
      (arith, gt-of_le-lt g.upper b x, gt_trans g.lower g.upper x, unseen-Below x g.lower gs v.2)

split-unseen :
    (p n l u x : NumberPair) (gs : List Gap)
    → p ≺ n
    → greater_than l p ≡ false
    → greater_than n u ≡ false
    → Below l gs
    → is_unseen x (split p n l u gs)
      ≡ (is_unseen x (record { lower = l; upper = u } ∷ gs) && not (in_gap x p n))
unfolding is_unseen split
split-unseen p n l u x gs pn lp nu v = ground (
  arith,
  unseen-Below x l gs v,
  eq-of-equal_to p l,
  eq-of-equal_to n u,
  gt-of_le-lt l p x,
  gt_asymm l x,
  gt_trans l p x,
  gt-of_lt-le p x n,
  gt-of_lt-le x n u,
  gt-of_lt-le p n u,
  gt-of_le-lt n u x,
  gt_asymm n x,
  gt_asymm x p,
  gt_asymm u x,
  gt_trans p n x,
  gt_trans x p n,
)

split-Below :
    (p n l u b : NumberPair) (gs : List Gap)
    → p ≺ n
    → greater_than l p ≡ false
    → greater_than n u ≡ false
    → greater_than u b ≡ false
    → Below l gs
    → Below b (split p n l u gs)
unfolding split
split-Below p n l u b gs pn lp nu ub v = ground (
  arith,
  eq-of-equal_to p l,
  eq-of-equal_to n u,
  gt_connected_symm p l,
  gt_connected n u,
  gt_trans p n u,
  gt_asymm p n pn,
  gt_asymm p u,
  ge_trans p u b,
  gt_asymm l n,
  Below-mono l b gs v,
  Below-mono l n gs v,
  gt-of_le-lt l p n,
  gt_asymm l u,
  ge_trans l u b,
)

length-split :
    (p n l u : NumberPair) (gs : List Gap) → length (split p n l u gs) ≤ suc (suc (length gs))
unfolding split
length-split p n l u gs = ground arith

-- What the loop does to the gaps, by its result.
abbrev pub Scanned :
    NumberPair → NumberPair → NumberPair → List Gap → Verdict (Bool × List Gap) → Type 0
Scanned b p n gs (ok (true, gs')) =
    (is_unseen n gs ≡ true)
    × Below b gs'
    × ((x : NumberPair) → is_unseen x gs' ≡ (is_unseen x gs && not (in_gap x p n)))
    × (length gs' ≤ suc (length gs))
Scanned b p n gs (ok (false, gs')) = (is_unseen n gs ≡ false) × (gs' ≡ gs)
Scanned b p n gs (throw e) = e ≡ gap_mismatch

keep-Scanned :
    (b p n : NumberPair) (g : Gap) (gs : List Gap) (r : Verdict (Bool × List Gap))
    → Below b (g ∷ gs)
    → greater_than n g.lower ≡ false
    → Scanned g.lower p n gs r
    → Scanned b p n (g ∷ gs) (keep g r)
unfolding is_unseen
keep-Scanned b p n g gs (ok (true, gs')) v h s = (
  ground arith,
  (v.0, v.1, s.1),
  λ x. ground (arith, s.2 x, gt-of_le-lt n g.lower x, gt_asymm n x, gt-of_lt-le g.lower x n),
  omega (arith, s.3),
)
keep-Scanned b p n g gs (ok (false, gs')) v h s = (ground arith, ground arith)
keep-Scanned b p n g gs (throw e) v h s = s

-- The loop finds the number in a gap and removes (previous, number] from what is unseen, or
-- leaves the gaps alone because the number has been seen, or reports an overlap.
pub scan-Scanned :
    (b p n : NumberPair) (gs : List Gap) → p ≺ n → Below b gs → Scanned b p n gs (scan p n gs)
unfolding scan is_unseen
scan-Scanned b p n [] pn v = (refl, refl)
scan-Scanned b p n (g ∷ gs) pn v = elim (Bool-cases (greater_than g.upper p)) [
  | inr past ↦ rw (ge-not-gt p g.upper, past) (unseen-Below n p (g ∷ gs) (v.0, past, v.2) pn, refl)
  | inl inside ↦
      rw (ge-not-gt p g.upper, inside)
        (elim (Bool-cases (greater_than g.lower p)) [
          | inl under ↦
              rw (ge-not-gt p g.lower, under)
                (elim (Bool-cases (greater_than n g.lower)) [
                  | inl over ↦ rw over refl
                  | inr low ↦ rw low (
                      keep-Scanned b p n g gs (scan p n gs) v low
                        (scan-Scanned g.lower p n gs pn v.2))
                ])
          | inr from ↦
              rw (ge-not-gt p g.lower, from)
                (elim (Bool-cases (greater_than n g.upper)) [
                  | inl over ↦ rw over refl
                  | inr fits ↦ rw fits (
                    ground (arith, gt-of_le-lt g.lower p n),
                    split-Below p n g.lower g.upper b gs pn from fits v.1 v.2,
                    λ x. split-unseen p n g.lower g.upper x gs pn from fits v.2,
                    length-split p n g.lower g.upper gs,
                  )
                ])
        ])
]

-- The highest gap stays open at the top, and there is one.
abbrev pub Topped : Verdict (Bool × List Gap) → Type 0
Topped (ok (true, [])) = ⊥
Topped (ok (true, g ∷ gs)) = g.upper ≡ top
Topped r = Unit {0}

keep-Topped : (g : Gap) (r : Verdict (Bool × List Gap)) → g.upper ≡ top → Topped (keep g r)
keep-Topped g (ok (true, gs)) h = h
keep-Topped g (ok (false, gs)) h = tt
keep-Topped g (throw e) h = tt

split-Topped :
    (p n l : NumberPair) (gs : List Gap) → n ≺ top → Topped (ok (true, split p n l top gs))
unfolding split
split-Topped p n l gs fin = ground (arith, eq-of-equal_to n top, gt_irrefl top)

pub scan-Topped :
    (p n : NumberPair) (g : Gap) (gs : List Gap)
    → n ≺ top
    → g.upper ≡ top
    → Topped (scan p n (g ∷ gs))
unfolding scan
scan-Topped p n g gs fin h =
    ground (arith, keep-Topped g (scan p n gs) h, split-Topped p n g.lower gs fin)
