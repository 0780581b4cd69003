-- ===== src/Network/Detector/Mark.antt =====
-- `markAndCheck` against the set of numbers not yet seen.
use network_monorepo.Prelude.{
  ℕ, ◌≤◌, ◌<◌, ◌≡◌, refl, Bool, true, false, Option, none, some, List, [], ◌∷◌, arith, Bool-cases,
  ◌⊎◌, inl, inr, length,
}
use network_monorepo.Network.NumberPair.{
  NumberPair, ◌≺◌, greater_than, ge-not-gt, gt_irrefl, gt_trans, gt_asymm, gt-of_lt-le,
}
use network_monorepo.Network.Detector.{
  Gap, Detector, Error, Verdict, ok, throw, invalid_numbering, gap_mismatch, top, scan, finish,
  mark_latest, mark_gaps, is_invalid_numbering, mark_and_check, store,
}
use network_monorepo.Network.Detector.Scan.{
  is_unseen, unseen-Below, Below-mono, Scanned, scan-Scanned, Topped, scan-Topped,
}
use network_monorepo.Network.Detector.Drop.{
  Valid, drop_lowest-unseen, drop_lowest-Valid, length-drop_lowest, drop_lowest-nonempty,
}

-- What an accepted number does to gaps that are not empty: it was unseen, it is seen from now on,
-- and so is all that was seen before.
pub record Accepts (n : NumberPair) (gs : List Gap) (max : ℕ) (gs' : List Gap) : Type 0 where
  pub was_unseen : is_unseen n gs ≡ true
  pub now_seen : is_unseen n gs' ≡ false
  pub stays_seen : (x : NumberPair) → is_unseen x gs ≡ false → is_unseen x gs' ≡ false
  pub nonempty : 0 < length gs'
  pub valid : Valid gs'
  pub bounded : length gs' ≤ max

-- What the call does to the gaps `gs` that are not empty, by its result.
abbrev Marked : Option NumberPair → NumberPair → List Gap → ℕ → Verdict (Bool × List Gap) → Type 0
Marked p n gs max (ok (true, gs')) = Accepts n gs max gs'
Marked none n gs max (ok (false, gs')) = gs' ≡ gs
Marked (some p) n gs max (ok (false, gs')) = (is_unseen n gs ≡ false) × (gs' ≡ gs)
Marked p n gs max (throw e) = e ≡ gap_mismatch

mark_latest-Marked :
    (n : NumberPair) (g : Gap) (gs : List Gap) (max : ℕ)
    → n ≺ top
    → Valid (g ∷ gs)
    → length (g ∷ gs) ≤ max
    → Marked none n (g ∷ gs) max (mark_latest n g gs)
unfolding mark_latest is_unseen
mark_latest-Marked n g gs max fin v b = elim (Bool-cases (greater_than n g.lower)) [
  | inr old ↦ rw old refl
  | inl new ↦ rw new (record {
    was_unseen = ground (arith, gt_asymm n top fin);
    now_seen = ground (arith, gt_irrefl n, older n new (gt_irrefl n));
    stays_seen = λ x h. ground (arith, older x new, gt_trans g.lower n x, gt_asymm x n);
    nonempty = omega arith;
    valid = (v.0, (ground arith, v.1.1, Below-mono g.lower n gs v.1.2 (gt_asymm g.lower n new)));
    bounded = b;
  })
]
  where
    older : (x : NumberPair) → g.lower ≺ n → greater_than n x ≡ false → is_unseen x gs ≡ false
    older x new h = unseen-Below x g.lower gs v.1.2 (gt-of_lt-le g.lower n x new h)

finish-Marked :
    (p n : NumberPair) (gs : List Gap) (max : ℕ) (r : Verdict (Bool × List Gap))
    → p ≺ n
    → 0 < max
    → length gs ≤ max
    → Scanned top p n gs r
    → Topped r
    → Marked (some p) n gs max (finish max r)
finish-Marked p n gs max (ok (true, [])) pn pos b s t = elim t [ ]
finish-Marked p n gs max (ok (true, g ∷ gs')) pn pos b s t = record {
  was_unseen = s.0;
  now_seen = drop_lowest-unseen max n (g ∷ gs') (ground (arith, s.2 n, gt_irrefl n, s.0));
  stays_seen = λ x h. drop_lowest-unseen max x (g ∷ gs') (ground (arith, s.2 x));
  nonempty = drop_lowest-nonempty max g gs' pos;
  valid = drop_lowest-Valid max (g ∷ gs') pos (t, s.1);
  bounded = length-drop_lowest max (g ∷ gs') (omega (arith, s.3));
}
finish-Marked p n gs max (ok (false, gs')) pn pos b s t = s
finish-Marked p n gs max (throw e) pn pos b s t = s

mark_gaps-Marked :
    (p : Option NumberPair) (n : NumberPair) (g : Gap) (gs : List Gap) (max : ℕ)
    → n ≺ top
    → is_invalid_numbering p n ≡ false
    → 0 < max
    → Valid (g ∷ gs)
    → length (g ∷ gs) ≤ max
    → Marked p n (g ∷ gs) max (mark_gaps max p n (g ∷ gs))
unfolding mark_gaps is_invalid_numbering
mark_gaps-Marked none n g gs max fin valid pos v b = mark_latest-Marked n g gs max fin v b
mark_gaps-Marked (some p) n g gs max fin numbered pos v b =
    let pn : p ≺ n = ground (arith, ge-not-gt p n) in
    finish-Marked p n (g ∷ gs) max (scan p n (g ∷ gs)) pn pos b
      (scan-Scanned top p n (g ∷ gs) pn v.1) (scan-Topped p n g gs fin v.0)

-- The state between two calls: the gaps are in order and at most `max_number_of_gaps`.
pub record IsSound (d : Detector) : Type 0 where
  pub positive : 0 < d.max_number_of_gaps
  pub valid : Valid d.gaps
  pub bounded : length d.gaps ≤ d.max_number_of_gaps

-- The ways in which a call ends.
pub data Effect (d : Detector) (p : Option NumberPair) (n : NumberPair)
    (r : Verdict (Bool × Detector)) : Type 0 where
  thrown : (e : Error) → r ≡ throw e → Effect d p n r
  first :
      d.gaps ≡ []
      → r ≡ ok (true, record d { gaps = record { lower = n; upper = top } ∷ [] })
      → Effect d p n r
  accepted :
      (gs : List Gap)
      → r ≡ ok (true, record d { gaps = gs })
      → Accepts n d.gaps d.max_number_of_gaps gs
      → Effect d p n r
  refused :
      r ≡ ok (false, d)
      → 0 < length d.gaps
      → (p ≡ none) ⊎ (is_unseen n d.gaps ≡ false)
      → Effect d p n r

store-Effect :
    (d : Detector) (p : Option NumberPair) (n : NumberPair) (r : Verdict (Bool × List Gap))
    → 0 < length d.gaps
    → Marked p n d.gaps d.max_number_of_gaps r
    → Effect d p n (store d r)
store-Effect d p n (ok (true, gs)) h m = accepted gs refl m
store-Effect d none n (ok (false, gs)) h m = refused (rw m) h (inl refl)
store-Effect d (some p) n (ok (false, gs)) h m = refused (rw m.1) h (inr m.0)
store-Effect d p n (throw e) h m = thrown e refl

gaps-Effect :
    (d : Detector) (p : Option NumberPair) (n : NumberPair) (gs : List Gap)
    → d.gaps ≡ gs
    → n ≺ top
    → is_invalid_numbering p n ≡ false
    → IsSound d
    → Effect d p n (store d (mark_gaps d.max_number_of_gaps p n gs))
unfolding mark_gaps
gaps-Effect d p n [] e fin fine v = first e refl
gaps-Effect d p n (g ∷ gs) e fin fine v = store-Effect d p n _ (rw e (omega arith)) (
    rw e (
      mark_gaps-Marked p n g gs d.max_number_of_gaps fin fine v.positive (rw e at v.valid)
        (rw e at v.bounded)))

pub mark_and_check-Effect :
    (d : Detector) (p : Option NumberPair) (n : NumberPair)
    → n ≺ top
    → IsSound d
    → Effect d p n (mark_and_check d p n)
unfolding mark_and_check
mark_and_check-Effect d p n fin v = elim (Bool-cases (is_invalid_numbering p n)) [
  | inl bad ↦ rw bad (thrown invalid_numbering refl)
  | inr fine ↦ rw fine (gaps-Effect d p n d.gaps refl fin fine v)
]
