-- ===== src/Network/Detector/Interval.antt =====
-- What an accepted call of `markAndCheck` removes from the set of unseen numbers.
use network_monorepo.Prelude.{
  ℕ, ◌≤◌, ◌<◌, ◌≡◌, subst, Bool, true, false, not, ◌&&◌, some, List, [], ◌∷◌, arith, Bool-cases,
  inl, inr, length,
}
use network_monorepo.Network.NumberPair.{NumberPair, ◌≺◌, ge-not-gt}
use network_monorepo.Network.Detector.{
  Gap, Detector, Verdict, ok, throw, top, scan, finish, store, mark_gaps, is_invalid_numbering,
  mark_and_check, drop_lowest_gap_if_over_max_number_of_gaps as drop_lowest,
}
use network_monorepo.Network.Detector.Scan.{in_gap, is_unseen, Scanned, scan-Scanned}
use network_monorepo.Network.Detector.Drop.{Valid}
use network_monorepo.Network.Detector.Mark.{IsSound}

abbrev Exact : NumberPair → NumberPair → List Gap → Verdict (Bool × List Gap) → Type 0
Exact p n gs (ok (true, gs')) =
    (x : NumberPair) → is_unseen x gs' ≡ (is_unseen x gs && not (in_gap x p n))
Exact p n gs r = Unit {0}

drop_lowest-room : (max : ℕ) (gs : List Gap) → length gs ≤ max → drop_lowest max gs ≡ gs
unfolding drop_lowest
drop_lowest-room max gs h = ground arith

finish-Exact :
    (b p n : NumberPair) (gs : List Gap) (max : ℕ) (r : Verdict (Bool × List Gap))
    → length gs < max
    → Scanned b p n gs r
    → Exact p n gs (finish max r)
finish-Exact b p n gs max (ok (true, gs')) room s =
    rw (drop_lowest-room max gs' (omega (arith, s.3))) s.2
finish-Exact b p n gs max (ok (false, gs')) room s = tt
finish-Exact b p n gs max (throw e) room s = tt

abbrev Result : NumberPair → NumberPair → Detector → Verdict (Bool × Detector) → Type 0
Result p n d (ok (true, d')) =
    (x : NumberPair) → is_unseen x d'.gaps ≡ (is_unseen x d.gaps && not (in_gap x p n))
Result p n d r = Unit {0}

store-Result :
    (p n : NumberPair) (d : Detector) (r : Verdict (Bool × List Gap))
    → Exact p n d.gaps r
    → Result p n d (store d r)
store-Result p n d (ok (true, gs)) h = h
store-Result p n d (ok (false, gs)) h = tt
store-Result p n d (throw e) h = tt

mark_gaps-Exact :
    (p n : NumberPair) (gs : List Gap) (max : ℕ)
    → p ≺ n
    → 0 < length gs
    → length gs < max
    → Valid gs
    → Exact p n gs (mark_gaps max (some p) n gs)
unfolding mark_gaps
mark_gaps-Exact p n [] max pn full room v = absurd (omega arith)
mark_gaps-Exact p n (g ∷ gs) max pn full room v =
    finish-Exact top p n (g ∷ gs) max (scan p n (g ∷ gs)) room
      (scan-Scanned top p n (g ∷ gs) pn v.1)

mark_and_check-Result :
    (d : Detector) (p n : NumberPair)
    → IsSound d
    → 0 < length d.gaps
    → length d.gaps < d.max_number_of_gaps
    → Result p n d (mark_and_check d (some p) n)
unfolding mark_and_check is_invalid_numbering
mark_and_check-Result d p n v full room = elim (Bool-cases (is_invalid_numbering (some p) n)) [
  | inl bad ↦ rw bad tt
  | inr fine ↦ rw fine (
      store-Result p n d _ (
        mark_gaps-Exact p n d.gaps d.max_number_of_gaps (ground (arith, ge-not-gt p n)) full room
          v.valid))
]

-- With room for one more gap, an accepted call with a previous number removes exactly the numbers
-- of (previous, number] from those that are unseen.
pub unseen-mark_and_check :
    (d d' : Detector) (p n x : NumberPair)
    → IsSound d
    → 0 < length d.gaps
    → length d.gaps < d.max_number_of_gaps
    → mark_and_check d (some p) n ≡ ok (true, d')
    → is_unseen x d'.gaps ≡ (is_unseen x d.gaps && not (in_gap x p n))
unseen-mark_and_check d d' p n x v full room e =
    (subst (Result p n d) e (mark_and_check-Result d p n v full room)) x
