-- ===== src/Network/Detector/Once.antt =====
-- A run of the detector over messages in any order.
use network_monorepo.Prelude.{
  ℕ, ◌+◌, ◌≤◌, ◌<◌, ◌≡◌, refl, sym, subst, ap, ◌&&◌, inl, inr, Bool, true, false, Option, some,
  List, [], ◌∷◌, arith, Bool-cases, length, All, if◌then◌else◌,
}
use network_monorepo.Network.NumberPair.{NumberPair, ◌≺◌, equal_to, eq-of-equal_to, gt_irrefl}
use network_monorepo.Network.Detector.{Detector, Verdict, ok, throw, top, mark_and_check}
use network_monorepo.Network.Detector.Scan.{is_unseen}
use network_monorepo.Network.Detector.Mark.{
  IsSound, thrown, first, accepted, refused, mark_and_check-Effect,
}

-- A call leaves the detector as it was if it throws.
abbrev pub after : Detector → Verdict (Bool × Detector) → Detector
after d (ok (b, d')) = d'
after d (throw e) = d

abbrev pub answer : Verdict (Bool × Detector) → Bool
answer (ok (b, d)) = b
answer (throw e) = false

abbrev pub Message : Type 0
Message = Option NumberPair × NumberPair

-- The gaps stay in order, apart and within the bound, whatever the call answers.
pub mark_and_check-IsSound :
    (d : Detector) (p : Option NumberPair) (n : NumberPair)
    → n ≺ top
    → IsSound d
    → IsSound (after d (mark_and_check d p n))
mark_and_check-IsSound d p n fin v = elim (mark_and_check-Effect d p n fin v) [
  | thrown why h ↦ rw h v
  | first h k ↦ rw k (record {
    positive = v.positive;
    valid = (refl, (fin, gt_irrefl top, tt));
    bounded = v.positive;
  })
  | accepted gs h a ↦ rw h (record { positive = v.positive; valid = a.valid; bounded = a.bounded })
  | refused h k o ↦ rw h v
]

-- With a previous number, a call that does not throw answers whether the number was unseen.
pub mark_and_check-unseen :
    (d d' : Detector) (p n : NumberPair) (b : Bool)
    → n ≺ top
    → IsSound d
    → 0 < length d.gaps
    → mark_and_check d (some p) n ≡ ok (b, d')
    → b ≡ is_unseen n d.gaps
mark_and_check-unseen d d' p n b fin v full e = elim (mark_and_check-Effect d (some p) n fin v) [
  | thrown why h ↦ absurd (ground arith)
  | first h k ↦ absurd (omega (arith, ap length h))
  | accepted gs h a ↦ ground (arith, a.was_unseen)
  | refused h k (inl o) ↦ absurd (ground arith)
  | refused h k (inr o) ↦ ground arith
]

-- `n` has been seen, and the detector is past its first message.
pub record HasSeen (n : NumberPair) (d : Detector) : Type 0 where
  pub sound : IsSound d
  pub nonempty : 0 < length d.gaps
  pub seen : is_unseen n d.gaps ≡ false

pub HasSeen-step :
    (x : NumberPair) (d : Detector) (p : Option NumberPair) (n : NumberPair)
    → n ≺ top
    → HasSeen x d
    → HasSeen x (after d (mark_and_check d p n))
HasSeen-step x d p n fin s =
    let v = mark_and_check-IsSound d p n fin s.sound in
    elim (mark_and_check-Effect d p n fin s.sound) [
      | thrown why h ↦ rw h s
      | first h k ↦ absurd (omega (arith, s.nonempty, ap length h))
      | accepted gs h a ↦
          rw h (record { sound = rw h at v; nonempty = a.nonempty; seen = a.stays_seen x s.seen })
      | refused h k o ↦ rw h s
    ]

-- An answer `true` makes the number seen.
pub HasSeen-accepted :
    (d : Detector) (p : Option NumberPair) (n : NumberPair)
    → n ≺ top
    → IsSound d
    → answer (mark_and_check d p n) ≡ true
    → HasSeen n (after d (mark_and_check d p n))
unfolding is_unseen
HasSeen-accepted d p n fin v hit =
    let v' = mark_and_check-IsSound d p n fin v in
    elim (mark_and_check-Effect d p n fin v) [
      | thrown why h ↦ absurd (cc (ap answer h))
      | first h k ↦ rw k (record {
        sound = rw k at v';
        nonempty = omega arith;
        seen = ground (arith, gt_irrefl n);
      })
      | accepted gs h a ↦
          rw h (record { sound = rw h at v'; nonempty = a.nonempty; seen = a.now_seen })
      | refused h k o ↦ absurd (cc (ap answer h))
    ]

-- A seen number is not accepted, with or without a previous number.
pub HasSeen-answer :
    (d : Detector) (p : Option NumberPair) (n : NumberPair)
    → n ≺ top
    → HasSeen n d
    → answer (mark_and_check d p n) ≡ false
HasSeen-answer d p n fin s = elim (mark_and_check-Effect d p n fin s.sound) [
  | thrown why h ↦ rw h refl
  | first h k ↦ absurd (omega (arith, s.nonempty, ap length h))
  | accepted gs h a ↦ cc (a.was_unseen, s.seen)
  | refused h k o ↦ rw h refl
]

-- How often a run over the messages accepts the number `n`.
unfoldable pub times_accepted : NumberPair → Detector → List Message → ℕ
times_accepted n d [] = 0
times_accepted n d ((p, m) ∷ messages) =
    (if equal_to n m && answer (mark_and_check d p m) then 1 else 0)
    + times_accepted n (after d (mark_and_check d p m)) messages

times_accepted-seen :
    (n : NumberPair) (d : Detector) (messages : List Message)
    → All (λ m. m.1 ≺ top) messages
    → HasSeen n d
    → times_accepted n d messages ≡ 0
unfolding times_accepted
times_accepted-seen n d [] fin s = refl
times_accepted-seen n d ((p, m) ∷ messages) fin s =
    let rest =
      times_accepted-seen n (after d (mark_and_check d p m)) messages fin.1
        (HasSeen-step n d p m fin.0 s) in
    elim (Bool-cases (equal_to n m)) [
      | inl e ↦
          rw (e, HasSeen-answer d p m fin.0 (subst (λ k. HasSeen k d) (eq-of-equal_to n m e) s))
            (omega arith)
      | inr e ↦ rw e (omega arith)
    ]

-- However messages arrive, repeated and out of order, each number is accepted at most once.
pub times_accepted-le-one :
    (n : NumberPair) (d : Detector) (messages : List Message)
    → All (λ m. m.1 ≺ top) messages
    → IsSound d
    → times_accepted n d messages ≤ 1
unfolding times_accepted
times_accepted-le-one n d [] fin v = omega arith
times_accepted-le-one n d ((p, m) ∷ messages) fin v =
    let next : Detector = after d (mark_and_check d p m) in
    let v' : IsSound next = mark_and_check-IsSound d p m fin.0 v in
    elim (Bool-cases (equal_to n m && answer (mark_and_check d p m))) [
      | inr e ↦ rw e (omega (arith, times_accepted-le-one n next messages fin.1 v'))
      | inl e ↦ rw e (
          omega (
            arith,
            times_accepted-seen n next messages fin.1 (
                subst (λ k. HasSeen k next) (sym (eq-of-equal_to n m (ground arith)))
                  (HasSeen-accepted d p m fin.0 v (ground arith))),
          ))
    ]
