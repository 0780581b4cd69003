-- ===== src/Network/Detector/Budget.antt =====
-- How many more times a detector can accept a number.
use network_monorepo.Prelude.{
  ℕ, ◌+◌, ◌≤◌, ◌≡◌, refl, sym, subst, ◌&&◌, not, inl, inr, Bool, true, false, Option, ltb, arith,
  Bool-cases, length, if◌then◌else◌,
}
use network_monorepo.Network.NumberPair.{NumberPair, ◌≺◌, equal_to, eq-of-equal_to}
use network_monorepo.Network.Detector.{Detector, top, mark_and_check}
use network_monorepo.Network.Detector.Scan.{is_unseen}
use network_monorepo.Network.Detector.Mark.{IsSound}
use network_monorepo.Network.Detector.Once.{
  after, answer, HasSeen, HasSeen-step, HasSeen-accepted, HasSeen-answer,
}

unfoldable pub is_spent : NumberPair → Detector → Bool
is_spent n d = ltb 0 (length d.gaps) && not (is_unseen n d.gaps)

unfoldable pub remaining : NumberPair → Detector → ℕ
remaining n d = if is_spent n d then 0 else 1

pub remaining-le-one : (n : NumberPair) (d : Detector) → remaining n d ≤ 1
unfolding remaining
remaining-le-one n d = ground arith

remaining-new : (n : NumberPair) (d : Detector) → is_spent n d ≡ false → remaining n d ≡ 1
unfolding remaining
remaining-new n d h = rw h refl

spent-HasSeen : (n : NumberPair) (d : Detector) → IsSound d → is_spent n d ≡ true → HasSeen n d
unfolding is_spent
spent-HasSeen n d v h = record { sound = v; nonempty = ground arith; seen = ground arith }

HasSeen-remaining : (n : NumberPair) (d : Detector) → HasSeen n d → remaining n d ≡ 0
unfolding remaining is_spent
HasSeen-remaining n d s = ground (arith, s.nonempty, s.seen)

HasSeen-refused :
    (x n : NumberPair) (d : Detector) (p : Option NumberPair)
    → n ≺ top
    → HasSeen x d
    → (equal_to x n && answer (mark_and_check d p n)) ≡ false
HasSeen-refused x n d p fin s = elim (Bool-cases (equal_to x n)) [
  | inl e ↦
      rw (e, HasSeen-answer d p n fin (subst (λ k. HasSeen k d) (eq-of-equal_to x n e) s)) refl
  | inr e ↦ rw e refl
]

-- A call spends what it accepts.
pub remaining-mark :
    (x n : NumberPair) (d : Detector) (p : Option NumberPair)
    → n ≺ top
    → IsSound d
    → (if equal_to x n && answer (mark_and_check d p n) then 1 else 0)
        + remaining x (after d (mark_and_check d p n))
      ≤ remaining x d
remaining-mark x n d p fin v =
    let next = after d (mark_and_check d p n) in
    elim (Bool-cases (is_spent x d)) [
      | inl s ↦
          let seen = spent-HasSeen x d v s in
          rw
            (
              HasSeen-refused x n d p fin seen,
              HasSeen-remaining x next (HasSeen-step x d p n fin seen),
            )
            (omega arith)
      | inr s ↦ elim (Bool-cases (equal_to x n && answer (mark_and_check d p n))) [
        | inl e ↦
            let same_number = sym (eq-of-equal_to x n (ground arith)) in
            let now = HasSeen-accepted d p n fin v (ground arith) in
            rw
              (
                e,
                HasSeen-remaining x next (subst (λ k. HasSeen k next) same_number now),
                remaining-new x d s,
              )
              (omega arith)
        | inr e ↦ rw (e, remaining-new x d s) (omega (arith, remaining-le-one x next))
      ]
    ]
