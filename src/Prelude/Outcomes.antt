-- ===== src/Prelude/Outcomes.antt =====
-- Steps of a state that may throw: the outputs of a step in order and the state after it, or `none`.
use mathlib.Core.Path.{◌≡◌, refl}
use mathlib.Core.Option.{Option, none, some}
use mathlib.Core.List.{List, ◌++◌}

abbrev pub Outcome : Type 0 → Type 0 → Type 0
Outcome O S = Option (List O × S)

abbrev pub after_outputs : {O S : Type 0} → List O → Option (List O × S) → Option (List O × S)
after_outputs outs none = none
after_outputs outs (some (later, s)) = some (outs ++ later, s)

-- One step after another.
abbrev pub and_then :
    {O S : Type 0} → Option (List O × S) → (S → Option (List O × S)) → Option (List O × S)
and_then none f = none
and_then (some (outs, s)) f = after_outputs outs (f s)

-- The step does not throw, and its outputs and the state after it satisfy `P`.
abbrev pub Yields : {O S : Type 0} → (List O → S → Type 0) → Option (List O × S) → Type 0
Yields {O} {S} P r = (outs : List O) × (s : S) × (r ≡ some (outs, s)) × P outs s

-- The step does not throw, and the state after it satisfies `P`.
abbrev pub Ensures : {O S : Type 0} → (S → Type 0) → Option (List O × S) → Type 0
Ensures P r = Yields (λ outs s. P s) r

pub Yields-and_then :
    {O S : Type 0} (P Q R : List O → S → Type 0) (r : Option (List O × S))
    (f : S → Option (List O × S))
    → Yields P r
    → ((outs : List O) (s : S) → P outs s → Yields Q (f s))
    → ((outs later : List O) (s s' : S) → P outs s → Q later s' → R (outs ++ later) s')
    → Yields R (and_then r f)
Yields-and_then P Q R r f (outs, s, e, p) k join =
    let (later, s', e', q) = k outs s p in
    (outs ++ later, s', rw (e, e') refl, join outs later s s' p q)

pub Ensures-and_then :
    {O S : Type 0} (P Q : S → Type 0) (r : Option (List O × S)) (f : S → Option (List O × S))
    → Ensures P r
    → ((s : S) → P s → Ensures Q (f s))
    → Ensures Q (and_then r f)
Ensures-and_then P Q r f (outs, s, e, p) k =
    let (later, s', e', q) = k s p in (outs ++ later, s', rw (e, e') refl, q)
