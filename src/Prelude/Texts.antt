-- ===== src/Prelude/Texts.antt =====
-- A JavaScript string is the list of its UTF-16 code units. Equality of strings is decidable.
use Prim.Native.Nat.{ℕ}
use Prim.Native.Char.{code}
use Prim.Native.String.{String}
use mathlib.Core.Bool.{Bool, true, false}
use mathlib.Core.Path.{◌≡◌, refl}
use mathlib.Core.Logic.{◌≢◌, ite}
use mathlib.Core.List.{List, [], ◌∷◌}
use native.Mathlib.Decide.{ℕ_discrete}
use native.Mathlib.Omega.{arith}

abbrev pub Text : Type 0
Text = List ℕ

lists_dec : Discrete Text
lists_dec = hlevel ℕ_discrete

unfoldable pub text_dec : Discrete Text
unfolding lists_dec ℕ_discrete
text_dec = lists_dec

-- `x === y` for strings.
abbrev pub same : Text → Text → Bool
same x y = ite (text_dec x y) true false

pub same_refl : (x : Text) → same x x ≡ true
same_refl x = ground arith

pub eq-of-same : (x y : Text) → same x y ≡ true → x ≡ y
eq-of-same x y h = ground arith

pub ne-of-same : (x y : Text) → same x y ≡ false → x ≢ y
ne-of-same x y h = λ e. ground arith

-- The code units of an ASCII literal.
abbrev pub codes : String → Text
codes String.[] = []
codes (String.◌∷◌ c s) = code c ∷ codes s

same_test : same (codes "ab") (codes "ab") ≡ true
unfolding text_dec
same_test = refl

differ_test : same (codes "ab") (codes "ac") ≡ false
unfolding text_dec
differ_test = refl
