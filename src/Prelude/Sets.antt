-- ===== src/Prelude/Sets.antt =====
-- A JavaScript `Set` of strings: its elements in the order of insertion.
use Prim.Native.Nat.{◌≤◌, ◌+◌}
use mathlib.Core.Bool.{Bool, true, false, not, ◌&&◌, ◌||◌}
use mathlib.Core.Path.{◌≡◌, refl}
use mathlib.Core.List.{List, [], ◌∷◌, ◌++◌}
use native.Mathlib.Omega.{arith}
use network_monorepo.Prelude.Tests.{if◌then◌else◌}
use network_monorepo.Prelude.Lists.{length, filter, length-append}
use network_monorepo.Prelude.Texts.{Text, same}

unfoldable pub has : Text → List Text → Bool
has x [] = false
has x (y ∷ ys) = same x y || has x ys

unfoldable pub add : Text → List Text → List Text
add x ys = if has x ys then ys else ys ++ x ∷ []

-- `Set.prototype.delete`
unfoldable pub remove : Text → List Text → List Text
remove x [] = []
remove x (y ∷ ys) = if same x y then remove x ys else y ∷ remove x ys

unfoldable pub add_all : List Text → List Text → List Text
add_all [] s = s
add_all (x ∷ xs) s = add_all xs (add x s)

-- `new Set(xs)`
unfoldable pub to_set : List Text → List Text
to_set xs = add_all xs []

-- No element twice.
abbrev pub IsDistinct : List Text → Type 0
IsDistinct [] = Unit {0}
IsDistinct (x ∷ xs) = (has x xs ≡ false) × IsDistinct xs

pub has-append : (x : Text) (ys zs : List Text) → has x (ys ++ zs) ≡ (has x ys || has x zs)
unfolding has
has-append x [] zs = refl
has-append x (y ∷ ys) zs = ground (arith, has-append x ys zs)

pub has-add : (x y : Text) (s : List Text) → has x (add y s) ≡ (has x s || same x y)
unfolding has add
has-add x y s = ground (arith, has-append x s (y ∷ []))

pub has-remove : (x y : Text) (s : List Text) → has x (remove y s) ≡ (has x s && not (same x y))
unfolding has remove
has-remove x y [] = refl
has-remove x y (z ∷ s) = ground (arith, has-remove x y s)

pub has-add_all : (x : Text) (ys s : List Text) → has x (add_all ys s) ≡ (has x s || has x ys)
unfolding has add_all
has-add_all x [] s = ground arith
has-add_all x (y ∷ ys) s = ground (arith, has-add_all x ys (add y s), has-add x y s)

pub has-to_set : (x : Text) (ys : List Text) → has x (to_set ys) ≡ has x ys
unfolding to_set has
has-to_set x ys = has-add_all x ys []

pub has-filter :
    (x : Text) (p : Text → Bool) (ys : List Text) → has x (filter p ys) ≡ (has x ys && p x)
unfolding has
has-filter x p [] = refl
has-filter x p (y ∷ ys) = ground (arith, has-filter x p ys)

pub filter-IsDistinct :
    (p : Text → Bool) (xs : List Text) → IsDistinct xs → IsDistinct (filter p xs)
filter-IsDistinct p [] d = tt
filter-IsDistinct p (x ∷ xs) d = ground (arith, has-filter x p xs, filter-IsDistinct p xs)

append-IsDistinct :
    (x : Text) (xs : List Text) → has x xs ≡ false → IsDistinct xs → IsDistinct (xs ++ x ∷ [])
unfolding has
append-IsDistinct x [] h d = (refl, tt)
append-IsDistinct x (y ∷ ys) h d = ground (arith, has-append y ys (x ∷ []), append-IsDistinct x ys)

pub add-IsDistinct : (x : Text) (s : List Text) → IsDistinct s → IsDistinct (add x s)
unfolding add
add-IsDistinct x s d = ground (arith, append-IsDistinct x s)

pub add_all-IsDistinct : (xs s : List Text) → IsDistinct s → IsDistinct (add_all xs s)
unfolding add_all
add_all-IsDistinct [] s d = d
add_all-IsDistinct (x ∷ xs) s d = add_all-IsDistinct xs (add x s) (add-IsDistinct x s d)

pub to_set-IsDistinct : (xs : List Text) → IsDistinct (to_set xs)
unfolding to_set
to_set-IsDistinct xs = add_all-IsDistinct xs [] tt

pub remove-IsDistinct : (x : Text) (s : List Text) → IsDistinct s → IsDistinct (remove x s)
unfolding remove
remove-IsDistinct x [] d = tt
remove-IsDistinct x (y ∷ s) d = ground (arith, remove-IsDistinct x s, has-remove y x s)

pub length-add-le : (x : Text) (s : List Text) → length (add x s) ≤ length s + 1
unfolding add
length-add-le x s = ground (arith, length-append {0} s (x ∷ []))

pub length-add_of_has : (x : Text) (s : List Text) → has x s ≡ true → length (add x s) ≡ length s
unfolding add
length-add_of_has x s h = ground arith

pub length-remove-le : (x : Text) (s : List Text) → length (remove x s) ≤ length s
unfolding remove
length-remove-le x [] = omega arith
length-remove-le x (y ∷ s) = ground (arith, length-remove-le x s)

pub length-remove_of_has :
    (x : Text) (s : List Text) → has x s ≡ true → length (remove x s) + 1 ≤ length s
unfolding remove has
length-remove_of_has x [] h = ground arith
length-remove_of_has x (y ∷ s) h = ground (arith, length-remove_of_has x s, length-remove-le x s)

pub length-add_all-le : (xs s : List Text) → length (add_all xs s) ≤ length s + length xs
unfolding add_all
length-add_all-le [] s = omega arith
length-add_all-le (x ∷ xs) s = omega (arith, length-add_all-le xs (add x s), length-add-le x s)

pub length-to_set-le : (xs : List Text) → length (to_set xs) ≤ length xs
unfolding to_set
length-to_set-le xs = omega (arith, length-add_all-le xs [])
