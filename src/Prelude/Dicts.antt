-- ===== src/Prelude/Dicts.antt =====
-- A JavaScript object or `Map` with string keys: its entries in the order of insertion.
use mathlib.Core.Bool.{Bool, true, false, not, ◌&&◌, ◌||◌}
use mathlib.Core.Path.{◌≡◌, refl}
use mathlib.Core.Option.{Option, none, some}
use mathlib.Core.Option
use mathlib.Core.List.{List, [], ◌∷◌, map}
use native.Mathlib.Omega.{arith}
use network_monorepo.Prelude.Tests.{if◌then◌else◌}
use network_monorepo.Prelude.Lists.{filter}
use network_monorepo.Prelude.Texts.{Text, same}
use network_monorepo.Prelude.Sets.{has, IsDistinct}

abbrev pub Dict {ℓ} : Type ℓ → Type ℓ
Dict V = List (Text × V)

module _ {ℓ} {V : Type ℓ} where
  unfoldable pub lookup : Text → Dict V → Option V
  lookup k [] = none
  lookup k ((j, v) ∷ m) = if same j k then some v else lookup k m

  -- `m[k] = v`: in place, or at the end.
  unfoldable pub insert : Text → V → Dict V → Dict V
  insert k v [] = (k, v) ∷ []
  insert k v ((j, w) ∷ m) = if same j k then (k, v) ∷ m else (j, w) ∷ insert k v m

  -- `delete m[k]`
  unfoldable pub erase : Text → Dict V → Dict V
  erase k [] = []
  erase k ((j, w) ∷ m) = if same j k then erase k m else (j, w) ∷ erase k m

  -- Mutates the value at a key, where there is one.
  unfoldable pub modify : Text → (V → V) → Dict V → Dict V
  modify k f [] = []
  modify k f ((j, w) ∷ m) = if same j k then (j, f w) ∷ modify k f m else (j, w) ∷ modify k f m

  abbrev pub keys : Dict V → List Text
  keys = map (λ e. e.0)

  abbrev pub values : Dict V → List V
  values = map (λ e. e.1)

  -- `k in m`
  unfoldable pub defines : Text → Dict V → Bool
  defines k m = elim (lookup k m) [ none ↦ false | some _ ↦ true ]

  pub lookup-insert :
      (j k : Text) (v : V) (m : Dict V)
      → lookup j (insert k v m) ≡ (if same k j then some v else lookup j m)
  unfolding lookup insert
  lookup-insert j k v [] = refl
  lookup-insert j k v ((i, w) ∷ m) = ground (arith, lookup-insert j k v m)

  pub lookup-erase :
      (j k : Text) (m : Dict V) → lookup j (erase k m) ≡ (if same k j then none else lookup j m)
  unfolding lookup erase
  lookup-erase j k [] = ground arith
  lookup-erase j k ((i, w) ∷ m) = ground (arith, lookup-erase j k m)

  pub lookup-modify :
      (j k : Text) (f : V → V) (m : Dict V)
      → lookup j (modify k f m) ≡ (if same k j then Option.map f (lookup j m) else lookup j m)
  unfolding lookup modify
  lookup-modify j k f [] = ground arith
  lookup-modify j k f ((i, w) ∷ m) = ground (arith, lookup-modify j k f m)

  pub has-keys : (k : Text) (m : Dict V) → has k (keys m) ≡ defines k m
  unfolding lookup defines has
  has-keys k [] = refl
  has-keys k ((j, v) ∷ m) = ground (arith, has-keys k m)

  pub keys-modify : (k : Text) (f : V → V) (m : Dict V) → keys (modify k f m) ≡ keys m
  unfolding modify
  keys-modify k f [] = refl
  keys-modify k f ((j, w) ∷ m) = ground (arith, keys-modify k f m)

  pub defines-insert :
      (j k : Text) (v : V) (m : Dict V) → defines j (insert k v m) ≡ (same k j || defines j m)
  unfolding defines
  defines-insert j k v m = ground (arith, lookup-insert j k v m)

  pub defines-erase :
      (j k : Text) (m : Dict V) → defines j (erase k m) ≡ (not (same k j) && defines j m)
  unfolding defines
  defines-erase j k m = ground (arith, lookup-erase j k m)

  pub defines-modify :
      (j k : Text) (f : V → V) (m : Dict V) → defines j (modify k f m) ≡ defines j m
  unfolding defines
  defines-modify j k f m = ground (arith, lookup-modify j k f m)

  has-keys-erase :
      (j k : Text) (m : Dict V) → has j (keys m) ≡ false → has j (keys (erase k m)) ≡ false
  unfolding has erase
  has-keys-erase j k [] h = refl
  has-keys-erase j k ((i, w) ∷ m) h = ground (arith, has-keys-erase j k m)

  pub erase-IsDistinct :
      (k : Text) (m : Dict V) → IsDistinct (keys m) → IsDistinct (keys (erase k m))
  unfolding erase
  erase-IsDistinct k [] d = tt
  erase-IsDistinct k ((j, w) ∷ m) d = ground (arith, erase-IsDistinct k m, has-keys-erase j k m)

  has-keys-insert :
      (j k : Text) (v : V) (m : Dict V) → has j (keys (insert k v m)) ≡ (same j k || has j (keys m))
  unfolding has insert
  has-keys-insert j k v [] = refl
  has-keys-insert j k v ((i, w) ∷ m) = ground (arith, has-keys-insert j k v m)

  pub insert-IsDistinct :
      (k : Text) (v : V) (m : Dict V) → IsDistinct (keys m) → IsDistinct (keys (insert k v m))
  unfolding insert has
  insert-IsDistinct k v [] d = (refl, tt)
  insert-IsDistinct k v ((j, w) ∷ m) d =
      ground (arith, insert-IsDistinct k v m, has-keys-insert j k v m)

  has-keys-filter :
      (k : Text) (p : Text × V → Bool) (m : Dict V)
      → has k (keys m) ≡ false
      → has k (keys (filter p m)) ≡ false
  unfolding has
  has-keys-filter k p [] h = refl
  has-keys-filter k p (e ∷ m) h = ground (arith, has-keys-filter k p m)

  pub keys-filter-IsDistinct :
      (p : Text × V → Bool) (m : Dict V) → IsDistinct (keys m) → IsDistinct (keys (filter p m))
  keys-filter-IsDistinct p [] d = tt
  keys-filter-IsDistinct p ((k, v) ∷ m) d =
      ground (arith, keys-filter-IsDistinct p m, has-keys-filter k p m)
