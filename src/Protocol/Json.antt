-- ===== src/Protocol/Json.antt =====
-- The values of JSON and of untyped fields, as the messages of packages/protocol/src hold and send
-- them. The arrays that the serializers take apart are `Items`.
use network_monorepo.Prelude.{
  ℕ, Bool, true, false, Option, none, some, List, [], ◌∷◌, any, if◌then◌else◌, ◌==◌, Text, has,
}
use network_monorepo.Protocol.Validations.{Value}

mutual
  pub data Json : Type 0 where
    undefined null : Json
    text : Text → Json
    natural : ℕ → Json
    -- an integer below zero
    negative : ℕ → Json
    -- a number that is no integer
    fraction : Json
    object : ℕ → Json
    array : Items → Json

  pub data Items : Type 0 where
    nil : Items
    cons : Json → Items → Items

-- What the validators see of a value.
abbrev pub shape : Json → Value
shape undefined = Value.undefined
shape null = Value.null
shape (text t) = Value.text t
shape (natural n) = Value.natural n
shape (negative n) = Value.negative n
shape fraction = Value.fraction
shape (object n) = Value.other n
shape (array xs) = Value.array []

-- A destructured element; a missing one is undefined.
abbrev pub first : Items → Json
first nil = undefined
first (cons x xs) = x

abbrev pub rest : Items → Items
rest nil = nil
rest (cons x xs) = xs

abbrev pub characters : Text → Items
characters [] = nil
characters (c ∷ cs) = cons (text (c ∷ [])) (characters cs)

-- What can be destructured; `none` is the TypeError of a value that is not iterable.
abbrev pub items_of : Json → Option Items
items_of (array xs) = some xs
items_of (text t) = some (characters t)
items_of x = none

-- The condition of an `if`. Among the numbers only zero is false.
abbrev pub is_truthy : Json → Bool
is_truthy undefined = false
is_truthy null = false
is_truthy (text []) = false
is_truthy (natural n) = if n == 0 then false else true
is_truthy x = true

-- `typeof x === 'object'`
abbrev pub is_object : Json → Bool
is_object null = true
is_object (object n) = true
is_object (array xs) = true
is_object x = false

-- A destructured field with a default.
abbrev pub or_default : Json → Json → Json
or_default d undefined = d
or_default d x = x

-- `new Set(Object.values(E)).has(x)` of a numeric enum: its numbers, and its names too.
abbrev pub is_enum_value : List ℕ → List Text → Json → Bool
is_enum_value numbers names (natural n) = any (λ k. k == n) numbers
is_enum_value numbers names (text t) = has t names
is_enum_value numbers names x = false
