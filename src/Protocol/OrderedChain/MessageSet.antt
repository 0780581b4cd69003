-- ===== src/Protocol/OrderedChain/MessageSet.antt =====
-- `StreamMessageSet` of packages/protocol/src/utils/OrderedMsgChain.ts: a map from the serialized
-- reference of a message, which determines the reference, to the message.
use network_monorepo.Prelude.{
  ◌≡◌, refl, Bool, true, false, Option, none, some, List, [], ◌∷◌, ◌++◌, arith, if◌then◌else◌, Text,
}
use network_monorepo.Protocol.MessageRef.{MessageRef, is_at, is_at_refl, eq-of-is_at}

-- The part of `StreamMessage` that the chain reads, and the rest.
pub record Message : Type 0 where
  pub ref : MessageRef
  pub prev_msg_ref : Option MessageRef
  pub content : Text

unfoldable pub get : MessageRef → List Message → Option Message
get r [] = none
get r (m ∷ ms) = if is_at m.ref r then some m else get r ms

unfoldable pub has : Message → List Message → Bool
has m ms = elim (get m.ref ms) [ none ↦ false | some _ ↦ true ]

unfoldable pub delete : Message → List Message → List Message
delete m [] = []
delete m (n ∷ ms) = if is_at n.ref m.ref then delete m ms else n ∷ delete m ms

unfoldable pub add : Message → List Message → List Message
add m ms = if has m ms then ms else ms ++ m ∷ []

get-append :
    (r : MessageRef) (m : Message) (ms : List Message)
    → get r ms ≡ none
    → get r (ms ++ m ∷ []) ≡ (if is_at m.ref r then some m else none)
unfolding get
get-append r m [] h = refl
get-append r m (n ∷ ms) h = ground (arith, get-append r m ms)

get-append_some :
    (r : MessageRef) (m n : Message) (ms : List Message)
    → get r ms ≡ some n
    → get r (ms ++ m ∷ []) ≡ some n
unfolding get
get-append_some r m n [] h = ground arith
get-append_some r m n (k ∷ ms) h = ground (arith, get-append_some r m n ms)

pub get-ref : (r : MessageRef) (m : Message) (ms : List Message) → get r ms ≡ some m → m.ref ≡ r
unfolding get
get-ref r m [] h = ground arith
get-ref r m (n ∷ ms) h = ground (arith, get-ref r m ms, eq-of-is_at n.ref r)

-- What was there stays, and a new message is found under its reference.
pub get-add_old :
    (r : MessageRef) (m n : Message) (ms : List Message)
    → get r ms ≡ some n
    → get r (add m ms) ≡ some n
unfolding add
get-add_old r m n ms h = ground (arith, get-append_some r m n ms)

pub get-add_new :
    (m : Message) (ms : List Message) → has m ms ≡ false → get m.ref (add m ms) ≡ some m
unfolding add has
get-add_new m ms h = ground (arith, get-append m.ref m ms, is_at_refl m.ref)

pub get-delete_other :
    (r : MessageRef) (m : Message) (ms : List Message)
    → is_at m.ref r ≡ false
    → get r (delete m ms) ≡ get r ms
unfolding get delete
get-delete_other r m [] h = refl
get-delete_other r m (n ∷ ms) h =
    ground (arith, get-delete_other r m ms, eq-of-is_at n.ref m.ref, eq-of-is_at n.ref r)
