-- ===== src/Protocol/StreamMessage/RoundTrip.antt =====
-- Messages written by a serializer of StreamMessage and read again.
use network_monorepo.Prelude.{
  ℕ, ◌≡◌, refl, subst, ◌∙◌, true, false, Option, none, some, List, [], ◌∷◌, arith, Bool-cases, inl,
  inr, Text,
}
use network_monorepo.Protocol.Validations.{
  validate_is_string, validate_is_not_empty_string, validate_is_not_null_or_undefined,
}
use network_monorepo.Protocol.Json.{
  Json, undefined, null, text, natural, negative, fraction, object, array, Items, shape, first,
  rest, is_truthy, or_default, is_enum_value,
}
use network_monorepo.Protocol.StreamMessage.{
  MessageId, Reference, EncryptedGroupKey, StreamMessage, Options, is_strict_id, id_to_array,
  id_from_array, strict_id_from_array, is_valid_reference, reference_to_array, reference_from_array,
  validate_message_type, validate_content_type, validate_encryption_type, validate_signature_type,
  serialized_of, fields_of, is_valid, new_stream_message,
}
use network_monorepo.Protocol.StreamMessage.Serializers.{
  Version, v30, v31, v32, is_valid_key, key_to_array, key_serialize, key_deserialize,
  reference_or_null, key_or_null, to_array, to_array_v30, to_array_v31, to_array_v32, read_or_null,
  read_array, with_id, options_of, key_element, from_array, get_serializer, deserialize,
}

-- The group key keeps the string it was read from.
abbrev pub with_cache : (Json → Text) → Option EncryptedGroupKey → Option EncryptedGroupKey
with_cache stringify none = none
with_cache stringify (some k) = some (record k { serialized = key_serialize stringify k })

-- What a version carries of a message.
abbrev pub kept : (Json → Text) → Version → StreamMessage → StreamMessage
kept stringify v30 m = record m {
  content_type = natural 0;
  encryption_type = natural 0;
  group_key_id = null;
  new_group_key = none;
}
kept stringify v31 m = record m {
  content_type = natural 0;
  group_key_id = null;
  new_group_key = none;
}
kept stringify v32 m = record m { new_group_key = with_cache stringify m.new_group_key }

enum_default :
    (numbers : List ℕ) (names : List Text) (d x : Json)
    → is_enum_value numbers names x ≡ true
    → or_default d x ≡ x
enum_default numbers names d undefined h = absurd (ground arith)
enum_default numbers names d null h = refl
enum_default numbers names d (text t) h = refl
enum_default numbers names d (natural n) h = refl
enum_default numbers names d (negative n) h = refl
enum_default numbers names d fraction h = refl
enum_default numbers names d (object n) h = refl
enum_default numbers names d (array xs) h = refl

null_default_idem : (x : Json) → or_default null (or_default null x) ≡ or_default null x
null_default_idem undefined = refl
null_default_idem null = refl
null_default_idem (text t) = refl
null_default_idem (natural n) = refl
null_default_idem (negative n) = refl
null_default_idem fraction = refl
null_default_idem (object n) = refl
null_default_idem (array xs) = refl

text_serialized :
    (stringify : Json → Text) (x t : Json)
    → validate_is_not_empty_string false (shape x) ≡ true
    → serialized_of stringify x t ≡ x
unfolding validate_is_not_empty_string validate_is_string validate_is_not_null_or_undefined
text_serialized stringify undefined t h = refl
text_serialized stringify null t h = absurd (ground arith)
text_serialized stringify (text x) t h = refl
text_serialized stringify (natural n) t h = refl
text_serialized stringify (negative n) t h = refl
text_serialized stringify fraction t h = refl
text_serialized stringify (object n) t h = absurd (ground arith)
text_serialized stringify (array xs) t h = absurd (ground arith)

-- What the constructor leaves of its fields.
record IsMade (stringify : Json → Text) (m : StreamMessage) : Type 0 where
  valid : is_valid m ≡ true
  group_key_id : or_default null m.group_key_id ≡ m.group_key_id
  signature : or_default null m.signature ≡ m.signature

new-IsMade :
    (stringify : Json → Text) (o : Options) (m : StreamMessage)
    → new_stream_message stringify o ≡ some m
    → IsMade stringify m
unfolding new_stream_message fields_of
new-IsMade stringify o m h = elim (Bool-cases (is_valid (fields_of stringify o))) [
  | inl e ↦
      let same_fields : fields_of stringify o ≡ m = ground arith in
      subst (IsMade stringify) same_fields (record {
        valid = e;
        group_key_id = null_default_idem o.group_key_id;
        signature = null_default_idem o.signature;
      })
  | inr e ↦ absurd (ground arith)
]

module _ (stringify : Json → Text) (m : StreamMessage) (made : IsMade stringify m) where
  kept-valid : (v : Version) → is_valid (kept stringify v m) ≡ true
  unfolding is_valid validate_content_type validate_encryption_type validate_is_string
  kept-valid v30 = ground (arith, made.valid)
  kept-valid v31 = ground (arith, made.valid)
  kept-valid v32 = made.valid

  abbrev key_of : Version → Option EncryptedGroupKey
  key_of v32 = with_cache stringify m.new_group_key
  key_of v = none

  message_type-kept : or_default (natural 27) m.message_type ≡ m.message_type
  unfolding is_valid validate_message_type
  message_type-kept =
      let h : validate_message_type m.message_type ≡ true = ground (arith, made.valid) in
      enum_default (27 ∷ 28 ∷ 29 ∷ 30 ∷ 31 ∷ []) _ (natural 27) m.message_type h

  content_type-kept : or_default (natural 0) m.content_type ≡ m.content_type
  unfolding is_valid validate_content_type
  content_type-kept =
      let h : validate_content_type m.content_type ≡ true = ground (arith, made.valid) in
      enum_default (0 ∷ []) _ (natural 0) m.content_type h

  encryption_type-kept : or_default (natural 0) m.encryption_type ≡ m.encryption_type
  unfolding is_valid validate_encryption_type
  encryption_type-kept =
      let h : validate_encryption_type m.encryption_type ≡ true = ground (arith, made.valid) in
      enum_default (0 ∷ 1 ∷ 2 ∷ []) _ (natural 0) m.encryption_type h

  signature_type-kept : or_default (natural 0) m.signature_type ≡ m.signature_type
  unfolding is_valid validate_signature_type
  signature_type-kept =
      let h : validate_signature_type m.signature_type ≡ true = ground (arith, made.valid) in
      enum_default (0 ∷ 1 ∷ 2 ∷ []) _ (natural 0) m.signature_type h

  content-kept : (t : Json) → serialized_of stringify m.serialized_content t ≡ m.serialized_content
  unfolding is_valid
  content-kept t = text_serialized stringify m.serialized_content t (ground (arith, made.valid))

  remade :
      (v : Version)
      → fields_of stringify (
          options_of v
            (rest (rest (rest (to_array stringify v m))))
            m.message_id
            m.prev_msg_ref
            (key_of v))
        ≡ kept stringify v m
  unfolding fields_of to_array to_array_v30 to_array_v31 to_array_v32
  remade v30 =
      ground
        (arith, message_type-kept, signature_type-kept, made.signature, content-kept (natural 0))
  remade v31 = ground (
    arith,
    message_type-kept,
    encryption_type-kept,
    signature_type-kept,
    made.signature,
    content-kept (natural 0),
  )
  remade v32 = ground (
    arith,
    message_type-kept,
    content_type-kept,
    encryption_type-kept,
    signature_type-kept,
    made.signature,
    made.group_key_id,
    content-kept (or_default (natural 0) m.content_type),
  )

id-read :
    (v : Version) (i : MessageId)
    → is_strict_id i ≡ true
    → with_id v (array (id_to_array i)) ≡ some i
unfolding id_to_array id_from_array strict_id_from_array is_strict_id
id-read v30 i h = ground arith
id-read v31 i h = ground arith
id-read v32 i h = ground arith

reference-read :
    (prev : Option Reference)
    → ((r : Reference) → prev ≡ some r → is_valid_reference r ≡ true)
    → read_or_null (read_array reference_from_array) (reference_or_null prev) ≡ some prev
unfolding reference_to_array reference_from_array
reference-read none h = refl
reference-read (some r) h = ground (arith, h r refl)

module _ (stringify : Json → Text) (parse : Json → Option Json) where
  -- JSON.parse reads the group key that JSON.stringify wrote.
  abbrev pub IsReadable : Option EncryptedGroupKey → Type 0
  IsReadable key =
      (k : EncryptedGroupKey)
      → key ≡ some k
      → (is_valid_key k ≡ true)
        × (is_truthy (key_serialize stringify k) ≡ true)
        × (parse (key_serialize stringify k) ≡ some (array (key_to_array k)))

  cached-valid :
      (k : EncryptedGroupKey)
      → is_valid_key k ≡ true
      → is_valid_key (record k { serialized = key_serialize stringify k }) ≡ true
  unfolding is_valid_key key_serialize validate_is_string validate_is_not_null_or_undefined
  cached-valid k h = ground arith

  key-read :
      (key : Option EncryptedGroupKey)
      → IsReadable key
      → read_or_null (key_deserialize parse) (key_or_null stringify key)
        ≡ some (with_cache stringify key)
  unfolding key_deserialize key_to_array
  key-read none h = refl
  key-read (some k) h =
      let (valid, truthy, read) = h k refl in rw (truthy, read, cached-valid k valid) refl

  key_element-read :
      (v : Version) (m : StreamMessage) (made : IsMade stringify m)
      → IsReadable m.new_group_key
      → read_or_null
          (key_deserialize parse)
          (key_element v (rest (rest (rest (to_array stringify v m)))))
        ≡ some (key_of stringify m made v)
  unfolding to_array to_array_v30 to_array_v31 to_array_v32
  key_element-read v30 m made h = refl
  key_element-read v31 m made h = refl
  key_element-read v32 m made h = key-read m.new_group_key h

  head-read :
      (v : Version) (m : StreamMessage)
      → (get_serializer stringify parse (first (to_array stringify v m)) ≡ some v)
        × (first (rest (to_array stringify v m)) ≡ array (id_to_array m.message_id))
        × (first (rest (rest (to_array stringify v m))) ≡ reference_or_null m.prev_msg_ref)
  unfolding to_array to_array_v30 to_array_v31 to_array_v32 get_serializer
  head-read v30 m = (refl, refl, refl)
  head-read v31 m = (refl, refl, refl)
  head-read v32 m = (refl, refl, refl)

  deserialize-reads :
      (v : Version) (xs : Items) (i : MessageId) (prev : Option Reference)
      (key : Option EncryptedGroupKey)
      → get_serializer stringify parse (first xs) ≡ some v
      → with_id v (first (rest xs)) ≡ some i
      → read_or_null (read_array reference_from_array) (first (rest (rest xs))) ≡ some prev
      → read_or_null (key_deserialize parse) (key_element v (rest (rest (rest xs)))) ≡ some key
      → deserialize stringify parse xs
        ≡ new_stream_message stringify (options_of v (rest (rest (rest xs))) i prev key)
  unfolding deserialize from_array
  deserialize-reads v xs i prev key h k l n = rw (h, deserialize, from_array, k, l, n) refl

  new-of_valid :
      (o : Options) (m : StreamMessage)
      → fields_of stringify o ≡ m
      → is_valid m ≡ true
      → new_stream_message stringify o ≡ some m
  unfolding new_stream_message
  new-of_valid o m e h = rw (e, h) refl

  -- A message that the constructor made, with a strict identifier and a valid reference to the previous
  -- message, comes back from the array of each version with all that the version carries, if the
  -- group key is valid and JSON.parse reads it back from its string, which is not empty.
  pub deserialize-to_array :
      (v : Version) (o : Options) (m : StreamMessage)
      → new_stream_message stringify o ≡ some m
      → is_strict_id m.message_id ≡ true
      → ((r : Reference) → m.prev_msg_ref ≡ some r → is_valid_reference r ≡ true)
      → IsReadable m.new_group_key
      → deserialize stringify parse (to_array stringify v m) ≡ some (kept stringify v m)
  deserialize-to_array v o m h strict prev key =
      let made = new-IsMade stringify o m h in
      let (version, id, reference) = head-read v m in
      deserialize-reads v (to_array stringify v m) m.message_id m.prev_msg_ref
        (key_of stringify m made v) version (rw id (id-read v m.message_id strict))
        (rw reference (reference-read m.prev_msg_ref prev)) (key_element-read v m made key)
      ∙ new-of_valid _ (kept stringify v m) (remade stringify m made v)
          (kept-valid stringify m made v)
