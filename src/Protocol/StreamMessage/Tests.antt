-- ===== src/Protocol/StreamMessage/Tests.antt =====
-- A message with a group key, written and read.
use network_monorepo.Prelude.{arith, ◌≡◌, refl, true, Option, some, Text, codes, text_dec, has}
use network_monorepo.Protocol.Validations.{
  validate_is_not_null_or_undefined, validate_is_string, validate_is_not_empty_string,
  validate_is_integer, validate_is_not_negative_integer,
}
use network_monorepo.Protocol.Json.{Json, undefined, null, text, natural, array}
use network_monorepo.Protocol.StreamMessage.{
  Reference, EncryptedGroupKey, StreamMessage, Options, is_valid_id, is_strict_id,
  is_valid_reference, compare_references, validate_sequence, validate_message_type,
  validate_content_type, validate_encryption_type, validate_signature_type, fields_of, is_valid,
  new_stream_message,
}
use network_monorepo.Protocol.StreamMessage.Serializers.{
  v32, is_valid_key, key_to_array, key_serialize, to_array, deserialize,
}
use network_monorepo.Protocol.StreamMessage.RoundTrip.{kept, IsReadable, deserialize-to_array}

abbrev key : EncryptedGroupKey
key = record {
  group_key_id = text (codes "k");
  encrypted_group_key_hex = text (codes "ff");
  serialized = null;
}

abbrev stringify : Json → Text
stringify x = codes "[]"

abbrev parse : Json → Option Json
parse x = some (array (key_to_array key))

abbrev options : Options
options = record {
  message_id = record {
    stream_id = text (codes "s");
    stream_partition = natural 0;
    timestamp = natural 5;
    sequence_number = natural 1;
    publisher_id = text (codes "p");
    msg_chain_id = text (codes "c");
  };
  prev_msg_ref = some (record { timestamp = natural 5; sequence_number = natural 0 });
  content = text (codes "{}");
  message_type = undefined;
  content_type = undefined;
  encryption_type = natural 2;
  group_key_id = text (codes "g");
  new_group_key = some key;
  signature_type = undefined;
  signature = undefined;
}

abbrev message : StreamMessage
message = record {
  message_id = options.message_id;
  prev_msg_ref = options.prev_msg_ref;
  message_type = natural 27;
  content_type = natural 0;
  encryption_type = natural 2;
  group_key_id = text (codes "g");
  new_group_key = some key;
  signature_type = natural 0;
  signature = null;
  serialized_content = text (codes "{}");
}

program : Unit {0}
unfolding validate_is_not_null_or_undefined validate_is_string validate_is_not_empty_string
    validate_is_integer validate_is_not_negative_integer is_valid_id is_strict_id is_valid_reference
    compare_references validate_sequence validate_message_type validate_content_type
    validate_encryption_type validate_signature_type fields_of is_valid new_stream_message
    is_valid_key key_serialize
program = tt

made : new_stream_message stringify options ≡ some message
unfolding program
made = refl

strict : is_strict_id message.message_id ≡ true
unfolding program
strict = refl

reference-valid : (r : Reference) → message.prev_msg_ref ≡ some r → is_valid_reference r ≡ true
unfolding program
reference-valid r e = ground arith

key-IsReadable : IsReadable stringify parse message.new_group_key
unfolding program
key-IsReadable k e = ground arith

-- The type of a message may be given by its name.
names_accepted : validate_message_type (text (codes "MESSAGE")) ≡ true
unfolding validate_message_type has text_dec
names_accepted = refl

deserialize-to_array_example :
    deserialize stringify parse (to_array stringify v32 message) ≡ some (kept stringify v32 message)
deserialize-to_array_example =
    deserialize-to_array stringify parse v32 options message made strict reference-valid
      key-IsReadable
