-- ===== src/Tests/Samples.antt =====
-- Sample values and messages, and what makes them fit for the theorems.
use dicey_rust.Prelude.{◌≡◌, refl, true, some, [], ◌∷◌, ◌≤◌, length, arith}
use dicey_rust.Types.{DiceyType, type_is_valid}
use dicey_rust.View.{slice}
use dicey_rust.ViewMut.{Calloc}
use dicey_rust.Arg.{Arg, nil, cons, arg_type, nitems}
use dicey_rust.Arg.Encoding.{value_bytes, content_bytes, IsWritable}
use dicey_rust.Validate.Accepts.{HasNoEmptyBytes}
use dicey_rust.Payload.{PayloadKind, kind_is_message, value_is_due}
use dicey_rust.Payload.Sizes.{Outgoing, IsSendable, message_bytes}
use dicey_rust.Payload.Write.{message_header_bytes}
use dicey_rust.Packet.{Op, op_of_kind, op_requires_payload}
use dicey_rust.Packet.Forward.{kind_of_op}
use dicey_rust.Packet.Forward.Keeps.{readdressed}
use dicey_rust.Packet.Rejects.{RawMessage, IsRaw}

-- Memory is always found.
abbrev pub plenty : Calloc
plenty n = true

-- A tuple of a number, a string, an array and a pair.
abbrev pub sample_value : Arg
sample_value = Arg.tuple (
    cons (Arg.int32 5) (
      cons (Arg.str (some (b'h' ∷ b'i' ∷ []))) (
        cons (Arg.array DiceyType.uint16 (cons (Arg.uint16 1) (cons (Arg.uint16 2) nil)))
          (cons (Arg.pair Arg.unit (Arg.bytes (slice (7 ∷ 8 ∷ [])))) nil))))

pub sample_value-IsWritable : IsWritable sample_value
unfolding IsWritable content_bytes arg_type nitems type_is_valid
sample_value-IsWritable = ground arith

-- SET /a#t:e, with the sample value.
abbrev pub sample : Outgoing
sample = record {
  kind = PayloadKind.set;
  seq = 7;
  path = b'/' ∷ b'a' ∷ [];
  trait = b't' ∷ [];
  elem = b'e' ∷ [];
  value = some sample_value;
}

pub sample-IsSendable : IsSendable sample
unfolding kind_is_message value_is_due content_bytes
sample-IsSendable = record {
  is_message = refl;
  is_due = refl;
  seq_small = omega arith;
  path_text = ground arith;
  trait_text = ground arith;
  elem_text = ground arith;
  writable = sample_value-IsWritable;
  fits = omega arith;
}

pub sample_value-HasNoEmptyBytes : HasNoEmptyBytes sample_value
unfolding HasNoEmptyBytes
sample_value-HasNoEmptyBytes = ground arith

pub length-sample : length (message_bytes sample) ≤ 100
unfolding content_bytes message_header_bytes
length-sample = omega arith

pub length-sample_value : length (value_bytes sample_value) ≡ 41
unfolding content_bytes
length-sample_value = refl

-- RESPONSE /a#t:e with two of the four bytes of a number, and with an array of one unit that
-- announces a byte.
abbrev pub cut_value : RawMessage
cut_value = record {
  kind = PayloadKind.response;
  seq = 7;
  path = b'/' ∷ b'a' ∷ [];
  trait = b't' ∷ [];
  elem = b'e' ∷ [];
  value = b'i' ∷ 1 ∷ 2 ∷ [];
}

abbrev pub unit_bytes : RawMessage
unit_bytes = record cut_value { value = b'[' ∷ 1 ∷ 0 ∷ 0 ∷ 0 ∷ 1 ∷ 0 ∷ b'$' ∷ 9 ∷ [] }

pub cut_value-IsRaw : IsRaw cut_value
unfolding kind_is_message op_of_kind op_requires_payload
cut_value-IsRaw = record {
  is_message = refl;
  has_value = refl;
  path_text = ground arith;
  trait_text = ground arith;
  elem_text = ground arith;
  some_value = omega arith;
  fits = omega arith;
}

pub unit_bytes-IsRaw : IsRaw unit_bytes
unfolding kind_is_message op_of_kind op_requires_payload
unit_bytes-IsRaw = record {
  is_message = refl;
  has_value = refl;
  path_text = ground arith;
  trait_text = ground arith;
  elem_text = ground arith;
  some_value = omega arith;
  fits = omega arith;
}

abbrev pub empty_bytes : Outgoing
empty_bytes = record sample { value = some (Arg.bytes (slice [])) }

pub empty_bytes-IsSendable : IsSendable empty_bytes
unfolding kind_is_message value_is_due content_bytes IsWritable arg_type
empty_bytes-IsSendable = record {
  is_message = refl;
  is_due = refl;
  seq_small = omega arith;
  path_text = ground arith;
  trait_text = ground arith;
  elem_text = ground arith;
  writable = omega arith;
  fits = omega arith;
}

-- The sample, sent on as EXEC /b#t:f.
abbrev pub sent_on : Outgoing
sent_on = readdressed sample 9 Op.exec (b'/' ∷ b'b' ∷ []) (b't' ∷ []) (b'f' ∷ [])

pub sent_on-IsSendable : IsSendable sent_on
unfolding kind_of_op kind_is_message value_is_due content_bytes
sent_on-IsSendable = record {
  is_message = refl;
  is_due = refl;
  seq_small = omega arith;
  path_text = ground arith;
  trait_text = ground arith;
  elem_text = ground arith;
  writable = sample_value-IsWritable;
  fits = omega arith;
}
