-- ===== src/Packet/Receive.antt =====
-- `dicey_packet_as_message` and `dicey_packet_load` of src/wirefmt/packet.c on messages that
-- `dtf_message_write` has written.
use dicey_rust.Prelude.{
  suc, refl, err, einval, ebadmsg, ℕ, ◌≤◌, ◌<◌, ◌≡◌, ◌∙◌, ◌⊎◌, inl, inr, true, false, Option, none,
  some, List, [], ◌++◌, length, length-append, ok, uint32_max, ptrdiff_max, arith,
}
use dicey_rust.View.{slice}
use dicey_rust.ViewMut.{Calloc}
use dicey_rust.Arg.{Arg, arg_type}
use dicey_rust.ValueProbe.Reads.{info_of, value_probe_last}
use dicey_rust.Value.{DiceyValue}
use dicey_rust.Value.Iterate.{value_of}
use dicey_rust.Validate.{validate_type, validate_value}
use dicey_rust.Validate.Accepts.{HasNoEmptyBytes, validate_value-value_of}
use dicey_rust.Payload.{PayloadKind, kind_is_message, kind_has_value, value_is_due}
use dicey_rust.Payload.Load.{cursor_value}
use dicey_rust.Payload.Loads.{
  message_get_content-message_bytes, payload_load-message_bytes, payload_get_kind-message_bytes,
}
use dicey_rust.Payload.Sizes.{
  Outgoing, IsSendable, IsOptionalWritable, message_bytes, address_bytes, optional_value_bytes,
  length-message_bytes,
}
use dicey_rust.Packet.{
  Op, op_of_kind, op_requires_payload, DiceyMessage, no_value, message_value, packet_as_message,
  packet_load, finished, packet_kind_of, message_packet,
}

abbrev pub optional_value_of : Option Arg → DiceyValue
optional_value_of none = no_value
optional_value_of (some value) = value_of value

-- The message that a receiver is meant to see.
abbrev pub received : Outgoing → DiceyMessage
received m = record {
  op = op_of_kind m.kind;
  path = m.path;
  trait = m.trait;
  elem = m.elem;
  value = optional_value_of m.value;
}

abbrev pub HasOptionalNoEmptyBytes : Option Arg → Type 0
HasOptionalNoEmptyBytes none = Unit
HasOptionalNoEmptyBytes (some value) = HasNoEmptyBytes value

op_of_due :
    (kind : PayloadKind)
    → kind_is_message kind ≡ true
    → (op_requires_payload (op_of_kind kind) ≡ kind_has_value kind)
      × (packet_kind_of kind ≡ message_packet)
unfolding kind_is_message op_requires_payload op_of_kind kind_has_value packet_kind_of
op_of_due PayloadKind.invalid h = cc
op_of_due PayloadKind.hello h = cc
op_of_due PayloadKind.bye h = cc
op_of_due _ h = (refl, refl)

-- A value comes only with an operation that has one.
abbrev DueFor : Op → Option Arg → Type 0
DueFor op none = Unit
DueFor op (some v) = op_requires_payload op ≡ true

message_value_ok :
    (op : Op) (value : Option Arg)
    → DueFor op value
    → IsOptionalWritable value
    → length (optional_value_bytes value) ≤ ptrdiff_max
    → message_value op (cursor_value (slice (optional_value_bytes value)))
      ≡ ok (optional_value_of value)
unfolding message_value cursor_value
message_value_ok op none due h fits = refl
message_value_ok op (some v) due h fits = rw (due, value_probe_last v h fits)

DueFor-due :
    (kind : PayloadKind) (value : Option Arg)
    → kind_is_message kind ≡ true
    → value_is_due kind value ≡ true
    → DueFor (op_of_kind kind) value
unfolding value_is_due
DueFor-due kind none is due = tt
DueFor-due kind (some v) is due = (op_of_due kind is).0 ∙ due

value_fits : (m : Outgoing) → IsSendable m → length (optional_value_bytes m.value) ≤ uint32_max
value_fits m s =
    omega (arith, s.fits, length-append (address_bytes m) (optional_value_bytes m.value))

-- The message that is parsed from the bytes of a message is the one that was sent.
pub packet_as_message-message_bytes :
    (m : Outgoing) → IsSendable m → packet_as_message (message_bytes m) ≡ some (ok (received m))
unfolding packet_as_message
packet_as_message-message_bytes m s =
    rw (payload_get_kind-message_bytes m, s.is_message, message_get_content-message_bytes m s)
      (rw (
        message_value_ok (op_of_kind m.kind) m.value
          (DueFor-due m.kind m.value s.is_message s.is_due) s.writable
          (omega (arith, value_fits m s))))

validate_optional :
    (fuel : ℕ) (kind : PayloadKind) (value : Option Arg)
    → kind_is_message kind ≡ true
    → value_is_due kind value ≡ true
    → IsOptionalWritable value
    → HasOptionalNoEmptyBytes value
    → length (optional_value_bytes value) ≤ fuel
    → length (optional_value_bytes value) ≤ uint32_max
    → 0 < fuel
    → (op_requires_payload (op_of_kind kind) ≡ false)
      ⊎ ((op_requires_payload (op_of_kind kind) ≡ true)
          × (validate_value fuel (optional_value_of value) ≡ some (ok tt)))
unfolding value_is_due
validate_optional fuel kind none is due w full enough small pos =
    inl (ground (arith, (op_of_due kind is).0))
validate_optional fuel kind (some v) is due w full enough small pos =
    inr (
      (op_of_due kind is).0 ∙ due,
      validate_value-value_of v fuel w full (omega arith) (omega arith),
    )

-- A message that may be sent, whose value holds no empty byte array, is loaded and accepted by the
-- receiver, whatever bytes follow it, and exactly its own bytes are consumed: fuel of the length of the
-- message is enough. This takes in messages that docs/source/dtf does not allow, with a `bool` above 1
-- or with a path or a selector of any text: no check of the receiver refuses them.
pub packet_load-message_bytes :
    (fuel : ℕ) (malloc : Calloc) (m : Outgoing) (rest : List ℕ)
    → IsSendable m
    → HasOptionalNoEmptyBytes m.value
    → length (message_bytes m) ≤ fuel
    → malloc (length (message_bytes m)) ≡ true
    → packet_load fuel malloc (slice (message_bytes m ++ rest))
      ≡ finished (ok (message_bytes m, slice rest))
unfolding packet_load
packet_load-message_bytes fuel malloc m rest s full enough found =
    rw (payload_load-message_bytes malloc m rest s found) (
      rw
        (
          payload_get_kind-message_bytes m,
          (op_of_due m.kind s.is_message).1,
          packet_as_message-message_bytes m s,
        )
        (elim (validate_optional fuel m.kind m.value s.is_message s.is_due s.writable full
          (omega (
            arith,
            length-message_bytes m,
            length-append (address_bytes m) (optional_value_bytes m.value),
          ))
          (value_fits m s) (omega (arith, length-message_bytes m))) [
            | inl e ↦ rw e refl
            | inr (e, v) ↦ rw (e, v) refl
          ]))

empty_bytes_refused :
    (fuel : ℕ) (value : Option Arg)
    → value ≡ some (Arg.bytes (slice []))
    → validate_value (suc fuel) (optional_value_of value) ≡ some (err einval)
unfolding validate_type validate_value arg_type info_of
empty_bytes_refused fuel value e = rw e refl

due_of_some :
    (kind : PayloadKind) (value : Option Arg) (v : Arg)
    → value ≡ some v
    → kind_is_message kind ≡ true
    → value_is_due kind value ≡ true
    → op_requires_payload (op_of_kind kind) ≡ true
unfolding value_is_due
due_of_some kind none v e is due = cc
due_of_some kind (some w) v e is due = (op_of_due kind is).0 ∙ due

-- A message that may be sent and whose value is the empty byte array is loaded with the error
-- EBADMSG, whatever bytes follow it.
pub packet_load_empty_bytes :
    (fuel : ℕ) (malloc : Calloc) (m : Outgoing) (rest : List ℕ)
    → IsSendable m
    → m.value ≡ some (Arg.bytes (slice []))
    → malloc (length (message_bytes m)) ≡ true
    → packet_load (suc fuel) malloc (slice (message_bytes m ++ rest)) ≡ finished (err ebadmsg)
unfolding packet_load
packet_load_empty_bytes fuel malloc m rest s e found =
    rw (payload_load-message_bytes malloc m rest s found) (
      rw
        (
          payload_get_kind-message_bytes m,
          (op_of_due m.kind s.is_message).1,
          packet_as_message-message_bytes m s,
        )
        (rw
          (
            due_of_some m.kind m.value (Arg.bytes (slice [])) e s.is_message s.is_due,
            empty_bytes_refused fuel m.value e,
          )
          refl))
