-- ===== src/Packet/Forward.antt =====
-- Forwarding a message under another path, selector, sequence number or operation
-- (`dicey_packet_forward_message` of src/wirefmt/packet.c).
pub mod Keeps
use dicey_rust.Prelude.{
  ℕ, Bool, true, false, not, Option, none, some, List, [], length, drop, ◌==◌, if◌then◌else◌,
  Result, ok, err, ◌>>=◌, einval, ebadmsg,
}
use dicey_rust.View.{slice}
use dicey_rust.ViewMut.{Calloc, nowhere}
use dicey_rust.Payload.{PayloadKind, message_estimate_header_size}
use dicey_rust.Payload.Write.{MessageRes, message_write_with_raw_value}
use dicey_rust.Packet.{
  Op, no_op, get, set, exec, signal, response, op_is_valid, DiceyMessage, packet_as_message,
}

-- `(enum dtf_payload_kind) type`
unfoldable pub kind_of_op : Op → PayloadKind
kind_of_op no_op = PayloadKind.invalid
kind_of_op get = PayloadKind.get
kind_of_op set = PayloadKind.set
kind_of_op exec = PayloadKind.exec
kind_of_op signal = PayloadKind.event
kind_of_op response = PayloadKind.response

-- `is_valid_forward`
unfoldable pub is_valid_forward : Op → Op → Bool
is_valid_forward get get = true
is_valid_forward get _ = false
is_valid_forward _ get = false
is_valid_forward _ _ = true

unfoldable pub forwarded : MessageRes → Result (List ℕ)
forwarded r = elim r.result [ err e ↦ err e | ok n ↦ ok r.mem ]

-- The crafting of the new packet, from the message that the old one holds.
unfoldable pub forward_parsed :
    Calloc → List ℕ → ℕ → Op → List ℕ → List ℕ → List ℕ → Result DiceyMessage → Result (List ℕ)
unfolding is_valid_forward kind_of_op forwarded
forward_parsed calloc old seq op path trait elem (err e) = err ebadmsg
forward_parsed calloc old seq op path trait elem (ok msg) =
    if not (is_valid_forward msg.op op) then err einval else do
      old_header_size ←
          message_estimate_header_size (kind_of_op op) msg.path (some msg.trait) (some msg.elem)
      forwarded (
          message_write_with_raw_value calloc (nowhere 0) [] (kind_of_op op) seq path (some trait)
            (some elem) (slice (drop old_header_size old)))

-- `dicey_packet_forward_message`: the strings of the caller are not NULL. `none` is undefined
-- behaviour of the parser.
unfoldable pub packet_forward_message :
    Calloc → List ℕ → ℕ → Op → List ℕ → List ℕ → List ℕ → Option (Result (List ℕ))
unfolding forward_parsed op_is_valid
packet_forward_message calloc old seq op path trait elem =
    if not (op_is_valid op)
    then some (err einval)
    else if length old == 0
    then some (err ebadmsg)
    else elim (packet_as_message old) [
      | none ↦ none
      | some r ↦ some (forward_parsed calloc old seq op path trait elem r)
    ]
