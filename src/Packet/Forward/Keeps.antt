-- ===== src/Packet/Forward/Keeps.antt =====
-- `dicey_packet_forward_message` of src/wirefmt/packet.c on messages that `dtf_message_write` has
-- written.
use dicey_rust.Prelude.{
  ℕ, ◌≡◌, refl, ap, ◌∙◌, true, Option, none, some, List, length, drop, drop-append, ok, arith,
  length-append,
}
use dicey_rust.ViewMut.{Calloc}
use dicey_rust.Arg.{Arg}
use dicey_rust.Payload.{PayloadKind, kind_is_message, value_is_due, message_estimate_header_size}
use dicey_rust.Payload.Write.{message_header_bytes}
use dicey_rust.Payload.Sizes.{
  Outgoing, IsSendable, message_bytes, trailer_bytes, address_bytes, optional_value_bytes,
  length-message_bytes, length-message_header_bytes, message_estimate_header_size_ok,
}
use dicey_rust.Payload.Writes.{head_bytes}
use dicey_rust.Payload.RawWrites.{message_bytes_split, raw_write_alloc}
use dicey_rust.Packet.{Op, op_of_kind, op_is_valid}
use dicey_rust.Packet.Receive.{packet_as_message-message_bytes}
use dicey_rust.Packet.Forward.{kind_of_op, is_valid_forward, packet_forward_message}

-- The message that is meant to be sent on.
abbrev pub readdressed : Outgoing → ℕ → Op → List ℕ → List ℕ → List ℕ → Outgoing
readdressed m seq op path trait elem = record {
  kind = kind_of_op op;
  seq = seq;
  path = path;
  trait = trait;
  elem = elem;
  value = m.value;
}

op_of_message : (op : Op) → kind_is_message (kind_of_op op) ≡ true → op_is_valid op ≡ true
unfolding kind_of_op op_is_valid kind_is_message
op_of_message Op.no_op h = cc
op_of_message _ h = refl

-- Two kinds that are due the same value may follow each other.
due_forward :
    (kind : PayloadKind) (op : Op) (value : Option Arg)
    → kind_is_message kind ≡ true
    → value_is_due kind value ≡ true
    → kind_is_message (kind_of_op op) ≡ true
    → value_is_due (kind_of_op op) value ≡ true
    → is_valid_forward (op_of_kind kind) op ≡ true
unfolding kind_is_message value_is_due kind_of_op op_of_kind is_valid_forward
due_forward PayloadKind.get Op.get none is due is' due' = refl
due_forward PayloadKind.get Op.get (some v) is due is' due' = cc
due_forward PayloadKind.get _ none is due is' due' = cc
due_forward PayloadKind.get _ (some v) is due is' due' = cc
due_forward _ Op.get none is due is' due' = cc
due_forward _ Op.get (some v) is due is' due' = cc
due_forward _ _ value is due is' due' = ground arith

-- The header of the old message under the new operation has the size of the old one.
old_header :
    (m : Outgoing) (seq : ℕ) (op : Op) (path trait elem : List ℕ)
    → IsSendable m
    → IsSendable (readdressed m seq op path trait elem)
    → message_estimate_header_size (kind_of_op op) m.path (some m.trait) (some m.elem)
      ≡ ok (length (head_bytes m))
old_header m seq op path trait elem s t =
    let same : IsSendable (record m { kind = kind_of_op op }) = record {
      is_message = t.is_message;
      is_due = t.is_due;
      seq_small = s.seq_small;
      path_text = s.path_text;
      trait_text = s.trait_text;
      elem_text = s.elem_text;
      writable = s.writable;
      fits = s.fits;
    } in
    message_estimate_header_size_ok (record m { kind = kind_of_op op }) same
    ∙ ap ok (
        omega (
          arith,
          length-append (message_header_bytes m.kind m.seq (length (trailer_bytes m)))
              (address_bytes m),
          length-message_header_bytes m.kind m.seq (length (trailer_bytes m)),
        ))

old_value :
    (m : Outgoing) → drop (length (head_bytes m)) (message_bytes m) ≡ optional_value_bytes m.value
old_value m =
    ap (λ bs. drop (length (head_bytes m)) bs) (message_bytes_split m)
    ∙ drop-append (head_bytes m) (optional_value_bytes m.value)

-- A message that may be sent is forwarded under an operation, a path, a selector and a sequence number
-- with which it may be sent: the packet holds the bytes of the message with those in place of its own,
-- and the value unchanged.
pub packet_forward_message-message_bytes :
    (calloc : Calloc) (m : Outgoing) (seq : ℕ) (op : Op) (path trait elem : List ℕ)
    → IsSendable m
    → IsSendable (readdressed m seq op path trait elem)
    → calloc (length (message_bytes (readdressed m seq op path trait elem))) ≡ true
    → packet_forward_message calloc (message_bytes m) seq op path trait elem
      ≡ some (ok (message_bytes (readdressed m seq op path trait elem)))
unfolding packet_forward_message
packet_forward_message-message_bytes calloc m seq op path trait elem s t found =
    rw (op_of_message op t.is_message, packet_as_message-message_bytes m s)
      (rw
        (
          due_forward m.kind op m.value s.is_message s.is_due t.is_message t.is_due,
          old_header m seq op path trait elem s t,
        )
        (rw (old_value m) (
          rw (raw_write_alloc calloc (readdressed m seq op path trait elem) t found)
            (ground (arith, length-message_bytes m)))))
