-- ===== src/MessageBuilder/OneShot.antt =====
-- `dicey_packet_message` of src/wirefmt/builders.c, which builds a message in one call.
use dicey_rust.Prelude.{
  ℕ, ◌≡◌, refl, sym, ◌∙◌, ap, true, Option, none, some, List, [], Result, ok, err, ==_refl, length,
  ◌==◌, false,
}
use mathlib.Core.Bool.{true≢false}
use dicey_rust.Types.{DiceyType, type_is_valid, type_code}
use dicey_rust.ViewMut.{nowhere, Calloc}
use dicey_rust.Arg.{Arg, arg_type}
use dicey_rust.Payload.{PayloadKind}
use dicey_rust.Payload.Write.{message_write}
use dicey_rust.Payload.Sizes.{Outgoing, IsSendable, message_bytes}
use dicey_rust.Payload.Writes.{message_write_alloc}
use dicey_rust.Packet.{Op, op_is_valid}
use dicey_rust.ValueBuilder.{
  idle, pending, value, ValueBuilder, blank, holds, fresh_builder, builder_set,
}
use dicey_rust.Arg.Copies.{arg_dup-same}
use dicey_rust.MessageBuilder.{
  MessageBuilder, packet_message, packet_of, msgkind_to_dtf, packet_build, set_value, value_start,
  end_set, built, set_started, go_on, is_one_shot,
}

-- A builder that has all but its value.
abbrev addressed : Op → ℕ → List ℕ → List ℕ → List ℕ → MessageBuilder
addressed op seq path trait elem = record {
  state = pending;
  op = op;
  seq = seq;
  path = some path;
  trait = some trait;
  elem = some elem;
  root = none;
  borrowed_to = none;
}

built_lem : (builder : MessageBuilder) (r : Result (List ℕ × ℕ)) → (built builder r).0 ≡ r
unfolding built
built_lem builder (ok packet) = refl
built_lem builder (err e) = refl

-- A builder that has its value too.
abbrev valued : Op → ℕ → List ℕ → List ℕ → List ℕ → Arg → MessageBuilder
valued op seq path trait elem arg = record (addressed op seq path trait elem) {
  root = some (holds arg);
}

-- A builder that has lent itself.
abbrev lent : MessageBuilder → ℕ → MessageBuilder
lent builder address = record builder {
  state = value;
  root = some (blank DiceyType.invalid);
  borrowed_to = some address;
}

module _ (calloc_args : Calloc) (plenty : (n : ℕ) → calloc_args n ≡ true) (address : ℕ) where
  builder_set-fresh :
      (arg : Arg)
      → type_is_valid (arg_type arg) ≡ true
      → builder_set calloc_args fresh_builder (blank DiceyType.invalid) arg
        ≡ (ok tt, record { state = idle; list = fresh_builder.list }, holds arg)
  unfolding builder_set type_is_valid
  builder_set-fresh arg valid = rw (valid, arg_dup-same calloc_args plenty arg, builder_set) refl

  module _ (seq : ℕ) (op : Op) (path trait elem : List ℕ) where
    value_start-lent :
        value_start calloc_args (addressed op seq path trait elem) address
        ≡ (ok tt, lent (addressed op seq path trait elem) address, some fresh_builder)
    unfolding value_start
    value_start-lent = rw (plenty 1, value_start) refl

    end_set-holds :
        (child : ValueBuilder) (arg : Arg)
        → end_set
            (lent (addressed op seq path trait elem) address)
            address
            (ok tt, child, holds arg)
          ≡ (ok tt, valued op seq path trait elem arg)
    unfolding end_set
    end_set-holds child arg = rw (==_refl address, end_set) refl

    -- While there is memory, a valid argument becomes the value of the message.
    set_value-root :
        (arg : Arg)
        → type_is_valid (arg_type arg) ≡ true
        → set_value calloc_args address (addressed op seq path trait elem) arg
          ≡ (ok tt, valued op seq path trait elem arg)
    unfolding set_value
    set_value-root arg valid =
        ap (set_started calloc_args address arg) value_start-lent
        ∙ ap (end_set (lent (addressed op seq path trait elem) address) address)
            (builder_set-fresh arg valid)
        ∙ end_set-holds (record { state = idle; list = fresh_builder.list }) arg

-- The message that is written for an operation: GET has no value.
abbrev pub value_for : Op → Arg → Option Arg
value_for op arg = elim op [ Op.get ↦ none | _ ↦ some arg ]

-- The value that an operation is called with: none for GET, and else one of a valid type.
abbrev pub HasValue : Op → Arg → Type 0
HasValue Op.get arg = arg_type arg ≡ DiceyType.invalid
HasValue _ arg = type_is_valid (arg_type arg) ≡ true

valid_code :
    (t : DiceyType) → type_is_valid t ≡ true → (type_code t == type_code DiceyType.invalid) ≡ false
unfolding type_is_valid type_code
valid_code DiceyType.invalid e = absurd (true≢false (sym e))
valid_code _ e = refl

-- Such a call meets its assertion.
is_one_shot-HasValue :
    (op : Op) (trait elem : List ℕ) (arg : Arg)
    → HasValue op arg
    → is_one_shot op (some trait) (some elem) arg ≡ true
unfolding is_one_shot type_code
is_one_shot-HasValue Op.get trait elem arg has = rw (has, is_one_shot) refl
is_one_shot-HasValue Op.no_op trait elem arg has =
    rw (valid_code (arg_type arg) has, is_one_shot) refl
is_one_shot-HasValue Op.set trait elem arg has =
    rw (valid_code (arg_type arg) has, is_one_shot) refl
is_one_shot-HasValue Op.exec trait elem arg has =
    rw (valid_code (arg_type arg) has, is_one_shot) refl
is_one_shot-HasValue Op.signal trait elem arg has =
    rw (valid_code (arg_type arg) has, is_one_shot) refl
is_one_shot-HasValue _ trait elem arg has = rw (valid_code (arg_type arg) has, is_one_shot) refl

-- What is written for a kind.
abbrev written :
    Calloc → ℕ → List ℕ → List ℕ → List ℕ → Option Arg → Result PayloadKind → Result (List ℕ × ℕ)
written calloc seq path trait elem arg (err e) = err e
written calloc seq path trait elem arg (ok kind) =
    packet_of (message_write calloc (nowhere 0) [] kind seq path (some trait) (some elem) arg)

with_value :
    (calloc calloc_args : Calloc) (address seq : ℕ) (op : Op) (path trait elem : List ℕ) (arg : Arg)
    → ((n : ℕ) → calloc_args n ≡ true)
    → type_is_valid (arg_type arg) ≡ true
    → go_on
        (set_value calloc_args address (addressed op seq path trait elem) arg)
        (packet_build calloc)
      ≡ packet_build calloc (valued op seq path trait elem arg)
unfolding go_on
with_value calloc calloc_args address seq op path trait elem arg plenty valid =
    ap (λ x. go_on x (packet_build calloc))
      (set_value-root calloc_args plenty address seq op path trait elem arg valid)

packet_message-written :
    (calloc calloc_args : Calloc) (address seq : ℕ) (op : Op) (path trait elem : List ℕ) (arg : Arg)
    → op_is_valid op ≡ true
    → ((n : ℕ) → calloc_args n ≡ true)
    → HasValue op arg
    → packet_message calloc calloc_args address seq op path (some trait) (some elem) arg
      ≡ some (written calloc seq path trait elem (value_for op arg) (msgkind_to_dtf op))
unfolding packet_message op_is_valid msgkind_to_dtf
packet_message-written calloc calloc_args address seq Op.no_op path trait elem arg e plenty has =
    absurd (true≢false (sym e))
packet_message-written calloc calloc_args address seq Op.get path trait elem arg e plenty has =
    rw (is_one_shot-HasValue Op.get trait elem arg has, packet_message)
      (ap some (
        built_lem (addressed Op.get seq path trait elem)
          (written calloc seq path trait elem none (ok PayloadKind.get))))
packet_message-written calloc calloc_args address seq Op.set path trait elem arg e plenty has =
    rw (is_one_shot-HasValue Op.set trait elem arg has, packet_message)
      (with_value calloc calloc_args address seq Op.set path trait elem arg plenty has
        ∙ ap some (
            built_lem (valued Op.set seq path trait elem arg)
              (written calloc seq path trait elem (some arg) (ok PayloadKind.set))))
packet_message-written calloc calloc_args address seq Op.exec path trait elem arg e plenty has =
    rw (is_one_shot-HasValue Op.exec trait elem arg has, packet_message)
      (with_value calloc calloc_args address seq Op.exec path trait elem arg plenty has
        ∙ ap some (
            built_lem (valued Op.exec seq path trait elem arg)
              (written calloc seq path trait elem (some arg) (ok PayloadKind.exec))))
packet_message-written calloc calloc_args address seq Op.signal path trait elem arg e plenty has =
    rw (is_one_shot-HasValue Op.signal trait elem arg has, packet_message)
      (with_value calloc calloc_args address seq Op.signal path trait elem arg plenty has
        ∙ ap some (
            built_lem (valued Op.signal seq path trait elem arg)
              (written calloc seq path trait elem (some arg) (ok PayloadKind.event))))
packet_message-written calloc calloc_args address seq Op.response path trait elem arg e plenty has =
    rw (is_one_shot-HasValue Op.response trait elem arg has, packet_message)
      (with_value calloc calloc_args address seq Op.response path trait elem arg plenty has
        ∙ ap some (
            built_lem (valued Op.response seq path trait elem arg)
              (written calloc seq path trait elem (some arg) (ok PayloadKind.response))))

msgkind_to_dtf-valid :
    (op : Op) (kind : PayloadKind) → msgkind_to_dtf op ≡ ok kind → op_is_valid op ≡ true
unfolding msgkind_to_dtf op_is_valid
msgkind_to_dtf-valid Op.no_op kind e = absurd cc
msgkind_to_dtf-valid _ kind e = refl

-- `dicey_packet_message`, with no value for GET and with a valid one for another operation, and memory
-- for copying it, is `dtf_message_write` of the kind of the operation and of that value into a new
-- block: the packet has the bytes that it writes, and an error of it is the error.
pub packet_message-message_write :
    (calloc calloc_args : Calloc) (address seq : ℕ) (op : Op) (path trait elem : List ℕ) (arg : Arg)
    (kind : PayloadKind)
    → msgkind_to_dtf op ≡ ok kind
    → ((n : ℕ) → calloc_args n ≡ true)
    → HasValue op arg
    → packet_message calloc calloc_args address seq op path (some trait) (some elem) arg
      ≡ some (
          packet_of (
            message_write calloc
              (nowhere 0)
              []
              kind
              seq
              path
              (some trait)
              (some elem)
              (value_for op arg)))
packet_message-message_write calloc calloc_args address seq op path trait elem arg kind e plenty
      has =
    packet_message-written calloc calloc_args address seq op path trait elem arg
      (msgkind_to_dtf-valid op kind e) plenty has
    ∙ ap (λ k. some (written calloc seq path trait elem (value_for op arg) k)) e

-- With memory for the message too, the packet that `dicey_packet_message` makes of what can be sent is
-- its wire format, all of it and no more.
pub packet_message-message_bytes :
    (calloc calloc_args : Calloc) (address : ℕ) (op : Op) (arg : Arg) (m : Outgoing)
    → msgkind_to_dtf op ≡ ok m.kind
    → m.value ≡ value_for op arg
    → IsSendable m
    → ((n : ℕ) → calloc_args n ≡ true)
    → HasValue op arg
    → calloc (length (message_bytes m)) ≡ true
    → packet_message calloc calloc_args address m.seq op m.path (some m.trait) (some m.elem) arg
      ≡ some (ok (message_bytes m, length (message_bytes m)))
unfolding packet_of
packet_message-message_bytes calloc calloc_args address op arg m e v sendable plenty has found =
    packet_message-message_write calloc calloc_args address m.seq op m.path m.trait m.elem arg
      m.kind e plenty has
    ∙ ap
        (λ x. some (
          packet_of (
            message_write calloc (nowhere 0) [] m.kind m.seq m.path (some m.trait) (some m.elem)
              x)))
        (sym v)
    ∙ ap (λ r. some (packet_of r)) (message_write_alloc calloc m [] sendable found)
