-- ===== src/MessageBuilder.antt =====
-- Building messages (`dicey_message_builder_*` and `dicey_packet_message` of src/wirefmt/builders.c).
--
-- The value builder that a message builder lends itself to is a number, its address; its own state is
-- an argument of the operations on values, and a part of the outcome of the calls that make it or take
-- it back. Memory that is given back is not modelled.
pub mod OneShot
use dicey_rust.Prelude.{
  ℕ, Bool, true, false, not, Option, none, some, List, [], ◌==◌, ◌&&◌, if◌then◌else◌, Result, ok,
  err, Error, enomem, einval, eagain,
}
use dicey_rust.Types.{DiceyType, type_code}
use dicey_rust.ViewMut.{ViewMut, nowhere, Calloc}
use dicey_rust.Arg.{Arg, arg_type}
use dicey_rust.Payload.{PayloadKind}
use dicey_rust.Payload.Write.{MessageRes, message_write}
use dicey_rust.Packet.{Op, op_is_valid}
use dicey_rust.ValueBuilder.{
  BuilderState, idle, pending, value, Cell, blank, arg_of, ValueBuilder, fresh_builder,
  zeroed_builder, builder_set,
}

-- `struct dicey_message_builder`
pub record MessageBuilder : Type 0 where
  pub state : BuilderState
  pub op : Op
  pub seq : ℕ
  pub path : Option (List ℕ)
  pub trait : Option (List ℕ)
  pub elem : Option (List ℕ)
  pub root : Option Cell
  pub borrowed_to : Option ℕ

-- `dicey_message_builder_init`, and `dicey_message_builder_discard`
unfoldable pub message_builder_init : MessageBuilder
message_builder_init = record {
  state = idle;
  op = Op.no_op;
  seq = 0;
  path = none;
  trait = none;
  elem = none;
  root = none;
  borrowed_to = none;
}

-- `msgkind_to_dtf`
unfoldable pub msgkind_to_dtf : Op → Result PayloadKind
msgkind_to_dtf Op.no_op = err einval
msgkind_to_dtf Op.set = ok PayloadKind.set
msgkind_to_dtf Op.get = ok PayloadKind.get
msgkind_to_dtf Op.exec = ok PayloadKind.exec
msgkind_to_dtf Op.signal = ok PayloadKind.event
msgkind_to_dtf Op.response = ok PayloadKind.response

unfoldable pub has {ℓ} : {A : Type ℓ} → Option A → Bool
has none = false
has (some a) = true

unfoldable pub is_get : Op → Bool
is_get Op.get = true
is_get _ = false

unfoldable pub state_is_pending : BuilderState → Bool
state_is_pending pending = true
state_is_pending _ = false

-- `msgbuilder_is_complete`
unfoldable pub is_complete : MessageBuilder → Bool
unfolding has is_get state_is_pending op_is_valid
is_complete builder =
    state_is_pending builder.state
    && has builder.path
    && (has builder.trait && has builder.elem)
    && op_is_valid builder.op
    && (if is_get builder.op then not (has builder.root) else has builder.root)

-- An operation that only a pending builder takes.
unfoldable pub when_pending : MessageBuilder → MessageBuilder → Result (Unit {0}) × MessageBuilder
unfolding state_is_pending
when_pending builder after =
    if state_is_pending builder.state then (ok tt, after) else (err einval, builder)

-- `dicey_message_builder_begin`
unfoldable pub message_begin : MessageBuilder → Op → Result (Unit {0}) × MessageBuilder
unfolding message_builder_init
message_begin builder op = elim builder.state [
  | idle ↦ (ok tt, record message_builder_init { state = pending; op = op })
  | _ ↦ (err einval, builder)
]

-- `dicey_message_builder_is_pending`
unfoldable pub message_is_pending : MessageBuilder → Bool
message_is_pending builder = elim builder.state [ idle ↦ false | _ ↦ true ]

-- `dicey_message_builder_set_path`, `dicey_message_builder_set_selector` and
-- `dicey_message_builder_set_seq`
unfoldable pub set_path : MessageBuilder → List ℕ → Result (Unit {0}) × MessageBuilder
unfolding when_pending
set_path builder path = when_pending builder (record builder { path = some path })

unfoldable pub set_selector :
    MessageBuilder → Option (List ℕ) → Option (List ℕ) → Result (Unit {0}) × MessageBuilder
unfolding when_pending
set_selector builder trait elem =
    when_pending builder (record builder { trait = trait; elem = elem })

unfoldable pub set_seq : MessageBuilder → ℕ → Result (Unit {0}) × MessageBuilder
unfolding when_pending
set_seq builder seq = when_pending builder (record builder { seq = seq })

-- `dicey_message_builder_value_start`: the builder that is started, if it is. Without memory the state
-- has changed already.
unfoldable pub value_start :
    Calloc → MessageBuilder → ℕ → Result (Unit {0}) × MessageBuilder × Option ValueBuilder
unfolding state_is_pending
value_start calloc builder address =
    if not (state_is_pending builder.state)
    then (err einval, builder, none)
    else if not (calloc 1)
    then (err enomem, record builder { state = value }, none)
    else (
      ok tt,
      record builder {
        state = value;
        root = some (blank DiceyType.invalid);
        borrowed_to = some address;
      },
      some fresh_builder,
    )

-- `dicey_message_builder_value_end`: the value builder at the address is zeroed where it is `ok`.
unfoldable pub value_end : MessageBuilder → ℕ → Result (Unit {0}) × MessageBuilder
value_end builder address = elim builder.state [
  | value ↦ elim builder.borrowed_to [
    | none ↦ (err einval, builder)
    | some lent ↦
        if not (address == lent)
        then (err einval, builder)
        else (ok tt, record builder { state = pending; borrowed_to = none })
  ]
  | _ ↦ (err einval, builder)
]

-- The value that a value builder has made goes to the root, and the first error of the two is told.
unfoldable pub end_set :
    MessageBuilder
    → ℕ
    → Result (Unit {0}) × ValueBuilder × Cell
    → Result (Unit {0}) × MessageBuilder
unfolding value_end
end_set builder address (r, child, root) =
    let ended = value_end (record builder { root = some root }) address in
    elim r [ err e ↦ (err e, ended.1) | ok u ↦ ended ]

-- `dicey_message_builder_set_value`, from the start of its value builder on
unfoldable pub set_started :
    Calloc
    → ℕ
    → Arg
    → Result (Unit {0}) × MessageBuilder × Option ValueBuilder
    → Result (Unit {0}) × MessageBuilder
unfolding end_set builder_set
set_started calloc address arg (err e, started, child) = (err e, started)
set_started calloc address arg (ok u, started, child) =
    end_set started address (builder_set calloc fresh_builder (blank DiceyType.invalid) arg)

-- `dicey_message_builder_set_value`, with the address of its own value builder
unfoldable pub set_value : Calloc → ℕ → MessageBuilder → Arg → Result (Unit {0}) × MessageBuilder
unfolding value_start set_started
set_value calloc address builder arg =
    set_started calloc address arg (value_start calloc builder address)

-- The packet that `dtf_message_write` has made, its bytes and their number.
unfoldable pub packet_of : MessageRes → Result (List ℕ × ℕ)
packet_of res = elim res.result [ err e ↦ err e | ok n ↦ ok (res.mem, res.size) ]

-- The argument at the root, if there is one. The outer `none` is that of `arg_of`.
unfoldable pub root_arg : Option Cell → Option (Option Arg)
unfolding arg_of
root_arg none = some none
root_arg (some cell) = elim (arg_of cell) [ none ↦ none | some arg ↦ some (some arg) ]

unfoldable pub built : MessageBuilder → Result (List ℕ × ℕ) → Result (List ℕ × ℕ) × MessageBuilder
unfolding message_builder_init
built builder (err e) = (err e, builder)
built builder (ok packet) = (ok packet, message_builder_init)

-- `dicey_message_builder_build`, from the kind of the payload on. A path is there.
unfoldable pub build_complete :
    Calloc
    → MessageBuilder
    → Result PayloadKind
    → Option (Option Arg)
    → Option (Result (List ℕ × ℕ) × MessageBuilder)
unfolding built packet_of
build_complete calloc builder (err e) root = some (err e, builder)
build_complete calloc builder (ok kind) none = none
build_complete calloc builder (ok kind) (some root) = elim builder.path [
  | none ↦ none
  | some path ↦ some (
      built builder (
        packet_of (
          message_write calloc (nowhere 0) [] kind builder.seq path builder.trait builder.elem
            root)))
]

-- `dicey_message_builder_build`
unfoldable pub message_build :
    Calloc → MessageBuilder → Option (Result (List ℕ × ℕ) × MessageBuilder)
unfolding is_complete build_complete root_arg msgkind_to_dtf state_is_pending
message_build calloc builder =
    if not (state_is_pending builder.state)
    then some (err einval, builder)
    else if not (is_complete builder)
    then some (err eagain, builder)
    else build_complete calloc builder (msgkind_to_dtf builder.op) (root_arg builder.root)

-- The calls of `dicey_packet_message`: each goes on from a builder, and an error ends them.
unfoldable pub go_on :
    Result (Unit {0}) × MessageBuilder
    → (MessageBuilder → Option (Result (List ℕ × ℕ)))
    → Option (Result (List ℕ × ℕ))
go_on (err e, builder) next = some (err e)
go_on (ok u, builder) next = next builder

unfoldable pub packet_build : Calloc → MessageBuilder → Option (Result (List ℕ × ℕ))
unfolding message_build
packet_build calloc builder = elim (message_build calloc builder) [
  | none ↦ none
  | some (r, after) ↦ some r
]

-- The assertion of `dicey_packet_message` on its selector and its value: GET has no value, and any other
-- operation has one.
unfoldable pub is_one_shot : Op → Option (List ℕ) → Option (List ℕ) → Arg → Bool
unfolding has is_get
is_one_shot op trait elem arg =
    let valueless = type_code (arg_type arg) == type_code DiceyType.invalid in
    has trait && has elem && (if is_get op then valueless else not valueless)

-- `dicey_packet_message`, with two allocations, of bytes and of arguments, and an address for the
-- value builder. `none` is a failed assertion.
unfoldable pub packet_message :
    Calloc
    → Calloc
    → ℕ
    → ℕ
    → Op
    → List ℕ
    → Option (List ℕ)
    → Option (List ℕ)
    → Arg
    → Option (Result (List ℕ × ℕ))
unfolding message_begin set_seq set_path set_selector set_value packet_build go_on is_get
    is_one_shot
packet_message calloc calloc_args address seq op path trait elem arg =
    if not (is_one_shot op trait elem arg)
    then none
    else go_on (message_begin message_builder_init op) (λ begun.
      go_on (set_seq begun seq) (λ numbered. go_on (set_path numbered path) (λ placed.
        go_on (set_selector placed trait elem) (λ addressed.
          if is_get op
          then packet_build calloc addressed
          else go_on (set_value calloc_args address addressed arg) (packet_build calloc)))))
