-- ===== src/ValueBuilder.antt =====
-- Building a value piece by piece (`dicey_value_builder_*` of src/wirefmt/builders.c).
--
-- The argument that `_root` points to is an argument of each operation and a part of its outcome; the
-- elements of a list are cells in the block that `elems` points to. `calloc` and `realloc` answer by
-- the number of arguments that room is asked for; what they give holds no more than was copied into
-- it. Copied strings and bytes stay shared, as they do in C. Memory that is given back is not modelled.
pub mod Items
pub mod Lists
use dicey_rust.Prelude.{
  ℕ, zero, suc, ◌+◌, ◌-◌, ◌*◌, ◌/◌, ◌%◌, Bool, true, false, not, Option, none, some, List, [], ◌∷◌,
  ◌++◌, replicate, take, ltb, leb, ◌==◌, ◌&&◌, if◌then◌else◌, Result, ok, err, Error, enomem,
  einval, eagain, eoverflow, evalue_type_mismatch, get_or, set,
}
use dicey_rust.Types.{DiceyType, type_code, type_is_valid}
use dicey_rust.View.{null}
use dicey_rust.ViewMut.{Calloc}
use dicey_rust.Arg.Copies.{arg_dup}
use dicey_rust.Arg.{Arg, Args, nil, cons, arg_type, nitems}

-- `enum builder_state`
pub data BuilderState : Type 0 where
  idle pending value array pair tuple : BuilderState

-- A `struct dicey_arg` that is built: zeroed but for its tag, or with its contents.
pub data Cell : Type 0 where
  blank : DiceyType → Cell
  holds : Arg → Cell

unfoldable pub cell_type : Cell → DiceyType
cell_type (blank t) = t
cell_type (holds arg) = arg_type arg

-- The argument that a cell is. A path or a pair of NULL pointers is none.
unfoldable pub arg_of : Cell → Option Arg
arg_of (holds arg) = some arg
arg_of (blank DiceyType.invalid) = some Arg.invalid
arg_of (blank DiceyType.unit) = some Arg.unit
arg_of (blank DiceyType.bool) = some (Arg.bool 0)
arg_of (blank DiceyType.byte) = some (Arg.byte 0)
arg_of (blank DiceyType.float) = some (Arg.float 0)
arg_of (blank DiceyType.int16) = some (Arg.int16 0)
arg_of (blank DiceyType.int32) = some (Arg.int32 0)
arg_of (blank DiceyType.int64) = some (Arg.int64 0)
arg_of (blank DiceyType.uint16) = some (Arg.uint16 0)
arg_of (blank DiceyType.uint32) = some (Arg.uint32 0)
arg_of (blank DiceyType.uint64) = some (Arg.uint64 0)
arg_of (blank DiceyType.array) = some (Arg.array DiceyType.invalid nil)
arg_of (blank DiceyType.tuple) = some (Arg.tuple nil)
arg_of (blank DiceyType.pair) = none
arg_of (blank DiceyType.bytes) = some (Arg.bytes (null 0))
arg_of (blank DiceyType.str) = some (Arg.str none)
arg_of (blank DiceyType.uuid) = some (Arg.uuid (replicate 16 0))
arg_of (blank DiceyType.path) = none
arg_of (blank DiceyType.selector) = some (Arg.selector none none)
arg_of (blank DiceyType.error) = some (Arg.error 0 none)

unfoldable pub args_of : List Cell → Option Args
unfolding arg_of
args_of [] = some nil
args_of (cell ∷ cells) = elim (arg_of cell) [
  | none ↦ none
  | some arg ↦ elim (args_of cells) [ none ↦ none | some args ↦ some (cons arg args) ]
]

-- `struct _dicey_value_builder_list`
pub record BuilderList : Type 0 where
  pub type : DiceyType
  pub nitems : ℕ
  pub cap : ℕ
  pub elems : List Cell

-- `struct dicey_value_builder`, without `_root`
pub record ValueBuilder : Type 0 where
  pub state : BuilderState
  pub list : BuilderList

abbrev pub no_list : BuilderList
no_list = record { type = DiceyType.invalid; nitems = 0; cap = 0; elems = [] }

abbrev pub zeroed_builder : ValueBuilder
zeroed_builder = record { state = idle; list = no_list }

-- A builder that has just been given its argument.
abbrev pub fresh_builder : ValueBuilder
fresh_builder = record { state = pending; list = no_list }

-- `DEFAULT_VAL_CAP`
abbrev pub default_val_cap : ℕ
default_val_cap = 16

-- `arglist_grow`: the result, and the list after it.
unfoldable pub arglist_grow : Calloc → BuilderList → Result (Unit {0}) × BuilderList
arglist_grow realloc list =
    let new_cap = if list.cap == 0 then default_val_cap else list.cap * 3 / 2 in
    if not (realloc new_cap) then (err enomem, list) else (
      ok tt,
      record {
        type = list.type;
        nitems = list.nitems;
        cap = new_cap;
        elems = list.elems ++ replicate (new_cap - list.cap) (blank DiceyType.invalid);
      },
    )

-- What a start leaves: its result and the builder. `none` is the failed assertion on the type of an
-- array.
abbrev pub Started : Type 0
Started = Option (Result (Unit {0}) × ValueBuilder)

-- A builder of a list that has no elements yet.
unfoldable pub started : BuilderState → DiceyType → Started
started list_kind type = some (
  ok tt,
  record { state = list_kind; list = record { type = type; nitems = 0; cap = 0; elems = [] } },
)

-- `valbuilder_list_start`
unfoldable pub list_start : BuilderState → DiceyType → ValueBuilder → Started
unfolding started
list_start list_kind type builder = elim builder.state [
  | pending ↦ elim list_kind [
    | array ↦ if type_is_valid type then started array type else none
    | other ↦ started other DiceyType.invalid
  ]
  | _ ↦ some (err einval, builder)
]

-- `dicey_value_builder_array_start`, `dicey_value_builder_pair_start` and
-- `dicey_value_builder_tuple_start`
unfoldable pub array_start : DiceyType → ValueBuilder → Started
unfolding list_start
array_start type builder = list_start array type builder

unfoldable pub pair_start : ValueBuilder → Started
unfolding list_start
pair_start builder = list_start pair DiceyType.invalid builder

unfoldable pub tuple_start : ValueBuilder → Started
unfolding list_start
tuple_start builder = list_start tuple DiceyType.invalid builder

-- The elements of a list that have been asked for.
unfoldable pub items_of : BuilderList → Option Args
unfolding args_of
items_of list = args_of (take list.nitems list.elems)

-- What an end leaves: its result, the builder and the argument. `none` says that an element was left
-- as a path or a pair of NULL pointers.
abbrev pub Ended : Type 0
Ended = Option (Result (Unit {0}) × ValueBuilder × Cell)

-- `dicey_value_builder_array_end`
unfoldable pub array_end : ValueBuilder → Cell → Ended
unfolding items_of
array_end builder root = elim builder.state [
  | array ↦ elim (items_of builder.list) [
    | none ↦ none
    | some elems ↦ some (ok tt, zeroed_builder, holds (Arg.array builder.list.type elems))
  ]
  | _ ↦ some (err einval, builder, root)
]

-- `dicey_value_builder_tuple_end`
unfoldable pub tuple_end : ValueBuilder → Cell → Ended
unfolding items_of
tuple_end builder root = elim builder.state [
  | tuple ↦ elim (items_of builder.list) [
    | none ↦ none
    | some elems ↦ some (ok tt, zeroed_builder, holds (Arg.tuple elems))
  ]
  | _ ↦ some (err einval, builder, root)
]

-- The builder when its elements have been given back, but not forgotten.
abbrev pub dangling : ValueBuilder → ValueBuilder
dangling builder = record {
  state = builder.state;
  list = record {
    type = builder.list.type;
    nitems = builder.list.nitems;
    cap = builder.list.cap;
    elems = [];
  };
}

-- `dicey_value_builder_pair_end`
unfoldable pub pair_end : Calloc → ValueBuilder → Cell → Ended
unfolding items_of
pair_end calloc builder root = elim builder.state [
  | pair ↦
      if not (builder.list.nitems == 2)
      then some (err eagain, builder, root)
      else if not (calloc 1)
      then some (err enomem, dangling builder, root)
      else elim (items_of builder.list) [
        | some (cons first (cons second nil)) ↦
            some (ok tt, zeroed_builder, holds (Arg.pair first second))
        | _ ↦ none
      ]
  | _ ↦ some (err einval, builder, root)
]

-- `dicey_value_builder_is_list`
unfoldable pub is_list : ValueBuilder → Bool
is_list builder = elim builder.state [ array ↦ true | pair ↦ true | tuple ↦ true | _ ↦ false ]

-- `dicey_value_builder_is_pending`
unfoldable pub is_pending : ValueBuilder → Bool
is_pending builder = elim builder.state [ idle ↦ false | _ ↦ true ]

-- The list with room for an element, if there is memory: the result of the growth is not looked at.
unfoldable pub room_for : Calloc → BuilderList → BuilderList
unfolding arglist_grow
room_for realloc list = if leb list.cap list.nitems then (arglist_grow realloc list).1 else list

-- The place of a new element, whose own builder is a fresh one. `none` says that the element is
-- outside of the block. The number of elements has 16 bits.
unfoldable pub new_item : BuilderState → BuilderList → Option (Result ℕ × ValueBuilder)
new_item state list =
    if not (ltb list.nitems list.cap)
    then none
    else some (
      ok list.nitems,
      record {
        state = state;
        list = record {
          type = list.type;
          nitems = (list.nitems + 1) % 65536;
          cap = list.cap;
          elems =
              set list.elems list.nitems
                (blank (elim state [ array ↦ list.type | _ ↦ DiceyType.invalid ]));
        };
      },
    )

-- `dicey_value_builder_next`
unfoldable pub builder_next : Calloc → ValueBuilder → Option (Result ℕ × ValueBuilder)
unfolding new_item room_for
builder_next realloc builder = elim builder.state [
  | array ↦ new_item builder.state (room_for realloc builder.list)
  | tuple ↦ new_item builder.state (room_for realloc builder.list)
  | pair ↦
      if leb 2 builder.list.nitems
      then some (err eoverflow, builder)
      else new_item builder.state (room_for realloc builder.list)
  | _ ↦ some (err einval, builder)
]

-- `dicey_value_builder_set`. After a failed copy the argument has the contents of `arg` itself.
unfoldable pub builder_set :
    Calloc → ValueBuilder → Cell → Arg → Result (Unit {0}) × ValueBuilder × Cell
unfolding cell_type arg_dup
builder_set calloc builder root arg = elim builder.state [
  | pending ↦
      if not (type_is_valid (arg_type arg))
      then (err einval, builder, root)
      else if type_is_valid (cell_type root)
          && not (type_code (cell_type root) == type_code (arg_type arg))
      then (err evalue_type_mismatch, builder, root)
      else elim (arg_dup calloc arg) [
        | none ↦ (err enomem, builder, holds arg)
        | some copy ↦ (ok tt, record { state = idle; list = builder.list }, holds copy)
      ]
  | _ ↦ (err einval, builder, root)
]
