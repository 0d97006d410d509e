-- ===== src/ArgFromValue.antt =====
-- Arguments from received values (`dicey_arg_from_borrowed_value`, `value_list_to_arg` and
-- `value_pair_to_arg` of src/wirefmt/packet-args.c).
--
-- A value is what a probe has found; strings and bytes stay in the packet, as they do in C. `calloc`
-- and `realloc` answer by the number of arguments that room is asked for. What a call leaves in its
-- destination after an error is not looked at by its callers. `none` says that the fuel ran out.
pub mod Outcome
use dicey_rust.Prelude.{
  ℕ, zero, suc, ◌+◌, ◌*◌, Bool, true, false, not, Option, none, some, List, [], ◌∷◌, ltb, ◌==◌,
  if◌then◌else◌, Result, ok, err, ◌>>=◌, ◌&&◌, enomem, einval, eoverflow, le_value, uint32_max,
}
use dicey_rust.Types.{DiceyType}
use dicey_rust.View.{slice}
use dicey_rust.ViewMut.{Calloc}
use dicey_rust.Arg.{Arg, Args, nil, cons, nitems}
use dicey_rust.ValueProbe.{ItemType, variants, each, DataInfo}
use dicey_rust.Value.{
  DiceyValue, Iterator, iterator_next, value_get, value_get_list, value_get_pair,
}

-- A member of the union that is a number.
unfoldable pub number_of : DataInfo → ℕ
number_of (DataInfo.raw bs) = le_value bs
number_of _ = 0

-- The conversion of a number to `bool`
unfoldable pub truth : ℕ → ℕ
truth n = if n == 0 then 0 else 1

unfoldable pub text_in : DataInfo → List ℕ
text_in (DataInfo.str s) = s
text_in _ = []

-- `dicey_arg_from_borrowed_value`, for the types without others in them
unfoldable pub plain_from_value : DiceyValue → Result Arg
unfolding value_get number_of truth text_in
plain_from_value v = elim v.type [
  | DiceyType.invalid ↦ err einval
  | DiceyType.unit ↦ ok Arg.unit
  | DiceyType.bool ↦ do found ← value_get DiceyType.bool v; ok (Arg.bool (truth (number_of found)))
  | DiceyType.byte ↦ do found ← value_get DiceyType.byte v; ok (Arg.byte (number_of found))
  | DiceyType.float ↦ do found ← value_get DiceyType.float v; ok (Arg.float (number_of found))
  | DiceyType.int16 ↦ do found ← value_get DiceyType.int16 v; ok (Arg.int16 (number_of found))
  | DiceyType.int32 ↦ do found ← value_get DiceyType.int32 v; ok (Arg.int32 (number_of found))
  | DiceyType.int64 ↦ do found ← value_get DiceyType.int64 v; ok (Arg.int64 (number_of found))
  | DiceyType.uint16 ↦ do found ← value_get DiceyType.uint16 v; ok (Arg.uint16 (number_of found))
  | DiceyType.uint32 ↦ do found ← value_get DiceyType.uint32 v; ok (Arg.uint32 (number_of found))
  | DiceyType.uint64 ↦ do found ← value_get DiceyType.uint64 v; ok (Arg.uint64 (number_of found))
  | DiceyType.bytes ↦ do
    found ← value_get DiceyType.bytes v
    elim found [
      | DataInfo.bytes n bs ↦ if ltb uint32_max n then err eoverflow else ok (Arg.bytes (slice bs))
      | _ ↦ err einval
    ]
  | DiceyType.str ↦ do found ← value_get DiceyType.str v; ok (Arg.str (some (text_in found)))
  | DiceyType.uuid ↦ do
    found ← value_get DiceyType.uuid v
    elim found [ DataInfo.raw bs ↦ ok (Arg.uuid bs) | _ ↦ err einval ]
  | DiceyType.path ↦ do found ← value_get DiceyType.path v; ok (Arg.path (text_in found))
  | DiceyType.selector ↦ do
    found ← value_get DiceyType.selector v
    elim found [
      | DataInfo.selector trait elem ↦ ok (Arg.selector (some trait) (some elem))
      | _ ↦ err einval
    ]
  | DiceyType.error ↦ do
    found ← value_get DiceyType.error v
    elim found [ DataInfo.error code message ↦ ok (Arg.error code message) | _ ↦ err einval ]
  | DiceyType.array ↦ err einval
  | DiceyType.tuple ↦ err einval
  | DiceyType.pair ↦ err einval
]

-- The zeroed value that the loop over a list starts with.
abbrev pub zeroed_value : DiceyValue
zeroed_value = record { type = DiceyType.invalid; info = DataInfo.raw [] }

unfoldable pub args_snoc : Args → Arg → Args
args_snoc nil arg = cons arg nil
args_snoc (cons a args) arg = cons a (args_snoc args arg)

-- The argument that has the elements of a list. An array is never found with variants in it.
unfoldable pub list_arg_of : DiceyType → ItemType → Args → Arg
list_arg_of DiceyType.array (each t) elems = Arg.array t elems
list_arg_of t kind elems = Arg.tuple elems

-- A test for an element that finds the room used up.
abbrev pub is_full : ℕ → Args → Bool
is_full cap elems = nitems elems == cap

unfoldable mutual
  unfolding plain_from_value list_arg_of args_snoc nitems

  -- `dicey_arg_from_borrowed_value`
  pub arg_from_value : ℕ → Calloc → DiceyValue → Option (Result Arg)
  arg_from_value zero calloc v = none
  arg_from_value (suc fuel) calloc v = elim v.type [
    | DiceyType.array ↦ elim (value_get_list v.type v.info) [
      | err e ↦ some (err e)
      | ok iter ↦ value_list_to_arg fuel calloc v.type iter
    ]
    | DiceyType.tuple ↦ elim (value_get_list v.type v.info) [
      | err e ↦ some (err e)
      | ok iter ↦ value_list_to_arg fuel calloc v.type iter
    ]
    | DiceyType.pair ↦ elim (value_get_pair v) [
      | err e ↦ some (err e)
      | ok p ↦ value_pair_to_arg fuel calloc p.0 p.1
    ]
    | _ ↦ some (plain_from_value v)
  ]

  -- `value_list_to_arg`
  pub value_list_to_arg : ℕ → Calloc → DiceyType → Iterator → Option (Result Arg)
  value_list_to_arg zero calloc t iter = none
  value_list_to_arg (suc fuel) calloc t iter = elim (calloc 8) [
    | false ↦ some (err enomem)
    | true ↦ elim (list_loop fuel calloc iter zeroed_value 8 nil) [
      | none ↦ none
      | some (err e) ↦ some (err e)
      | some (ok elems) ↦ some (ok (list_arg_of t iter.item_type elems))
    ]
  ]

  -- Its loop, which goes on while `dicey_iterator_next` does not return DICEY_OK, which is 0. An
  -- iterator that fails leaves itself and the value as they were.
  pub list_loop : ℕ → Calloc → Iterator → DiceyValue → ℕ → Args → Option (Result Args)
  list_loop zero calloc iter v cap elems = none
  list_loop (suc fuel) calloc iter v cap elems = elim (iterator_next iter) [
    | ok _ ↦ some (ok elems)
    | err _ ↦ elim (nitems elems == 65535) [
      | true ↦ some (err eoverflow)
      | false ↦ elim (is_full cap elems && not (calloc (cap * 2))) [
        | true ↦ some (err enomem)
        | false ↦ elim (arg_from_value fuel calloc v) [
          | none ↦ none
          | some (err e) ↦ some (err e)
          | some (ok arg) ↦
              list_loop fuel calloc iter v (if is_full cap elems then cap * 2 else cap)
                (args_snoc elems arg)
        ]
      ]
    ]
  ]

  -- `value_pair_to_arg`
  pub value_pair_to_arg : ℕ → Calloc → DiceyValue → DiceyValue → Option (Result Arg)
  value_pair_to_arg zero calloc v w = none
  value_pair_to_arg (suc fuel) calloc v w = elim (calloc 1) [
    | false ↦ some (err enomem)
    | true ↦ elim (arg_from_value fuel calloc v) [
      | none ↦ none
      | some (err e) ↦ some (err e)
      | some (ok first) ↦ elim (arg_from_value fuel calloc w) [
        | none ↦ none
        | some (err e) ↦ some (err e)
        | some (ok second) ↦ some (ok (Arg.pair first second))
      ]
    ]
  ]
