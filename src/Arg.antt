-- ===== src/Arg.antt =====
-- The arguments that a program builds values from (include/dicey/core/builders.h).
--
-- A union with its tag is a constructor with the active member. An integer or a float is the bit
-- pattern that the C code copies. An optional C string is NULL when it is `none`; the list of
-- elements is the array that `elems` points to, and its length is `nitems`.
pub mod Encoding
pub mod Copies
use dicey_rust.Prelude.{ℕ, zero, suc, Option, List}
use dicey_rust.Types.{DiceyType}
use dicey_rust.View.{View}

mutual
  -- `struct dicey_arg`
  pub data Arg : Type 0 where
    invalid : Arg
    unit : Arg
    bool byte : ℕ → Arg
    float : ℕ → Arg
    int16 int32 int64 : ℕ → Arg
    uint16 uint32 uint64 : ℕ → Arg
    array : DiceyType → Args → Arg
    tuple : Args → Arg
    pair : Arg → Arg → Arg
    bytes : View → Arg
    str : Option (List ℕ) → Arg
    uuid : List ℕ → Arg
    path : List ℕ → Arg
    selector : Option (List ℕ) → Option (List ℕ) → Arg
    error : ℕ → Option (List ℕ) → Arg

  pub data Args : Type 0 where
    nil : Args
    cons : Arg → Args → Args

-- The tag of an argument.
unfoldable pub arg_type : Arg → DiceyType
arg_type Arg.invalid = DiceyType.invalid
arg_type Arg.unit = DiceyType.unit
arg_type (Arg.bool v) = DiceyType.bool
arg_type (Arg.byte v) = DiceyType.byte
arg_type (Arg.float v) = DiceyType.float
arg_type (Arg.int16 v) = DiceyType.int16
arg_type (Arg.int32 v) = DiceyType.int32
arg_type (Arg.int64 v) = DiceyType.int64
arg_type (Arg.uint16 v) = DiceyType.uint16
arg_type (Arg.uint32 v) = DiceyType.uint32
arg_type (Arg.uint64 v) = DiceyType.uint64
arg_type (Arg.array t elems) = DiceyType.array
arg_type (Arg.tuple elems) = DiceyType.tuple
arg_type (Arg.pair first second) = DiceyType.pair
arg_type (Arg.bytes v) = DiceyType.bytes
arg_type (Arg.str s) = DiceyType.str
arg_type (Arg.uuid v) = DiceyType.uuid
arg_type (Arg.path s) = DiceyType.path
arg_type (Arg.selector trait elem) = DiceyType.selector
arg_type (Arg.error code message) = DiceyType.error

unfoldable pub nitems : Args → ℕ
nitems nil = 0
nitems (cons arg args) = suc (nitems args)
