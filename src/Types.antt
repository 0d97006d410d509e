-- ===== src/Types.antt =====
-- The value types of dicey and their codes on the wire (include/dicey/core/type.h,
-- src/wirefmt/value.c, `type_size` of src/wirefmt/dtf/value-probe.c).
use dicey_rust.Prelude.{ℕ, ◌≡◌, refl, Bool, true, false, Option, some, none, ◌==◌, if◌then◌else◌}

-- `enum dicey_type`. Every code that the enumeration does not name is `invalid`.
pub data DiceyType : Type 0 where
  invalid unit bool byte float int16 int32 int64 uint16 uint32 uint64 : DiceyType
  array tuple pair bytes str uuid path selector error : DiceyType

unfoldable pub type_code : DiceyType → ℕ
type_code invalid = 0
type_code unit = b'$'
type_code bool = b'b'
type_code byte = b'c'
type_code float = b'f'
type_code int16 = b'n'
type_code int32 = b'i'
type_code int64 = b'x'
type_code uint16 = b'q'
type_code uint32 = b'u'
type_code uint64 = b't'
type_code array = b'['
type_code tuple = b'('
type_code pair = b'{'
type_code bytes = b'y'
type_code str = b's'
type_code uuid = b'#'
type_code path = b'@'
type_code selector = b'%'
type_code error = b'e'

unfoldable pub type_of_code : ℕ → DiceyType
type_of_code c =
    if c == b'$'
    then unit
    else if c == b'b'
    then bool
    else if c == b'c'
    then byte
    else if c == b'f'
    then float
    else if c == b'n'
    then int16
    else if c == b'i'
    then int32
    else if c == b'x'
    then int64
    else if c == b'q'
    then uint16
    else if c == b'u'
    then uint32
    else if c == b't'
    then uint64
    else if c == b'['
    then array
    else if c == b'('
    then tuple
    else if c == b'{'
    then pair
    else if c == b'y'
    then bytes
    else if c == b's'
    then str
    else if c == b'#'
    then uuid
    else if c == b'@'
    then path
    else if c == b'%'
    then selector
    else if c == b'e'
    then error
    else invalid

-- `dicey_type_is_valid`
unfoldable pub type_is_valid : DiceyType → Bool
type_is_valid invalid = false
type_is_valid _ = true

-- `dicey_type_is_container`
unfoldable pub type_is_container : DiceyType → Bool
type_is_container array = true
type_is_container pair = true
type_is_container tuple = true
type_is_container _ = false

-- `type_size`: `none` stands for `DTF_SIZE_DYNAMIC`. The callers have checked that the type is valid,
-- so the error for an invalid one is not met.
unfoldable pub type_size : DiceyType → Option ℕ
type_size invalid = none
type_size unit = some 0
type_size bool = some 1
type_size byte = some 1
type_size float = some 8
type_size int16 = some 2
type_size int32 = some 4
type_size int64 = some 8
type_size uint16 = some 2
type_size uint32 = some 4
type_size uint64 = some 8
type_size uuid = some 16
type_size array = none
type_size pair = none
type_size tuple = none
type_size bytes = none
type_size str = none
type_size path = none
type_size selector = none
type_size error = none

-- `DICEY_VARIANT_ID`
abbrev pub variant_id : ℕ
variant_id = b'v'

pub type_of_code-type_code : (t : DiceyType) → type_of_code (type_code t) ≡ t
unfolding type_of_code type_code
type_of_code-type_code invalid = refl
type_of_code-type_code _ = refl
