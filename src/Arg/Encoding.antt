-- ===== src/Arg/Encoding.antt =====
-- The wire format of values, as a plain function of the argument, which the writer and the reader are
-- held against. It is written down from docs/source/dtf of dicey-sys/libdicey but for errors: there an
-- error without a message is its code alone, and here, as in src/wirefmt/dtf/value-write.c, its code and
-- an empty string. What may be written is told by `IsWritable`, which has fewer rules than that
-- document, as the code has: a `bool` is any byte, and a path or a selector any text.
use dicey_rust.Prelude.{
  ℕ, ◌<◌, ◌≡◌, true, Option, none, some, List, [], ◌∷◌, ◌++◌, length, le_bytes, uint32_max,
}
use dicey_rust.Types.{DiceyType, type_code, type_is_valid}
use dicey_rust.View.{null, slice}
use dicey_rust.View.Reading.{IsText}
use dicey_rust.Arg.{Arg, Args, nil, cons, arg_type, nitems}

-- A C string with its terminator. A missing one is written as the empty one.
abbrev pub zstring : List ℕ → List ℕ
zstring s = s ++ 0 ∷ []

abbrev pub text_of : Option (List ℕ) → List ℕ
text_of none = []
text_of (some s) = s

unfoldable mutual
  -- The bytes of an argument without its type, and of the elements of a list with and without.
  pub content_bytes : Arg → List ℕ
  content_bytes Arg.invalid = []
  content_bytes Arg.unit = []
  content_bytes (Arg.bool v) = le_bytes 1 v
  content_bytes (Arg.byte v) = le_bytes 1 v
  content_bytes (Arg.float v) = le_bytes 8 v
  content_bytes (Arg.int16 v) = le_bytes 2 v
  content_bytes (Arg.int32 v) = le_bytes 4 v
  content_bytes (Arg.int64 v) = le_bytes 8 v
  content_bytes (Arg.uint16 v) = le_bytes 2 v
  content_bytes (Arg.uint32 v) = le_bytes 4 v
  content_bytes (Arg.uint64 v) = le_bytes 8 v
  content_bytes (Arg.array t elems) =
      le_bytes 4 (length (exact_bytes elems))
      ++ ((le_bytes 2 (nitems elems) ++ (type_code t ∷ [])) ++ exact_bytes elems)
  content_bytes (Arg.tuple elems) =
      le_bytes 4 (length (variant_bytes elems))
      ++ (le_bytes 2 (nitems elems) ++ variant_bytes elems)
  content_bytes (Arg.pair first second) =
      le_bytes 4 (
        length (
          (type_code (arg_type first) ∷ content_bytes first)
          ++ (type_code (arg_type second) ∷ content_bytes second)))
      ++ ([]
          ++ ((type_code (arg_type first) ∷ content_bytes first)
              ++ (type_code (arg_type second) ∷ content_bytes second)))
  content_bytes (Arg.bytes (null n)) = []
  content_bytes (Arg.bytes (slice bs)) = le_bytes 4 (length bs) ++ bs
  content_bytes (Arg.str s) = zstring (text_of s)
  content_bytes (Arg.uuid v) = v
  content_bytes (Arg.path s) = zstring s
  content_bytes (Arg.selector trait elem) = zstring (text_of trait) ++ zstring (text_of elem)
  content_bytes (Arg.error code message) = le_bytes 2 code ++ zstring (text_of message)

  pub exact_bytes : Args → List ℕ
  exact_bytes nil = []
  exact_bytes (cons arg args) = content_bytes arg ++ exact_bytes args

  pub variant_bytes : Args → List ℕ
  variant_bytes nil = []
  variant_bytes (cons arg args) =
      (type_code (arg_type arg) ∷ content_bytes arg) ++ variant_bytes args

-- A value on the wire: its type and its content.
abbrev pub value_bytes : Arg → List ℕ
value_bytes arg = type_code (arg_type arg) ∷ content_bytes arg

abbrev pub IsCstring : List ℕ → Type 0
IsCstring s = IsText s × (length s < uint32_max)

-- A string field that may be NULL.
abbrev pub IsOptional : Option (List ℕ) → Type 0
IsOptional none = Unit
IsOptional (some s) = IsCstring s

-- A string field that may not be NULL.
abbrev pub IsPresent : Option (List ℕ) → Type 0
IsPresent none = ⊥
IsPresent (some s) = IsCstring s

-- An array of no more elements, and no more bytes, than its header can say.
abbrev pub FitsHeader : ℕ → List ℕ → Type 0
FitsHeader n content = (n < 65536) × (length content < 4294967296)

unfoldable mutual
  -- What a caller has to meet: the tags are valid, no field that must be there is NULL, a union
  -- member holds a value of its width, and counts and sizes fit the header fields.
  pub IsWritable : Arg → Type 0
  IsWritable Arg.invalid = ⊥
  IsWritable Arg.unit = Unit
  IsWritable (Arg.bool v) = v < 256
  IsWritable (Arg.byte v) = v < 256
  IsWritable (Arg.float v) = v < 18446744073709551616
  IsWritable (Arg.int16 v) = v < 65536
  IsWritable (Arg.int32 v) = v < 4294967296
  IsWritable (Arg.int64 v) = v < 18446744073709551616
  IsWritable (Arg.uint16 v) = v < 65536
  IsWritable (Arg.uint32 v) = v < 4294967296
  IsWritable (Arg.uint64 v) = v < 18446744073709551616
  IsWritable (Arg.array t elems) =
      (type_is_valid t ≡ true)
      × AreOf t elems
      × AreWritable elems
      × FitsHeader (nitems elems) (exact_bytes elems)
  IsWritable (Arg.tuple elems) = AreWritable elems × FitsHeader (nitems elems) (variant_bytes elems)
  IsWritable (Arg.pair first second) =
      IsWritable first
      × IsWritable second
      × (length (value_bytes first ++ value_bytes second) < 4294967296)
  IsWritable (Arg.bytes (null n)) = ⊥
  IsWritable (Arg.bytes (slice bs)) = length bs < 4294967296
  IsWritable (Arg.str s) = IsOptional s
  IsWritable (Arg.uuid v) = length v ≡ 16
  IsWritable (Arg.path s) = IsCstring s
  IsWritable (Arg.selector trait elem) = IsPresent trait × IsPresent elem
  IsWritable (Arg.error code message) = (code < 65536) × IsOptional message

  pub AreWritable : Args → Type 0
  AreWritable nil = Unit
  AreWritable (cons arg args) = IsWritable arg × AreWritable args

  -- The elements of an array have the type that the array states.
  pub AreOf : DiceyType → Args → Type 0
  AreOf t nil = Unit
  AreOf t (cons arg args) = (arg_type arg ≡ t) × AreOf t args
