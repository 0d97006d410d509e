-- ===== src/Tests/Values.antt =====
-- Writing, reading and validating the sample value (src/wirefmt/dtf/value-write.c, value-probe.c).
use dicey_rust.Prelude.{
  ◌≡◌, refl, true, false, some, [], ◌∷◌, ◌++◌, length, replicate, ok, err, einval, arith,
}
use dicey_rust.Types.{DiceyType, type_is_valid, type_of_code}
use dicey_rust.View.{slice, null, view_read, view_as_zstring}
use dicey_rust.ViewMut.{nowhere, room}
use dicey_rust.Writer.{sizer}
use dicey_rust.Writer.Effect.{wrote}
use dicey_rust.Arg.{Arg, arg_type, nitems, nil, cons}
use dicey_rust.Arg.Encoding.{value_bytes, content_bytes, IsWritable}
use dicey_rust.ValueWrite.{value_write, item_write, variant, exact}
use dicey_rust.ValueWrite.Results.{value_write_null_bytes, item_write-bytes}
use dicey_rust.ValueProbe.{value_probe, value_probe_as}
use dicey_rust.ValueProbe.Reads.{info_of, value_probe-value_bytes}
use dicey_rust.Value.Iterate.{value_of}
use dicey_rust.Validate.{validate_value, validate_type}
use dicey_rust.Validate.Accepts.{validate_value-value_of}
use dicey_rust.ArgFromValue.{arg_from_value}
use dicey_rust.ArgFromValue.Outcome.{received, arg_from_value-value_of}
use dicey_rust.Tests.Samples.{
  plenty, sample_value, sample_value-IsWritable, sample_value-HasNoEmptyBytes, length-sample_value,
}

item_write-bytes_example :
    (item_write (sizer 10) [] variant sample_value ≡ wrote (sizer 10) [] (value_bytes sample_value))
    × (item_write (sizer 10) [] exact sample_value
        ≡ wrote (sizer 10) [] (content_bytes sample_value))
item_write-bytes_example =
    item_write-bytes (sizer 10) [] sample_value sample_value-IsWritable
      (omega (arith, length-sample_value))

value_probe-value_bytes_example :
    value_probe (slice (value_bytes sample_value ++ 1 ∷ 2 ∷ []))
    ≡ ok (
      length (value_bytes sample_value),
      (DiceyType.tuple, info_of sample_value),
      slice (1 ∷ 2 ∷ []),
    )
unfolding arg_type
value_probe-value_bytes_example =
    value_probe-value_bytes sample_value (1 ∷ 2 ∷ []) sample_value-IsWritable
      (omega (arith, length-sample_value))

-- An error that ends behind its code, as docs/source/dtf has it, is refused by the probe, and a bool
-- is accepted with any byte.
error_of_two_bytes : value_probe (slice (b'e' ∷ 1 ∷ 0 ∷ [])) ≡ err einval
unfolding value_probe view_read type_is_valid type_of_code value_probe_as view_as_zstring
error_of_two_bytes = refl

bool_of_seven : validate_value 2 (value_of (Arg.bool 7)) ≡ some (ok tt)
unfolding validate_value validate_type arg_type
bool_of_seven = refl

validate_value-value_of_example : validate_value 42 (value_of sample_value) ≡ some (ok tt)
validate_value-value_of_example =
    validate_value-value_of sample_value 42 sample_value-IsWritable sample_value-HasNoEmptyBytes
      (omega (arith, length-sample_value)) (omega (arith, length-sample_value))

value_write_null_bytes_example :
    ((value_write plenty (room 2 30) (replicate 40 1) (Arg.bytes (null 4))).result ≡ err einval)
    × ((value_write plenty (room 2 30) (replicate 40 1) (Arg.bytes (null 4))).freed ≡ true)
    × ((value_write plenty (nowhere 0) (replicate 40 1) (Arg.bytes (null 4))).result ≡ err einval)
    × ((value_write plenty (nowhere 0) (replicate 40 1) (Arg.bytes (null 4))).freed ≡ false)
value_write_null_bytes_example =
    value_write_null_bytes plenty 2 30 4 (replicate 40 1) (omega arith) (omega arith) refl

-- The elements of the list are lost.
arg_from_value-value_of_example :
    arg_from_value 20 plenty (value_of (Arg.pair (Arg.bool 2) (Arg.tuple (cons (Arg.byte 6) nil))))
    ≡ some (received (Arg.pair (Arg.bool 2) (Arg.tuple (cons (Arg.byte 6) nil))))
unfolding IsWritable content_bytes nitems
arg_from_value-value_of_example =
    arg_from_value-value_of 20 plenty refl refl
      (Arg.pair (Arg.bool 2) (Arg.tuple (cons (Arg.byte 6) nil))) (ground arith) (ground arith)
