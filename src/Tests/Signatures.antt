-- ===== src/Tests/Signatures.antt =====
-- The sample value under signatures (src/wirefmt/value-validate.c).
use dicey_rust.Prelude.{◌≡◌, refl, [], ◌∷◌, ◌++◌, arith}
use dicey_rust.Types.{DiceyType, type_is_container, type_is_valid, type_code}
use dicey_rust.Arg.{arg_type}
use dicey_rust.Value.Iterate.{value_of}
use dicey_rust.Typedescr.{is_space}
use dicey_rust.Typedescr.Reads.{Descr, Descrs, print}
use dicey_rust.Signature.{checksig, yes, stop, value_is_compatible_with, value_can_be_returned_from}
use dicey_rust.Signature.Meaning.{verdict, leaving}
use dicey_rust.Signature.Checks.{checksig-verdict}
use dicey_rust.Signature.Sides.{return_verdict, signature_of_operation}
use dicey_rust.Tests.Samples.{sample_value, sample_value-IsWritable, length-sample_value}

abbrev plain_int32 : Descr
plain_int32 = Descr.plain DiceyType.int32 (unfold type_is_valid type_is_container in refl)

abbrev plain_str : Descr
plain_str = Descr.plain DiceyType.str (unfold type_is_valid type_is_container in refl)

-- The type (is[v]v), which the sample value has, and (isvvi), which is longer.
abbrev sample_type : Descr
sample_type = Descr.tuple_of plain_int32 (
    Descrs.cons plain_str
      (Descrs.cons (Descr.array_of Descr.any) (Descrs.cons Descr.any Descrs.nil)))

abbrev longer_type : Descr
longer_type = Descr.tuple_of plain_int32 (
    Descrs.cons plain_str
      (Descrs.cons Descr.any (Descrs.cons Descr.any (Descrs.cons plain_int32 Descrs.nil))))

sample_type_fits : verdict sample_type sample_value ≡ yes
unfolding verdict type_code arg_type
sample_type_fits = refl

longer_type_stops : verdict longer_type sample_value ≡ stop
unfolding verdict type_code arg_type
longer_type_stops = refl

checksig-verdict_example :
    checksig 30 (print sample_type ++ (b'i' ∷ [])) (value_of sample_value)
    ≡ leaving (verdict sample_type sample_value) (b'i' ∷ [])
unfolding print
checksig-verdict_example =
    checksig-verdict sample_type sample_value (b'i' ∷ []) 30 sample_value-IsWritable
      (omega (arith, length-sample_value)) (omega arith)

signature_of_operation_example :
    (value_is_compatible_with 30
        (value_of sample_value)
        (print sample_type ++ ([] ++ (b'-' ∷ b'>' ∷ (32 ∷ [] ++ print plain_str))))
      ≡ verdict sample_type sample_value)
    × (value_can_be_returned_from 30
          (value_of sample_value)
          (print sample_type ++ ([] ++ (b'-' ∷ b'>' ∷ (32 ∷ [] ++ print plain_str))))
        ≡ return_verdict plain_str sample_value)
unfolding print is_space
signature_of_operation_example =
    signature_of_operation sample_type plain_str [] (32 ∷ []) sample_value 30 tt (refl, tt)
      sample_value-IsWritable (omega (arith, length-sample_value)) (omega arith) (omega arith)
