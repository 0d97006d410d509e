-- ===== src/Signature/Sides.antt =====
-- `dicey_value_is_compatible_with` and `dicey_value_can_be_returned_from` of
-- src/wirefmt/value-validate.c on the descriptors of properties and of operations.
use dicey_rust.Prelude.{
  ◌+◌, ◌≤◌, ◌≡◌, refl, ◌∙◌, ap, ℕ, List, [], ◌∷◌, ◌++◌, length, append-nil, ptrdiff_max,
}
use dicey_rust.Arg.{Arg, arg_type}
use dicey_rust.Arg.Encoding.{value_bytes, IsWritable}
use dicey_rust.Value.Iterate.{value_of}
use dicey_rust.Typedescr.{typedescr_parse}
use dicey_rust.Typedescr.Reads.{Descr, print}
use dicey_rust.Typedescr.Sides.{AreSpaces, typedescr_parse-arrow, typedescr_parse-print}
use dicey_rust.Signature.{
  Answer, yes, no, stop, no_fuel, answer_of, checksig, check_side, input_side, output_side,
  value_is_compatible_with, value_can_be_returned_from,
}
use dicey_rust.Signature.Meaning.{verdict, leaving}
use dicey_rust.Signature.Checks.{checksig-verdict}

-- What may be returned where a type is asked for: an error, or what is held against the type.
abbrev pub return_verdict : Descr → Arg → Answer
return_verdict d (Arg.error code message) = yes
return_verdict d a = verdict d a

answer_of-leaving : (v : Answer) (sig : List ℕ) → answer_of (leaving v sig) ≡ v
unfolding answer_of
answer_of-leaving yes sig = refl
answer_of-leaving no sig = refl
answer_of-leaving stop sig = refl
answer_of-leaving no_fuel sig = refl

checksig_whole :
    (d : Descr) (a : Arg) (fuel : ℕ)
    → IsWritable a
    → length (value_bytes a) ≤ ptrdiff_max
    → length (print d) + length (print d) ≤ fuel
    → answer_of (checksig fuel (print d) (value_of a)) ≡ verdict d a
checksig_whole d a fuel h fits enough =
    ap answer_of (rw append-nil at (checksig-verdict d a [] fuel h fits enough))
    ∙ answer_of-leaving (verdict d a) []

-- A return, once the side has been checked.
return_case :
    (d : Descr) (a : Arg) (text : List ℕ) (fuel : ℕ)
    → check_side fuel output_side (typedescr_parse fuel text) (value_of a) ≡ verdict d a
    → value_can_be_returned_from fuel (value_of a) text ≡ return_verdict d a
unfolding value_can_be_returned_from arg_type
return_case d (Arg.error code message) text fuel h = refl
return_case d a text fuel h = h

-- For the data of an argument that can be written: under the signature of an operation, the argument
-- is held against the input type, and what is returned against the output type, but for an error,
-- which is always let through. Twice the length of each type is enough fuel.
pub signature_of_operation :
    (d e : Descr) (before after : List ℕ) (a : Arg) (fuel : ℕ)
    → AreSpaces before
    → AreSpaces after
    → IsWritable a
    → length (value_bytes a) ≤ ptrdiff_max
    → length (print d) + length (print d) ≤ fuel
    → length (print e) + length (print e) ≤ fuel
    → (value_is_compatible_with fuel
          (value_of a)
          (print d ++ (before ++ (b'-' ∷ b'>' ∷ (after ++ print e))))
        ≡ verdict d a)
      × (value_can_be_returned_from fuel
            (value_of a)
            (print d ++ (before ++ (b'-' ∷ b'>' ∷ (after ++ print e))))
          ≡ return_verdict e a)
unfolding value_is_compatible_with check_side input_side output_side
signature_of_operation d e before after a fuel b s h fits one two =
    let parsed = typedescr_parse-arrow d e before after fuel b s one two in
    (
      rw parsed (checksig_whole d a fuel h fits one),
      return_case e a _ fuel (rw parsed (checksig_whole e a fuel h fits two)),
    )

-- For the data of an argument that can be written: under the signature of a property both are held
-- against its type, but for an error that is returned.
pub signature_of_property :
    (d : Descr) (a : Arg) (fuel : ℕ)
    → IsWritable a
    → length (value_bytes a) ≤ ptrdiff_max
    → length (print d) + length (print d) ≤ fuel
    → (value_is_compatible_with fuel (value_of a) (print d) ≡ verdict d a)
      × (value_can_be_returned_from fuel (value_of a) (print d) ≡ return_verdict d a)
unfolding value_is_compatible_with check_side input_side output_side
signature_of_property d a fuel h fits one =
    let parsed = typedescr_parse-print d fuel one in
    (
      rw parsed (checksig_whole d a fuel h fits one),
      return_case d a _ fuel (rw parsed (checksig_whole d a fuel h fits one)),
    )
