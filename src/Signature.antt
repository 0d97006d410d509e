-- ===== src/Signature.antt =====
-- Values against signatures (src/wirefmt/value-validate.c).
--
-- The signature is the text that is left of it. A run of `checksig` returns `true` with the signature
-- moved, or `false`, after which no caller looks at the signature. It is stopped by an assertion, or
-- by a condition that DICEY_ASSUME takes for granted, that does not hold. The recursion takes fuel.
pub mod Meaning
pub mod Checks
pub mod Sides
use dicey_rust.Prelude.{
  ℕ, zero, suc, Bool, true, false, Option, none, some, List, [], ◌∷◌, ◌==◌, ◌||◌, if◌then◌else◌,
  err, ok,
}
use dicey_rust.Types.{DiceyType, type_code, variant_id}
use dicey_rust.ValueProbe.{ItemType, variants, each}
use dicey_rust.Value.{
  DiceyValue, Iterator, iterator_has_next, iterator_next, value_get_array, value_get_tuple,
  value_get_pair,
}
use dicey_rust.Typedescr.{
  Shape, shape_of, typedescr_in_view, Parsed, Typedescr, value, functional, typedescr_parse,
}

pub data Check : Type 0 where
  out_of_fuel stopped refused : Check
  accepted : List ℕ → Check

-- Going on where a check has accepted.
unfoldable pub and_then : Check → (List ℕ → Check) → Check
and_then (accepted sig) next = next sig
and_then out_of_fuel next = out_of_fuel
and_then stopped next = stopped
and_then refused next = refused

-- `is_compatible`, with the code of the signature
unfoldable pub is_compatible : DiceyType → ℕ → Bool
is_compatible t c = c == variant_id || type_code t == c

-- `take_elem`: the code 0 at the end of the signature
unfoldable pub take_elem : List ℕ → ℕ × List ℕ
take_elem [] = (0, [])
take_elem (c ∷ sig) = (c, sig)

-- `skip_char` and the assertion about the character
unfoldable pub skip_char : ℕ → List ℕ → Check
skip_char close [] = stopped
skip_char close (c ∷ sig) = if c == close then accepted sig else stopped

-- The signature of the elements of an array, which is read over, and the bracket behind it.
unfoldable pub skip_array : Parsed → Check
unfolding skip_char
skip_array none = out_of_fuel
skip_array (some none) = stopped
skip_array (some (some sig)) = skip_char b']' sig

-- The type of the elements of a list against the first character of their signature, which may not
-- be missing.
unfoldable pub check_elements : ℕ → List ℕ → ItemType → Check
unfolding is_compatible skip_array
check_elements fuel [] t = stopped
check_elements fuel (c ∷ sig) variants = stopped
check_elements fuel (c ∷ sig) (each t) =
    if is_compatible t c then skip_array (typedescr_in_view fuel (c ∷ sig)) else refused

-- `checksig`, for arrays
unfoldable pub check_array : ℕ → List ℕ → DiceyValue → Check
unfolding check_elements
check_array fuel sig v = elim (value_get_array v) [
  | err e ↦ stopped
  | ok iter ↦ check_elements fuel sig iter.item_type
]

unfoldable mutual
  unfolding and_then is_compatible take_elem check_array skip_char

  -- `checksig`
  pub checksig : ℕ → List ℕ → DiceyValue → Check
  checksig zero sig v = out_of_fuel
  checksig (suc fuel) sig v = elim (is_compatible v.type (take_elem sig).0) [
    | false ↦ refused
    | true ↦ elim (shape_of (take_elem sig).0) [
      | Shape.array ↦ check_array fuel (take_elem sig).1 v
      | Shape.pair ↦ check_pair fuel (take_elem sig).1 v
      | Shape.tuple ↦ check_tuple fuel (take_elem sig).1 v
      | Shape.other ↦ accepted (take_elem sig).1
    ]
  ]

  -- `checksig`, for pairs
  pub check_pair : ℕ → List ℕ → DiceyValue → Check
  check_pair zero sig v = out_of_fuel
  check_pair (suc fuel) sig v = elim (value_get_pair v) [
    | err e ↦ stopped
    | ok p ↦
        and_then (checksig fuel sig p.0)
          (λ sig1. and_then (checksig fuel sig1 p.1) (skip_char b'}'))
  ]

  -- `checksig`, for tuples
  pub check_tuple : ℕ → List ℕ → DiceyValue → Check
  check_tuple zero sig v = out_of_fuel
  check_tuple (suc fuel) sig v = elim (value_get_tuple v) [
    | err e ↦ stopped
    | ok iter ↦ check_items fuel sig iter
  ]

  -- The loop over the items of a tuple
  pub check_items : ℕ → List ℕ → Iterator → Check
  check_items zero sig iter = out_of_fuel
  check_items (suc fuel) sig iter = elim (iterator_has_next iter) [
    | false ↦ skip_char b')' sig
    | true ↦ elim (iterator_next iter) [
      | err e ↦ stopped
      | ok p ↦ and_then (checksig fuel sig p.0) (λ sig'. check_items fuel sig' p.1)
    ]
  ]

-- The result of a whole check.
pub data Answer : Type 0 where
  no_fuel stop no yes : Answer

unfoldable pub answer_of : Check → Answer
answer_of out_of_fuel = no_fuel
answer_of stopped = stop
answer_of refused = no
answer_of (accepted sig) = yes

-- The side of a descriptor that a value is held against.
unfoldable pub check_side :
    ℕ → (Typedescr → List ℕ) → Option (Option Typedescr) → DiceyValue → Answer
unfolding answer_of
check_side fuel side none v = no_fuel
check_side fuel side (some none) v = no
check_side fuel side (some (some descr)) v = answer_of (checksig fuel (side descr) v)

unfoldable pub input_side : Typedescr → List ℕ
input_side (value text) = text
input_side (functional input output) = input

unfoldable pub output_side : Typedescr → List ℕ
output_side (value text) = text
output_side (functional input output) = output

-- `dicey_value_is_compatible_with`
unfoldable pub value_is_compatible_with : ℕ → DiceyValue → List ℕ → Answer
unfolding check_side input_side
value_is_compatible_with fuel v sigstr = check_side fuel input_side (typedescr_parse fuel sigstr) v

-- `dicey_value_can_be_returned_from`: an error can be returned from anything.
unfoldable pub value_can_be_returned_from : ℕ → DiceyValue → List ℕ → Answer
unfolding check_side output_side
value_can_be_returned_from fuel v sigstr = elim v.type [
  | DiceyType.error ↦ yes
  | _ ↦ check_side fuel output_side (typedescr_parse fuel sigstr) v
]
