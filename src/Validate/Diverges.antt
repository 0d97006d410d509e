-- ===== src/Validate/Diverges.antt =====
-- An input on which the loop of `validate_value_list` does not end.
use dicey_rust.Prelude.{ℕ, zero, suc, ◌≡◌, refl, none, List, [], ◌∷◌, true, ok, arith, ◌∙◌}
use dicey_rust.Types.{DiceyType}
use dicey_rust.View.{view_read}
use dicey_rust.ValueProbe.{DataInfo, each, value_probe_as}
use dicey_rust.Value.{iterator_has_next, iterator_next, value_get_array}
use dicey_rust.Value.Iterate.{each_in}
use dicey_rust.Validate.Loop.{validate_value_list_next}
use dicey_rust.Validate.{accept, validate_type, validate_value, validate_value_list}

more_units : (b : ℕ) (bs : List ℕ) → iterator_has_next (each_in DiceyType.unit (b ∷ bs)) ≡ true
unfolding iterator_has_next
more_units b bs = ground arith

next_unit :
    (b : ℕ) (bs : List ℕ)
    → iterator_next (each_in DiceyType.unit (b ∷ bs))
      ≡ ok (
        record { type = DiceyType.unit; info = DataInfo.raw [] },
        each_in DiceyType.unit (b ∷ bs),
      )
unfolding iterator_next value_probe_as view_read
next_unit b bs = ground arith

unit_accepted :
    (fuel : ℕ)
    → validate_type
        (suc fuel)
        DiceyType.unit
        (record { type = DiceyType.unit; info = DataInfo.raw [] })
      ≡ accept
unfolding validate_type
unit_accepted fuel = refl

one_unit : (b : ℕ) (bs : List ℕ) → validate_value_list 1 (each_in DiceyType.unit (b ∷ bs)) ≡ none
unfolding validate_value_list validate_type
one_unit b bs = ground (arith, more_units b bs, next_unit b bs)

-- A unit takes no bytes, so the bytes of an array of units are never used up.
unit_loop :
    (fuel b : ℕ) (bs : List ℕ) → validate_value_list fuel (each_in DiceyType.unit (b ∷ bs)) ≡ none
unit_loop zero b bs = unfold validate_value_list in refl
unit_loop (suc zero) b bs = one_unit b bs
unit_loop (suc (suc fuel)) b bs =
    validate_value_list_next (suc fuel) (each_in DiceyType.unit (b ∷ bs)) _ _ (more_units b bs)
      (next_unit b bs) (unit_accepted fuel)
    ∙ unit_loop (suc fuel) b bs

-- An array of units whose header announces bytes: the validation runs out of every fuel.
pub validate_value_units :
    (fuel n b : ℕ) (bs : List ℕ)
    → validate_value fuel
        (record { type = DiceyType.array; info = DataInfo.list (each DiceyType.unit) n (b ∷ bs) })
      ≡ none
unfolding validate_value value_get_array validate_type
validate_value_units zero n b bs = refl
validate_value_units (suc fuel) n b bs = unit_loop fuel b bs
