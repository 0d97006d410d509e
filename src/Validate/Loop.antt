-- ===== src/Validate/Loop.antt =====
-- One round of the loop of `validate_value_list`.
use dicey_rust.Prelude.{ℕ, suc, ◌≡◌, true, false, ok, arith}
use dicey_rust.Value.{DiceyValue, Iterator, iterator_has_next, iterator_next}
use dicey_rust.Validate.{accept, validate_type, validate_value_list}

-- An element that is accepted is left behind.
pub validate_value_list_next :
    (fuel : ℕ) (iter iter' : Iterator) (v : DiceyValue)
    → iterator_has_next iter ≡ true
    → iterator_next iter ≡ ok (v, iter')
    → validate_type fuel v.type v ≡ accept
    → validate_value_list (suc fuel) iter ≡ validate_value_list fuel iter'
unfolding validate_value_list
validate_value_list_next fuel iter iter' v more step good = ground arith

pub validate_value_list_end :
    (fuel : ℕ) (iter : Iterator)
    → iterator_has_next iter ≡ false
    → validate_value_list (suc fuel) iter ≡ accept
unfolding validate_value_list
validate_value_list_end fuel iter done = ground arith
