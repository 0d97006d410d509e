-- ===== src/Validate.antt =====
-- The validation of received values (`validate_value` and `validate_value_list` of
-- src/wirefmt/packet.c).
--
-- The C loop has no bound of its own, so the functions here take fuel: `none` says that the fuel ran
-- out, which no C run returns.
pub mod Loop
pub mod Accepts
pub mod Diverges
use dicey_rust.Prelude.{
  ℕ, zero, suc, ◌+◌, Bool, true, false, Option, none, some, List, [], ◌∷◌, not, ltb, ◌==◌, ◌||◌,
  ◌&&◌, if◌then◌else◌, Result, ok, err, einval,
}
use dicey_rust.Types.{DiceyType}
use dicey_rust.ValueProbe.{DataInfo}
use dicey_rust.Value.{
  DiceyValue, Iterator, iterator_has_next, iterator_next, value_get_array, value_get_tuple,
  value_get_pair,
}

-- What a validation returns: an error code or DICEY_OK, if it ends.
abbrev pub Verdict : Type 0
Verdict = Option (Result (Unit {0}))

abbrev pub accept : Verdict
accept = some (ok tt)

-- The test of the `bytes` member: the pointer is into the packet, so it is not NULL.
unfoldable pub validate_bytes : DataInfo → Verdict
validate_bytes (DataInfo.bytes n bs) = if ltb 0 n then accept else some (err einval)
validate_bytes _ = some (err einval)

unfoldable mutual
  unfolding validate_bytes

  -- `validate_value`, by the type of the value
  pub validate_type : ℕ → DiceyType → DiceyValue → Verdict
  validate_type zero t v = none
  validate_type (suc fuel) DiceyType.invalid v = some (err einval)
  validate_type (suc fuel) DiceyType.unit v = accept
  validate_type (suc fuel) DiceyType.bool v = accept
  validate_type (suc fuel) DiceyType.byte v = accept
  validate_type (suc fuel) DiceyType.float v = accept
  validate_type (suc fuel) DiceyType.int16 v = accept
  validate_type (suc fuel) DiceyType.int32 v = accept
  validate_type (suc fuel) DiceyType.int64 v = accept
  validate_type (suc fuel) DiceyType.uint16 v = accept
  validate_type (suc fuel) DiceyType.uint32 v = accept
  validate_type (suc fuel) DiceyType.uint64 v = accept
  validate_type (suc fuel) DiceyType.uuid v = accept
  validate_type (suc fuel) DiceyType.bytes v = validate_bytes v.info
  validate_type (suc fuel) DiceyType.array v = elim (value_get_array v) [
    | err e ↦ some (err e)
    | ok iter ↦ validate_value_list fuel iter
  ]
  validate_type (suc fuel) DiceyType.tuple v = elim (value_get_tuple v) [
    | err e ↦ some (err e)
    | ok iter ↦ validate_value_list fuel iter
  ]
  validate_type (suc fuel) DiceyType.pair v = elim (value_get_pair v) [
    | err e ↦ some (err e)
    | ok p ↦ elim (validate_type fuel p.0.type p.0) [
      | none ↦ none
      | some (err e) ↦ some (err e)
      | some (ok _) ↦ validate_type fuel p.1.type p.1
    ]
  ]
  validate_type (suc fuel) DiceyType.str v = accept
  validate_type (suc fuel) DiceyType.path v = accept
  validate_type (suc fuel) DiceyType.selector v = accept
  validate_type (suc fuel) DiceyType.error v = accept

  -- `validate_value_list`
  pub validate_value_list : ℕ → Iterator → Verdict
  validate_value_list zero iter = none
  validate_value_list (suc fuel) iter = elim (iterator_has_next iter) [
    | false ↦ accept
    | true ↦ elim (iterator_next iter) [
      | err e ↦ some (err e)
      | ok p ↦ elim (validate_type fuel p.0.type p.0) [
        | none ↦ none
        | some (err e) ↦ some (err e)
        | some (ok _) ↦ validate_value_list fuel p.1
      ]
    ]
  ]

-- `validate_value`
unfoldable pub validate_value : ℕ → DiceyValue → Verdict
validate_value fuel v = validate_type fuel v.type v
