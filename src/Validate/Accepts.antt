-- ===== src/Validate/Accepts.antt =====
-- `validate_value` of src/wirefmt/packet.c on values that a program of this library has written.
use dicey_rust.Prelude.{
  ℕ, zero, suc, ◌+◌, ◌≤◌, ◌<◌, ◌≡◌, ◌⊎◌, inl, inr, refl, sym, subst, ◌∙◌, true, some, List, [], ◌∷◌,
  ◌++◌, length, length-append, ok, ptrdiff_max, arith, lt→ltb,
}
use dicey_rust.Types.{DiceyType}
use dicey_rust.View.{null, slice}
use dicey_rust.Arg.{Arg, Args, nil, cons, arg_type}
use dicey_rust.Arg.Encoding.{
  content_bytes, exact_bytes, variant_bytes, value_bytes, IsWritable, AreWritable, AreOf, zstring,
  text_of,
}
use dicey_rust.ValueProbe.{DataInfo}
use dicey_rust.ValueProbe.Reads.{info_of}
use dicey_rust.Value.{
  DiceyValue, iterator_has_next, value_get_array, value_get_tuple, value_get_pair,
}
use dicey_rust.Value.Iterate.{
  value_of, variants_in, each_in, iterator_next-variants, iterator_next-each,
  value_get_pair-value_of,
}
use dicey_rust.Validate.{accept, validate_type, validate_bytes, validate_value, validate_value_list}
use dicey_rust.Validate.Loop.{validate_value_list_next, validate_value_list_end}

unfoldable mutual
  -- No byte array in the argument, at any depth, is empty.
  pub HasNoEmptyBytes : Arg → Type 0
  HasNoEmptyBytes Arg.invalid = Unit
  HasNoEmptyBytes Arg.unit = Unit
  HasNoEmptyBytes (Arg.bool v) = Unit
  HasNoEmptyBytes (Arg.byte v) = Unit
  HasNoEmptyBytes (Arg.float v) = Unit
  HasNoEmptyBytes (Arg.int16 v) = Unit
  HasNoEmptyBytes (Arg.int32 v) = Unit
  HasNoEmptyBytes (Arg.int64 v) = Unit
  HasNoEmptyBytes (Arg.uint16 v) = Unit
  HasNoEmptyBytes (Arg.uint32 v) = Unit
  HasNoEmptyBytes (Arg.uint64 v) = Unit
  HasNoEmptyBytes (Arg.array t elems) = HaveNoEmptyBytes elems
  HasNoEmptyBytes (Arg.tuple elems) = HaveNoEmptyBytes elems
  HasNoEmptyBytes (Arg.pair first second) = HasNoEmptyBytes first × HasNoEmptyBytes second
  HasNoEmptyBytes (Arg.bytes (null n)) = Unit
  HasNoEmptyBytes (Arg.bytes (slice bs)) = 0 < length bs
  HasNoEmptyBytes (Arg.str s) = Unit
  HasNoEmptyBytes (Arg.uuid v) = Unit
  HasNoEmptyBytes (Arg.path s) = Unit
  HasNoEmptyBytes (Arg.selector trait elem) = Unit
  HasNoEmptyBytes (Arg.error code message) = Unit

  pub HaveNoEmptyBytes : Args → Type 0
  HaveNoEmptyBytes nil = Unit
  HaveNoEmptyBytes (cons arg args) = HasNoEmptyBytes arg × HaveNoEmptyBytes args

-- Elements of a type take bytes, or none of them does: a unit takes none and every other type some.
pub content_cases :
    (arg : Arg)
    → IsWritable arg
    → (arg_type arg ≡ DiceyType.unit) ⊎ (0 < length (content_bytes arg))
unfolding arg_type content_bytes IsWritable
content_cases Arg.invalid h = absurd h
content_cases Arg.unit h = inl refl
content_cases (Arg.array t elems) h = inr (omega arith)
content_cases (Arg.tuple elems) h = inr (omega arith)
content_cases (Arg.pair first second) h = inr (omega arith)
content_cases (Arg.bytes (null n)) h = absurd h
content_cases (Arg.bytes (slice bs)) h = inr (omega arith)
content_cases (Arg.str s) h = inr (omega (arith, length-append (text_of s) (0 ∷ [])))
content_cases (Arg.uuid v) h = inr (omega arith)
content_cases (Arg.path s) h = inr (omega (arith, length-append s (0 ∷ [])))
content_cases (Arg.selector trait elem) h = inr (
    omega (
      arith,
      length-append (zstring (text_of trait)) (zstring (text_of elem)),
      length-append (text_of trait) (0 ∷ []),
    ))
content_cases (Arg.error code message) h = inr (omega arith)
content_cases _ h = inr (omega arith)

pub unit_content :
    (arg : Arg) → IsWritable arg → arg_type arg ≡ DiceyType.unit → content_bytes arg ≡ []
unfolding arg_type content_bytes
unit_content Arg.unit h e = refl
unit_content (Arg.bytes (null n)) h e = refl
unit_content _ h e = cc

pub units_content :
    (args : Args) → AreWritable args → AreOf DiceyType.unit args → exact_bytes args ≡ []
unfolding exact_bytes AreWritable AreOf
units_content nil h same = refl
units_content (cons arg args) h same =
    rw (unit_content arg h.0 same.0) (units_content args h.1 same.1)

no_more : (t : DiceyType) (fuel : ℕ) → 0 < fuel → validate_value_list fuel (each_in t []) ≡ accept
no_more t zero h = absurd (omega arith)
no_more t (suc fuel) h =
    validate_value_list_end fuel (each_in t []) (unfold iterator_has_next in refl)

no_more_variants : (fuel : ℕ) → 0 < fuel → validate_value_list fuel (variants_in []) ≡ accept
no_more_variants zero h = absurd (omega arith)
no_more_variants (suc fuel) h =
    validate_value_list_end fuel (variants_in []) (unfold iterator_has_next in refl)

has_next_each :
    (t : DiceyType) (bs : List ℕ) → 0 < length bs → iterator_has_next (each_in t bs) ≡ true
unfolding iterator_has_next
has_next_each t bs h = lt→ltb 0 (length bs) h

has_next_variants : (bs : List ℕ) → 0 < length bs → iterator_has_next (variants_in bs) ≡ true
unfolding iterator_has_next
has_next_variants bs h = lt→ltb 0 (length bs) h

bytes_accepted :
    (bs : List ℕ) → 0 < length bs → validate_bytes (DataInfo.bytes (length bs) bs) ≡ accept
unfolding validate_bytes
bytes_accepted bs h = rw (lt→ltb 0 (length bs) h)

pair_accepted :
    (fuel : ℕ) (v a b : DiceyValue)
    → value_get_pair v ≡ ok (a, b)
    → validate_type fuel a.type a ≡ accept
    → validate_type fuel b.type b ≡ accept
    → validate_type (suc fuel) DiceyType.pair v ≡ accept
unfolding validate_type
pair_accepted fuel v a b e one two = ground arith

-- A list of units has no bytes.
exact_units :
    (arg : Arg) (args : Args) (t : DiceyType) (fuel : ℕ)
    → AreWritable (cons arg args)
    → AreOf t (cons arg args)
    → arg_type arg ≡ DiceyType.unit
    → 0 < fuel
    → validate_value_list fuel (each_in t (exact_bytes (cons arg args))) ≡ accept
unfolding AreOf
exact_units arg args t fuel h same e some_fuel =
    let units : AreOf DiceyType.unit (cons arg args) =
      subst (λ u. AreOf u (cons arg args)) (sym same.0 ∙ e) same in
    rw (units_content (cons arg args) h units) (no_more t fuel some_fuel)

exact_step :
    (arg : Arg) (rest : List ℕ) (t : DiceyType) (fuel : ℕ)
    → IsWritable arg
    → arg_type arg ≡ t
    → 0 < length (content_bytes arg)
    → validate_type fuel (arg_type arg) (value_of arg) ≡ accept
    → validate_value_list (suc fuel) (each_in t (content_bytes arg ++ rest))
      ≡ validate_value_list fuel (each_in t rest)
exact_step arg rest t fuel h same some_bytes good = rw (← same) (
    validate_value_list_next fuel (each_in (arg_type arg) (content_bytes arg ++ rest))
      (each_in (arg_type arg) rest) (value_of arg)
      (has_next_each (arg_type arg) (content_bytes arg ++ rest)
        (omega (arith, length-append (content_bytes arg) rest)))
      (iterator_next-each arg rest h some_bytes) good)

mutual
  unfolding validate_type value_get_array value_get_tuple arg_type content_bytes exact_bytes
      variant_bytes info_of IsWritable AreWritable AreOf HasNoEmptyBytes HaveNoEmptyBytes

  value_accepted :
      (arg : Arg) (fuel : ℕ)
      → IsWritable arg
      → HasNoEmptyBytes arg
      → length (content_bytes arg) ≤ fuel + 1
      → length (content_bytes arg) < ptrdiff_max
      → validate_type (suc fuel) (arg_type arg) (value_of arg) ≡ accept
  value_accepted Arg.invalid fuel h full enough small = absurd h
  value_accepted (Arg.array t elems) fuel h full enough small =
      exact_accepted elems t fuel h.2 h.1 full (omega arith) (omega arith)
  value_accepted (Arg.tuple elems) fuel h full enough small =
      variants_accepted elems fuel h.0 full (omega arith) (omega arith)
  value_accepted (Arg.pair first second) zero h full enough small = absurd (omega arith)
  value_accepted (Arg.pair first second) (suc fuel) h full enough small =
      pair_accepted (suc fuel) (value_of (Arg.pair first second)) (value_of first) (value_of second)
        (value_get_pair-value_of first second h)
        (value_accepted first fuel h.0 full.0
          (omega (arith, length-append (value_bytes first) (value_bytes second)))
          (omega (arith, length-append (value_bytes first) (value_bytes second))))
        (value_accepted second fuel h.1 full.1
          (omega (arith, length-append (value_bytes first) (value_bytes second)))
          (omega (arith, length-append (value_bytes first) (value_bytes second))))
  value_accepted (Arg.bytes (null n)) fuel h full enough small = absurd h
  value_accepted (Arg.bytes (slice bs)) fuel h full enough small = bytes_accepted bs full
  value_accepted _ fuel h full enough small = refl

  exact_accepted :
      (args : Args) (t : DiceyType) (fuel : ℕ)
      → AreWritable args
      → AreOf t args
      → HaveNoEmptyBytes args
      → length (exact_bytes args) < fuel
      → length (exact_bytes args) < ptrdiff_max
      → validate_value_list fuel (each_in t (exact_bytes args)) ≡ accept
  exact_accepted nil t fuel h same full enough small = no_more t fuel (omega arith)
  exact_accepted (cons arg args) t zero h same full enough small = absurd (omega arith)
  exact_accepted (cons arg args) t (suc zero) h same full enough small =
      elim (content_cases arg h.0) [
        | inl e ↦ exact_units arg args t (suc zero) h same e (omega arith)
        | inr some_bytes ↦
            absurd (omega (arith, length-append (content_bytes arg) (exact_bytes args)))
      ]
  exact_accepted (cons arg args) t (suc (suc fuel)) h same full enough small =
      elim (content_cases arg h.0) [
        | inl e ↦ exact_units arg args t (suc (suc fuel)) h same e (omega arith)
        | inr some_bytes ↦
            exact_step arg (exact_bytes args) t (suc fuel) h.0 same.0 some_bytes (
              value_accepted arg fuel h.0 full.0
                (omega (arith, length-append (content_bytes arg) (exact_bytes args)))
                (omega (arith, length-append (content_bytes arg) (exact_bytes args))))
            ∙ exact_accepted args t (suc fuel) h.1 same.1 full.1
                (omega (arith, length-append (content_bytes arg) (exact_bytes args)))
                (omega (arith, length-append (content_bytes arg) (exact_bytes args)))
      ]

  variants_accepted :
      (args : Args) (fuel : ℕ)
      → AreWritable args
      → HaveNoEmptyBytes args
      → length (variant_bytes args) < fuel
      → length (variant_bytes args) < ptrdiff_max
      → validate_value_list fuel (variants_in (variant_bytes args)) ≡ accept
  variants_accepted nil fuel h full enough small = no_more_variants fuel (omega arith)
  variants_accepted (cons arg args) zero h full enough small = absurd (omega arith)
  variants_accepted (cons arg args) (suc zero) h full enough small = absurd (omega arith)
  variants_accepted (cons arg args) (suc (suc fuel)) h full enough small =
      validate_value_list_next (suc fuel) (variants_in (value_bytes arg ++ variant_bytes args))
        (variants_in (variant_bytes args)) (value_of arg)
        (has_next_variants (value_bytes arg ++ variant_bytes args) (omega arith))
        (iterator_next-variants arg (variant_bytes args) h.0
          (omega (arith, length-append (value_bytes arg) (variant_bytes args))))
        (value_accepted arg fuel h.0 full.0
          (omega (arith, length-append (value_bytes arg) (variant_bytes args)))
          (omega (arith, length-append (value_bytes arg) (variant_bytes args))))
      ∙ variants_accepted args (suc fuel) h.1 full.1
          (omega (arith, length-append (value_bytes arg) (variant_bytes args)))
          (omega (arith, length-append (value_bytes arg) (variant_bytes args)))

-- `validate_value` ends, and accepts, on the data of any argument that can be written and holds no
-- empty byte array; one more unit of fuel than the content has bytes is enough. Every byte is accepted
-- for a `bool`, and every text for a path or a selector, also those that docs/source/dtf forbids.
pub validate_value-value_of :
    (arg : Arg) (fuel : ℕ)
    → IsWritable arg
    → HasNoEmptyBytes arg
    → length (content_bytes arg) < fuel
    → length (content_bytes arg) < ptrdiff_max
    → validate_value fuel (value_of arg) ≡ some (ok tt)
unfolding validate_value
validate_value-value_of arg zero h full enough small = absurd (omega arith)
validate_value-value_of arg (suc fuel) h full enough small =
    value_accepted arg fuel h full (omega arith) small
