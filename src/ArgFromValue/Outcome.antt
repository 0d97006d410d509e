-- ===== src/ArgFromValue/Outcome.antt =====
-- `dicey_arg_from_borrowed_value` of src/wirefmt/packet-args.c on the values that were written.
use dicey_rust.Prelude.{
  ℕ, subst, zero, suc, ◌≡◌, refl, ◌<◌, ap, sym, ◌∙◌, true, Option, some, List, [], ◌++◌, length,
  length-append, le_bytes, le_value, le_value-le_bytes_one, le_value-le_bytes_two,
  le_value-le_bytes_four, arith, Result, ok, err, einval, ltb, if◌then◌else◌, enodata, ◌>>=◌, inl,
  inr,
}
use dicey_rust.Types.{DiceyType, type_code}
use dicey_rust.View.{null, slice}
use dicey_rust.ViewMut.{Calloc}
use dicey_rust.Arg.{Arg, Args, nil, cons, arg_type, nitems}
use dicey_rust.Arg.Encoding.{
  content_bytes, exact_bytes, variant_bytes, value_bytes, IsWritable, AreWritable, AreOf, text_of,
}
use dicey_rust.ValueProbe.{DataInfo}
use dicey_rust.ValueProbe.Reads.{info_of, message_of}
use dicey_rust.Value.{
  DiceyValue, Iterator, iterator_has_next, iterator_next, value_get, value_get_list, value_get_pair,
}
use dicey_rust.Value.Iterate.{
  value_of, variants_in, each_in, iterator_next-variants, iterator_next-each,
  value_get_pair-value_of,
}
use dicey_rust.Validate.Accepts.{content_cases, units_content}
use dicey_rust.ArgFromValue.{
  number_of, truth, text_in, plain_from_value, list_arg_of, arg_from_value, value_list_to_arg,
  list_loop, value_pair_to_arg,
}

le_value-le_bytes_eight : (v : ℕ) → v < 18446744073709551616 → le_value (le_bytes 8 v) ≡ v
le_value-le_bytes_eight v h = omega arith

-- The two results of a pair; the error of the first comes first.
unfoldable pub both : Result Arg → Result Arg → Result Arg
both first second = do a ← first; b ← second; ok (Arg.pair a b)

-- What a receiver gets for an argument that was written: the code loses the elements of every list,
-- and refuses a list whose elements take no bytes.
unfoldable pub received : Arg → Result Arg
unfolding truth both
received Arg.invalid = err einval
received (Arg.bool v) = ok (Arg.bool (truth v))
received (Arg.array t elems) =
    if ltb 0 (length (exact_bytes elems)) then ok (Arg.array t nil) else err einval
received (Arg.tuple elems) =
    if ltb 0 (length (variant_bytes elems)) then ok (Arg.tuple nil) else err einval
received (Arg.pair first second) = both (received first) (received second)
received (Arg.str s) = ok (Arg.str (some (text_of s)))
received (Arg.selector trait elem) = ok (Arg.selector (some (text_of trait)) (some (text_of elem)))
received (Arg.error code message) = ok (Arg.error code (message_of (text_of message)))
received arg = ok arg

-- A loop whose iterator fails at once turns the zeroed value into an argument, and fails too.
loop_refuses :
    (fuel : ℕ) (calloc : Calloc) (t : DiceyType) (iter : Iterator)
    → calloc 8 ≡ true
    → iterator_next iter ≡ err enodata
    → value_list_to_arg (suc (suc (suc fuel))) calloc t iter ≡ some (err einval)
unfolding value_list_to_arg list_loop arg_from_value plain_from_value nitems
loop_refuses fuel calloc t iter room ended = rw (room, ended) refl

-- A loop whose iterator returns an element ends before it is copied.
loop_stops :
    (fuel : ℕ) (calloc : Calloc) (t : DiceyType) (iter next : Iterator) (v : DiceyValue)
    → calloc 8 ≡ true
    → iterator_next iter ≡ ok (v, next)
    → value_list_to_arg (suc (suc fuel)) calloc t iter
      ≡ some (ok (list_arg_of t iter.item_type nil))
unfolding value_list_to_arg list_loop
loop_stops fuel calloc t iter next v room found = rw (room, found) refl

no_more_each : (t : DiceyType) → iterator_next (each_in t []) ≡ err enodata
unfolding iterator_next iterator_has_next
no_more_each t = refl

no_more_variants : iterator_next (variants_in []) ≡ err enodata
unfolding iterator_next iterator_has_next
no_more_variants = refl

pair_copied :
    (fuel : ℕ) (calloc : Calloc) (v w : DiceyValue) (first second : Result Arg)
    → calloc 1 ≡ true
    → arg_from_value fuel calloc v ≡ some first
    → arg_from_value fuel calloc w ≡ some second
    → value_pair_to_arg (suc fuel) calloc v w ≡ some (both first second)
unfolding value_pair_to_arg both
pair_copied fuel calloc v w (ok a) (ok b) room one two = rw (room, one, two) refl
pair_copied fuel calloc v w (ok a) (err e) room one two = rw (room, one, two) refl
pair_copied fuel calloc v w (err e) second room one two = rw (room, one) refl

pair_found :
    (fuel : ℕ) (calloc : Calloc) (found : DataInfo) (a b : DiceyValue)
    → value_get_pair (record { type = DiceyType.pair; info = found }) ≡ ok (a, b)
    → arg_from_value (suc fuel) calloc (record { type = DiceyType.pair; info = found })
      ≡ value_pair_to_arg fuel calloc a b
unfolding arg_from_value
pair_found fuel calloc found a b e =
    ap
      (λ r. elim r as (λ x. Option (Result Arg)) [
        | err e ↦ some (err e)
        | ok p ↦ value_pair_to_arg fuel calloc (p.0) (p.1)
      ])
      e

next_each :
    (t : DiceyType) (arg : Arg) (rest : List ℕ)
    → IsWritable arg
    → arg_type arg ≡ t
    → 0 < length (content_bytes arg)
    → iterator_next (each_in t (content_bytes arg ++ rest)) ≡ ok (value_of arg, each_in t rest)
next_each t arg rest h same some_bytes =
    subst
      (λ u.
        iterator_next (each_in u (content_bytes arg ++ rest)) ≡ ok (value_of arg, each_in u rest))
      same (iterator_next-each arg rest h some_bytes)

array_copied :
    (fuel : ℕ) (calloc : Calloc) (t : DiceyType) (elems : Args)
    → calloc 8 ≡ true
    → IsWritable (Arg.array t elems)
    → value_list_to_arg
        (suc (suc (suc fuel)))
        calloc
        DiceyType.array
        (each_in t (exact_bytes elems))
      ≡ some (received (Arg.array t elems))
unfolding received IsWritable exact_bytes AreWritable AreOf list_arg_of
array_copied fuel calloc t nil room h =
    loop_refuses fuel calloc DiceyType.array (each_in t []) room (no_more_each t)
array_copied fuel calloc t (cons arg args) room (valid, same, ok_elems, fit) =
    elim (content_cases arg ok_elems.0) [
      | inl e ↦
          let none_left : exact_bytes (cons arg args) ≡ [] =
            units_content (cons arg args) ok_elems
              (subst (λ u. AreOf u (cons arg args)) (sym same.0 ∙ e) same) in
          rw none_left
            (loop_refuses fuel calloc DiceyType.array (each_in t []) room (no_more_each t))
      | inr some_bytes ↦
          loop_stops (suc fuel) calloc DiceyType.array
            (each_in t (content_bytes arg ++ exact_bytes args)) (each_in t (exact_bytes args))
            (value_of arg) room (next_each t arg (exact_bytes args) ok_elems.0 same.0 some_bytes)
          ∙ ground (arith, length-append (content_bytes arg) (exact_bytes args))
    ]

tuple_copied :
    (fuel : ℕ) (calloc : Calloc) (elems : Args)
    → calloc 8 ≡ true
    → IsWritable (Arg.tuple elems)
    → value_list_to_arg
        (suc (suc (suc fuel)))
        calloc
        DiceyType.tuple
        (variants_in (variant_bytes elems))
      ≡ some (received (Arg.tuple elems))
unfolding received IsWritable variant_bytes AreWritable list_arg_of
tuple_copied fuel calloc nil room h =
    loop_refuses fuel calloc DiceyType.tuple (variants_in []) room no_more_variants
tuple_copied fuel calloc (cons arg args) room (ok_elems, fit) =
    loop_stops (suc fuel) calloc DiceyType.tuple
      (variants_in (value_bytes arg ++ variant_bytes args)) (variants_in (variant_bytes args))
      (value_of arg) room
      (iterator_next-variants arg (variant_bytes args) ok_elems.0
        (omega (arith, length-append (value_bytes arg) (variant_bytes args))))
    ∙ ground arith

-- With memory to be had, the argument that is made from the data of an argument that can be written
-- is that argument, but for this: a `bool` is 0 or 1, a missing string is the empty one and an empty
-- message a missing one, every list has lost its elements, and a list whose elements take no bytes is
-- refused with EINVAL. More fuel than the content has bytes is enough.
pub arg_from_value-value_of :
    (fuel : ℕ) (calloc : Calloc)
    → (calloc 8 ≡ true)
    → (calloc 1 ≡ true)
    → (arg : Arg) → IsWritable arg
    → length (content_bytes arg) < fuel
    → arg_from_value fuel calloc (value_of arg) ≡ some (received arg)
unfolding arg_from_value plain_from_value value_get received IsWritable arg_type content_bytes
    info_of number_of truth text_in value_get_list type_code both
arg_from_value-value_of zero calloc room room1 arg h enough = absurd (omega arith)
arg_from_value-value_of (suc fuel) calloc room room1 Arg.invalid h enough = absurd h
arg_from_value-value_of (suc fuel) calloc room room1 Arg.unit h enough = refl
arg_from_value-value_of (suc fuel) calloc room room1 (Arg.bool v) h enough =
    rw (le_value-le_bytes_one v h)
arg_from_value-value_of (suc fuel) calloc room room1 (Arg.byte v) h enough =
    rw (le_value-le_bytes_one v h)
arg_from_value-value_of (suc fuel) calloc room room1 (Arg.float v) h enough =
    ap (λ n. some (ok (Arg.float n))) (le_value-le_bytes_eight v h)
arg_from_value-value_of (suc fuel) calloc room room1 (Arg.int16 v) h enough =
    rw (le_value-le_bytes_two v h)
arg_from_value-value_of (suc fuel) calloc room room1 (Arg.int32 v) h enough =
    rw (le_value-le_bytes_four v h)
arg_from_value-value_of (suc fuel) calloc room room1 (Arg.int64 v) h enough =
    ap (λ n. some (ok (Arg.int64 n))) (le_value-le_bytes_eight v h)
arg_from_value-value_of (suc fuel) calloc room room1 (Arg.uint16 v) h enough =
    rw (le_value-le_bytes_two v h)
arg_from_value-value_of (suc fuel) calloc room room1 (Arg.uint32 v) h enough =
    rw (le_value-le_bytes_four v h)
arg_from_value-value_of (suc fuel) calloc room room1 (Arg.uint64 v) h enough =
    ap (λ n. some (ok (Arg.uint64 n))) (le_value-le_bytes_eight v h)
arg_from_value-value_of (suc zero) calloc room room1 (Arg.array t elems) h enough =
    absurd (omega arith)
arg_from_value-value_of (suc (suc zero)) calloc room room1 (Arg.array t elems) h enough =
    absurd (omega arith)
arg_from_value-value_of (suc (suc (suc zero))) calloc room room1 (Arg.array t elems) h enough =
    absurd (omega arith)
arg_from_value-value_of (suc (suc (suc (suc fuel)))) calloc room room1 (Arg.array t elems) h
      enough =
    array_copied fuel calloc t elems room h
arg_from_value-value_of (suc zero) calloc room room1 (Arg.tuple elems) h enough =
    absurd (omega arith)
arg_from_value-value_of (suc (suc zero)) calloc room room1 (Arg.tuple elems) h enough =
    absurd (omega arith)
arg_from_value-value_of (suc (suc (suc zero))) calloc room room1 (Arg.tuple elems) h enough =
    absurd (omega arith)
arg_from_value-value_of (suc (suc (suc (suc fuel)))) calloc room room1 (Arg.tuple elems) h enough =
    tuple_copied fuel calloc elems room h
arg_from_value-value_of (suc zero) calloc room room1 (Arg.pair first second) h enough =
    absurd (omega arith)
arg_from_value-value_of (suc (suc fuel)) calloc room room1 (Arg.pair first second) h enough =
    pair_found (suc fuel) calloc (info_of (Arg.pair first second)) (value_of first)
      (value_of second) (value_get_pair-value_of first second h)
    ∙ (pair_copied fuel calloc (value_of first) (value_of second) (received first) (received second)
        room1
        (arg_from_value-value_of fuel calloc room room1 first h.0
          (omega (arith, length-append (value_bytes first) (value_bytes second))))
        (arg_from_value-value_of fuel calloc room room1 second h.1
          (omega (arith, length-append (value_bytes first) (value_bytes second)))))
arg_from_value-value_of (suc fuel) calloc room room1 (Arg.bytes (null n)) h enough = absurd h
arg_from_value-value_of (suc fuel) calloc room room1 (Arg.bytes (slice bs)) h enough = ground arith
arg_from_value-value_of (suc fuel) calloc room room1 (Arg.str s) h enough = refl
arg_from_value-value_of (suc fuel) calloc room room1 (Arg.uuid v) h enough = refl
arg_from_value-value_of (suc fuel) calloc room room1 (Arg.path s) h enough = refl
arg_from_value-value_of (suc fuel) calloc room room1 (Arg.selector trait elem) h enough = refl
arg_from_value-value_of (suc fuel) calloc room room1 (Arg.error code message) h enough = refl
