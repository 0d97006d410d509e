-- ===== src/Value/Iterate.antt =====
-- The iterator of src/wirefmt/value.c on the wire format, and the getters of lists and pairs.
use dicey_rust.Prelude.{
  ℕ, ◌≤◌, ◌<◌, ◌≡◌, refl, List, [], ◌++◌, length, length-append, ok, ptrdiff_max, arith, lt→ltb,
  append-nil,
}
use dicey_rust.Types.{DiceyType}
use dicey_rust.View.{slice}
use dicey_rust.Arg.{Arg, arg_type}
use dicey_rust.Arg.Encoding.{content_bytes, value_bytes, IsWritable}
use dicey_rust.ValueProbe.{variants, each}
use dicey_rust.ValueProbe.Reads.{info_of, value_probe-value_bytes, value_probe_as-content}
use dicey_rust.Value.{DiceyValue, Iterator, iterator_next, value_get_pair}

-- The value that is read back from the encoding of an argument.
abbrev pub value_of : Arg → DiceyValue
value_of arg = record { type = arg_type arg; info = info_of arg }

-- The iterator over a list with the elements' bytes still to read.
abbrev pub variants_in : List ℕ → Iterator
variants_in bs = record { item_type = variants; remaining = slice bs }

abbrev pub each_in : DiceyType → List ℕ → Iterator
each_in t bs = record { item_type = each t; remaining = slice bs }

pub iterator_next-variants :
    (arg : Arg) (rest : List ℕ)
    → IsWritable arg
    → length (value_bytes arg) ≤ ptrdiff_max
    → iterator_next (variants_in (value_bytes arg ++ rest)) ≡ ok (value_of arg, variants_in rest)
unfolding iterator_next
iterator_next-variants arg rest h fits = rw (
  lt→ltb 0 (length (value_bytes arg ++ rest)) (omega arith),
  value_probe-value_bytes arg rest h fits,
)

pub iterator_next-each :
    (arg : Arg) (rest : List ℕ)
    → IsWritable arg
    → 0 < length (content_bytes arg)
    → iterator_next (each_in (arg_type arg) (content_bytes arg ++ rest))
      ≡ ok (value_of arg, each_in (arg_type arg) rest)
unfolding iterator_next
iterator_next-each arg rest h some_bytes = rw (
  lt→ltb 0 (length (content_bytes arg ++ rest))
      (omega (arith, length-append (content_bytes arg) rest)),
  value_probe_as-content arg rest h,
)

pub iterator_next_last :
    (arg : Arg)
    → IsWritable arg
    → length (value_bytes arg) ≤ ptrdiff_max
    → iterator_next (variants_in (value_bytes arg)) ≡ ok (value_of arg, variants_in [])
iterator_next_last arg h fits = rw append-nil at (iterator_next-variants arg [] h fits)

-- The getter of a pair returns the two values that the pair was written from.
pub value_get_pair-value_of :
    (first second : Arg)
    → IsWritable (Arg.pair first second)
    → value_get_pair (value_of (Arg.pair first second)) ≡ ok (value_of first, value_of second)
unfolding value_get_pair arg_type info_of IsWritable
value_get_pair-value_of first second (one, two, small) =
    rw
      (iterator_next-variants first (value_bytes second) one
        (omega (arith, length-append (value_bytes first) (value_bytes second))))
      (rw
        (iterator_next_last second two
          (omega (arith, length-append (value_bytes first) (value_bytes second))))
        refl)
