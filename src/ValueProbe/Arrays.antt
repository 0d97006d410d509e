-- ===== src/ValueProbe/Arrays.antt =====
-- `dtf_value_probe` of src/wirefmt/dtf/value-probe.c on arrays with any data.
use dicey_rust.Prelude.{
  ℕ, ◌+◌, ◌<◌, ◌≡◌, refl, true, List, [], ◌∷◌, ◌++◌, length, append-nil, ok, arith, le_bytes,
}
use dicey_rust.Types.{DiceyType, type_code, type_is_valid, type_of_code-type_code}
use dicey_rust.View.{slice}
use dicey_rust.View.Reading.{view_read_front}
use dicey_rust.ValueProbe.{each, list, value_probe_as, value_probe}
use dicey_rust.ValueProbe.Reads.{array_reads}

array_is_valid : type_is_valid DiceyType.array ≡ true
unfolding type_is_valid
array_is_valid = refl

probe_as_array :
    (t : DiceyType) (n : ℕ) (c : List ℕ)
    → type_is_valid t ≡ true
    → n < 65536
    → length c < 4294967296
    → value_probe_as DiceyType.array
        (slice (le_bytes 4 (length c) ++ ((le_bytes 2 n ++ (type_code t ∷ [])) ++ c)))
      ≡ ok (length c + 7, list (each t) n c, slice [])
unfolding value_probe_as
probe_as_array t n c valid hn hc = rw append-nil at (array_reads t n c [] valid hn hc)

-- Any array whose header states the size of its data is read, whatever the data are.
pub value_probe_array :
    (t : DiceyType) (n : ℕ) (c : List ℕ)
    → type_is_valid t ≡ true
    → n < 65536
    → length c < 4294967296
    → value_probe (
        slice (
          type_code DiceyType.array
          ∷ (le_bytes 4 (length c) ++ ((le_bytes 2 n ++ (type_code t ∷ [])) ++ c))))
      ≡ ok (length c + 8, (DiceyType.array, list (each t) n c), slice [])
unfolding value_probe
value_probe_array t n c valid hn hc =
    let content : List ℕ = le_bytes 4 (length c) ++ ((le_bytes 2 n ++ (type_code t ∷ [])) ++ c) in
    rw (view_read_front 1 (type_code DiceyType.array ∷ []) content refl (omega arith)) (
      ground (
        arith,
        type_of_code-type_code DiceyType.array,
        array_is_valid,
        probe_as_array t n c valid hn hc,
      ))
