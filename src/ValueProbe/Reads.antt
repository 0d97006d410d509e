-- ===== src/ValueProbe/Reads.antt =====
-- The readers of src/wirefmt/dtf/value-probe.c on the wire format.
use dicey_rust.Prelude.{
  ℕ, ◌+◌, ◌≤◌, ◌<◌, ◌≡◌, refl, true, Option, none, some, List, [], ◌∷◌, ◌++◌, length, length-append,
  append_assoc, append-nil, ok, ptrdiff_max, arith, le_bytes, ltb, if◌then◌else◌, ◌∙◌,
}
use dicey_rust.Types.{DiceyType, type_code, type_is_valid, type_of_code-type_code}
use dicey_rust.View.{null, slice}
use dicey_rust.View.Reading.{view_read_front, view_take_front, view_as_zstring_front}
use dicey_rust.Arg.{Arg, arg_type, nitems}
use dicey_rust.Arg.Encoding.{
  zstring, text_of, content_bytes, exact_bytes, variant_bytes, value_bytes, IsWritable, IsCstring,
  IsOptional, IsPresent,
}
use dicey_rust.ValueProbe.{
  DataInfo, variants, each, raw, list, bytes, str, selector, error, array_probe, bytes_probe,
  raw_probe, error_probe, pair_probe, tuple_probe, str_probe, selector_probe, selector_from,
  value_probe_as, value_probe,
}

-- A string that has no characters reads as a missing message.
abbrev pub message_of : List ℕ → Option (List ℕ)
message_of [] = none
message_of (c ∷ s) = some (c ∷ s)

-- What a reader is meant to find in the content of an argument.
unfoldable pub info_of : Arg → DataInfo
info_of Arg.invalid = raw []
info_of Arg.unit = raw []
info_of (Arg.bool v) = raw (le_bytes 1 v)
info_of (Arg.byte v) = raw (le_bytes 1 v)
info_of (Arg.float v) = raw (le_bytes 8 v)
info_of (Arg.int16 v) = raw (le_bytes 2 v)
info_of (Arg.int32 v) = raw (le_bytes 4 v)
info_of (Arg.int64 v) = raw (le_bytes 8 v)
info_of (Arg.uint16 v) = raw (le_bytes 2 v)
info_of (Arg.uint32 v) = raw (le_bytes 4 v)
info_of (Arg.uint64 v) = raw (le_bytes 8 v)
info_of (Arg.array t elems) = list (each t) (nitems elems) (exact_bytes elems)
info_of (Arg.tuple elems) = list variants (nitems elems) (variant_bytes elems)
info_of (Arg.pair first second) = list variants 2 (value_bytes first ++ value_bytes second)
info_of (Arg.bytes (null n)) = bytes n []
info_of (Arg.bytes (slice bs)) = bytes (length bs) bs
info_of (Arg.str s) = str (text_of s)
info_of (Arg.uuid v) = raw v
info_of (Arg.path s) = str s
info_of (Arg.selector trait elem) = selector (text_of trait) (text_of elem)
info_of (Arg.error code message) = error code (message_of (text_of message))

str_reads :
    (s rest : List ℕ)
    → IsCstring s
    → str_probe (slice (zstring s ++ rest)) ≡ ok (length (zstring s), str s, slice rest)
unfolding str_probe
str_reads s rest h =
    rw (append_assoc s (0 ∷ []) rest, view_as_zstring_front s rest h.0 (omega (arith, h.1)))
      (ground (arith, length-append s (0 ∷ [])))

pub selector_reads :
    (trait elem rest : List ℕ)
    → IsCstring trait
    → IsCstring elem
    → selector_from (slice ((zstring trait ++ zstring elem) ++ rest))
      ≡ ok (length (zstring trait ++ zstring elem), (trait, elem), slice rest)
unfolding selector_from
selector_reads trait elem rest h k =
    rw
      (
        append_assoc (zstring trait) (zstring elem) rest,
        append_assoc trait (0 ∷ []) (zstring elem ++ rest),
        view_as_zstring_front trait (zstring elem ++ rest) h.0 (omega (arith, h.1)),
        append_assoc elem (0 ∷ []) rest,
        view_as_zstring_front elem rest k.0 (omega (arith, k.1)),
      )
      (ground (
        arith,
        length-append (zstring trait) (zstring elem),
        length-append trait (0 ∷ []),
        length-append elem (0 ∷ []),
      ))

pub array_reads :
    (t : DiceyType) (n : ℕ) (c rest : List ℕ)
    → type_is_valid t ≡ true
    → n < 65536
    → length c < 4294967296
    → array_probe
        (slice ((le_bytes 4 (length c) ++ ((le_bytes 2 n ++ (type_code t ∷ [])) ++ c)) ++ rest))
      ≡ ok (length c + 7, list (each t) n c, slice rest)
unfolding array_probe
array_reads t n c rest valid hn hc =
    rw
      (view_read_front 7 (le_bytes 4 (length c) ++ (le_bytes 2 n ++ (type_code t ∷ []))) (c ++ rest)
        refl (omega arith))
      (ground (arith, type_of_code-type_code t, view_take_front (length c) c rest refl))

tuple_reads :
    (n : ℕ) (c rest : List ℕ)
    → n < 65536
    → length c < 4294967296
    → tuple_probe (slice ((le_bytes 4 (length c) ++ (le_bytes 2 n ++ c)) ++ rest))
      ≡ ok (length c + 6, list variants n c, slice rest)
unfolding tuple_probe
tuple_reads n c rest hn hc =
    rw (view_read_front 6 (le_bytes 4 (length c) ++ le_bytes 2 n) (c ++ rest) refl (omega arith))
      (ground (arith, view_take_front (length c) c rest refl))

pair_reads :
    (c rest : List ℕ)
    → length c < 4294967296
    → pair_probe (slice ((le_bytes 4 (length c) ++ c) ++ rest))
      ≡ ok (length c + 4, list variants 2 c, slice rest)
unfolding pair_probe
pair_reads c rest hc =
    rw (view_read_front 4 (le_bytes 4 (length c)) (c ++ rest) refl (omega arith))
      (ground (arith, view_take_front (length c) c rest refl))

bytes_reads :
    (c rest : List ℕ)
    → length c < 4294967296
    → bytes_probe (slice ((le_bytes 4 (length c) ++ c) ++ rest))
      ≡ ok (length c + 4, bytes (length c) c, slice rest)
unfolding bytes_probe
bytes_reads c rest hc =
    rw (view_read_front 4 (le_bytes 4 (length c)) (c ++ rest) refl (omega arith))
      (ground (arith, view_take_front (length c) c rest refl, length-append c rest))

message_of_text : (s : List ℕ) → (if ltb 1 (length s + 1) then some s else none) ≡ message_of s
message_of_text [] = refl
message_of_text (c ∷ s) = ground arith

error_reads :
    (code : ℕ) (s rest : List ℕ)
    → code < 65536
    → IsCstring s
    → error_probe (slice ((le_bytes 2 code ++ zstring s) ++ rest))
      ≡ ok (length (zstring s) + 2, error code (message_of s), slice rest)
unfolding error_probe
error_reads code s rest hc h =
    rw
      (
        view_read_front 2 (le_bytes 2 code) (zstring s ++ rest) refl (omega arith),
        append_assoc s (0 ∷ []) rest,
        view_as_zstring_front s rest h.0 (omega (arith, h.1)),
      )
      (rw (message_of_text s) (ground (arith, length-append s (0 ∷ []))))

text_of-IsCstring : (s : Option (List ℕ)) → IsOptional s → IsCstring (text_of s)
text_of-IsCstring none h = omega arith
text_of-IsCstring (some s) h = h

text_of_present : (s : Option (List ℕ)) → IsPresent s → IsCstring (text_of s)
text_of_present none h = absurd h
text_of_present (some s) h = h

selector_info_reads :
    (trait elem rest : List ℕ)
    → IsCstring trait
    → IsCstring elem
    → selector_probe (slice ((zstring trait ++ zstring elem) ++ rest))
      ≡ ok (length (zstring trait ++ zstring elem), selector trait elem, slice rest)
unfolding selector_probe
selector_info_reads trait elem rest h k = rw (selector_reads trait elem rest h k)

raw_reads :
    (n : ℕ) (bs rest : List ℕ)
    → length bs ≡ n
    → n < 100
    → raw_probe n (slice (bs ++ rest)) ≡ ok (length bs, raw bs, slice rest)
unfolding raw_probe
raw_reads n bs rest e small = rw (view_read_front n bs rest e (omega arith)) (ground arith)

-- The content of an argument, in front of any bytes, reads as the argument's data: exactly its own
-- bytes are consumed.
pub value_probe_as-content :
    (arg : Arg) (rest : List ℕ)
    → IsWritable arg
    → value_probe_as (arg_type arg) (slice (content_bytes arg ++ rest))
      ≡ ok (length (content_bytes arg), info_of arg, slice rest)
unfolding value_probe_as arg_type content_bytes info_of IsWritable
value_probe_as-content Arg.invalid rest h = absurd h
value_probe_as-content Arg.unit rest h = raw_reads 0 [] rest refl (omega arith)
value_probe_as-content (Arg.bool v) rest h = raw_reads 1 (le_bytes 1 v) rest refl (omega arith)
value_probe_as-content (Arg.byte v) rest h = raw_reads 1 (le_bytes 1 v) rest refl (omega arith)
value_probe_as-content (Arg.float v) rest h = raw_reads 8 (le_bytes 8 v) rest refl (omega arith)
value_probe_as-content (Arg.int16 v) rest h = raw_reads 2 (le_bytes 2 v) rest refl (omega arith)
value_probe_as-content (Arg.int32 v) rest h = raw_reads 4 (le_bytes 4 v) rest refl (omega arith)
value_probe_as-content (Arg.int64 v) rest h = raw_reads 8 (le_bytes 8 v) rest refl (omega arith)
value_probe_as-content (Arg.uint16 v) rest h = raw_reads 2 (le_bytes 2 v) rest refl (omega arith)
value_probe_as-content (Arg.uint32 v) rest h = raw_reads 4 (le_bytes 4 v) rest refl (omega arith)
value_probe_as-content (Arg.uint64 v) rest h = raw_reads 8 (le_bytes 8 v) rest refl (omega arith)
value_probe_as-content (Arg.uuid v) rest h = raw_reads 16 v rest h (omega arith)
value_probe_as-content (Arg.array t elems) rest h =
    array_reads t (nitems elems) (exact_bytes elems) rest h.0 h.3.0 h.3.1 ∙ ground arith
value_probe_as-content (Arg.tuple elems) rest h =
    tuple_reads (nitems elems) (variant_bytes elems) rest h.1.0 h.1.1 ∙ ground arith
value_probe_as-content (Arg.pair first second) rest h =
    pair_reads (value_bytes first ++ value_bytes second) rest h.2 ∙ ground arith
value_probe_as-content (Arg.bytes (null n)) rest h = absurd h
value_probe_as-content (Arg.bytes (slice bs)) rest h = bytes_reads bs rest h ∙ ground arith
value_probe_as-content (Arg.str s) rest h = str_reads (text_of s) rest (text_of-IsCstring s h)
value_probe_as-content (Arg.path s) rest h = str_reads s rest h
value_probe_as-content (Arg.selector trait elem) rest h =
    selector_info_reads (text_of trait) (text_of elem) rest (text_of_present trait h.0)
      (text_of_present elem h.1)
value_probe_as-content (Arg.error code message) rest h =
    error_reads code (text_of message) rest h.0 (text_of-IsCstring message h.1) ∙ ground arith

arg_type_valid : (arg : Arg) → IsWritable arg → type_is_valid (arg_type arg) ≡ true
unfolding type_is_valid arg_type IsWritable
arg_type_valid Arg.invalid h = absurd h
arg_type_valid _ h = refl

-- A value on the wire, in front of any bytes, reads as its type and its data. An error without a
-- message is read from its code and an empty string, three bytes, where docs/source/dtf has two.
pub value_probe-value_bytes :
    (arg : Arg) (rest : List ℕ)
    → IsWritable arg
    → length (value_bytes arg) ≤ ptrdiff_max
    → value_probe (slice (value_bytes arg ++ rest))
      ≡ ok (length (value_bytes arg), (arg_type arg, info_of arg), slice rest)
unfolding value_probe
value_probe-value_bytes arg rest h fits =
    rw
      (view_read_front 1 (type_code (arg_type arg) ∷ []) (content_bytes arg ++ rest) refl
        (omega arith))
      (ground (
        arith,
        type_of_code-type_code (arg_type arg),
        arg_type_valid arg h,
        value_probe_as-content arg rest h,
      ))

pub value_probe_last :
    (arg : Arg)
    → IsWritable arg
    → length (value_bytes arg) ≤ ptrdiff_max
    → value_probe (slice (value_bytes arg))
      ≡ ok (length (value_bytes arg), (arg_type arg, info_of arg), slice [])
value_probe_last arg h fits = rw append-nil at (value_probe-value_bytes arg [] h fits)
