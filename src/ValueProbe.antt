-- ===== src/ValueProbe.antt =====
-- Reading values (src/wirefmt/dtf/value-probe.c, `dtf_selector_from` of value-write.c, and the
-- structs of src/wirefmt/dtf/to.h that are read from the wire).
pub mod Reads
pub mod Arrays
use dicey_rust.Prelude.{
  ℕ, ◌+◌, Bool, true, false, not, Option, none, some, List, [], ◌∷◌, ◌++◌, length, take, drop, ltb,
  ◌==◌, if◌then◌else◌, Result, ok, err, ◌>>=◌, einval, ebadmsg, eoverflow, checked_add, ptrdiff_max,
  le_value,
}
use dicey_rust.Types.{DiceyType, type_of_code, type_is_valid, type_size, variant_id}
use dicey_rust.View.{
  View, null, slice, view_len, view_advance, view_as_zstring, view_read, view_take,
}

-- `inner_type` of a list: DICEY_VARIANT_ID, or the type of each element.
pub data ItemType : Type 0 where
  variants : ItemType
  each : DiceyType → ItemType

-- `union _dicey_data_info` with the member that the type selects. A pointer into the packet is the
-- bytes that it may be read for; a fixed-size value is its bytes.
pub data DataInfo : Type 0 where
  raw : List ℕ → DataInfo
  list : ItemType → ℕ → List ℕ → DataInfo
  bytes : ℕ → List ℕ → DataInfo
  str : List ℕ → DataInfo
  selector : List ℕ → List ℕ → DataInfo
  error : ℕ → Option (List ℕ) → DataInfo

-- What a probe returns: the bytes read, what was found, and the view behind it.
abbrev pub Probed : Type 0
Probed = Result (ℕ × DataInfo × View)

-- A field of a packed struct, by its offset and width.
abbrev pub field_at : ℕ → ℕ → List ℕ → ℕ
field_at off width bs = le_value (take width (drop off bs))

-- `list_probe`
unfoldable pub list_probe : View → ℕ → Result (ℕ × List ℕ × View)
list_probe src nbytes = view_take src nbytes

-- `array_header_read`: `struct dtf_array_header` has seven bytes
unfoldable pub array_header_read : View → Result (ℕ × List ℕ × View)
array_header_read src = do
  (read_bytes, header, rest) ← view_read src 7
  if not (type_is_valid (type_of_code (field_at 6 1 header)))
      then err ebadmsg
      else ok (read_bytes, header, rest)

-- `array_probe`
unfoldable pub array_probe : View → Probed
unfolding array_header_read list_probe
array_probe src = do
  (header_res, header, rest) ← array_header_read src
  (content_res, elems, rest') ← list_probe rest (field_at 0 4 header)
  read_bytes ← checked_add ptrdiff_max header_res content_res
  ok (
    read_bytes,
    list (each (type_of_code (field_at 6 1 header))) (field_at 4 2 header) elems,
    rest',
  )

-- `bytes_probe`
unfoldable pub bytes_probe : View → Probed
unfolding view_len
bytes_probe src = do
  (header_res, header, rest) ← view_read src 4
  if ltb (view_len rest) (field_at 0 4 header) then err ebadmsg else do
    (content_res, data_bytes, rest') ← view_take rest (field_at 0 4 header)
    read_bytes ← checked_add ptrdiff_max header_res content_res
    ok (read_bytes, bytes (field_at 0 4 header) data_bytes, rest')

-- `error_probe`
unfoldable pub error_probe : View → Probed
error_probe src = do
  (header_res, header, rest) ← view_read src 2
  (content_res, msg, rest') ← view_as_zstring rest
  read_bytes ← checked_add ptrdiff_max header_res content_res
  ok (read_bytes, error (field_at 0 2 header) (if ltb 1 content_res then some msg else none), rest')

-- `pair_probe`
unfoldable pub pair_probe : View → Probed
unfolding list_probe
pair_probe src = do
  (header_res, header, rest) ← view_read src 4
  (content_res, elems, rest') ← list_probe rest (field_at 0 4 header)
  read_bytes ← checked_add ptrdiff_max header_res content_res
  ok (read_bytes, list variants 2 elems, rest')

-- `tuple_probe`
unfoldable pub tuple_probe : View → Probed
unfolding list_probe
tuple_probe src = do
  (header_res, header, rest) ← view_read src 6
  (content_res, elems, rest') ← list_probe rest (field_at 0 4 header)
  read_bytes ← checked_add ptrdiff_max header_res content_res
  ok (read_bytes, list variants (field_at 4 2 header) elems, rest')

-- `dtf_selector_from`
unfoldable pub selector_from : View → Result (ℕ × (List ℕ × List ℕ) × View)
selector_from src = do
  (trait_len, trait, rest) ← view_as_zstring src
  (elem_len, elem, rest') ← view_as_zstring rest
  read_bytes ← checked_add ptrdiff_max trait_len elem_len
  ok (read_bytes, (trait, elem), rest')

-- `dicey_view_as_zstring` into the `str` member
unfoldable pub str_probe : View → Probed
str_probe src = do (n, s, rest) ← view_as_zstring src; ok (n, str s, rest)

unfoldable pub selector_probe : View → Probed
unfolding selector_from
selector_probe src = do (n, sel, rest) ← selector_from src; ok (n, selector (sel.0) (sel.1), rest)

-- `value_probe_dynamic`, with `value_probe_container` in its first three cases
unfoldable pub value_probe_dynamic : DiceyType → View → Probed
unfolding array_probe tuple_probe pair_probe bytes_probe str_probe selector_probe error_probe
value_probe_dynamic DiceyType.array src = array_probe src
value_probe_dynamic DiceyType.tuple src = tuple_probe src
value_probe_dynamic DiceyType.pair src = pair_probe src
value_probe_dynamic DiceyType.bytes src = bytes_probe src
value_probe_dynamic DiceyType.str src = str_probe src
value_probe_dynamic DiceyType.path src = str_probe src
value_probe_dynamic DiceyType.selector src = selector_probe src
value_probe_dynamic DiceyType.error src = error_probe src
value_probe_dynamic _ src = err einval

-- `dicey_view_read_ptr` into the union, of a value of a fixed size
unfoldable pub raw_probe : ℕ → View → Probed
raw_probe size src = do (n, value, rest) ← view_read src size; ok (n, raw value, rest)

unfoldable pub probe_sized : Option ℕ → DiceyType → View → Probed
probe_sized none t src = value_probe_dynamic t src
probe_sized (some size) t src = raw_probe size src

-- `dtf_value_probe_as`
unfoldable pub value_probe_as : DiceyType → View → Probed
unfolding probe_sized raw_probe value_probe_dynamic type_size type_is_valid
value_probe_as t src = if not (type_is_valid t) then err einval else probe_sized (type_size t) t src

-- `value_header_read`
unfoldable pub value_header_read : View → Result (ℕ × DiceyType × View)
value_header_read src = do
  (n, header, rest) ← view_read src 1
  if not (type_is_valid (type_of_code (field_at 0 1 header)))
      then err ebadmsg
      else ok (n, type_of_code (field_at 0 1 header), rest)

-- `dtf_value_probe`
unfoldable pub value_probe : View → Result (ℕ × (DiceyType × DataInfo) × View)
unfolding value_header_read
value_probe src = do
  (header_res, t, rest) ← value_header_read src
  (content_res, info, rest') ← value_probe_as t rest
  read_bytes ← checked_add ptrdiff_max header_res content_res
  ok (read_bytes, (t, info), rest')
