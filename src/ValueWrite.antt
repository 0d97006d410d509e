-- ===== src/ValueWrite.antt =====
-- Writing values (src/wirefmt/dtf/value-write.c).
--
-- The loop over the elements and the write of one element call each other; the functions between
-- them, for lists of elements, take the loop as a function.
pub mod Encodes
pub mod Parts
pub mod Results
use dicey_rust.Prelude.{
  ℕ, ◌+◌, ◌%◌, Bool, true, false, Option, none, some, List, [], ◌∷◌, ◌++◌, length, ltb,
  if◌then◌else◌, Result, ok, err, ◌>>=◌, Error, einval, eoverflow, checked_add, ptrdiff_max,
  uint32_max, le_bytes, not, ◌==◌,
}
use dicey_rust.Types.{DiceyType, type_code, type_is_valid}
use dicey_rust.View.{View, null, slice, view_len}
use dicey_rust.ViewMut.{ViewMut, Calloc, view_mut_ensure_cap}
use dicey_rust.Writer.{
  BytesWriter, Written, invalid_writer, buffer, sizer, writer_is_valid, writer_write,
  writer_write_selector, writer_write_zstring,
}
use dicey_rust.Arg.{Arg, Args, nil, cons, arg_type, nitems}

-- `enum item_policy`
pub data Policy : Type 0 where
  exact variant : Policy

-- `blob_write`, of the bytes of a value.
unfoldable pub blob_write : BytesWriter → List ℕ → View → Written
blob_write w mem value = writer_write w mem value

-- `len_write`: the test comes after the cast to 32 bits.
unfoldable pub len_write : BytesWriter → List ℕ → ℕ → Written
unfolding blob_write
len_write w mem slen =
    if ltb uint32_max (slen % 4294967296)
    then err eoverflow
    else blob_write w mem (slice (le_bytes 4 (slen % 4294967296)))

-- `list_write`. The snapshot is the writer itself, from before the header.
unfoldable pub list_write : BytesWriter → List ℕ → View → (BytesWriter → List ℕ → Written) → Written
unfolding len_write
list_write w mem header items = do
  (header_nbytes, w1, mem1) ← writer_write w mem header
  (content_nbytes, w2, mem2) ← items w1 mem1
  (nbytes_write_res, clone, mem3) ← len_write w mem2 content_nbytes
  written ← checked_add ptrdiff_max header_nbytes content_nbytes
  ok (written, w2, mem3)

-- `array_write`, with the header's `nbytes` still 0
unfoldable pub array_write :
    BytesWriter → List ℕ → DiceyType → ℕ → (BytesWriter → List ℕ → Written) → Written
unfolding list_write
array_write w mem t n items =
    if not (type_is_valid t)
    then err einval
    else list_write w mem (slice (le_bytes 4 0 ++ (le_bytes 2 n ++ (type_code t ∷ [])))) items

-- `tuple_write`
unfoldable pub tuple_write : BytesWriter → List ℕ → ℕ → (BytesWriter → List ℕ → Written) → Written
unfolding list_write
tuple_write w mem n items = list_write w mem (slice (le_bytes 4 0 ++ le_bytes 2 n)) items

-- `pair_write`
unfoldable pub pair_write : BytesWriter → List ℕ → (BytesWriter → List ℕ → Written) → Written
unfolding list_write
pair_write w mem items = list_write w mem (slice (le_bytes 4 0)) items

-- `bytes_write`
unfoldable pub bytes_write : BytesWriter → List ℕ → View → Written
unfolding blob_write view_len
bytes_write w mem value = do
  (header_nbytes, w1, mem1) ← blob_write w mem (slice (le_bytes 4 (view_len value)))
  (content_nbytes, w2, mem2) ← blob_write w1 mem1 value
  written ← checked_add ptrdiff_max header_nbytes content_nbytes
  ok (written, w2, mem2)

-- `str_write`
unfoldable pub str_write : BytesWriter → List ℕ → Option (List ℕ) → Written
str_write w mem none = writer_write_zstring w mem []
str_write w mem (some s) = writer_write_zstring w mem s

-- `error_write`
unfoldable pub error_write : BytesWriter → List ℕ → ℕ → Option (List ℕ) → Written
unfolding blob_write str_write
error_write w mem code message = do
  (header_nbytes, w1, mem1) ← blob_write w mem (slice (le_bytes 2 code))
  (content_nbytes, w2, mem2) ← str_write w1 mem1 message
  written ← checked_add ptrdiff_max header_nbytes content_nbytes
  ok (written, w2, mem2)

-- `value_header_write`, for the policy under which an item has one
unfoldable pub policy_header_write : BytesWriter → List ℕ → Policy → DiceyType → Written
unfolding blob_write
policy_header_write w mem exact t = ok (0, w, mem)
policy_header_write w mem variant t = blob_write w mem (slice (type_code t ∷ []))

-- What follows the write of an item's header, and one round of the loop over the items: both add
-- the bytes of the next part to those already written.
unfoldable pub after : ℕ → Written → Written
after written m = do
  (content, w, mem) ← m
  total ← checked_add ptrdiff_max written content
  ok (total, w, mem)

unfoldable mutual
  unfolding policy_header_write array_write tuple_write pair_write bytes_write str_write error_write
      blob_write after

  -- `item_write`: the header that the policy asks for, then the content.
  pub item_write : BytesWriter → List ℕ → Policy → Arg → Written
  item_write w mem policy Arg.invalid = err einval
  item_write w mem policy Arg.unit = do
    (n, w1, mem1) ← policy_header_write w mem policy DiceyType.unit
    after n (ok (0, w1, mem1))
  item_write w mem policy (Arg.bool v) = do
    (n, w1, mem1) ← policy_header_write w mem policy DiceyType.bool
    after n (blob_write w1 mem1 (slice (le_bytes 1 v)))
  item_write w mem policy (Arg.byte v) = do
    (n, w1, mem1) ← policy_header_write w mem policy DiceyType.byte
    after n (blob_write w1 mem1 (slice (le_bytes 1 v)))
  item_write w mem policy (Arg.float v) = do
    (n, w1, mem1) ← policy_header_write w mem policy DiceyType.float
    after n (blob_write w1 mem1 (slice (le_bytes 8 v)))
  item_write w mem policy (Arg.int16 v) = do
    (n, w1, mem1) ← policy_header_write w mem policy DiceyType.int16
    after n (blob_write w1 mem1 (slice (le_bytes 2 v)))
  item_write w mem policy (Arg.int32 v) = do
    (n, w1, mem1) ← policy_header_write w mem policy DiceyType.int32
    after n (blob_write w1 mem1 (slice (le_bytes 4 v)))
  item_write w mem policy (Arg.int64 v) = do
    (n, w1, mem1) ← policy_header_write w mem policy DiceyType.int64
    after n (blob_write w1 mem1 (slice (le_bytes 8 v)))
  item_write w mem policy (Arg.uint16 v) = do
    (n, w1, mem1) ← policy_header_write w mem policy DiceyType.uint16
    after n (blob_write w1 mem1 (slice (le_bytes 2 v)))
  item_write w mem policy (Arg.uint32 v) = do
    (n, w1, mem1) ← policy_header_write w mem policy DiceyType.uint32
    after n (blob_write w1 mem1 (slice (le_bytes 4 v)))
  item_write w mem policy (Arg.uint64 v) = do
    (n, w1, mem1) ← policy_header_write w mem policy DiceyType.uint64
    after n (blob_write w1 mem1 (slice (le_bytes 8 v)))
  item_write w mem policy (Arg.array t elems) = do
    (n, w1, mem1) ← policy_header_write w mem policy DiceyType.array
    after n (array_write w1 mem1 t (nitems elems) (λ w2 mem2. items_write w2 mem2 0 exact elems))
  item_write w mem policy (Arg.tuple elems) = do
    (n, w1, mem1) ← policy_header_write w mem policy DiceyType.tuple
    after n (tuple_write w1 mem1 (nitems elems) (λ w2 mem2. items_write w2 mem2 0 variant elems))
  item_write w mem policy (Arg.pair first second) = do
    (n, w1, mem1) ← policy_header_write w mem policy DiceyType.pair
    after n (
        pair_write w1 mem1 λ w2 mem2. do
          (n1, w3, mem3) ← after 0 (item_write w2 mem2 variant first)
          after n1 (item_write w3 mem3 variant second))
  item_write w mem policy (Arg.bytes v) = do
    (n, w1, mem1) ← policy_header_write w mem policy DiceyType.bytes
    after n (bytes_write w1 mem1 v)
  item_write w mem policy (Arg.str s) = do
    (n, w1, mem1) ← policy_header_write w mem policy DiceyType.str
    after n (str_write w1 mem1 s)
  item_write w mem policy (Arg.uuid v) = do
    (n, w1, mem1) ← policy_header_write w mem policy DiceyType.uuid
    after n (blob_write w1 mem1 (slice v))
  item_write w mem policy (Arg.path s) = do
    (n, w1, mem1) ← policy_header_write w mem policy DiceyType.path
    after n (writer_write_zstring w1 mem1 s)
  item_write w mem policy (Arg.selector trait elem) = do
    (n, w1, mem1) ← policy_header_write w mem policy DiceyType.selector
    after n (writer_write_selector w1 mem1 trait elem)
  item_write w mem policy (Arg.error code message) = do
    (n, w1, mem1) ← policy_header_write w mem policy DiceyType.error
    after n (error_write w1 mem1 code message)

  -- `items_write`, from the bytes that the earlier rounds wrote
  pub items_write : BytesWriter → List ℕ → ℕ → Policy → Args → Written
  items_write w mem written policy nil = ok (written, w, mem)
  items_write w mem written policy (cons item items) = do
    (written', w', mem') ← after written (item_write w mem policy item)
    items_write w' mem' written' policy items

-- `dtf_bytes_writer_get_state(&writer).size`
unfoldable pub sizer_size : BytesWriter → ℕ
sizer_size (sizer size) = size
sizer_size _ = 0

-- `dtf_value_estimate_size`
unfoldable pub value_estimate_size : Arg → Result ℕ
unfolding sizer_size
value_estimate_size item = do
  (written, w, mem) ← item_write (sizer 0) [] variant item
  ok (sizer_size w)

-- `struct dtf_valueres`: the result is 0, or the size of an allocation. `freed` tells whether the
-- function has passed the memory of `dest` to `free`.
pub record ValueRes : Type 0 where
  pub result : Result ℕ
  pub size : ℕ
  pub freed : Bool
  pub mem : List ℕ

-- The end of `dtf_value_write`, from what the writer returned.
unfoldable pub value_write_end : ℕ → ℕ → List ℕ → Written → ValueRes
value_write_end size alloc_res mem (err e) = record {
  result = err e;
  size = size;
  freed = alloc_res == 0;
  mem = mem;
}
value_write_end size alloc_res mem (ok (written, w, mem')) = record {
  result = ok alloc_res;
  size = size;
  freed = false;
  mem = mem';
}

unfoldable pub value_write_into : ℕ → Arg → List ℕ → Result (ℕ × ViewMut × List ℕ) → ValueRes
unfolding value_write_end
value_write_into size item mem (err e) = record {
  result = err e;
  size = size;
  freed = false;
  mem = mem;
}
value_write_into size item mem (ok (alloc_res, dest, mem')) =
    value_write_end size alloc_res mem' (item_write (buffer dest) mem' variant item)

unfoldable pub value_write_sized : Calloc → ViewMut → List ℕ → Arg → Result ℕ → ValueRes
unfolding value_write_into view_mut_ensure_cap
value_write_sized calloc dest mem item (err e) = record {
  result = err e;
  size = 0;
  freed = false;
  mem = mem;
}
value_write_sized calloc dest mem item (ok size) =
    value_write_into size item mem (view_mut_ensure_cap calloc dest mem size)

-- `dtf_value_write`
unfoldable pub value_write : Calloc → ViewMut → List ℕ → Arg → ValueRes
unfolding value_write_sized
value_write calloc dest mem item = value_write_sized calloc dest mem item (value_estimate_size item)
