-- ===== src/Value.antt =====
-- Values as they are read: the type and data, lists of elements and the iterator over them
-- (src/wirefmt/value.c).
pub mod Iterate
use dicey_rust.Prelude.{
  ℕ, Bool, ◌==◌, true, false, List, length, ltb, if◌then◌else◌, Result, ok, err, ◌>>=◌, Error, not,
  enodata, ebadmsg, evalue_type_mismatch, Option,
}
use dicey_rust.Types.{DiceyType, type_code}
use dicey_rust.View.{View, slice, view_len}
use dicey_rust.ValueProbe.{ItemType, variants, each, DataInfo, value_probe, value_probe_as}

-- `struct dicey_value`
pub record DiceyValue : Type 0 where
  pub type : DiceyType
  pub info : DataInfo

-- `struct dicey_list` and `struct dicey_iterator`: the type of the elements, and their bytes.
pub record Iterator : Type 0 where
  pub item_type : ItemType
  pub remaining : View

-- `dicey_iterator_has_next`
unfoldable pub iterator_has_next : Iterator → Bool
unfolding view_len
iterator_has_next iter = ltb 0 (view_len iter.remaining)

unfoldable pub probe_item : ItemType → View → Result (DiceyValue × Iterator)
probe_item variants src = do
  (n, (t, found), rest) ← value_probe src
  ok (record { type = t; info = found }, record { item_type = variants; remaining = rest })
probe_item (each t) src = do
  (n, found, rest) ← value_probe_as t src
  ok (record { type = t; info = found }, record { item_type = each t; remaining = rest })

-- `dicey_iterator_next`
unfoldable pub iterator_next : Iterator → Result (DiceyValue × Iterator)
unfolding iterator_has_next probe_item
iterator_next iter =
    if not (iterator_has_next iter) then err enodata else probe_item iter.item_type iter.remaining

-- The list member of the union.
list_of : DataInfo → Iterator
list_of (DataInfo.list t n bs) = record { item_type = t; remaining = slice bs }
list_of _ = record { item_type = variants; remaining = View.null 0 }

-- `dicey_value_get_list`, with `dicey_list_iter`
unfoldable pub value_get_list : DiceyType → DataInfo → Result Iterator
unfolding list_of
value_get_list DiceyType.array found = ok (list_of found)
value_get_list DiceyType.tuple found = ok (list_of found)
value_get_list _ found = err evalue_type_mismatch

-- `dicey_value_get_array`
unfoldable pub value_get_array : DiceyValue → Result Iterator
unfolding value_get_list
value_get_array v = elim v.type [
  | DiceyType.array ↦ value_get_list DiceyType.array v.info
  | _ ↦ err evalue_type_mismatch
]

-- `dicey_value_get_tuple`
unfoldable pub value_get_tuple : DiceyValue → Result Iterator
unfolding value_get_list
value_get_tuple v = elim v.type [
  | DiceyType.tuple ↦ value_get_list DiceyType.tuple v.info
  | _ ↦ err evalue_type_mismatch
]

-- `err ? EBADMSG : OK` in the loop of `dicey_value_get_pair`
unfoldable pub or_ebadmsg : Result (DiceyValue × Iterator) → Result (DiceyValue × Iterator)
or_ebadmsg (ok r) = ok r
or_ebadmsg (err e) = err ebadmsg

pair_of : DataInfo → Result (DiceyValue × DiceyValue)
unfolding or_ebadmsg iterator_next
pair_of (DataInfo.list t n bs) = do
  (first, iter) ← or_ebadmsg (iterator_next (record { item_type = variants; remaining = slice bs }))
  (second, iter') ← or_ebadmsg (iterator_next iter)
  ok (first, second)
pair_of _ = err ebadmsg

-- `dicey_value_get_pair`: two rounds of the iterator over the data as a list of variants
unfoldable pub value_get_pair : DiceyValue → Result (DiceyValue × DiceyValue)
unfolding pair_of
value_get_pair v = elim v.type [ DiceyType.pair ↦ pair_of v.info | _ ↦ err evalue_type_mismatch ]

-- DICEY_VALUE_GET_IMPL_TRIVIAL, which defines the getters of one member, and `dicey_value_get_bytes`
unfoldable pub value_get : DiceyType → DiceyValue → Result DataInfo
value_get t v =
    if not (type_code v.type == type_code t) then err evalue_type_mismatch else ok v.info
